-- ===== src/Connection/Read/Stream.antt =====
-- What the server sends as a reply to several commands, and what `Connection_read_data` makes of it.
use libredis.Base.{◌≡◌, Option, some, List, [], ◌∷◌, ◌++◌, Bytes, length, take}
use libredis.Buffer.{Buffer_data}
use libredis.Reply.{Reply, Replies, add_tail}
use libredis.Parser.Wire.{Value, Encodes, Describes}
use libredis.Connection.{Io}

-- The values that the server sends, each with the bytes of its encoding
abbrev pub stream_text : List (Value × Bytes) → Bytes
stream_text [] = []
stream_text ((v, e) ∷ es) = e ++ stream_text es

abbrev pub AllEncode : List (Value × Bytes) → Type 0
AllEncode [] = Unit {0}
AllEncode ((v, e) ∷ es) = ((rest : Bytes) → Encodes v rest (e ++ rest)) × AllEncode es

abbrev pub add_all : Replies → List Reply → Replies
add_all q [] = q
add_all q (r ∷ rs) = add_all (add_tail q r) rs

-- One reply for each value, in the same order
abbrev pub DescribesAll : Bytes → List (Value × Bytes) → List Reply → Type 0
DescribesAll bytes [] [] = Unit {0}
DescribesAll bytes ((v, e) ∷ es) (r ∷ rs) = Describes bytes v r × DescribesAll bytes es rs
DescribesAll bytes _ _ = ⊥

-- What the loop comes to when the bytes `whole` are there: no command waits, and replies that
-- describe the values are at the end of the queue.
pub record DeliversAll (whole : Bytes) (es : List (Value × Bytes)) (before : Io)
    (o : Option (Unit {0} × Io)) : Type 0 where
  pub final : Io
  pub replies : List Reply
  pub returns : o ≡ some (tt, final)
  pub answered : final.batch.num_commands ≡ 0
  pub queued : final.batch.reply_queue ≡ add_all before.batch.reply_queue replies
  pub same_sp : final.batch.current_reply_sp ≡ before.batch.current_reply_sp
  pub same_cursor : final.batch.current_reply ≡ before.batch.current_reply
  pub same_error : final.batch.error ≡ before.batch.error
  pub same_events : final.numevents ≡ before.numevents
  pub same_fds : final.fds ≡ before.fds
  pub same_sent : final.sent ≡ before.sent
  pub same_state : final.connection.state ≡ before.connection.state
  pub all_there : take (length whole) (Buffer_data final.batch.read_buffer) ≡ whole
  pub describes : DescribesAll (Buffer_data final.batch.read_buffer) es replies
