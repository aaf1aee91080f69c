-- ===== src/Connection/Read/Steps.antt =====
-- The steps of `Connection_read_data` at a connection that is given its bytes in pieces.
use libredis.Base.{
  ℕ, suc, ◌-◌, ◌^◌, ◌≤◌, ◌<◌, ◌≡◌, refl, ap, true, false, some, List, [], ◌∷◌, ◌++◌, Bytes, arith,
  length, map, leb-le, ltb-ge, lt→ltb,
}
use libredis.Buffer.{Buffer, Buffer_data, Buffer_recv}
use libredis.Buffer.Socket.{recv_room}
use libredis.Reply.{Reply, add_tail}
use libredis.Batch.{Batch, Batch_add_reply}
use libredis.Parser.{ReplyParser, ReplyParser_execute, rpr_more, rpr_reply}
use libredis.Connection.{Io, Answer, ConnectionState, cs_connected, read_answer, next_answer}
use libredis.Connection.Read.{
  handle_in, Connection_handle_event, Connection_read_data, read_more, on_result, read_once,
  read_loop,
}

abbrev pub joined : List Bytes → Bytes
joined [] = []
joined (d ∷ ds) = d ++ joined ds

-- Each `read` gives at least a byte, and at most as many as it has room for, in a buffer of usual size.
abbrev pub Arrive : Buffer → List Bytes → Type 0
Arrive b [] = Unit {0}
Arrive b (d ∷ ds) =
    (0 < length d)
    × (length d ≤ recv_room b)
    × (8 ≤ b.capacity)
    × (b.capacity ≤ 2 ^ 33)
    × ((b' : Buffer) → Buffer_recv b (some d) ≡ some b' → Arrive b' ds)

abbrev pub answers_of : List Bytes → List Answer
answers_of = map read_answer

abbrev pub with_answers : List Answer → Io → Io
with_answers a s = record s { answers = a }

-- The connection in the middle of the loop
abbrev pub at_work : Io → ReplyParser → Buffer → List Bytes → Io
at_work s q b ds = record s {
  connection = record s.connection { parser = q };
  batch = record s.batch { read_buffer = b };
  answers = answers_of ds;
}

pub once-read :
    (ordinal : ℕ) (s : Io) (q q' : ReplyParser) (b b' : Buffer) (d : Bytes) (ds : List Bytes)
    → 0 < length d
    → length d ≤ recv_room b
    → ReplyParser_execute q (Buffer_data b) b.position ≡ some (rpr_more, q')
    → Buffer_recv b (some d) ≡ some b'
    → read_once ordinal (at_work s q b (d ∷ ds)) ≡ some (true, at_work s q' b' ds)
unfolding read_once on_result read_more next_answer
once-read ordinal s q q' b b' [] ds h room e r = absurd (omega arith)
once-read ordinal s q q' b b' (c ∷ cs) ds h room e r =
    ground (arith, e, r, leb-le (length (c ∷ cs)) (recv_room b) room)

pub once-reply :
    (ordinal : ℕ) (s : Io) (q q' : ReplyParser) (b : Buffer) (ds : List Bytes) (r : Reply)
    → ReplyParser_execute q (Buffer_data b) b.position ≡ some (rpr_reply r, q')
    → read_once ordinal (at_work s q b ds)
      ≡ some
          (true, record (at_work s q' b ds) { batch = Batch_add_reply (at_work s q' b ds).batch r })
unfolding read_once on_result
once-reply ordinal s q q' b ds r e = rw (read_once, e) refl

pub go_on :
    (f ordinal : ℕ) (s s1 : Io)
    → 0 < s.batch.num_commands
    → read_once ordinal s ≡ some (true, s1)
    → read_loop (suc f) ordinal s ≡ read_loop f ordinal s1
unfolding read_loop
go_on f ordinal s s1 h e = rw (read_loop, lt→ltb 0 s.batch.num_commands h, e) refl

pub no_command :
    (f ordinal : ℕ) (s : Io) → s.batch.num_commands ≡ 0 → read_loop (suc f) ordinal s ≡ some (tt, s)
unfolding read_loop
no_command f ordinal s h = rw (read_loop, ltb-ge 0 s.batch.num_commands (omega arith)) refl

pub added :
    (b : Batch) (r : Reply)
    → ((Batch_add_reply b r).num_commands ≡ b.num_commands - 1)
      × ((Batch_add_reply b r).reply_queue ≡ add_tail b.reply_queue r)
      × ((Batch_add_reply b r).read_buffer ≡ b.read_buffer)
unfolding Batch_add_reply
added b r = (refl, refl, refl)

pub length-answers_of : (ds : List Bytes) → length (answers_of ds) ≡ length ds
length-answers_of [] = refl
length-answers_of (d ∷ ds) = ap suc (length-answers_of ds)

-- A read event on a connection that is connected
pub handle_event-read :
    (ordinal : ℕ) (s : Io)
    → s.connection.state ≡ cs_connected
    → Connection_handle_event
        (record { read = true; write = false; timeout = false; error = false })
        ordinal
        s
      ≡ Connection_read_data ordinal s
unfolding Connection_handle_event
handle_event-read ordinal s e =
    ap
      (λ (st : ConnectionState).
        handle_in st (record { read = true; write = false; timeout = false; error = false }) ordinal
          s)
      e
