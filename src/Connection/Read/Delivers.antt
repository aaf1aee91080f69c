-- ===== src/Connection/Read/Delivers.antt =====
-- `Connection_read_data` with commands that wait: their replies arrive in pieces, several of them perhaps
-- in one, and are delivered in their order.
use mathlib.Core.Path.{subst}
use libredis.Base.{
  ℕ, suc, ◌+◌, ◌≡◌, sym, ap, ◌∙◌, Option, some, List, [], ◌∷◌, ◌++◌, Bytes, arith, length, take,
  append_nil, map,
}
use libredis.Buffer.{Buffer_data}
use libredis.Buffer.Grow.{IsWritable}
use libredis.Reply.{Reply, add_tail}
use libredis.Parser.{s0}
use libredis.Parser.Valid.{IsValid}
use libredis.Parser.Wire.{Value, Encodes, Describes}
use libredis.Connection.{Io, Answer, ConnectionState, read_answer, cs_connected}
use libredis.Connection.Read.{read_loop, read_in, Connection_read_data}
use libredis.Connection.Read.Steps.{joined, Arrive, with_answers, at_work, length-answers_of}
use libredis.Connection.Read.Stream.{stream_text, AllEncode, add_all, DescribesAll, DeliversAll}
use libredis.Connection.Read.Pipeline.{next-OnWay, loop-DeliversAll}

-- On a connected connection with a parser that is reset, an empty read buffer that is writable, and
-- as many commands that wait as the server sends values, if the bytes of encodings of the values, one
-- behind the other, arrive by calls of `read` in pieces of any sizes, cut anywhere (each of a byte or more
-- and within the room that `read` is given, while the buffer has 8 bytes to 2^33), then
-- `Connection_read_data` takes them all: it ends with no command waiting, the bytes in the read buffer,
-- and one reply for each value, in the order of the values, behind the replies that the queue had. The cursor of the batch, the events waited for, the bytes sent and the state stay.
pub read_data-DeliversAll :
    (ordinal : ℕ) (s : Io) (es : List (Value × Bytes)) (ds : List Bytes)
    → s.connection.state ≡ cs_connected
    → s.connection.parser.cs ≡ s0
    → s.connection.parser.p ≡ 0
    → s.connection.parser.multibulk_count ≡ 0
    → IsValid 0 s.connection.parser
    → IsWritable s.batch.read_buffer
    → s.batch.read_buffer.position ≡ 0
    → s.batch.num_commands ≡ length es
    → s.answers ≡ map read_answer ds
    → Arrive s.batch.read_buffer ds
    → AllEncode es
    → joined ds ≡ stream_text es
    → DeliversAll (stream_text es) es s (Connection_read_data ordinal s)
unfolding Connection_read_data
read_data-DeliversAll ordinal s es ds connected cs p c valid w empty num answers arrive encode
      whole =
    let q = s.connection.parser in
    let b = s.batch.read_buffer in
    let f = suc (length s.answers + s.batch.num_commands) in
    let n = ap length answers ∙ length-answers_of ds in
    let same : at_work s q b ds ≡ s = ap (λ (a : List Answer). with_answers a s) (sym answers) in
    let result = loop-DeliversAll f ordinal s [] es q b [] ds 0 (omega (arith, n, num)) num record {
      writable = w;
      arrived = ap (λ (k : ℕ). take k (Buffer_data b)) empty;
      position = empty;
      cut = whole;
      given = omega arith;
      looked = omega arith;
      valid = valid;
      encode = encode;
      on_way = next-OnWay [] es q encode cs p c valid;
      arrive = arrive;
    } in
    let opened : read_loop f ordinal (at_work s q b ds) ≡ Connection_read_data ordinal s =
      ap (read_loop f ordinal) same
      ∙ sym (ap (λ (st : ConnectionState). read_in st ordinal s) connected) in
    subst (λ o. DeliversAll (stream_text es) es s o) opened result

-- What the loop comes to: no command waits, and a reply that describes `v` is at the end of the queue.
abbrev pub Delivered : Value → Io → Option (Unit {0} × Io) → Type 0
Delivered v s o =
    (s' : Io) × (r : Reply) × (o ≡ some (tt, s'))
    × (s'.batch.num_commands ≡ 0)
    × (s'.batch.reply_queue ≡ add_tail s.batch.reply_queue r)
    × Describes (Buffer_data s'.batch.read_buffer) v r

one_Delivered :
    (v : Value) (e : Bytes) (s : Io) (o : Option (Unit {0} × Io))
    → DeliversAll (e ++ []) ((v, e) ∷ []) s o
    → Delivered v s o
one_Delivered v e s o d = by_replies d.replies d.queued d.describes
  where
    by_replies :
        (rs : List Reply)
        → d.final.batch.reply_queue ≡ add_all s.batch.reply_queue rs
        → DescribesAll (Buffer_data d.final.batch.read_buffer) ((v, e) ∷ []) rs
        → Delivered v s o
    by_replies [] queued describes = absurd describes
    by_replies (r ∷ []) queued describes = (d.final, r, d.returns, d.answered, queued, describes.0)
    by_replies (r ∷ r' ∷ rs) queued describes = absurd describes.1

-- On a connected connection with a parser that is reset, an empty read buffer that is writable, and one
-- command that waits for a reply, if the bytes of an encoding of a value `v` arrive by calls of
-- `read` in pieces of any sizes (each of a byte or more and within the room that `read` is given,
-- while the buffer has 8 bytes to 2^33), then `Connection_read_data` takes them all, and ends with
-- no command waiting and a reply at the end of the queue that describes `v` in the read buffer.
read_data-Delivered :
    (ordinal : ℕ) (s : Io) (v : Value) (ds : List Bytes)
    → s.connection.state ≡ cs_connected
    → s.connection.parser.cs ≡ s0
    → s.connection.parser.p ≡ 0
    → s.connection.parser.multibulk_count ≡ 0
    → IsValid 0 s.connection.parser
    → IsWritable s.batch.read_buffer
    → s.batch.read_buffer.position ≡ 0
    → s.batch.num_commands ≡ 1
    → s.answers ≡ map read_answer ds
    → Arrive s.batch.read_buffer ds
    → ((rest : Bytes) → Encodes v rest (joined ds ++ rest))
    → Delivered v s (Connection_read_data ordinal s)
read_data-Delivered ordinal s v ds connected cs p c valid w empty one answers arrive encodes =
    let es = (v, joined ds) ∷ [] in
    let encode : AllEncode es = (encodes, tt) in
    one_Delivered v (joined ds) s (Connection_read_data ordinal s) (
      read_data-DeliversAll ordinal s es ds connected cs p c valid w empty one answers arrive encode
        (sym (append_nil (joined ds))))
