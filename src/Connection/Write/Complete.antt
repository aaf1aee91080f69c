-- ===== src/Connection/Write/Complete.antt =====
-- `Connection_execute_start` on a connected connection whose socket takes the commands, in parts of any sizes.
use libredis.Base.{
  ℕ, zero, suc, ◌≤◌, ◌<◌, ◌≡◌, refl, sym, ap, ◌∙◌, true, Option, none, some, List, [], ◌∷◌, ◌++◌,
  Bytes, arith, length, take, set, get_elem?, append_assoc, append_nil, map, ltb-ge, lt→ltb,
}
use libredis.Base.Int.{increment}
use libredis.Buffer.{Buffer, Buffer_remaining, Buffer_send, Buffer_flip, offered}
use libredis.Buffer.Grow.{IsValid}
use libredis.Buffer.Write.{contents}
use libredis.Buffer.Socket.{transmitted, Accepts, transmitted-flip}
use libredis.Parser.{ReplyParser_reset}
use libredis.Connection.{
  Io, Answer, ConnectionState, PollFd, cs_connected, write_answer, notify, notify_read, M, ◌>>=◌,
  get_io, done,
}
use libredis.Connection.Read.{Connection_execute_start}
use libredis.Connection.Write.{write_loop, Connection_write_data}
use libredis.Connection.Write.Sends.{sent_part, with_answers, once-write}

-- Each call of `write` finds something to send and takes at most that; then nothing is left.
abbrev pub Drains : Buffer → List ℕ → Type 0
Drains b [] = Buffer_remaining b ≡ 0
Drains b (n ∷ ns) =
    (0 < Buffer_remaining b) × (n ≤ Buffer_remaining b) × Drains (Buffer_send b (some n)) ns

pub Drains-Accepts : (b : Buffer) (ns : List ℕ) → Drains b ns → Accepts b ns
Drains-Accepts b [] h = h
Drains-Accepts b (n ∷ ns) h = (h.1, Drains-Accepts (Buffer_send b (some n)) ns h.2)

abbrev pub drained : Buffer → List ℕ → Buffer
drained b [] = b
drained b (n ∷ ns) = drained (Buffer_send b (some n)) ns

abbrev pub written : List ℕ → List Answer → Io → Io
written ns later s = record s {
  batch = record s.batch { write_buffer = drained s.batch.write_buffer ns };
  sent = s.sent ++ transmitted s.batch.write_buffer ns;
  answers = later;
}

abbrev with_sent : Bytes → Io → Io
with_sent xs s = record s { sent = xs }

write_loop-written :
    (ns : List ℕ) (f ordinal : ℕ) (s : Io) (later : List Answer)
    → Drains s.batch.write_buffer ns
    → length ns < f
    → write_loop f ordinal (with_answers (map write_answer ns ++ later) s)
      ≡ some (tt, written ns later s)
unfolding write_loop sent_part
write_loop-written ns zero ordinal s later h lt = absurd (omega arith)
write_loop-written [] (suc f) ordinal s later h lt =
    rw (write_loop, ltb-ge 0 (Buffer_remaining s.batch.write_buffer) (omega (arith, h)))
      (ap (λ (xs : Bytes). some (tt, with_sent xs (with_answers later s)))
        (sym (append_nil s.sent)))
write_loop-written (n ∷ ns) (suc f) ordinal s later h lt =
    let step = once-write ordinal n (map write_answer ns ++ later) s h.1 in
    let rest = write_loop-written ns f ordinal (sent_part n s) later h.2 (omega (arith, lt)) in
    rw (write_loop, lt→ltb 0 (Buffer_remaining s.batch.write_buffer) h.0, step)
      (rest
        ∙ ap (λ (xs : Bytes). some (tt, with_sent xs (written (n ∷ ns) later s)))
            (append_assoc s.sent (take n (offered s.batch.write_buffer))
              (transmitted (Buffer_send s.batch.write_buffer (some n)) ns)))

length-write_answers :
    (ns : List ℕ) (later : List Answer) → length ns ≤ length (map write_answer ns ++ later)
length-write_answers [] later = omega arith
length-write_answers (n ∷ ns) later = omega (arith, length-write_answers ns later)

-- The connection at the end of `Connection_execute_start`: the parser is reset, the write buffer drained and
-- its bytes sent, and a read event waited for at the entry `fd`.
abbrev pub started : ℕ → List ℕ → List Answer → PollFd → Io → Io
started ordinal ns later fd s = record s {
  connection = record s.connection {
    has_batch = true;
    state = cs_connected;
    parser = ReplyParser_reset s.connection.parser;
  };
  batch = record s.batch { write_buffer = drained (Buffer_flip s.batch.write_buffer) ns };
  numevents = increment s.numevents;
  fds = set s.fds ordinal (record fd { fd = s.connection.sockfd; pollin = true });
  answers = later;
  sent = s.sent ++ contents s.batch.write_buffer;
}

-- What the function has done when it comes to `write`
abbrev prepared : Io → Io
prepared s = record s {
  connection = record s.connection {
    has_batch = true;
    state = cs_connected;
    parser = ReplyParser_reset s.connection.parser;
  };
  batch = record s.batch { write_buffer = Buffer_flip s.batch.write_buffer };
}

abbrev told : ConnectionState → List Answer → Io → Io
told st a s = record s { connection = record s.connection { state = st }; answers = a }

write_data-written :
    (ordinal : ℕ) (s : Io) (ns : List ℕ) (later : List Answer)
    → Drains (Buffer_flip s.batch.write_buffer) ns
    → Connection_write_data ordinal (with_answers (map write_answer ns ++ later) (prepared s))
      ≡ some (tt, written ns later (prepared s))
unfolding Connection_write_data
write_data-written ordinal s ns later drains =
    write_loop-written ns (suc (length (map write_answer ns ++ later))) ordinal (prepared s) later
      drains (omega (arith, length-write_answers ns later))

bind_run :
    {A B : Type 0} (m : M A) (k : A → M B) (s s' : Io) (a : A)
    → m s ≡ some (a, s')
    → (m >>= k) s ≡ k a s'
bind_run {A} {B} m k s s' a e =
    ap (λ (o : Option (A × Io)). elim o [ none ↦ none | some (x, t) ↦ k x t ]) e

abbrev read_if_connected : ℕ → M (Unit {0})
read_if_connected ordinal = do
  s ← get_io
  elim s.connection.state [ cs_connected ↦ notify_read ordinal | _ ↦ done ]

abbrev waits_read : ℕ → PollFd → Io → Io
waits_read ordinal fd s = record s {
  fds = set s.fds ordinal (record fd { fd = s.connection.sockfd; pollin = true });
  numevents = increment s.numevents;
}

notify_read-waits :
    (ordinal : ℕ) (s : Io) (fd : PollFd)
    → get_elem? s.fds ordinal ≡ some fd
    → notify_read ordinal s ≡ some (tt, waits_read ordinal fd s)
unfolding notify
notify_read-waits ordinal s fd entry = rw (notify, entry) refl

told_start :
    (ordinal : ℕ) (s : Io) (ns : List ℕ) (later : List Answer) (fd : PollFd)
    → IsValid s.batch.write_buffer
    → Drains (Buffer_flip s.batch.write_buffer) ns
    → get_elem? s.fds ordinal ≡ some fd
    → Connection_execute_start ordinal (told cs_connected (map write_answer ns ++ later) s)
      ≡ some (tt, started ordinal ns later fd s)
unfolding Connection_execute_start notify
told_start ordinal s ns later fd valid drains entry =
    bind_run (Connection_write_data ordinal) (λ _. read_if_connected ordinal)
      (with_answers (map write_answer ns ++ later) (prepared s)) (written ns later (prepared s)) tt
      (write_data-written ordinal s ns later drains)
    ∙ notify_read-waits ordinal (written ns later (prepared s)) fd entry
    ∙ ap (λ (xs : Bytes). some (tt, with_sent (s.sent ++ xs) (started ordinal ns later fd s)))
        (transmitted-flip s.batch.write_buffer ns valid
          (Drains-Accepts (Buffer_flip s.batch.write_buffer) ns drains))

-- On a connected connection with a valid write buffer, if each call of `write` takes a part of what is left
-- until nothing is, `Connection_execute_start` sends exactly what was written to the buffer, resets the
-- parser, leaves the other answers, and waits for a read event.
pub execute_start-started :
    (ordinal : ℕ) (s : Io) (ns : List ℕ) (later : List Answer) (fd : PollFd)
    → s.connection.state ≡ cs_connected
    → IsValid s.batch.write_buffer
    → Drains (Buffer_flip s.batch.write_buffer) ns
    → s.answers ≡ map write_answer ns ++ later
    → get_elem? s.fds ordinal ≡ some fd
    → Connection_execute_start ordinal s ≡ some (tt, started ordinal ns later fd s)
execute_start-started ordinal s ns later fd connected valid drains answers entry =
    let same : s ≡ told cs_connected (map write_answer ns ++ later) s =
      ap (λ (st : ConnectionState). told st s.answers s) connected
      ∙ ap (λ (a : List Answer). told cs_connected a s) answers in
    ap (Connection_execute_start ordinal) same ∙ told_start ordinal s ns later fd valid drains entry
