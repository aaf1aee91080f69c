-- ===== src/Connection/Write/Sends.antt =====
-- The loop of `Connection_write_data` loses no byte and repeats none.
use libredis.Base.{
  ℕ, zero, suc, ◌≤◌, ◌<◌, ◌≡◌, ◌⊎◌, inl, inr, refl, ap, ◌∙◌, Bool, true, false, Option, none, some,
  List, [], ◌∷◌, ◌++◌, Bytes, set, arith, length, take, append_assoc, get_elem?, get_elem?-total,
  ltb, ltb-ge, lt→ltb, ltb→lt, ltb→ge, Bool-cases,
}
use libredis.Base.Int.{increment}
use libredis.Buffer.{Buffer, Buffer_remaining, Buffer_send, offered}
use libredis.Buffer.Grow.{IsValid}
use libredis.Buffer.Socket.{send-offered, send-IsValid}
use libredis.Connection.{
  getaddrinfo_answer, fcntl_answer, socket_answer, connect_ok, connect_in_progress, connect_failed,
  getsockopt_failed, getsockopt_answer, read_answer, Io, PollFd, Answer, write_answer, again,
  io_failed, next_answer, notify, notify_write,
}
use libredis.Connection.Abort.{HasBatch, connection_abort-same}
use libredis.Connection.Write.{write_once, write_loop, write_all, text}

-- What the system may answer to the calls of `write` for what remains of a buffer: it takes a part
-- each time, until nothing remains, or the socket is full, or there is an error.
abbrev pub Serves : Buffer → List Answer → Type 0
Serves b [] = Buffer_remaining b ≡ 0
Serves b (write_answer n ∷ later) =
    (Buffer_remaining b ≡ 0) ⊎ ((n ≤ Buffer_remaining b) × Serves (Buffer_send b (some n)) later)
Serves b (again ∷ later) = Unit {0}
Serves b (io_failed errno ∷ later) = Unit {0}
Serves b (_ ∷ later) = Buffer_remaining b ≡ 0

abbrev pub with_answers : List Answer → Io → Io
with_answers later s = record s { answers = later }

-- The bytes sent and those that are still to be sent
abbrev pub all_bytes : Io → Bytes
all_bytes s = s.sent ++ offered s.batch.write_buffer

abbrev Ends : ℕ → ℕ → Io → Type 0
Ends f ordinal s =
    (s' : Io) × (write_loop f ordinal s ≡ some (tt, s')) × (all_bytes s' ≡ all_bytes s)

none_left-Ends :
    (f ordinal : ℕ) (s : Io) → Buffer_remaining s.batch.write_buffer ≡ 0 → Ends (suc f) ordinal s
unfolding write_loop
none_left-Ends f ordinal s e =
    (s, rw (write_loop, ltb-ge 0 (Buffer_remaining s.batch.write_buffer) (omega arith)) refl, refl)

unfoldable pub sent_part : ℕ → Io → Io
sent_part n s = record s {
  batch = record s.batch { write_buffer = Buffer_send s.batch.write_buffer (some n) };
  sent = s.sent ++ take n (offered s.batch.write_buffer);
}

sent_part-all_bytes :
    (n : ℕ) (s : Io)
    → IsValid s.batch.write_buffer
    → n ≤ Buffer_remaining s.batch.write_buffer
    → all_bytes (sent_part n s) ≡ all_bytes s
unfolding sent_part
sent_part-all_bytes n s v h =
    append_assoc s.sent (take n (offered s.batch.write_buffer))
      (offered (Buffer_send s.batch.write_buffer (some n)))
    ∙ ap (λ (xs : Bytes). s.sent ++ xs) (send-offered s.batch.write_buffer n v h)

sent_part-IsValid :
    (n : ℕ) (s : Io)
    → IsValid s.batch.write_buffer
    → n ≤ Buffer_remaining s.batch.write_buffer
    → IsValid (sent_part n s).batch.write_buffer
unfolding sent_part
sent_part-IsValid n s v h = send-IsValid n v h

pub once-write :
    (ordinal n : ℕ) (later : List Answer) (s : Io)
    → n ≤ Buffer_remaining s.batch.write_buffer
    → write_once ordinal (with_answers (write_answer n ∷ later) s)
      ≡ some (true, with_answers later (sent_part n s))
unfolding write_once next_answer sent_part
once-write ordinal n later s h = ground arith

-- The last call of a round, which ends the loop
abbrev finish : Option (Unit {0} × Io) → Option (Bool × Io)
finish none = none
finish (some (u, s)) = some (false, s)

notified : ℕ → PollFd → Io → Io
notified ordinal e s = record s {
  fds = set s.fds ordinal (record e { pollout = true; fd = s.connection.sockfd });
  numevents = increment s.numevents;
}

notify_write-notified :
    (ordinal : ℕ) (e : PollFd) (s : Io)
    → get_elem? s.fds ordinal ≡ some e
    → notify_write ordinal s ≡ some (tt, notified ordinal e s)
unfolding notify notified
notify_write-notified ordinal e s there = rw (notify, there) refl

once-again :
    (ordinal : ℕ) (later : List Answer) (s : Io)
    → ordinal < length s.fds
    → (s' : Io) × (write_once ordinal (with_answers (again ∷ later) s) ≡ some (false, s'))
      × (all_bytes s' ≡ all_bytes s)
unfolding write_once next_answer notified
once-again ordinal later s h =
    let (e, there) = get_elem?-total s.fds ordinal h in
    (
      notified ordinal e (with_answers later s),
      ap finish (notify_write-notified ordinal e (with_answers later s) there),
      refl,
    )

once-failed :
    (ordinal : ℕ) (errno : Bytes) (later : List Answer) (s : Io)
    → HasBatch s.connection
    → (s' : Io) × (write_once ordinal (with_answers (io_failed errno ∷ later) s) ≡ some (false, s'))
      × (all_bytes s' ≡ all_bytes s)
unfolding write_once next_answer
once-failed ordinal errno later s w =
    let (s', e, buffer, sent) =
      connection_abort-same (text "write error, errno: " ++ errno) (with_answers later s) w in
    (
      s',
      ap finish e,
      ap (λ (xs : Bytes). xs ++ offered s'.batch.write_buffer) sent
          ∙ ap (λ (b : Buffer). s.sent ++ offered b) buffer,
    )

go_on :
    (f ordinal : ℕ) (s s1 : Io)
    → 0 < Buffer_remaining s.batch.write_buffer
    → write_once ordinal s ≡ some (true, s1)
    → write_loop (suc f) ordinal s ≡ write_loop f ordinal s1
unfolding write_loop
go_on f ordinal s s1 h e = rw (write_loop, lt→ltb _ _ h, e) refl

end_with :
    (f ordinal : ℕ) (s s1 : Io)
    → 0 < Buffer_remaining s.batch.write_buffer
    → write_once ordinal s ≡ some (false, s1)
    → write_loop (suc f) ordinal s ≡ some (tt, s1)
unfolding write_loop
end_with f ordinal s s1 h e = rw (write_loop, lt→ltb _ _ h, e) refl

once-Ends :
    (f ordinal : ℕ) (s s1 : Io)
    → write_once ordinal s ≡ some (false, s1)
    → all_bytes s1 ≡ all_bytes s
    → Ends (suc f) ordinal s
once-Ends f ordinal s s1 e same =
    elim (Bool-cases (ltb 0 (Buffer_remaining s.batch.write_buffer))) [
      | inr done ↦ none_left-Ends f ordinal s (let z = ltb→ge _ _ done in omega arith)
      | inl some_left ↦ (s1, end_with f ordinal s s1 (ltb→lt _ _ some_left) e, same)
    ]

write_loop-Ends :
    (f ordinal : ℕ) (answers : List Answer) (s : Io)
    → length answers < f
    → HasBatch s.connection
    → IsValid s.batch.write_buffer
    → ordinal < length s.fds
    → Serves s.batch.write_buffer answers
    → Ends f ordinal (with_answers answers s)
unfolding sent_part
write_loop-Ends zero ordinal answers s lt w v o h = absurd (omega arith)
write_loop-Ends (suc f) ordinal [] s lt w v o h = none_left-Ends f ordinal (with_answers [] s) h
write_loop-Ends (suc f) ordinal (write_answer n ∷ later) s lt w v o (inl h) =
    none_left-Ends f ordinal (with_answers (write_answer n ∷ later) s) h
write_loop-Ends (suc f) ordinal (write_answer n ∷ later) s lt w v o (inr (h, serves)) =
    elim (Bool-cases (ltb 0 (Buffer_remaining s.batch.write_buffer))) [
      | inr done ↦
          none_left-Ends f ordinal (with_answers (write_answer n ∷ later) s)
            (let e = ltb→ge _ _ done in omega arith)
      | inl some_left ↦
          let (s', e, same) =
            write_loop-Ends f ordinal later (sent_part n s) (omega arith) w
              (sent_part-IsValid n s v h) o serves in
          (
            s',
            go_on f ordinal _ _ (ltb→lt _ _ some_left) (once-write ordinal n later s h) ∙ e,
            same ∙ sent_part-all_bytes n s v h,
          )
    ]
write_loop-Ends (suc f) ordinal (again ∷ later) s lt w v o h =
    let (s1, e, same) = once-again ordinal later s o in
    once-Ends f ordinal (with_answers (again ∷ later) s) s1 e same
write_loop-Ends (suc f) ordinal (io_failed errno ∷ later) s lt w v o h =
    let (s1, e, same) = once-failed ordinal errno later s w in
    once-Ends f ordinal (with_answers (io_failed errno ∷ later) s) s1 e same
write_loop-Ends (suc f) ordinal (getaddrinfo_answer a ∷ later) s lt w v o h =
    none_left-Ends f ordinal (with_answers (getaddrinfo_answer a ∷ later) s) h
write_loop-Ends (suc f) ordinal (fcntl_answer a ∷ later) s lt w v o h =
    none_left-Ends f ordinal (with_answers (fcntl_answer a ∷ later) s) h
write_loop-Ends (suc f) ordinal (socket_answer a ∷ later) s lt w v o h =
    none_left-Ends f ordinal (with_answers (socket_answer a ∷ later) s) h
write_loop-Ends (suc f) ordinal (connect_ok ∷ later) s lt w v o h =
    none_left-Ends f ordinal (with_answers (connect_ok ∷ later) s) h
write_loop-Ends (suc f) ordinal (connect_in_progress ∷ later) s lt w v o h =
    none_left-Ends f ordinal (with_answers (connect_in_progress ∷ later) s) h
write_loop-Ends (suc f) ordinal (connect_failed a ∷ later) s lt w v o h =
    none_left-Ends f ordinal (with_answers (connect_failed a ∷ later) s) h
write_loop-Ends (suc f) ordinal (getsockopt_failed a ∷ later) s lt w v o h =
    none_left-Ends f ordinal (with_answers (getsockopt_failed a ∷ later) s) h
write_loop-Ends (suc f) ordinal (getsockopt_answer a b ∷ later) s lt w v o h =
    none_left-Ends f ordinal (with_answers (getsockopt_answer a b ∷ later) s) h
write_loop-Ends (suc f) ordinal (read_answer a ∷ later) s lt w v o h =
    none_left-Ends f ordinal (with_answers (read_answer a ∷ later) s) h

-- With the fuel of `write_all`, the loop ends for every series of answers that `write` may give (parts of
-- any size until nothing remains, a full socket, or an error), if the write buffer is valid, the
-- connection is aborted or has a current batch, and its ordinal has an entry: what was sent, followed by what the write buffer still offers, is
-- the same at the end as at the start.
pub write_all-all_bytes :
    (ordinal : ℕ) (s : Io)
    → HasBatch s.connection
    → IsValid s.batch.write_buffer
    → ordinal < length s.fds
    → Serves s.batch.write_buffer s.answers
    → (s' : Io) × (write_all ordinal s ≡ some (tt, s')) × (all_bytes s' ≡ all_bytes s)
write_all-all_bytes ordinal s w v o h =
    write_loop-Ends (suc (length s.answers)) ordinal s.answers s (omega arith) w v o h
