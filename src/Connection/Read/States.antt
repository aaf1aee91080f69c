-- ===== src/Connection/Read/States.antt =====
-- The states that `Connection_read_data` and `Connection_handle_event` lead to.
use libredis.Base.{
  ℕ, zero, suc, ◌+◌, ◌≤◌, inr, ap, Bool, true, false, Option, none, some, [], ◌∷◌, ◌++◌, Bytes,
  arith, length, leb, if◌then◌else◌,
}
use libredis.Buffer.{Buffer, Buffer_recv, Buffer_data, Buffer_position}
use libredis.Buffer.Socket.{recv_room}
use libredis.Batch.{Batch_has_command}
use libredis.Parser.{
  ReplyParser, ReplyParser_execute, Result, rpr_error, rpr_more, rpr_reply, undefined,
}
use libredis.Connection.{
  Connection, ConnectionState, cs_closed, cs_connecting, cs_connected, cs_aborted, read_answer,
  again, io_failed, Io, M, ◌>>=◌, ◌>>◌, pure, done, get_io, lift, put_batch, next_answer,
  Connection_abort,
}
use libredis.Connection.States.{
  Fits, IsConsistent, rank, Good, After, >>=-After, After-weaken, Aborted, abort-Aborted,
}
use libredis.Connection.Write.{text, Connection_write_data}
use libredis.Connection.Write.Sends.{with_answers}
use libredis.Connection.Write.States.{
  Keeps, if_taken, abort-Good, notify-Good, written_rank, write_data-Good,
}
use libredis.Connection.Read.{
  read_more, on_result, read_once, read_loop, read_in, Connection_read_data, Event, timeout_text,
  handle_open, handle_in, Connection_handle_event,
}

-- What has been received goes into the batch, and the connection stays as it is.
received-Good :
    (r : ℕ) (d : Option Bytes) (m : M Bool) (s : Io)
    → Good r s
    → ((t : Io) → Good r t → After (λ _ u. Good r u) (m t))
    → After
        (λ _ u. Good r u)
        (((do
          b ← lift (Buffer_recv s.batch.read_buffer d)
          put_batch (record s.batch { read_buffer = b }))
            >> m)
          s)
received-Good r d m s h next = in_result (Buffer_recv s.batch.read_buffer d)
  where
    in_result :
        (o : Option Buffer)
        → After
            (λ _ u. Good r u)
            (((lift o >>= λ (b : Buffer). put_batch (record s.batch { read_buffer = b })) >> m) s)
    in_result none = tt
    in_result (some b) = next (record s { batch = record s.batch { read_buffer = b } }) h

read_more-Good : (r ordinal : ℕ) → r ≤ 3 → Keeps r (read_more ordinal)
unfolding read_more next_answer
read_more-Good r ordinal le (read_answer [] ∷ l) s h =
    received-Good r (some []) _ (with_answers l s) h
      (λ t h'. abort-Good r (text "read eof") false t le (inr h'.0))
read_more-Good r ordinal le (read_answer (c ∷ cs) ∷ l) s h =
    if_taken (λ _ t. Good r t) (leb (length (c ∷ cs)) (recv_room s.batch.read_buffer)) _
      (with_answers l s)
      (received-Good r (some (c ∷ cs)) (pure true) (with_answers l s) h (λ t h'. h'))
read_more-Good r ordinal le (again ∷ l) s h =
    received-Good r none _ (with_answers l s) h
      (λ t h'. notify-Good r (λ e. record e { pollin = true }) ordinal false t h')
read_more-Good r ordinal le (io_failed errno ∷ l) s h =
    received-Good r none _ (with_answers l s) h
      (λ t h'. abort-Good r (text "read error, errno: " ++ errno) false t le (inr h'.0))
read_more-Good r ordinal le _ s h = tt

on_result-Good :
    (r ordinal : ℕ) (x : Result) (s : Io)
    → r ≤ 3
    → Good r s
    → After (λ _ t. Good r t) (on_result ordinal x s)
unfolding on_result
on_result-Good r ordinal rpr_error s le h =
    abort-Good r (text "result parse error") false s le (inr h.0)
on_result-Good r ordinal rpr_more s le h = read_more-Good r ordinal le s.answers s h
on_result-Good r ordinal (rpr_reply y) s le h = h
on_result-Good r ordinal undefined s le h = tt

parser-Fits :
    (st : ConnectionState) (c : Connection) (q : ReplyParser)
    → Fits st c
    → Fits st (record c { parser = q })
parser-Fits cs_closed c q h = h
parser-Fits cs_connecting c q h = h
parser-Fits cs_connected c q h = h
parser-Fits cs_aborted c q h = h

read_once-Good :
    (r ordinal : ℕ) (s : Io) → r ≤ 3 → Good r s → After (λ _ t. Good r t) (read_once ordinal s)
unfolding read_once
read_once-Good r ordinal s le h = in_result (
    ReplyParser_execute s.connection.parser (Buffer_data s.batch.read_buffer)
      (Buffer_position s.batch.read_buffer))
  where
    in_result :
        (o : Option (Result × ReplyParser))
        → After
            (λ _ t. Good r t)
            (elim o as (λ _. Option (Bool × Io)) [
              | none ↦ none
              | some (x, q) ↦
                  on_result ordinal x (record s { connection = record s.connection { parser = q } })
            ])
    in_result none = tt
    in_result (some (x, q)) =
        on_result-Good r ordinal x (record s { connection = record s.connection { parser = q } }) le
          (parser-Fits s.connection.state s.connection q h.0, h.1)

read_loop-Good :
    (r f ordinal : ℕ) (s : Io) → r ≤ 3 → Good r s → After (λ _ t. Good r t) (read_loop f ordinal s)
unfolding read_loop
read_loop-Good r zero ordinal s le h = tt
read_loop-Good r (suc f) ordinal s le h =
    in_test (Batch_has_command s.batch) (read_once ordinal s) (read_once-Good r ordinal s le h)
      (λ t h'. read_loop-Good r f ordinal t le h')
  where
    in_test :
        (b : Bool) (o : Option (Bool × Io))
        → After (λ _ t. Good r t) o
        → ((t : Io) → Good r t → After (λ _ u. Good r u) (read_loop f ordinal t))
        → After
            (λ _ t. Good r t)
            (elim b as (λ _. Option (Unit {0} × Io)) [
              | false ↦ some (tt, s)
              | true ↦ elim o as (λ _. Option (Unit {0} × Io)) [
                | none ↦ none
                | some (true, s') ↦ read_loop f ordinal s'
                | some (false, s') ↦ some (tt, s')
              ]
            ])
    in_test false o once next = h
    in_test true none once next = tt
    in_test true (some (true, t)) once next = next t once
    in_test true (some (false, t)) once next = once

read_data-Good :
    (r ordinal : ℕ) (s : Io)
    → r ≤ 3
    → Good r s
    → After (λ _ t. Good r t) (Connection_read_data ordinal s)
unfolding Connection_read_data
read_data-Good r ordinal s le h = in_state s.connection.state
  where
    in_state : (st : ConnectionState) → After (λ _ t. Good r t) (read_in st ordinal s)
    in_state cs_aborted = h
    in_state cs_closed =
        read_loop-Good r (suc (length s.answers + s.batch.num_commands)) ordinal s le h
    in_state cs_connecting =
        read_loop-Good r (suc (length s.answers + s.batch.num_commands)) ordinal s le h
    in_state cs_connected =
        read_loop-Good r (suc (length s.answers + s.batch.num_commands)) ordinal s le h

rank-le : (st : ConnectionState) → rank st ≤ 3
rank-le cs_closed = omega arith
rank-le cs_connecting = omega arith
rank-le cs_connected = omega arith
rank-le cs_aborted = omega arith

rank-le-written : (st : ConnectionState) → rank st ≤ written_rank st
rank-le-written cs_closed = omega arith
rank-le-written cs_connecting = omega arith
rank-le-written cs_connected = omega arith
rank-le-written cs_aborted = omega arith

-- What a handler keeps: the connection goes on from where it is.
abbrev pub GoesOn : Io → Option (Unit {0} × Io) → Type 0
GoesOn s o = After (λ _ t. Good (rank s.connection.state) t) o

write_data-GoesOn :
    (ordinal : ℕ) (s : Io) → IsConsistent s.connection → GoesOn s (Connection_write_data ordinal s)
write_data-GoesOn ordinal s h =
    After-weaken (λ _ t. Good (written_rank s.connection.state) t)
      (λ _ t. Good (rank s.connection.state) t) (Connection_write_data ordinal s)
      (write_data-Good ordinal s h)
      (λ _ t h'. (h'.0, omega (arith, h'.1, rank-le-written s.connection.state)))

aborts-GoesOn : (t : Bytes) (s : Io) → IsConsistent s.connection → GoesOn s (Connection_abort t s)
aborts-GoesOn t s h =
    After-weaken Aborted (λ _ u. Good (rank s.connection.state) u) (Connection_abort t s)
      (abort-Aborted t s (inr h))
      (λ _ u h'. (h'.0, omega (arith, ap rank h'.1, rank-le s.connection.state)))

handle_open-GoesOn :
    (e : Event) (ordinal : ℕ) (s : Io)
    → IsConsistent s.connection
    → GoesOn s (handle_open e ordinal s)
handle_open-GoesOn e ordinal s h = by_flags e.error e.timeout
  where
    reads :
        (b : Bool) (t : Io)
        → Good (rank s.connection.state) t
        → GoesOn s ((if◌then◌else◌ {A = M (Unit {0})} b (Connection_read_data ordinal) done) t)
    reads true t h' =
        read_data-Good (rank s.connection.state) ordinal t (rank-le s.connection.state) h'
    reads false t h' = h'

    writes :
        (b : Bool)
        → GoesOn s ((if◌then◌else◌ {A = M (Unit {0})} b (Connection_write_data ordinal) done) s)
    writes true = write_data-GoesOn ordinal s h
    writes false = (h, omega arith)

    by_flags :
        (failed late : Bool)
        → GoesOn s (
            (if◌then◌else◌ {A = M (Unit {0})} failed (Connection_abort (text "event error")) (
                if◌then◌else◌ {A = M (Unit {0})} late
                  (do s ← get_io; Connection_abort (timeout_text s.connection.state))
                  (do
                    if e.write then Connection_write_data ordinal else done
                    if e.read then Connection_read_data ordinal else done)))
              s)
    by_flags true late = aborts-GoesOn (text "event error") s h
    by_flags false true = aborts-GoesOn (timeout_text s.connection.state) s h
    by_flags false false =
        >>=-After (if e.write then Connection_write_data ordinal else done) _ s
          (λ _ t. Good (rank s.connection.state) t) (λ _ t. Good (rank s.connection.state) t)
          (writes e.write) (λ _ t h'. reads e.read t h')

pub handle_event-GoesOn :
    (e : Event) (ordinal : ℕ) (s : Io)
    → IsConsistent s.connection
    → GoesOn s (Connection_handle_event e ordinal s)
unfolding Connection_handle_event
handle_event-GoesOn e ordinal s h = in_state s.connection.state
  where
    in_state : (st : ConnectionState) → GoesOn s (handle_in st e ordinal s)
    in_state cs_aborted = (h, omega arith)
    in_state cs_closed = handle_open-GoesOn e ordinal s h
    in_state cs_connecting = handle_open-GoesOn e ordinal s h
    in_state cs_connected = handle_open-GoesOn e ordinal s h
