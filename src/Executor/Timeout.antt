-- ===== src/Executor/Timeout.antt =====
-- The inner loop of `Executor_execute` after a timeout or an error of `poll`.
use libredis.Base.{
  ℕ, suc, ◌+◌, ◌≤◌, ◌<◌, ◌⊎◌, ◌&&◌, true, Bool-cases, ◌≡◌, ◌≢◌, inl, inr, refl, ◌∙◌, Bool, false,
  Option, some, List, [], ◌∷◌, arith, length,
}
use libredis.Base.Int.{ℤ, pos, is_positive}
use libredis.Executor.{Pair, World, Tick, no_time, polled, poll_pair, poll_all, turn, execute_loop}
use libredis.Executor.Step.{
  IsAnswered, Works, Frames, Answers, poll_pair-Answers, poll_pair-unchanged,
}

-- The pairs have other connections.
abbrev pub Others : ℕ → List Pair → Type 0
Others c [] = Unit {0}
Others c (pair ∷ pairs) = (pair.connection ≢ c) × Others c pairs

-- A pair works, or no command of its batch waits, as after an abort of its connection.
abbrev pub Stands : World → Pair → Type 0
Stands w pair = Works w pair ⊎ IsAnswered w pair.batch

-- Every pair works or is answered, and no two have one connection.
abbrev pub AllWork : World → List Pair → Type 0
AllWork w [] = Unit {0}
AllWork w (pair ∷ pairs) = Stands w pair × Others pair.connection pairs × AllWork w pairs

abbrev pub AllAnswered : World → List Pair → Type 0
AllAnswered w [] = Unit {0}
AllAnswered w (pair ∷ pairs) = IsAnswered w pair.batch × AllAnswered w pairs

keep-Works :
    (w w' : World) (c : ℕ) (pair : Pair)
    → Frames c w w'
    → pair.connection ≢ c
    → Works w pair
    → Works w' pair
keep-Works w w' c pair frames ne works = elim (frames.batches pair.batch) [
  | inl same ↦ record {
    connection = works.connection;
    batch = works.batch;
    sent = works.sent;
    connected = frames.connections pair.connection ne ∙ works.connected;
    stored = same ∙ works.stored;
    sending = frames.sent pair.connection ne ∙ works.sending;
    not_aborted = works.not_aborted;
    has_batch = works.has_batch;
  }
  | inr (batch, there, none_waits) ↦ record {
    connection = works.connection;
    batch = batch;
    sent = works.sent;
    connected = frames.connections pair.connection ne ∙ works.connected;
    stored = there;
    sending = frames.sent pair.connection ne ∙ works.sending;
    not_aborted = works.not_aborted;
    has_batch = works.has_batch;
  }
]

still-IsAnswered : (w w' : World) (c j : ℕ) → Frames c w w' → IsAnswered w j → IsAnswered w' j
still-IsAnswered w w' c j frames (batch, there, none_waits) = elim (frames.batches j) [
  | inl same ↦ (batch, same ∙ there, none_waits)
  | inr answered ↦ answered
]

keep-Stands :
    (w w' : World) (c : ℕ) (pair : Pair)
    → Frames c w w'
    → pair.connection ≢ c
    → Stands w pair
    → Stands w' pair
keep-Stands w w' c pair frames ne (inl works) = inl (keep-Works w w' c pair frames ne works)
keep-Stands w w' c pair frames ne (inr answered) =
    inr (still-IsAnswered w w' c pair.batch frames answered)

keep-AllWork :
    (w w' : World) (c : ℕ) (pairs : List Pair)
    → Frames c w w'
    → Others c pairs
    → AllWork w pairs
    → AllWork w' pairs
keep-AllWork w w' c [] frames others all = tt
keep-AllWork w w' c (pair ∷ pairs) frames others all = (
  keep-Stands w w' c pair frames others.0 all.0,
  all.1,
  keep-AllWork w w' c pairs frames others.1 all.2,
)

-- What the inner loop leaves: answered batches, and no batch with commands that had none
abbrev Ends : Option World → World → List Pair → Type 0
Ends o w pairs =
    (w' : World) × ((o ≡ some w')
      × AllAnswered w' pairs
      × ((j : ℕ) → IsAnswered w j → IsAnswered w' j))

events_head : List (Bool × Bool) → Bool × Bool
events_head [] = (false, false)
events_head (r ∷ rs) = r

events_tail : List (Bool × Bool) → List (Bool × Bool)
events_tail [] = []
events_tail (r ∷ rs) = rs

poll_all-step :
    (result : ℤ) (i : ℕ) (pair : Pair) (pairs : List Pair) (rs : List (Bool × Bool)) (w w1 : World)
    → poll_pair result i pair (events_head rs) w ≡ some w1
    → poll_all result i (pair ∷ pairs) rs w ≡ poll_all result (suc i) pairs (events_tail rs) w1
unfolding poll_all events_head events_tail
poll_all-step result i pair pairs [] w w1 e = rw (poll_all, e) refl
poll_all-step result i pair pairs (r ∷ rs) w w1 e = rw (poll_all, e) refl

Stands-Answers :
    (result : ℤ) (i : ℕ) (pair : Pair) (r : Bool × Bool) (w : World)
    → is_positive result ≡ false
    → Stands w pair
    → i < length w.executor.fds
    → Answers result i pair r w
Stands-Answers result i pair r w failed (inl works) inside =
    poll_pair-Answers result i pair r w failed works inside
Stands-Answers result i pair r w failed (inr answered) inside =
    poll_pair-unchanged result i pair r w failed answered inside

poll_all-Ends :
    (result : ℤ) (i : ℕ) (pairs : List Pair) (rs : List (Bool × Bool)) (w : World)
    → is_positive result ≡ false
    → AllWork w pairs
    → i + length pairs ≤ length w.executor.fds
    → Ends (poll_all result i pairs rs w) w pairs
unfolding poll_all
poll_all-Ends result i [] rs w failed all fits = (w, (refl, tt, (λ j a. a)))
poll_all-Ends result i (pair ∷ pairs) rs w failed all fits =
    let (w1, first) = Stands-Answers result i pair (events_head rs) w failed all.0 (omega arith) in
    let (ran, frames, answered) = first in
    let (w2, rest) =
      poll_all-Ends result (suc i) pairs (events_tail rs) w1 failed
        (keep-AllWork w w1 pair.connection pairs frames all.1 all.2) (omega (arith, frames.fds)) in
    let (ran', later, kept) = rest in
    (
      w2,
      (
        poll_all-step result i pair pairs rs w w1 ran ∙ ran',
        (kept pair.batch answered, later),
        (λ j a. kept j (still-IsAnswered w w1 pair.connection j frames a)),
      ),
    )

-- The inner loop of `Executor_execute`, where `poll` has timed out or failed
poll_all-AllAnswered :
    (result : ℤ) (rs : List (Bool × Bool)) (w : World)
    → is_positive result ≡ false
    → AllWork w w.executor.pairs
    → length w.executor.pairs ≤ length w.executor.fds
    → (w' : World) × (poll_all result 0 w.executor.pairs rs w ≡ some w')
      × AllAnswered w' w.executor.pairs
poll_all-AllAnswered result rs w failed all fits =
    let (w', rest) = poll_all-Ends result 0 w.executor.pairs rs w failed all (omega arith) in
    (w', rest.0, rest.1)

-- What `poll` comes to in a turn
abbrev pub result_of : Tick → ℤ
result_of no_time = pos 0
result_of (polled result revents) = result

turn-AllAnswered :
    (t : Tick) (w : World)
    → is_positive (result_of t) ≡ false
    → AllWork w w.executor.pairs
    → length w.executor.pairs ≤ length w.executor.fds
    → (w' : World) × (turn t w ≡ some (result_of t, w')) × AllAnswered w' w.executor.pairs
unfolding turn
turn-AllAnswered no_time w failed all fits =
    let (w', ran, answered) = poll_all-AllAnswered (pos 0) [] w failed all fits in
    (w', rw (turn, ran) refl, answered)
turn-AllAnswered (polled result revents) w failed all fits =
    let (w', ran, answered) = poll_all-AllAnswered result revents w failed all fits in
    (w', rw (turn, ran) refl, answered)

loop_ends :
    (ts : List Tick) (result : ℤ) (w : World)
    → is_positive result ≡ false
    → execute_loop ts result w ≡ some (result, w)
unfolding execute_loop
loop_ends [] result w failed = elim (Bool-cases (is_positive w.executor.numevents)) [
  | inl more ↦ rw (execute_loop, more, failed) refl
  | inr over ↦ rw (execute_loop, over) refl
]
loop_ends (t ∷ ts) result w failed = elim (Bool-cases (is_positive w.executor.numevents)) [
  | inl more ↦ rw (execute_loop, more, failed) refl
  | inr over ↦ rw (execute_loop, over) refl
]

-- The outer loop of `Executor_execute` at a turn at which it goes on, and in which no time is left, or `poll`
-- times out or fails. If every pair has an entry and a connection of its own, and each pair either has
-- no command that waits (as after an abort of its connection), or has a connection that is not aborted and
-- whose current batch is the pair's: then the loop ends with this turn, with the result 0 or the negative
-- one, and no command of any pair's batch waits for a reply.
pub execute_loop-AllAnswered :
    (t : Tick) (ts : List Tick) (result : ℤ) (w : World)
    → is_positive (result_of t) ≡ false
    → (is_positive w.executor.numevents && is_positive result) ≡ true
    → AllWork w w.executor.pairs
    → length w.executor.pairs ≤ length w.executor.fds
    → (w' : World) × (execute_loop (t ∷ ts) result w ≡ some (result_of t, w'))
      × AllAnswered w' w.executor.pairs
unfolding execute_loop
execute_loop-AllAnswered t ts result w failed goes_on all fits =
    let (w', ran, answered) = turn-AllAnswered t w failed all fits in
    (w', rw (execute_loop, goes_on, ran) (loop_ends ts (result_of t) w' failed), answered)
