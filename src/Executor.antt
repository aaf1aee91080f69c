-- ===== src/Executor.antt =====
-- `Executor` of libredis/connection.c: pairs of a connection and a batch, run together under `poll`.
-- A connection may stand in several pairs, so connections and batches are kept in a store.
pub mod Step
pub mod Timeout
pub mod Exchange
use libredis.Base.{
  ℕ, zero, suc, Bool, true, false, ◌&&◌, ◌||◌, Option, none, some, List, [], ◌∷◌, ◌++◌, Bytes,
  length, set, get_elem?, if◌then◌else◌, leb,
}
use libredis.Base.Int.{ℤ, pos, negsuc, decrement, is_positive}
use libredis.Batch.{Batch, Batch_has_command}
use libredis.Connection.{Connection, PollFd, Answer, M}
use libredis.Connection.Read.{Event, Connection_execute_start, Connection_handle_event}

abbrev pub max_pairs : ℕ
max_pairs = 1024

-- `struct _Pair`, as indices into the store
pub record Pair : Type 0 where
  pub batch : ℕ
  pub connection : ℕ

-- `struct _Executor`; the times are with `Tick`.
pub record Executor : Type 0 where
  pub numevents : ℤ
  pub fds : List PollFd
  pub pairs : List Pair

unfoldable pub Executor_new : Executor
Executor_new = record { numevents = pos 0; fds = []; pairs = [] }

-- `numpairs` is the number of the pairs.
unfoldable pub Executor_add : Executor → Pair → Option Executor
Executor_add e pair =
    if leb max_pairs (length e.pairs)
    then none
    else some (record e {
      pairs = e.pairs ++ pair ∷ [];
      fds = e.fds ++ record { fd = pos 0; pollin = false; pollout = false } ∷ [];
    })

-- A turn of the loop: no time is left, or `poll` returned a number with the events of each entry.
pub data Tick : Type 0 where
  no_time : Tick
  polled : ℤ → List (Bool × Bool) → Tick

-- The connections, each with the index of its current batch; the batches; the executor at work; what
-- the system will answer; and the bytes sent on each connection so far.
pub record World : Type 0 where
  pub connections : List (Connection × ℕ)
  pub batches : List Batch
  pub executor : Executor
  pub answers : List Answer
  pub sent : List Bytes

-- A handler of a connection, run on a batch of the store
pub run_on : ℕ → ℕ → M (Unit {0}) → World → Option World
run_on c b handler w = elim (get_elem? w.connections c) [
  | none ↦ none
  | some (connection, _) ↦ elim (get_elem? w.batches b) [
    | none ↦ none
    | some batch ↦ elim (get_elem? w.sent c) [
      | none ↦ none
      | some sent ↦
          elim (handler (record {
            connection = connection;
            batch = batch;
            numevents = w.executor.numevents;
            fds = w.executor.fds;
            answers = w.answers;
            sent = sent;
          })) [
            | none ↦ none
            | some (_, s) ↦ some (record w {
              connections = set w.connections c (s.connection, b);
              batches = set w.batches b s.batch;
              executor = record w.executor { numevents = s.numevents; fds = s.fds };
              answers = s.answers;
              sent = set w.sent c s.sent;
            })
          ]
    ]
  ]
]

-- The first loop of `Executor_execute`, from pair `i` on
pub start_all : ℕ → List Pair → World → Option World
unfolding run_on
start_all i [] w = some w
start_all i (pair ∷ pairs) w =
    elim (run_on pair.connection pair.batch (Connection_execute_start i) w) [
      | none ↦ none
      | some w' ↦ start_all (suc i) pairs w'
    ]

-- An event that `poll` reports is taken off the entry and off the count.
abbrev pub take_events : ℕ → PollFd → Bool × Bool → World → World
take_events i fd (readable, writable) w =
    let e = w.executor in
    let fd' = record fd {
      pollin = if readable then false else fd.pollin;
      pollout = if writable then false else fd.pollout;
    } in
    let n = if readable then decrement e.numevents else e.numevents in
    record w {
      executor = record e {
        fds = set e.fds i fd';
        numevents = if writable then decrement n else n;
      };
    }

-- `poll_result` is 0, negative, or positive.
abbrev pub event_of : ℤ → Bool × Bool → Event
event_of (pos zero) (readable, writable) = record {
  read = false;
  write = false;
  timeout = true;
  error = false;
}
event_of (negsuc n) (readable, writable) = record {
  read = false;
  write = false;
  timeout = false;
  error = true;
}
event_of (pos (suc n)) (readable, writable) = record {
  read = readable;
  write = writable;
  timeout = false;
  error = false;
}

abbrev pub is_event : Event → Bool
is_event e = e.read || e.write || e.timeout || e.error

-- The handler works on the current batch of the connection, which the pair's batch mostly is.
abbrev pub dispatch : ℕ → Pair → Event → World → Option World
dispatch i pair event w = elim (get_elem? w.connections pair.connection) [
  | none ↦ none
  | some (_, current) ↦ run_on pair.connection current (Connection_handle_event event i) w
]

-- One pair of the inner loop
pub poll_pair : ℤ → ℕ → Pair → Bool × Bool → World → Option World
poll_pair result i pair revents w = elim (get_elem? w.executor.fds i) [
  | none ↦ none
  | some fd ↦
      let w' = take_events i fd revents w in
      elim (get_elem? w'.batches pair.batch) [
        | none ↦ none
        | some batch ↦
            let event = event_of result revents in
            if is_event event && Batch_has_command batch then dispatch i pair event w' else some w'
      ]
]

-- The inner loop; an entry that `poll` says nothing of has no events.
pub poll_all : ℤ → ℕ → List Pair → List (Bool × Bool) → World → Option World
poll_all result i [] revents w = some w
poll_all result i (pair ∷ pairs) [] w = elim (poll_pair result i pair (false, false) w) [
  | none ↦ none
  | some w' ↦ poll_all result (suc i) pairs [] w'
]
poll_all result i (pair ∷ pairs) (r ∷ revents) w = elim (poll_pair result i pair r w) [
  | none ↦ none
  | some w' ↦ poll_all result (suc i) pairs revents w'
]

-- One turn of the outer loop, with the `poll_result` that it leaves. Without time left nothing is
-- polled: the result is 0, and the events that `revents` held have been taken off before.
pub turn : Tick → World → Option (ℤ × World)
unfolding poll_all
turn no_time w = elim (poll_all (pos 0) 0 w.executor.pairs [] w) [
  | none ↦ none
  | some w' ↦ some (pos 0, w')
]
turn (polled result revents) w = elim (poll_all result 0 w.executor.pairs revents w) [
  | none ↦ none
  | some w' ↦ some (result, w')
]

-- The outer loop, over the turns that the clock and `poll` give; `none` where they end too early.
pub execute_loop : List Tick → ℤ → World → Option (ℤ × World)
unfolding turn
execute_loop [] result w =
    if is_positive w.executor.numevents && is_positive result then none else some (result, w)
execute_loop (t ∷ ts) result w = elim (is_positive w.executor.numevents && is_positive result) [
  | false ↦ some (result, w)
  | true ↦ elim (turn t w) [ none ↦ none | some (result', w') ↦ execute_loop ts result' w' ]
]

-- More than 1 is returned as 1.
abbrev pub at_most_one : ℤ → ℤ
at_most_one (pos (suc (suc n))) = pos 1
at_most_one r = r

-- The error text that it leaves where the result is 0 or negative is with the methods of Php.
pub Executor_execute : List Tick → World → Option (ℤ × World)
unfolding start_all execute_loop
Executor_execute ticks w =
    elim (start_all 0 w.executor.pairs
      (record w { executor = record w.executor { numevents = pos 0 } })) [
        | none ↦ none
        | some w' ↦ elim (execute_loop ticks (pos 1) w') [
          | none ↦ none
          | some (r, w'') ↦ some (at_most_one r, w'')
        ]
      ]
