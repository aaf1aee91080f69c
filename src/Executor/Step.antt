-- ===== src/Executor/Step.antt =====
-- One pair of the inner loop of `Executor_execute` after a timeout or an error of `poll`.
use mathlib.Core.Path.{subst}
use libredis.Base.{
  ℕ, zero, suc, ◌<◌, ◌≡◌, ◌≢◌, ◌⊎◌, inl, inr, refl, sym, ap, ◌∙◌, Bool, true, false, some, Bytes,
  arith, length, set, get_elem?, length-set, get_elem?-set, get_elem?-set_other, get_elem?-some-lt,
  get_elem?-total, Bool-cases, ltb→ge, ==_iff, ◌==◌,
}
use libredis.Base.Int.{ℤ, pos, negsuc, is_positive}
use libredis.Batch.{Batch, Batch_has_command}
use libredis.Connection.{Connection, cs_aborted, PollFd, Io, M}
use libredis.Connection.Abort.{HasAborted}
use libredis.Connection.Read.{Event, Connection_handle_event}
use libredis.Connection.Read.Failed.{handle_event-failed}
use libredis.Executor.{Pair, World, run_on, take_events, event_of, is_event, dispatch, poll_pair}

-- No command of the batch waits.
abbrev pub IsAnswered : World → ℕ → Type 0
IsAnswered w b = (batch : Batch) × (get_elem? w.batches b ≡ some batch) × (batch.num_commands ≡ 0)

-- The pair works: its connection is open and has its batch, and both are in the store.
pub record Works (w : World) (pair : Pair) : Type 0 where
  pub connection : Connection
  pub batch : Batch
  pub sent : Bytes
  pub connected : get_elem? w.connections pair.connection ≡ some (connection, pair.batch)
  pub stored : get_elem? w.batches pair.batch ≡ some batch
  pub sending : get_elem? w.sent pair.connection ≡ some sent
  pub not_aborted : connection.state ≢ cs_aborted
  pub has_batch : connection.has_batch ≡ true

-- What a step on connection `c` leaves alone
pub record Frames (c : ℕ) (w w' : World) : Type 0 where
  pub connections : (j : ℕ) → j ≢ c → get_elem? w'.connections j ≡ get_elem? w.connections j
  pub sent : (j : ℕ) → j ≢ c → get_elem? w'.sent j ≡ get_elem? w.sent j
  pub batches : (j : ℕ) → (get_elem? w'.batches j ≡ get_elem? w.batches j) ⊎ IsAnswered w' j
  pub fds : length w'.executor.fds ≡ length w.executor.fds

abbrev pub io_of : World → Connection → Batch → Bytes → Io
io_of w connection batch sent = record {
  connection = connection;
  batch = batch;
  numevents = w.executor.numevents;
  fds = w.executor.fds;
  answers = w.answers;
  sent = sent;
}

abbrev pub stored_io : ℕ → ℕ → Io → World → World
stored_io c b s w = record w {
  connections = set w.connections c (s.connection, b);
  batches = set w.batches b s.batch;
  executor = record w.executor { numevents = s.numevents; fds = s.fds };
  answers = s.answers;
  sent = set w.sent c s.sent;
}

pub run_on-stored :
    (c b cur : ℕ) (handler : M (Unit {0})) (w : World) (connection : Connection) (batch : Batch)
    (sent : Bytes) (s : Io)
    → get_elem? w.connections c ≡ some (connection, cur)
    → get_elem? w.batches b ≡ some batch
    → get_elem? w.sent c ≡ some sent
    → handler (io_of w connection batch sent) ≡ some (tt, s)
    → run_on c b handler w ≡ some (stored_io c b s w)
unfolding run_on
run_on-stored c b cur handler w connection batch sent s x y z e = rw (run_on, x, y, z, e) refl

-- The event of a poll that is not positive
event_of-fails :
    (result : ℤ) (r : Bool × Bool)
    → is_positive result ≡ false
    → ((event_of result r).error ≡ true) ⊎ ((event_of result r).timeout ≡ true)
event_of-fails (pos zero) r h = inr refl
event_of-fails (pos (suc n)) r h = ground arith
event_of-fails (negsuc n) r h = inl refl

event_of-is_event :
    (result : ℤ) (r : Bool × Bool)
    → is_positive result ≡ false
    → is_event (event_of result r) ≡ true
event_of-is_event (pos zero) r h = refl
event_of-is_event (pos (suc n)) r h = ground arith
event_of-is_event (negsuc n) r h = refl

truth_clash : true ≢ false
truth_clash = ground arith

-- An abort of the pair's connection in the store
stored_io-Frames :
    (w : World) (c b : ℕ) (t : Bytes) (s s' : Io)
    → b < length w.batches
    → s.fds ≡ w.executor.fds
    → HasAborted s t s'
    → Frames c w (stored_io c b s' w) × IsAnswered (stored_io c b s' w) b
stored_io-Frames w c b t s s' inside same has =
    let answered : IsAnswered (stored_io c b s' w) b =
      (s'.batch, get_elem?-set w.batches b s'.batch inside, has.answered) in
    (
      record {
        connections = λ j ne. get_elem?-set_other w.connections c j (s'.connection, b) ne;
        sent = λ j ne. get_elem?-set_other w.sent c j s'.sent ne;
        batches = λ j. elim (Bool-cases (j == b)) [
          | inl e ↦ inr (subst (IsAnswered (stored_io c b s' w)) (sym ((==_iff j b).0 e)) answered)
          | inr ne ↦ inl (
              get_elem?-set_other w.batches b j s'.batch
                (λ e. truth_clash (sym ((==_iff j b).1 e) ∙ ne)))
        ];
        fds = ap length (has.same_fds ∙ same);
      },
      answered,
    )

-- One pair, and what it leaves
abbrev pub Answers : ℤ → ℕ → Pair → Bool × Bool → World → Type 0
Answers result i pair r w =
    (w' : World) × ((poll_pair result i pair r w ≡ some w')
      × Frames pair.connection w w'
      × IsAnswered w' pair.batch)

no_change :
    (result : ℤ) (i : ℕ) (pair : Pair) (r : Bool × Bool) (w : World) (fd : PollFd) (batch : Batch)
    → get_elem? w.executor.fds i ≡ some fd
    → get_elem? w.batches pair.batch ≡ some batch
    → Batch_has_command batch ≡ false
    → is_event (event_of result r) ≡ true
    → poll_pair result i pair r w ≡ some (take_events i fd r w)
unfolding poll_pair
no_change result i pair r w fd batch x y z e = rw (poll_pair, x, y, z, e) refl

pub dispatched :
    (result : ℤ) (i : ℕ) (pair : Pair) (r : Bool × Bool) (w : World) (fd : PollFd) (batch : Batch)
    → get_elem? w.executor.fds i ≡ some fd
    → get_elem? w.batches pair.batch ≡ some batch
    → Batch_has_command batch ≡ true
    → is_event (event_of result r) ≡ true
    → poll_pair result i pair r w ≡ dispatch i pair (event_of result r) (take_events i fd r w)
unfolding poll_pair
dispatched result i pair r w fd batch x y z e = rw (poll_pair, x, y, z, e) refl

pub dispatch-run :
    (i : ℕ) (pair : Pair) (event : Event) (w : World) (connection : Connection) (cur : ℕ)
    → get_elem? w.connections pair.connection ≡ some (connection, cur)
    → dispatch i pair event w ≡ run_on pair.connection cur (Connection_handle_event event i) w
dispatch-run i pair event w connection cur e = rw (dispatch, e) refl

taken-Frames :
    (i c : ℕ) (fd : PollFd) (r : Bool × Bool) (w : World) → Frames c w (take_events i fd r w)
taken-Frames i c fd r w = record {
  connections = λ j ne. refl;
  sent = λ j ne. refl;
  batches = λ j. inl refl;
  fds = length-set w.executor.fds i _;
}

-- A pair without a command that waits is left alone.
pub poll_pair-unchanged :
    (result : ℤ) (i : ℕ) (pair : Pair) (r : Bool × Bool) (w : World)
    → is_positive result ≡ false
    → IsAnswered w pair.batch
    → i < length w.executor.fds
    → Answers result i pair r w
poll_pair-unchanged result i pair r w failed (batch, stored, none_waits) inside =
    let (fd, there) = get_elem?-total w.executor.fds i inside in
    let no_command : Batch_has_command batch ≡ false = ground (arith, none_waits) in
    (
      take_events i fd r w,
      (
        no_change result i pair r w fd batch there stored no_command
            (event_of-is_event result r failed),
        taken-Frames i pair.connection fd r w,
        (batch, stored, none_waits),
      ),
    )

pub poll_pair-Answers :
    (result : ℤ) (i : ℕ) (pair : Pair) (r : Bool × Bool) (w : World)
    → is_positive result ≡ false
    → Works w pair
    → i < length w.executor.fds
    → Answers result i pair r w
poll_pair-Answers result i pair r w failed works inside =
    let (fd, there) = get_elem?-total w.executor.fds i inside in
    let event = event_of-is_event result r failed in
    let w1 = take_events i fd r w in
    elim (Bool-cases (Batch_has_command works.batch)) [
      | inr none_waits ↦ (
        w1,
        (
          no_change result i pair r w fd works.batch there works.stored none_waits event,
          taken-Frames i pair.connection fd r w,
          (works.batch, works.stored, (let z = ltb→ge _ _ none_waits in omega arith)),
        ),
      )
      | inl waits ↦
          let s = io_of w1 works.connection works.batch works.sent in
          let (t, rest) =
            handle_event-failed (event_of result r) i s (event_of-fails result r failed)
              works.not_aborted works.has_batch in
          let (s', handled, has) = rest in
          let ran =
            run_on-stored pair.connection pair.batch pair.batch
              (Connection_handle_event (event_of result r) i) w1 works.connection works.batch
              works.sent s' works.connected works.stored works.sending handled in
          let (frames, answered) =
            stored_io-Frames w1 pair.connection pair.batch t s s'
              (get_elem?-some-lt w.batches pair.batch works.stored) refl has in
          (
            stored_io pair.connection pair.batch s' w1,
            (
              dispatched result i pair r w fd works.batch there works.stored waits event
                  ∙ dispatch-run i pair (event_of result r) w1 works.connection pair.batch
                      works.connected
                  ∙ ran,
              record {
                connections = frames.connections;
                sent = frames.sent;
                batches = frames.batches;
                fds = frames.fds ∙ length-set w.executor.fds i _;
              },
              answered,
            ),
          )
    ]
