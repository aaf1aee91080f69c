-- ===== src/Connection/Read/Life.antt =====
-- The life of a connection: executions are started on it and events handled, in any order.
use mathlib.Core.Path.{subst}
use libredis.Base.{ℕ, ◌≤◌, ◌≡◌, ◌≢◌, refl, sym, ap, true, some, arith}
use libredis.Buffer.{Buffer_flip}
use libredis.Parser.{ReplyParser_reset}
use libredis.Connection.{
  Connection, ConnectionState, cs_closed, cs_connecting, cs_connected, cs_aborted, Io, M, done,
  notify_read,
}
use libredis.Connection.States.{
  Fits, IsConsistent, rank, Good, After, >>=-After, After-weaken, After-some, Same, notify-Same,
}
use libredis.Connection.Write.{Connection_write_data}
use libredis.Connection.Write.States.{written_rank, write_data-Good}
use libredis.Connection.Read.{Connection_execute_start, Event, Connection_handle_event}
use libredis.Connection.Read.States.{handle_event-GoesOn}

-- The state in which an execution begins
abbrev pub restarted : ConnectionState → ConnectionState
restarted cs_aborted = cs_closed
restarted st = st

-- The ways from one state to another
pub data Edge : ConnectionState → ConnectionState → Type 0 where
  stays : (st : ConnectionState) → Edge st st
  opens : Edge cs_closed cs_connecting
  opens_at_once : Edge cs_closed cs_connected
  completes : Edge cs_connecting cs_connected
  fails : (st : ConnectionState) → Edge st cs_aborted

-- A connection, its batch and its answers, over executions and events. Between two of these the batch, the
-- executor's part and what the system will answer may become others, and the connection stays.
pub data Series (s : Io) : Io → Type 0 where
  so_far : Series s s
  started :
      {t : Io}
      → Series s t
      → (ordinal : ℕ) (t' u : Io) → t'.connection ≡ t.connection
      → Connection_execute_start ordinal t' ≡ some (tt, u)
      → Series s u
  handled :
      {t : Io}
      → Series s t
      → (e : Event) (ordinal : ℕ) (t' u : Io) → t'.connection ≡ t.connection
      → Connection_handle_event e ordinal t' ≡ some (tt, u)
      → Series s u

event-Edge : (a b : ConnectionState) → rank a ≤ rank b → Edge a b
event-Edge a cs_aborted h = fails a
event-Edge cs_closed cs_closed h = stays cs_closed
event-Edge cs_closed cs_connecting h = opens
event-Edge cs_closed cs_connected h = opens_at_once
event-Edge cs_connecting cs_closed h = absurd (omega (arith, h))
event-Edge cs_connecting cs_connecting h = stays cs_connecting
event-Edge cs_connecting cs_connected h = completes
event-Edge cs_connected cs_closed h = absurd (omega (arith, h))
event-Edge cs_connected cs_connecting h = absurd (omega (arith, h))
event-Edge cs_connected cs_connected h = stays cs_connected
event-Edge cs_aborted cs_closed h = absurd (omega (arith, h))
event-Edge cs_aborted cs_connecting h = absurd (omega (arith, h))
event-Edge cs_aborted cs_connected h = absurd (omega (arith, h))

-- The connection as `Connection_execute_start` hands it on
abbrev begun : Connection → Connection
begun c = record c {
  has_batch = true;
  state = elim c.state [ cs_aborted ↦ cs_closed | st ↦ st ];
  parser = ReplyParser_reset c.parser;
}

begun-restarted : (c : Connection) → (begun c).state ≡ restarted c.state
begun-restarted c = in_state c.state
  where
    in_state :
        (st : ConnectionState)
        → (elim st as (λ _. ConnectionState) [ cs_aborted ↦ cs_closed | st' ↦ st' ]) ≡ restarted st
    in_state cs_closed = refl
    in_state cs_connecting = refl
    in_state cs_connected = refl
    in_state cs_aborted = refl

begun-IsConsistent : (c : Connection) → IsConsistent c → IsConsistent (begun c)
begun-IsConsistent c h =
    subst (λ (st : ConnectionState). Fits st (begun c)) (sym (begun-restarted c))
      (in_state c.state h)
  where
    in_state : (st : ConnectionState) → Fits st c → Fits (restarted st) (begun c)
    in_state cs_closed h = h
    in_state cs_connecting h = h
    in_state cs_connected h = h
    in_state cs_aborted h = h.0

execute_start-Good :
    (ordinal : ℕ) (s : Io)
    → IsConsistent s.connection
    → After
        (λ _ t. Good (written_rank (restarted s.connection.state)) t)
        (Connection_execute_start ordinal s)
unfolding Connection_execute_start
execute_start-Good ordinal s h =
    let r = written_rank (restarted s.connection.state) in
    let s1 : Io = record s {
      connection = begun s.connection;
      batch = record s.batch { write_buffer = Buffer_flip s.batch.write_buffer };
    } in
    let wrote : After (λ _ t. Good r t) (Connection_write_data ordinal s1) =
      subst
        (λ (st : ConnectionState).
          After (λ _ t. Good (written_rank st) t) (Connection_write_data ordinal s1))
        (begun-restarted s.connection)
        (write_data-Good ordinal s1 (begun-IsConsistent s.connection h)) in
    >>=-After (Connection_write_data ordinal) _ s1 (λ _ t. Good r t) (λ _ t. Good r t) wrote
      (λ _ t h'. in_state r t t.connection.state h')
  where
    in_state :
        (r : ℕ) (t : Io) (st : ConnectionState)
        → Good r t
        → After
            (λ _ u. Good r u)
            ((elim st as (λ _. M (Unit {0})) [ cs_connected ↦ notify_read ordinal | _ ↦ done ]) t)
    in_state r t cs_closed h' = h'
    in_state r t cs_connecting h' = h'
    in_state r t cs_connected h' =
        After-weaken (Same t) (λ _ u. Good r u) (notify_read ordinal t)
          (notify-Same (λ e. record e { pollin = true }) ordinal t)
          (λ _ u same.
            subst (λ (c : Connection). IsConsistent c × (r ≤ rank c.state)) (sym same) h')
    in_state r t cs_aborted h' = h'

closed-first : (st : ConnectionState) → 1 ≤ rank st → st ≢ cs_closed
closed-first st le e = ground (arith, le, ap rank e)

restarted-written : (st : ConnectionState) → 1 ≤ written_rank (restarted st)
restarted-written cs_closed = omega arith
restarted-written cs_connecting = omega arith
restarted-written cs_connected = omega arith
restarted-written cs_aborted = omega arith

written-rank-le : (st : ConnectionState) → rank st ≤ written_rank st
written-rank-le cs_closed = omega arith
written-rank-le cs_connecting = omega arith
written-rank-le cs_connected = omega arith
written-rank-le cs_aborted = omega arith

-- Every step of the series goes along an edge, from the state that it finds to the one that it leaves, and
-- leaves a connection that is consistent. An execution begins at `cs_closed` where the connection
-- was aborted, and never leaves it at `cs_closed`.
abbrev pub Follows : {s t : Io} → Series s t → Type 0
Follows so_far = Unit {0}
Follows (started {t = t} before ordinal t' u same run) =
    Follows before
    × IsConsistent u.connection
    × Edge (restarted t.connection.state) u.connection.state
    × (u.connection.state ≢ cs_closed)
Follows (handled {t = t} before e ordinal t' u same run) =
    Follows before × IsConsistent u.connection × Edge t.connection.state u.connection.state

module _ (s : Io) (fits : IsConsistent s.connection) where
  both : {t : Io} (r : Series s t) → IsConsistent t.connection × Follows r
  both so_far = (fits, tt)
  both (started {t = t} before ordinal t' u same run) =
      let (fits_t, follows) = both before in
      let fits' : IsConsistent t'.connection = subst IsConsistent (sym same) fits_t in
      let r = written_rank (restarted t'.connection.state) in
      let good : Good r u =
        After-some (λ _ x. Good r x) (Connection_execute_start ordinal t') run
          (execute_start-Good ordinal t' fits') in
      let edge : Edge (restarted t'.connection.state) u.connection.state =
        event-Edge (restarted t'.connection.state) u.connection.state
          (omega (arith, good.1, written-rank-le (restarted t'.connection.state))) in
      (
        good.0,
        (
          follows,
          good.0,
          subst (λ (c : Connection). Edge (restarted c.state) u.connection.state) same edge,
          closed-first u.connection.state
              (omega (arith, good.1, restarted-written t'.connection.state)),
        ),
      )
  both (handled {t = t} before e ordinal t' u same run) =
      let (fits_t, follows) = both before in
      let fits' : IsConsistent t'.connection = subst IsConsistent (sym same) fits_t in
      let good : Good (rank t'.connection.state) u =
        After-some (λ _ x. Good (rank t'.connection.state) x) (Connection_handle_event e ordinal t')
          run (handle_event-GoesOn e ordinal t' fits') in
      let edge : Edge t'.connection.state u.connection.state =
        event-Edge t'.connection.state u.connection.state good.1 in
      (
        good.0,
        (follows, good.0, subst (λ (c : Connection). Edge c.state u.connection.state) same edge),
      )

-- From a consistent connection, over any series of executions and events, with whatever the system
-- answers and whatever batch: each step leads along an edge of the state diagram (an event from closed to
-- connecting or connected, from connecting to connected, from any state to aborted, or nowhere; an
-- execution alike, but from closed where the connection was aborted, and it never ends at closed), and
-- leaves a consistent connection: closed or aborted it has no open socket (no positive descriptor) and no
-- address list, aborted it has no batch, and connecting or connected it has its socket and its address list.
pub series-Follows : (s t : Io) (series : Series s t) → IsConsistent s.connection → Follows series
series-Follows s t series fits = (both s fits series).1
