-- ===== src/Connection/Read/Failed.antt =====
-- `Connection_handle_event` for a timeout or an error of `poll`.
use native.Mathlib.Omega.{arith}
use libredis.Base.{ℕ, ◌≡◌, ◌≢◌, ◌⊎◌, inl, inr, refl, sym, ◌∙◌, true, false, Bool-cases, some, Bytes}
use libredis.Connection.{
  ConnectionState, cs_closed, cs_connecting, cs_connected, cs_aborted, Io, Connection_abort,
}
use libredis.Connection.Abort.{HasAborted, connection_abort-run}
use libredis.Connection.Write.{text}
use libredis.Connection.Read.{Event, handle_in, handle_open, timeout_text, Connection_handle_event}

abbrev Fails : Event → ℕ → Io → Type 0
Fails e ordinal s =
    (t : Bytes) × ((s' : Io) × (handle_open e ordinal s ≡ some (tt, s')) × HasAborted s t s')

aborts :
    (t : Bytes) (e : Event) (ordinal : ℕ) (s : Io)
    → handle_open e ordinal s ≡ Connection_abort t s
    → s.connection.state ≢ cs_aborted
    → s.connection.has_batch ≡ true
    → Fails e ordinal s
aborts t e ordinal s same h has_batch =
    let (s', eq, has, shut) = connection_abort-run t s (λ ne. has_batch) in
    (t, (s', same ∙ eq, has h))

bool_clash : false ≢ true
bool_clash = ground arith

handle_open-Fails :
    (e : Event) (ordinal : ℕ) (s : Io)
    → (e.error ≡ true) ⊎ (e.timeout ≡ true)
    → s.connection.state ≢ cs_aborted
    → s.connection.has_batch ≡ true
    → Fails e ordinal s
handle_open-Fails e ordinal s failed h has_batch = elim (Bool-cases e.error) [
  | inl err ↦ aborts (text "event error") e ordinal s (rw err refl) h has_batch
  | inr fine ↦ elim failed [
    | inl err ↦ absurd (bool_clash (sym fine ∙ err))
    | inr late ↦
        aborts (timeout_text s.connection.state) e ordinal s (rw (fine, late) refl) h has_batch
  ]
]

by_state :
    (e : Event) (ordinal : ℕ) (s : Io) (st : ConnectionState)
    → st ≢ cs_aborted
    → handle_in st e ordinal s ≡ handle_open e ordinal s
by_state e ordinal s cs_aborted h = absurd (h refl)
by_state e ordinal s cs_closed h = refl
by_state e ordinal s cs_connecting h = refl
by_state e ordinal s cs_connected h = refl

-- A timeout, or an error of `poll`, aborts a connection that is not aborted yet and has a current batch,
-- as it has from `Connection_execute_start` on, whatever its state and the other flags of the event: the socket is closed, and every command of the batch that waited for
-- a reply has an error reply.
pub handle_event-failed :
    (e : Event) (ordinal : ℕ) (s : Io)
    → (e.error ≡ true) ⊎ (e.timeout ≡ true)
    → s.connection.state ≢ cs_aborted
    → s.connection.has_batch ≡ true
    → (t : Bytes) × ((s' : Io) × (Connection_handle_event e ordinal s ≡ some (tt, s'))
        × HasAborted s t s')
unfolding Connection_handle_event
handle_event-failed e ordinal s failed h has_batch =
    let (t, rest) = handle_open-Fails e ordinal s failed h has_batch in
    let (s', eq, has) = rest in (t, (s', by_state e ordinal s s.connection.state h ∙ eq, has))
