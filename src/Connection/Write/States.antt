-- ===== src/Connection/Write/States.antt =====
-- The states that `Connection_write_data` leads to: the socket is made, connected, and written to.
use libredis.Base.{
  ℕ, zero, suc, ◌≤◌, ◌≡◌, ◌≢◌, ◌⊎◌, inl, inr, refl, sym, ap, Bool, true, false, Option, none, some,
  Bytes, arith, if◌then◌else◌, leb, ltb, length, List, ◌∷◌, ◌++◌,
}
use mathlib.Core.Path.{subst}
use libredis.Base.Int.{pos, negsuc}
use libredis.Buffer.{Buffer_remaining}
use libredis.Connection.{
  Connection, ConnectionState, cs_closed, cs_connecting, cs_connected, cs_aborted, Answer,
  getaddrinfo_answer, fcntl_answer, socket_answer, connect_ok, connect_in_progress, connect_failed,
  getsockopt_failed, getsockopt_answer, write_answer, again, io_failed, Io, M, ◌>>=◌, ◌>>◌, pure,
  done, next_answer, notify, Connection_abort, PollFd,
}
use libredis.Connection.States.{
  IsOpen, Fits, IsConsistent, rank, Good, After, >>=-After, Same, notify-Same, Aborted,
  abort-Aborted,
}
use libredis.Connection.Write.Sends.{with_answers}
use libredis.Connection.Write.{
  text, set_nonblocking, open_socket, Connection_create_socket, start_connect, finish_connect,
  write_once, write_loop, connect_socket, Connection_write_data, write_connected, write_connecting,
  write_all,
}

-- A socket that is made but not connected yet; or the connection has been aborted.
abbrev Made : Bool → Io → Type 0
Made true s = IsOpen s.connection × (s.connection.state ≡ cs_closed)
Made false s = Aborted {A = Unit {0}} tt s

not_aborted : (s : Io) → s.connection.state ≡ cs_closed → s.connection.state ≢ cs_aborted
not_aborted s e f = ground (arith, e, f)

connecting-open : (s : Io) → s.connection.state ≡ cs_connecting → s.connection.state ≢ cs_aborted
connecting-open s e f = ground (arith, e, f)

-- An abort, and the result `false`
fails-Made :
    (t : Bytes) (s : Io)
    → s.connection.state ≡ cs_closed
    → After Made ((Connection_abort t >> pure false) s)
fails-Made t s e =
    >>=-After (Connection_abort t) (λ _. pure false) s Aborted Made
      (abort-Aborted t s (inl (not_aborted s e))) (λ _ s' h. h)

-- Each lemma on a function takes the answers that are left and the rest of the state.
set_nonblocking-Made :
    (l : List Answer) (s : Io) → Made true s → After Made (set_nonblocking (with_answers l s))
unfolding set_nonblocking next_answer
set_nonblocking-Made (fcntl_answer true ∷ fcntl_answer true ∷ l) s h = h
set_nonblocking-Made (fcntl_answer true ∷ fcntl_answer false ∷ l) s h =
    fails-Made (text "could not set socket to non-blocking mode") (with_answers l s) h.1
set_nonblocking-Made (fcntl_answer false ∷ l) s h =
    fails-Made (text "could not get socket flags for") (with_answers l s) h.1
set_nonblocking-Made _ s h = tt

open_socket-Made :
    (l : List Answer) (s : Io)
    → s.connection.addrinfo ≡ true
    → s.connection.state ≡ cs_closed
    → After Made (open_socket (with_answers l s))
unfolding open_socket next_answer
open_socket-Made (socket_answer (some fd) ∷ l) s listed closed =
    set_nonblocking-Made l (record s { connection = record s.connection { sockfd = pos fd } })
      ((listed, (fd, refl)), closed)
open_socket-Made (socket_answer none ∷ l) s listed closed =
    fails-Made (text "could not create socket")
      (record s { connection = record s.connection { sockfd = negsuc 0 }; answers = l }) closed
open_socket-Made _ s listed closed = tt

create_socket-Made :
    (l : List Answer) (s : Io)
    → s.connection.state ≡ cs_closed
    → After Made (Connection_create_socket (with_answers l s))
unfolding Connection_create_socket next_answer
create_socket-Made (getaddrinfo_answer true ∷ l) s closed =
    open_socket-Made l (record s { connection = record s.connection { addrinfo = true } }) refl
      closed
create_socket-Made (getaddrinfo_answer false ∷ l) s closed =
    fails-Made (text "could not resolve address") (with_answers l s) closed
create_socket-Made _ s closed = tt

-- A handler's step, on a connection that has come as far as `r`
abbrev pub Keeps : {A : Type 0} → ℕ → M A → Type 0
Keeps r m = (l : List Answer) (s : Io) → Good r s → After (λ _ t. Good r t) (m (with_answers l s))

pub abort-Good :
    {A : Type 0} (r : ℕ) (t : Bytes) (a : A) (s : Io)
    → r ≤ 3
    → (s.connection.state ≢ cs_aborted) ⊎ IsConsistent s.connection
    → After (λ _ u. Good r u) ((Connection_abort t >> pure a) s)
abort-Good r t a s le h =
    >>=-After (Connection_abort t) (λ _. pure a) s Aborted (λ _ u. Good r u) (abort-Aborted t s h)
      (λ _ u h'. (h'.0, omega (arith, le, ap rank h'.1)))

-- A wish for another event
pub notify-Good :
    {A : Type 0} (r : ℕ) (change : PollFd → PollFd) (ordinal : ℕ) (a : A) (s : Io)
    → Good r s
    → After (λ _ t. Good r t) ((notify change ordinal >> pure a) s)
notify-Good r change ordinal a s h =
    >>=-After (notify change ordinal) (λ _. pure a) s (Same s) (λ _ t. Good r t)
      (notify-Same change ordinal s)
      (λ _ t same. subst (λ (c : Connection). IsConsistent c × (r ≤ rank c.state)) (sym same) h)

connect_socket-Good :
    (ordinal : ℕ) (l : List Answer) (s : Io)
    → Made true s
    → After (λ _ t. Good 1 t) (connect_socket ordinal (with_answers l s))
unfolding connect_socket next_answer
connect_socket-Good ordinal (connect_ok ∷ l) s h = (h.0, omega arith)
connect_socket-Good ordinal (connect_in_progress ∷ l) s h =
    notify-Good 1 (λ e. record e { pollout = true }) ordinal false
      (record s { connection = record s.connection { state = cs_connecting }; answers = l })
      (h.0, omega arith)
connect_socket-Good ordinal (connect_failed errno ∷ l) s h =
    abort-Good 1 (text "connect error 1, errno " ++ errno) false (with_answers l s) (omega arith)
      (inl (not_aborted s h.1))
connect_socket-Good ordinal _ s h = tt

finish_connect-Good :
    (r ordinal : ℕ) (l : List Answer) (s : Io)
    → r ≤ 1
    → IsOpen s.connection
    → s.connection.state ≡ cs_connecting
    → After (λ _ t. Good r t) (finish_connect ordinal (with_answers l s))
unfolding finish_connect next_answer
finish_connect-Good r ordinal (getsockopt_failed errno ∷ l) s le h connecting =
    abort-Good r (text "getsockopt error for connect result, errno: " ++ errno) false
      (with_answers l s) (omega arith) (inl (connecting-open s connecting))
finish_connect-Good r ordinal (getsockopt_answer true errno ∷ l) s le h connecting =
    abort-Good r (text "connect error 2, errno: " ++ errno) false (with_answers l s) (omega arith)
      (inl (connecting-open s connecting))
finish_connect-Good r ordinal (getsockopt_answer false errno ∷ l) s le h connecting =
    notify-Good r (λ e. record e { pollin = true }) ordinal true
      (record s { connection = record s.connection { state = cs_connected }; answers = l })
      (h, omega (arith, le))
finish_connect-Good r ordinal _ s le h connecting = tt

start_connect-Good :
    (ordinal : ℕ) (l : List Answer) (s : Io)
    → s.connection.state ≡ cs_closed
    → After (λ _ t. Good 1 t) (start_connect ordinal (with_answers l s))
unfolding start_connect
start_connect-Good ordinal l s closed =
    >>=-After Connection_create_socket _ (with_answers l s) Made (λ _ t. Good 1 t)
      (create_socket-Made l s closed) (λ created t made. on_created created t made)
  where
    on_created :
        (created : Bool) (t : Io)
        → Made created t
        → After
            (λ _ u. Good 1 u)
            ((elim created as (λ _. M Bool) [ false ↦ pure false | true ↦ connect_socket ordinal ])
              t)
    on_created true t made = connect_socket-Good ordinal t.answers t made
    on_created false t made = (made.0, omega (arith, ap rank made.1))

-- What is done where a test holds, and is undefined elsewhere
pub if_taken :
    {A : Type 0} (P : A → Io → Type 0) (b : Bool) (m : M A) (t : Io)
    → After P (m t)
    → After P (if◌then◌else◌ {A = M A} b m (λ _. none) t)
if_taken P true m t h = h
if_taken P false m t h = tt

write_once-Good : (r ordinal : ℕ) → r ≤ 2 → Keeps r (write_once ordinal)
unfolding write_once next_answer
write_once-Good r ordinal le (write_answer n ∷ l) s h =
    if_taken (λ _ t. Good r t) (leb n (Buffer_remaining s.batch.write_buffer)) _ (with_answers l s)
      h
write_once-Good r ordinal le (again ∷ l) s h =
    notify-Good r (λ e. record e { pollout = true }) ordinal false (with_answers l s) h
write_once-Good r ordinal le (io_failed errno ∷ l) s h =
    abort-Good r (text "write error, errno: " ++ errno) false (with_answers l s) (omega arith)
      (inr h.0)
write_once-Good r ordinal le _ s h = tt

write_loop-Good :
    (r f ordinal : ℕ) (s : Io) → r ≤ 2 → Good r s → After (λ _ t. Good r t) (write_loop f ordinal s)
unfolding write_loop
write_loop-Good r zero ordinal s le h = tt
write_loop-Good r (suc f) ordinal s le h =
    in_test (ltb 0 (Buffer_remaining s.batch.write_buffer)) (write_once ordinal s)
      (write_once-Good r ordinal le s.answers s h) (λ t h'. write_loop-Good r f ordinal t le h')
  where
    in_test :
        (b : Bool) (o : Option (Bool × Io))
        → After (λ _ t. Good r t) o
        → ((t : Io) → Good r t → After (λ _ u. Good r u) (write_loop f ordinal t))
        → After
            (λ _ t. Good r t)
            (elim b as (λ _. Option (Unit {0} × Io)) [
              | false ↦ some (tt, s)
              | true ↦ elim o as (λ _. Option (Unit {0} × Io)) [
                | none ↦ none
                | some (true, s') ↦ write_loop f ordinal s'
                | some (false, s') ↦ some (tt, s')
              ]
            ])
    in_test false o once next = h
    in_test true none once next = tt
    in_test true (some (true, t)) once next = next t once
    in_test true (some (false, t)) once next = once

write_connected-Good :
    (r ordinal : ℕ) (s : Io) → Good r s → After (λ _ t. Good r t) (write_connected ordinal s)
write_connected-Good r ordinal s h = in_state s.connection.state refl
  where
    in_state :
        (st : ConnectionState)
        → s.connection.state ≡ st
        → After
            (λ _ t. Good r t)
            ((elim st as (λ _. M (Unit {0})) [ cs_connected ↦ write_all ordinal | _ ↦ done ]) s)
    in_state cs_closed e = h
    in_state cs_connecting e = h
    in_state cs_connected e =
        write_loop-Good r (suc (length s.answers)) ordinal s (omega (arith, h.1, ap rank e)) h
    in_state cs_aborted e = h

write_connecting-Good :
    (r ordinal : ℕ) (s : Io) → Good r s → After (λ _ t. Good r t) (write_connecting ordinal s)
write_connecting-Good r ordinal s h = in_state s.connection.state refl
  where
    on :
        (go : Bool) (t : Io)
        → Good r t
        → After
            (λ _ u. Good r u)
            ((elim go as (λ _. M (Unit {0})) [ true ↦ write_connected ordinal | false ↦ done ]) t)
    on true t h' = write_connected-Good r ordinal t h'
    on false t h' = h'

    in_state :
        (st : ConnectionState)
        → s.connection.state ≡ st
        → After
            (λ _ t. Good r t)
            ((elim st as (λ _. M (Unit {0})) [
              | cs_connecting ↦ do
                on ← finish_connect ordinal
                elim on [ true ↦ write_connected ordinal | false ↦ done ]
              | _ ↦ write_connected ordinal
            ])
              s)
    in_state cs_closed e = write_connected-Good r ordinal s h
    in_state cs_connecting e =
        >>=-After (finish_connect ordinal) _ s (λ _ t. Good r t) (λ _ t. Good r t)
          (finish_connect-Good r ordinal s.answers s (omega (arith, h.1, ap rank e))
            (subst (λ (x : ConnectionState). Fits x s.connection) e h.0) e)
          on
    in_state cs_connected e = write_connected-Good r ordinal s h
    in_state cs_aborted e = write_connected-Good r ordinal s h

-- How far the connection is, at least, when something has been written from a state
abbrev pub written_rank : ConnectionState → ℕ
written_rank cs_closed = 1
written_rank st = rank st

pub write_data-Good :
    (ordinal : ℕ) (s : Io)
    → IsConsistent s.connection
    → After (λ _ t. Good (written_rank s.connection.state) t) (Connection_write_data ordinal s)
unfolding Connection_write_data
write_data-Good ordinal s h = in_state s.connection.state refl
  where
    on :
        (go : Bool) (t : Io)
        → Good 1 t
        → After
            (λ _ u. Good 1 u)
            ((elim go as (λ _. M (Unit {0})) [ true ↦ write_connecting ordinal | false ↦ done ]) t)
    on true t h' = write_connecting-Good 1 ordinal t h'
    on false t h' = h'

    in_state :
        (st : ConnectionState)
        → s.connection.state ≡ st
        → After
            (λ _ t. Good (written_rank st) t)
            ((elim st as (λ _. M (Unit {0})) [
              | cs_aborted ↦ done
              | cs_closed ↦ do
                on ← start_connect ordinal
                elim on [ true ↦ write_connecting ordinal | false ↦ done ]
              | _ ↦ write_connecting ordinal
            ])
              s)
    in_state cs_closed e =
        >>=-After (start_connect ordinal) _ s (λ _ t. Good 1 t) (λ _ t. Good 1 t)
          (start_connect-Good ordinal s.answers s e) on
    in_state cs_connecting e = write_connecting-Good 1 ordinal s (h, omega (arith, ap rank e))
    in_state cs_connected e = write_connecting-Good 2 ordinal s (h, omega (arith, ap rank e))
    in_state cs_aborted e = (h, omega (arith, ap rank e))
