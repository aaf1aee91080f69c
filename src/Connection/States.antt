-- ===== src/Connection/States.antt =====
-- The states of a connection: what each says of its socket and address list, and what an operation leaves.
use libredis.Base.{
  Bool-cases, ℕ, ◌≤◌, ◌≡◌, ◌≢◌, ◌⊎◌, inl, inr, refl, sym, ap, ◌∙◌, true, false, Option, none, some,
  Bytes, get_elem?, set, List, [], ◌∷◌,
}
use mathlib.Core.Path.{subst}
use libredis.Base.Int.{pos, is_positive, increment}
use libredis.Connection.{
  Connection, ConnectionState, cs_closed, cs_connecting, cs_connected, cs_aborted, PollFd, Answer,
  Io, M, ◌>>=◌, next_answer, notify, Connection_abort,
}
use libredis.Connection.Abort.{
  connection_abort-run, connection_abort-no_batch, state-cases, HasBatch,
}

-- No socket is open, and no address list is held.
abbrev pub IsShut : Connection → Type 0
IsShut c = (is_positive c.sockfd ≡ false) × (c.addrinfo ≡ false)

-- The connection has its socket and its address list.
abbrev pub IsOpen : Connection → Type 0
IsOpen c = (c.addrinfo ≡ true) × ((fd : ℕ) × (c.sockfd ≡ pos fd))

abbrev pub Fits : ConnectionState → Connection → Type 0
Fits cs_closed c = IsShut c
Fits cs_connecting c = IsOpen c
Fits cs_connected c = IsOpen c
Fits cs_aborted c = IsShut c × (c.has_batch ≡ false)

abbrev pub IsConsistent : Connection → Type 0
IsConsistent c = Fits c.state c

-- The order in which a connection goes through its states
abbrev pub rank : ConnectionState → ℕ
rank cs_closed = 0
rank cs_connecting = 1
rank cs_connected = 2
rank cs_aborted = 3

-- The connection is consistent, and at least as far as `r`.
abbrev pub Good : ℕ → Io → Type 0
Good r s = IsConsistent s.connection × (r ≤ rank s.connection.state)

-- What holds of the result, where there is one
abbrev pub After : {A : Type 0} → (A → Io → Type 0) → Option (A × Io) → Type 0
After P none = Unit {0}
After P (some (a, s)) = P a s

module _ {A B : Type 0} where
  then_in :
      (f : A → M B) (Q : A → Io → Type 0) (P : B → Io → Type 0) (o : Option (A × Io))
      → After Q o
      → ((a : A) (t : Io) → Q a t → After P (f a t))
      → After P (elim o as (λ _. Option (B × Io)) [ none ↦ none | some (a, t) ↦ f a t ])
  then_in f Q P none first next = tt
  then_in f Q P (some (a, t)) first next = next a t first

  -- What holds after two steps
  pub >>=-After :
      (m : M A) (f : A → M B) (s : Io) (Q : A → Io → Type 0) (P : B → Io → Type 0)
      → After Q (m s)
      → ((a : A) (t : Io) → Q a t → After P (f a t))
      → After P ((m >>= f) s)
  >>=-After m f s Q P first next = then_in f Q P (m s) first next

module _ {A : Type 0} where
  pub After-weaken :
      (Q P : A → Io → Type 0) (o : Option (A × Io))
      → After Q o
      → ((a : A) (t : Io) → Q a t → P a t)
      → After P o
  After-weaken Q P none first next = tt
  After-weaken Q P (some (a, t)) first next = next a t first

  pub After-some :
      (P : A → Io → Type 0) (o : Option (A × Io)) {a : A} {t : Io}
      → o ≡ some (a, t)
      → After P o
      → P a t
  After-some P o {a} {t} e h = subst (After P) e h

-- The connection is as it was.
abbrev pub Same : {A : Type 0} → Io → A → Io → Type 0
Same s a t = t.connection ≡ s.connection

pub next_answer-Same : (s : Io) → After (Same s) (next_answer s)
unfolding next_answer
next_answer-Same s = in_list s.answers
  where
    in_list :
        (l : List Answer)
        → After (Same s) (elim l as (λ _. Option (Answer × Io)) [
          | [] ↦ none
          | a ∷ later ↦ some (a, record s { answers = later })
        ])
    in_list [] = tt
    in_list (a ∷ later) = refl

pub notify-Same :
    (change : PollFd → PollFd) (ordinal : ℕ) (s : Io) → After (Same s) (notify change ordinal s)
unfolding notify
notify-Same change ordinal s = in_entry (get_elem? s.fds ordinal)
  where
    in_entry :
        (o : Option PollFd)
        → After (Same s) (elim o as (λ _. Option (Unit {0} × Io)) [
          | none ↦ none
          | some e ↦ some (
            tt,
            record s {
              fds = set s.fds ordinal (record (change e) { fd = s.connection.sockfd });
              numevents = increment s.numevents;
            },
          )
        ])
    in_entry none = tt
    in_entry (some e) = refl

-- An abort
abbrev pub Aborted : {A : Type 0} → A → Io → Type 0
Aborted a t = IsConsistent t.connection × (t.connection.state ≡ cs_aborted)

abort-Aborted_run :
    (text : Bytes) (s : Io)
    → HasBatch s.connection
    → (s.connection.state ≢ cs_aborted) ⊎ IsConsistent s.connection
    → After Aborted (Connection_abort text s)
abort-Aborted_run text s w h =
    let (s', e, opened, shut) = connection_abort-run text s w in
    let P : Unit {0} → Io → Type 0 = Aborted in
    subst (After P) (sym e) (elim (state-cases s.connection.state) [
      | inl other ↦
          let a = opened other in
          (
            subst (λ (st : ConnectionState). Fits st s'.connection) (sym a.aborted)
                ((a.closed, a.freed), a.detached),
            a.aborted,
          )
      | inr aborted ↦
          let same = shut aborted in
          (
            elim h [
              | inl other ↦ absurd (other aborted)
              | inr ok ↦ subst (λ (x : Io). IsConsistent x.connection) (sym same) ok
            ],
            ap (λ (x : Io). x.connection.state) same ∙ aborted,
          )
    ])

pub abort-Aborted :
    (text : Bytes) (s : Io)
    → (s.connection.state ≢ cs_aborted) ⊎ IsConsistent s.connection
    → After Aborted (Connection_abort text s)
abort-Aborted text s h =
    let P : Unit {0} → Io → Type 0 = Aborted in
    elim (state-cases s.connection.state) [
      | inr aborted ↦ abort-Aborted_run text s (λ ne. absurd (ne aborted)) h
      | inl other ↦ elim (Bool-cases s.connection.has_batch) [
        | inl has ↦ abort-Aborted_run text s (λ ne. has) h
        | inr none_there ↦
            subst (After P) (sym (connection_abort-no_batch text s other none_there)) tt
      ]
    ]
