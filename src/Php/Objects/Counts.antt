-- ===== src/Php/Objects/Counts.antt =====
-- Counting the entries of a table, and the objects that are there, as the operations on the PHP extension's
-- objects change them.
use libredis.Base.{
  ℕ, zero, suc, ◌+◌, ◌≤◌, ◌<◌, ◌≡◌, inl, inr, refl, ap, false, Option, none, some, List, [], ◌∷◌,
  ◌++◌, arith, length, get_elem?, set, if◌then◌else◌, ◌==◌, Option-cases,
}
use libredis.Php.Objects.{contains, hash_update, hash_del, deref}

-- 1 if the two numbers are the same
abbrev pub one_if : ℕ → ℕ → ℕ
one_if x h = if x == h then 1 else 0

abbrev pub count : ℕ → List ℕ → ℕ
count h [] = 0
count h (x ∷ xs) = one_if x h + count h xs

-- 1 if an object is there at the address
abbrev pub one_of : {T : Type 0} → Option T → ℕ
one_of none = 0
one_of (some x) = 1

abbrev pub live_at : {T : Type 0} → ℕ → List (Option T) → ℕ
live_at h m = one_of (deref h m)

pub count-append : (h x : ℕ) (xs : List ℕ) → count h (xs ++ x ∷ []) ≡ count h xs + one_if x h
count-append h x [] = omega arith
count-append h x (y ∷ ys) = omega (arith, count-append h x ys)

pub count-set :
    (x y h o : ℕ) (xs : List ℕ)
    → get_elem? xs o ≡ some h
    → count x (set xs o y) + one_if h x ≡ count x xs + one_if y x
count-set x y h o [] e = ground (arith, e)
count-set x y h zero (z ∷ zs) e = ground (arith, e)
count-set x y h (suc o) (z ∷ zs) e = omega (arith, count-set x y h o zs e)

pub count-at : (h o : ℕ) (xs : List ℕ) → get_elem? xs o ≡ some h → 1 ≤ count h xs
count-at h o [] e = ground (arith, e)
count-at h zero (z ∷ zs) e = ground (arith, e)
count-at h (suc o) (z ∷ zs) e = omega (arith, count-at h o zs e)

pub hash_update-new : (h : ℕ) (t : List ℕ) → count h t ≡ 0 → hash_update h t ≡ t ++ h ∷ []
unfolding hash_update
hash_update-new h t e = rw (absent h t e) refl
  where
    absent : (h : ℕ) (t : List ℕ) → count h t ≡ 0 → contains h t ≡ false
    absent h [] e = refl
    absent h (x ∷ xs) e = ground (arith, absent h xs)

pub hash_del-absent : (h : ℕ) (t : List ℕ) → count h t ≡ 0 → hash_del h t ≡ t
unfolding hash_del
hash_del-absent h [] e = refl
hash_del-absent h (x ∷ xs) e = ground (arith, hash_del-absent h xs)

pub count-hash_del :
    (x h : ℕ) (t : List ℕ) → 1 ≤ count h t → count x (hash_del h t) + one_if h x ≡ count x t
unfolding hash_del
count-hash_del x h [] e = absurd (omega arith)
count-hash_del x h (y ∷ ys) e = ground (arith, count-hash_del x h ys)

module _ {T : Type 0} where
  pub live_at-le : (h : ℕ) (m : List (Option T)) → live_at h m ≤ 1
  live_at-le h m = elim (Option-cases (deref h m)) [
    | inl e ↦ omega (arith, ap one_of e)
    | inr (x, e) ↦ omega (arith, ap one_of e)
  ]

  pub live_at-beyond : (h : ℕ) (m : List (Option T)) → length m < h → live_at h m ≡ 0
  unfolding deref
  live_at-beyond zero m lt = refl
  live_at-beyond (suc k) [] lt = refl
  live_at-beyond (suc zero) (cell ∷ m) lt = absurd (omega arith)
  live_at-beyond (suc (suc k)) (cell ∷ m) lt = live_at-beyond (suc k) m (omega arith)

  pub live_at-append :
      (h : ℕ) (x : T) (m : List (Option T))
      → live_at h (m ++ some x ∷ []) ≡ live_at h m + one_if (suc (length m)) h
  unfolding deref
  live_at-append zero x m = ground arith
  live_at-append (suc zero) x [] = refl
  live_at-append (suc (suc k)) x [] = ground arith
  live_at-append (suc zero) x (none ∷ m) = ground arith
  live_at-append (suc zero) x (some y ∷ m) = ground arith
  live_at-append (suc (suc k)) x (cell ∷ m) = ground (arith, live_at-append (suc k) x m)

  pub live_at-write :
      (h k : ℕ) (x y : T) (m : List (Option T))
      → deref (suc k) m ≡ some x
      → live_at h (set m k (some y)) ≡ live_at h m
  unfolding deref
  live_at-write zero k x y m e = refl
  live_at-write (suc j) k x y [] e = refl
  live_at-write (suc zero) zero x y (cell ∷ m) e = rw e refl
  live_at-write (suc zero) (suc k) x y (cell ∷ m) e = refl
  live_at-write (suc (suc j)) zero x y (cell ∷ m) e = refl
  live_at-write (suc (suc j)) (suc k) x y (cell ∷ m) e = live_at-write (suc j) k x y m e

  pub live_at-clear :
      (h k : ℕ) (x : T) (m : List (Option T))
      → deref (suc k) m ≡ some x
      → live_at h (set m k none) + one_if (suc k) h ≡ live_at h m
  unfolding deref
  live_at-clear zero k x m e = ground arith
  live_at-clear (suc j) k x [] e = ground (arith, e)
  live_at-clear (suc zero) zero x (cell ∷ m) e = rw e refl
  live_at-clear (suc zero) (suc k) x (cell ∷ m) e = ground arith
  live_at-clear (suc (suc j)) zero x (cell ∷ m) e = ground arith
  live_at-clear (suc (suc j)) (suc k) x (cell ∷ m) e = ground (arith, live_at-clear (suc j) k x m e)

  pub live_at-there :
      (h : ℕ) (m : List (Option T)) → 1 ≤ live_at h m → (x : T) × (deref h m ≡ some x)
  live_at-there h m le = elim (Option-cases (deref h m)) [
    | inl e ↦ absurd (omega (arith, ap one_of e))
    | inr found ↦ found
  ]

  pub live_at-some : (h : ℕ) (x : T) (m : List (Option T)) → deref h m ≡ some x → live_at h m ≡ 1
  live_at-some h x m e = ap one_of e

  pub live_at-null : (m : List (Option T)) → live_at 0 m ≡ 0
  unfolding deref
  live_at-null m = refl
