-- ===== src/Base/Lists.antt =====
-- Sequences measured and indexed by native numbers, under the library's names.
use Prim.Native.Nat.{ℕ, zero, suc, ◌+◌, ◌-◌, ◌≤◌, ◌<◌, min}
use mathlib.Core.Path.{◌≡◌, refl, sym, ap, ◌∙◌}
pub use mathlib.Core.List.{append_assoc}
use mathlib.Core.List.{List, [], ◌∷◌, ◌++◌}
use mathlib.Core.Logic.{◌≢◌}
use mathlib.Core.Option.{Option, none, some}
use native.Mathlib.Omega.{arith}

module _ {ℓ} {A : Type ℓ} where
  abbrev pub length : List A → ℕ
  length [] = 0
  length (x ∷ xs) = suc (length xs)

  abbrev pub get_elem? : List A → ℕ → Option A
  get_elem? [] i = none
  get_elem? (x ∷ xs) zero = some x
  get_elem? (x ∷ xs) (suc i) = get_elem? xs i

  abbrev pub take : ℕ → List A → List A
  take zero xs = []
  take (suc n) [] = []
  take (suc n) (x ∷ xs) = x ∷ take n xs

  abbrev pub drop : ℕ → List A → List A
  drop zero xs = xs
  drop (suc n) [] = []
  drop (suc n) (x ∷ xs) = drop n xs

  abbrev pub replicate : ℕ → A → List A
  replicate zero a = []
  replicate (suc n) a = a ∷ replicate n a

  -- A write out of bounds changes nothing.
  abbrev pub set : List A → ℕ → A → List A
  set [] i v = []
  set (x ∷ xs) zero v = v ∷ xs
  set (x ∷ xs) (suc i) v = x ∷ set xs i v

module _ {ℓ} {A : Type ℓ} where
  pub length-set : (xs : List A) (i : ℕ) (v : A) → length (set xs i v) ≡ length xs
  length-set [] i v = refl
  length-set (x ∷ xs) zero v = refl
  length-set (x ∷ xs) (suc i) v = ap suc (length-set xs i v)

  pub get_elem?-set :
      (xs : List A) (i : ℕ) (v : A) → i < length xs → get_elem? (set xs i v) i ≡ some v
  get_elem?-set [] i v h = absurd (omega arith)
  get_elem?-set (x ∷ xs) zero v h = refl
  get_elem?-set (x ∷ xs) (suc i) v h = get_elem?-set xs i v (omega arith)

  pub get_elem?-set_other :
      (xs : List A) (i j : ℕ) (v : A) → j ≢ i → get_elem? (set xs i v) j ≡ get_elem? xs j
  get_elem?-set_other [] i j v h = refl
  get_elem?-set_other (x ∷ xs) zero zero v h = absurd (h refl)
  get_elem?-set_other (x ∷ xs) zero (suc j) v h = refl
  get_elem?-set_other (x ∷ xs) (suc i) zero v h = refl
  get_elem?-set_other (x ∷ xs) (suc i) (suc j) v h =
      get_elem?-set_other xs i j v (λ e. h (ap suc e))

  pub length-append : (xs ys : List A) → length (xs ++ ys) ≡ length xs + length ys
  length-append [] ys = omega arith
  length-append (x ∷ xs) ys = omega (arith, length-append xs ys)

  pub length-take : (n : ℕ) (xs : List A) → length (take n xs) ≡ min n (length xs)
  length-take zero xs = omega arith
  length-take (suc n) [] = omega arith
  length-take (suc n) (x ∷ xs) = omega (arith, length-take n xs)

  pub length-drop : (n : ℕ) (xs : List A) → length (drop n xs) ≡ length xs - n
  length-drop zero xs = omega arith
  length-drop (suc n) [] = omega arith
  length-drop (suc n) (x ∷ xs) = omega (arith, length-drop n xs)

  pub length-replicate : (n : ℕ) (a : A) → length (replicate n a) ≡ n
  length-replicate zero a = refl
  length-replicate (suc n) a = ap suc (length-replicate n a)

  pub append_nil : (xs : List A) → xs ++ [] ≡ xs
  append_nil [] = refl
  append_nil (x ∷ xs) = ap (λ (ys : List A). x ∷ ys) (append_nil xs)

  pub take-append : (xs ys : List A) → take (length xs) (xs ++ ys) ≡ xs
  take-append [] ys = refl
  take-append (x ∷ xs) ys = ap (λ l. x ∷ l) (take-append xs ys)

  pub drop-append : (xs ys : List A) → drop (length xs) (xs ++ ys) ≡ ys
  drop-append [] ys = refl
  drop-append (x ∷ xs) ys = drop-append xs ys

  pub drop-nil : (n : ℕ) → drop {A = A} n [] ≡ []
  drop-nil zero = refl
  drop-nil (suc n) = refl

  pub drop-drop : (m n : ℕ) (xs : List A) → drop n (drop m xs) ≡ drop (m + n) xs
  drop-drop zero n xs = ap (λ k. drop k xs) (omega arith)
  drop-drop (suc m) n [] =
      drop-nil n ∙ ap (λ k. drop {A = A} k []) (let e : suc (m + n) ≡ suc m + n = omega arith in e)
  drop-drop (suc m) n (x ∷ xs) =
      drop-drop m n xs
      ∙ ap (λ k. drop k (x ∷ xs)) (let e : suc (m + n) ≡ suc m + n = omega arith in e)

  -- The element at an index is the head of what is dropped to there.
  pub get_elem?-drop :
      (xs : List A) (i : ℕ) {x : A} {ys : List A} → drop i xs ≡ x ∷ ys → get_elem? xs i ≡ some x
  get_elem?-drop [] zero h = ground arith
  get_elem?-drop [] (suc i) h = ground arith
  get_elem?-drop (x ∷ xs) zero h = ground arith
  get_elem?-drop (x ∷ xs) (suc i) h = get_elem?-drop xs i h

  pub get_elem?-total : (xs : List A) (i : ℕ) → i < length xs → (x : A) × (get_elem? xs i ≡ some x)
  get_elem?-total [] i h = absurd (omega arith)
  get_elem?-total (x ∷ xs) zero h = (x, refl)
  get_elem?-total (x ∷ xs) (suc i) h = get_elem?-total xs i (omega arith)

  pub get_elem?-some-lt : (xs : List A) (i : ℕ) {x : A} → get_elem? xs i ≡ some x → i < length xs
  get_elem?-some-lt [] i h = ground arith
  get_elem?-some-lt (y ∷ xs) zero h = omega arith
  get_elem?-some-lt (y ∷ xs) (suc i) h = omega (arith, get_elem?-some-lt xs i h)

  pub get_elem?-of_drop : (m i : ℕ) (xs : List A) → get_elem? (drop m xs) i ≡ get_elem? xs (m + i)
  get_elem?-of_drop zero i xs = ap (get_elem? xs) (omega arith)
  get_elem?-of_drop (suc m) i [] = refl
  get_elem?-of_drop (suc m) i (x ∷ xs) =
      let e : suc (m + i) ≡ suc m + i = omega arith in
      get_elem?-of_drop m i xs ∙ ap (get_elem? (x ∷ xs)) e

  pub get_elem?-of_take : (n i : ℕ) (xs : List A) → i < n → get_elem? (take n xs) i ≡ get_elem? xs i
  get_elem?-of_take zero i xs h = absurd (omega arith)
  get_elem?-of_take (suc n) i [] h = refl
  get_elem?-of_take (suc n) zero (x ∷ xs) h = refl
  get_elem?-of_take (suc n) (suc i) (x ∷ xs) h = get_elem?-of_take n i xs (omega arith)

  pub get_elem?-of_append :
      (i : ℕ) (xs ys : List A) → i < length xs → get_elem? (xs ++ ys) i ≡ get_elem? xs i
  get_elem?-of_append i [] ys h = absurd (omega arith)
  get_elem?-of_append zero (x ∷ xs) ys h = refl
  get_elem?-of_append (suc i) (x ∷ xs) ys h = get_elem?-of_append i xs ys (omega arith)

  pub take-take-append :
      (xs ys zs : List A) (i : ℕ)
      → i ≤ length xs
      → take (i + length ys) (take i xs ++ (ys ++ zs)) ≡ take i xs ++ ys
  take-take-append xs ys zs i h =
      ap (λ (k : ℕ). take k (take i xs ++ (ys ++ zs)))
        (let e : i + length ys ≡ length (take i xs ++ ys) =
            omega (arith, length-append (take i xs) ys, length-take i xs) in
          e)
      ∙ ap (take (length (take i xs ++ ys))) (sym (append_assoc (take i xs) ys zs))
      ∙ take-append (take i xs ++ ys) zs

  pub take-of_append : (i : ℕ) (xs ys : List A) → i ≤ length xs → take i (xs ++ ys) ≡ take i xs
  take-of_append zero xs ys h = refl
  take-of_append (suc i) [] ys h = absurd (omega arith)
  take-of_append (suc i) (x ∷ xs) ys h = ap (λ l. x ∷ l) (take-of_append i xs ys (omega arith))

  pub take-all : (i : ℕ) (xs : List A) → length xs ≤ i → take i xs ≡ xs
  take-all zero [] h = refl
  take-all zero (x ∷ xs) h = absurd (omega arith)
  take-all (suc i) [] h = refl
  take-all (suc i) (x ∷ xs) h = ap (λ l. x ∷ l) (take-all i xs (omega arith))

  take-nil : (n : ℕ) → take {A = A} n [] ≡ []
  take-nil zero = refl
  take-nil (suc n) = refl

  pub take-append-drop : (n : ℕ) (xs : List A) → take n xs ++ drop n xs ≡ xs
  take-append-drop zero xs = refl
  take-append-drop (suc n) [] = refl
  take-append-drop (suc n) (x ∷ xs) = ap (λ l. x ∷ l) (take-append-drop n xs)

  -- A prefix taken in two pieces
  pub take-take-drop :
      (n m : ℕ) (xs : List A) → take n (take (n + m) xs) ++ take m (drop n xs) ≡ take (n + m) xs
  take-take-drop zero m xs = ap (λ (k : ℕ). take k xs) (omega arith)
  take-take-drop (suc n) m [] =
      let e : suc (n + m) ≡ suc n + m = omega arith in rw (← e) (take-nil m)
  take-take-drop (suc n) m (x ∷ xs) =
      let e : suc (n + m) ≡ suc n + m = omega arith in
      rw (← e) (ap (λ l. x ∷ l) (take-take-drop n m xs))

  pub take-of_take : (i n : ℕ) (xs : List A) → i ≤ n → take i (take n xs) ≡ take i xs
  take-of_take zero n xs h = refl
  take-of_take (suc i) zero xs h = absurd (omega arith)
  take-of_take (suc i) (suc n) [] h = refl
  take-of_take (suc i) (suc n) (x ∷ xs) h = ap (λ l. x ∷ l) (take-of_take i n xs (omega arith))

  -- Of two ways to cut one sequence, the shorter front begins the longer one,
  pub take-of_cut :
      (xs zs ps bs : List A)
      → xs ++ zs ≡ ps ++ bs
      → length ps ≤ length xs
      → take (length ps) xs ≡ ps
  take-of_cut xs zs ps bs e h =
      sym (take-of_append (length ps) xs zs h) ∙ ap (take (length ps)) e ∙ take-append ps bs

  -- and is completed by what the longer one has behind it.
  pub append-drop-of_cut :
      (xs zs ps bs : List A)
      → xs ++ zs ≡ ps ++ bs
      → length xs ≤ length ps
      → xs ++ drop (length xs) ps ≡ ps
  append-drop-of_cut xs zs ps bs e h =
      ap (λ (l : List A). l ++ drop (length xs) ps) (sym (take-of_cut ps bs xs zs (sym e) h))
      ∙ take-append-drop (length xs) ps

  pub get_elem?-last : (xs : List A) (x : A) → get_elem? (xs ++ x ∷ []) (length xs) ≡ some x
  get_elem?-last [] x = refl
  get_elem?-last (y ∷ xs) x = get_elem?-last xs x
