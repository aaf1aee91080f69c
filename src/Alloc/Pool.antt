-- ===== src/Alloc/Pool.antt =====
-- The objects of one type, in use and in the free list, over any series of allocations and frees.
use libredis.Base.{
  ℕ, suc, ◌+◌, ◌*◌, ◌%◌, ◌≤◌, ◌<◌, ◌≡◌, refl, sym, ap, ◌∙◌, inl, inr, Bool, true, false, not, List,
  [], ◌∷◌, arith, length, if◌then◌else◌, ◌==◌, Bool-cases, ==_iff,
}
use libredis.Buffer.{size_mod, sub_size}
use libredis.Alloc.{Store, Alloc_alloc, Alloc_free, add_size, pop_last, list_alloc, list_free}

abbrev pub same : ℕ → ℕ → ℕ
same x y = if x == y then 1 else 0

abbrev pub occurs : ℕ → List ℕ → ℕ
occurs x [] = 0
occurs x (y ∷ ys) = same x y + occurs x ys

abbrev pub remove : ℕ → List ℕ → List ℕ
remove x [] = []
remove x (y ∷ ys) = let rest = remove x ys in if x == y then ys else y ∷ rest

pub pop_last-occurs :
    (z x : ℕ) (xs : List ℕ)
    → (occurs z (x ∷ xs) ≡ same z (pop_last x xs).0 + occurs z (pop_last x xs).1)
      × (length xs ≡ length (pop_last x xs).1)
pop_last-occurs z x [] = (refl, refl)
pop_last-occurs z x (y ∷ ys) =
    let (a, b) = pop_last-occurs z y ys in (omega (arith, a), omega (arith, b))

remove-occurs :
    (z x : ℕ) (xs : List ℕ)
    → 0 < occurs x xs
    → (occurs z xs ≡ same z x + occurs z (remove x xs)) × (length xs ≡ suc (length (remove x xs)))
remove-occurs z x [] h = absurd (omega arith)
remove-occurs z x (y ∷ ys) h = elim (Bool-cases (x == y)) [
  | inl e ↦ rw e (ap (λ k. same z k + occurs z ys) (sym ((==_iff x y).0 e)), refl)
  | inr ne ↦
      let here = rw ne at h in
      let later : 0 < occurs x ys = omega (arith, here) in
      let (a, b) = remove-occurs z x ys later in rw ne (omega (arith, a), omega (arith, b))
]

mod_add : (k size : ℕ) → add_size (k % size_mod) size ≡ (k + size) % size_mod
mod_add k size = omega arith

pub mod_sub : (k size : ℕ) → size < size_mod → sub_size ((k + size) % size_mod) size ≡ k % size_mod
mod_sub k size h = omega arith

-- The store with the objects that the callers hold
pub record Pool : Type 0 where
  pub store : Store
  pub used : List ℕ

abbrev allocated_to : List ℕ → ℕ × Bool × Store → Pool
allocated_to used (obj, is_new, m) = record { store = m; used = obj ∷ used }

-- A call of `T_list_alloc`, for which the program's function returns an object that is not in use and not in the
-- free list, or of `T_free` with an object in use
pub data Step (single : Bool) (size : ℕ) : Pool → Pool → Type 0 where
  allocates :
      (p : Pool) (fresh : ℕ)
      → occurs fresh p.used ≡ 0
      → occurs fresh p.store.free_list ≡ 0
      → Step single size p (allocated_to p.used (list_alloc single size fresh p.store))
  frees :
      (p : Pool) (obj : ℕ)
      → 0 < occurs obj p.used
      → Step single size p (record {
        store = list_free single (not single) size obj p.store;
        used = remove obj p.used;
      })

pub data Steps (single : Bool) (size : ℕ) : Pool → Pool → Type 0 where
  stop : (p : Pool) → Steps single size p p
  more : (p q r : Pool) → Step single size p q → Steps single size q r → Steps single size p r

-- No object is held twice, nor held and in the free list, nor twice in the free list; and the count is that
-- of the objects held and in the free list, in a `size_t`.
pub record IsPool (size : ℕ) (p : Pool) : Type 0 where
  pub once : (x : ℕ) → occurs x p.used + occurs x p.store.free_list ≤ 1
  pub counted : p.store.allocated ≡ ((length p.used + length p.store.free_list) * size) % size_mod

fresh-once :
    (x fresh : ℕ) (used free : List ℕ)
    → occurs fresh used ≡ 0
    → occurs fresh free ≡ 0
    → occurs x used + occurs x free ≤ 1
    → occurs x (fresh ∷ used) + occurs x free ≤ 1
fresh-once x fresh used free u f h = elim (Bool-cases (x == fresh)) [
  | inl e ↦
      let is : x ≡ fresh = (==_iff x fresh).0 e in
      let u' = ap (λ k. occurs k used) is ∙ u in
      let f' = ap (λ k. occurs k free) is ∙ f in rw e (omega (arith, u', f'))
  | inr ne ↦ rw ne (omega (arith, h))
]

pub one_more : (n size : ℕ) → (suc n * size) % size_mod ≡ (n * size + size) % size_mod
one_more n size = ap (λ k. k % size_mod) (grind arith)

real-IsPool :
    (size fresh : ℕ) (p : Pool)
    → occurs fresh p.used ≡ 0
    → occurs fresh p.store.free_list ≡ 0
    → IsPool size p
    → IsPool size (record { store = Alloc_alloc size p.store; used = fresh ∷ p.used })
real-IsPool size fresh p u f h =
    let n = length p.used + length p.store.free_list in
    let total : suc n ≡ suc (length p.used) + length p.store.free_list = omega arith in
    record {
      once = λ x. fresh-once x fresh p.used p.store.free_list u f (h.once x);
      counted =
          ap (λ k. add_size k size) h.counted
          ∙ mod_add (n * size) size
          ∙ sym (one_more n size)
          ∙ ap (λ k. (k * size) % size_mod) total;
    }

release-IsPool :
    (size obj : ℕ) (p : Pool)
    → size < size_mod
    → 0 < occurs obj p.used
    → IsPool size p
    → IsPool size (record { store = Alloc_free obj size p.store; used = remove obj p.used })
release-IsPool size obj p small held h =
    let n = length (remove obj p.used) + length p.store.free_list in
    let (a, len) = remove-occurs 0 obj p.used held in
    let total : length p.used + length p.store.free_list ≡ suc n = omega (arith, len) in
    record {
      once = λ x. omega (arith, (remove-occurs x obj p.used held).0, h.once x);
      counted =
          ap (λ k. sub_size k size)
            (h.counted ∙ ap (λ k. (k * size) % size_mod) total ∙ one_more n size)
          ∙ mod_sub (n * size) size small;
    }

-- An object goes to the free list.
kept-IsPool :
    (size obj : ℕ) (p : Pool)
    → 0 < occurs obj p.used
    → IsPool size p
    → IsPool size (record {
      store = record p.store { free_list = obj ∷ p.store.free_list };
      used = remove obj p.used;
    })
kept-IsPool size obj p held h =
    let (a, len) = remove-occurs 0 obj p.used held in
    let total : length p.used + length p.store.free_list
        ≡ length (remove obj p.used) + suc (length p.store.free_list) =
      omega (arith, len) in
    record {
      once = λ x. omega (arith, (remove-occurs x obj p.used held).0, h.once x);
      counted = h.counted ∙ ap (λ k. (k * size) % size_mod) total;
    }

-- An object comes from the free list.
again-IsPool :
    (size x : ℕ) (xs : List ℕ) (p : Pool)
    → p.store.free_list ≡ x ∷ xs
    → IsPool size p
    → IsPool size (record {
      store = record p.store { free_list = (pop_last x xs).1 };
      used = (pop_last x xs).0 ∷ p.used;
    })
again-IsPool size x xs p e h =
    let (a, len) = pop_last-occurs 0 x xs in
    let l = ap length e in
    let total : length p.used + length p.store.free_list
        ≡ suc (length p.used) + length (pop_last x xs).1 =
      omega (arith, len, l) in
    record {
      once = λ z. let o = ap (occurs z) e in omega (arith, (pop_last-occurs z x xs).0, h.once z, o);
      counted = h.counted ∙ ap (λ k. (k * size) % size_mod) total;
    }

abbrev from_list : ℕ → ℕ → Store → List ℕ → ℕ × Bool × Store
from_list size fresh m l = elim l [
  | [] ↦ (fresh, true, Alloc_alloc size m)
  | x ∷ xs ↦ let (last, front) = pop_last x xs in (last, false, record m { free_list = front })
]

reused-IsPool :
    (size fresh : ℕ) (p : Pool) (l : List ℕ)
    → p.store.free_list ≡ l
    → occurs fresh p.used ≡ 0
    → occurs fresh p.store.free_list ≡ 0
    → IsPool size p
    → IsPool size (allocated_to p.used (from_list size fresh p.store l))
reused-IsPool size fresh p [] e u f h = real-IsPool size fresh p u f h
reused-IsPool size fresh p (x ∷ xs) e u f h = again-IsPool size x xs p e h

Step-IsPool :
    (single : Bool) (size : ℕ) {p q : Pool}
    → size < size_mod
    → Step single size p q
    → IsPool size p
    → IsPool size q
unfolding list_alloc list_free
Step-IsPool false size small (allocates p fresh u f) h = real-IsPool size fresh p u f h
Step-IsPool true size small (allocates p fresh u f) h =
    reused-IsPool size fresh p p.store.free_list refl u f h
Step-IsPool false size small (frees p obj held) h = release-IsPool size obj p small held h
Step-IsPool true size small (frees p obj held) h = kept-IsPool size obj p held h

-- Over any series of allocations and frees of objects of one type, in either build, from a state in which it holds:
-- no object is handed out twice, none is in use and in the free list at once or twice in the list, and
-- `allocated` is the size of the objects in use and in the free list, in a `size_t`.
pub Steps-IsPool :
    (single : Bool) (size : ℕ) {p q : Pool}
    → size < size_mod
    → Steps single size p q
    → IsPool size p
    → IsPool size q
Steps-IsPool single size small (stop p) h = h
Steps-IsPool single size small (more p q r first rest) h =
    Steps-IsPool single size small rest (Step-IsPool single size small first h)
