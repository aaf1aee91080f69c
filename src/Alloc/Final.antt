-- ===== src/Alloc/Final.antt =====
-- The end of the free lists: `Reply_free_final` and `Batch_free_final`, which `Module_free` of libredis/module.c calls.
use libredis.Base.{
  ℕ, zero, suc, ◌+◌, ◌*◌, ◌%◌, ◌≤◌, ◌<◌, ◌≡◌, refl, ap, ◌∙◌, Bool, true, List, [], ◌∷◌, arith,
  length,
}
use libredis.Buffer.{size_mod, sub_size}
use libredis.Alloc.{
  Store, pop_last, list_free, free_final, reply_free, tree, leaf, BatchParts, sizeof_buffer,
  sizeof_batch, batch_entry_free,
}
use libredis.Alloc.Pool.{occurs, same, pop_last-occurs, Pool, IsPool, one_more, mod_sub}

-- `_Reply_free` on an entry of the free list, with SINGLETHREADED; its children have been freed before.
abbrev pub reply_entry_free : ℕ → Bool → ℕ → Store → Store
reply_entry_free size final obj m = reply_free true size final (tree obj leaf) m

-- How often an address is among the parts of the entries
abbrev pub occurs_in : (ℕ → List ℕ) → ℕ → List ℕ → ℕ
occurs_in parts z [] = 0
occurs_in parts z (x ∷ xs) = occurs z (parts x) + occurs_in parts z xs

pop_last-occurs_in :
    (parts : ℕ → List ℕ) (z x : ℕ) (xs : List ℕ)
    → occurs_in parts z (x ∷ xs)
      ≡ occurs z (parts (pop_last x xs).0) + occurs_in parts z (pop_last x xs).1
pop_last-occurs_in parts z x [] = refl
pop_last-occurs_in parts z x (y ∷ ys) =
    let later = pop_last-occurs_in parts z y ys in omega (arith, later)

-- A final free of an entry gives back its parts and the entry, `total` bytes in all, once each.
record GivesBack (parts : ℕ → List ℕ) (total : ℕ) (free : Bool → ℕ → Store → Store) : Type 0 where
  same_list : (obj : ℕ) (m : Store) → (free true obj m).free_list ≡ m.free_list
  back :
      (z obj : ℕ) (m : Store)
      → occurs z (free true obj m).released
        ≡ occurs z (parts obj) + same z obj + occurs z m.released
  count : (obj : ℕ) (m : Store) → (free true obj m).allocated ≡ sub_size m.allocated total

-- The list is empty, what was in it has been given back with its parts, and its bytes are off the count.
abbrev pub Emptied : (ℕ → List ℕ) → ℕ → Store → Store → Type 0
Emptied parts total m m' =
    (m'.free_list ≡ [])
    × ((z : ℕ)
        → occurs z m'.released
          ≡ occurs z m.released + occurs z m.free_list + occurs_in parts z m.free_list)
    × ((k : ℕ)
        → m.allocated ≡ ((k + length m.free_list) * total) % size_mod
        → m'.allocated ≡ (k * total) % size_mod)

empty_list : (l : List ℕ) → length l ≤ 0 → l ≡ []
empty_list [] h = refl
empty_list (x ∷ xs) h = absurd (omega arith)

nothing-Emptied :
    (parts : ℕ → List ℕ) (total : ℕ) (m : Store) → m.free_list ≡ [] → Emptied parts total m m
nothing-Emptied parts total m e =
    let len = ap length e in
    (
      e,
      (λ z. let o = ap (occurs z) e in let o' = ap (occurs_in parts z) e in omega (arith, o, o')),
      (λ k h.
          h
          ∙ ap (λ j. (j * total) % size_mod)
              (let s : k + length m.free_list ≡ k = omega (arith, len) in s)),
    )

module _ (parts : ℕ → List ℕ) (total : ℕ) (free : Bool → ℕ → Store → Store)
    (small : total < size_mod) (law : GivesBack parts total free) where
  abbrev final_step : ℕ → Store → List ℕ → Store
  final_step n m l = elim l [
    | [] ↦ m
    | x ∷ xs ↦
        let (last, front) = pop_last x xs in
        free_final free n (free true last (record m { free_list = front }))
  ]

  step-Emptied :
      (n : ℕ) (m : Store) (l : List ℕ)
      → ((m' : Store) → length m'.free_list ≤ n → Emptied parts total m' (free_final free n m'))
      → m.free_list ≡ l
      → length m.free_list ≤ suc n
      → Emptied parts total m (final_step n m l)
  step-Emptied n m [] later e le = nothing-Emptied parts total m e
  step-Emptied n m (x ∷ xs) later e le =
      let last = (pop_last x xs).0 in
      let front = (pop_last x xs).1 in
      let m1 : Store = record m { free_list = front } in
      let m2 = free true last m1 in
      let kept = law.same_list last m1 in
      let len = ap length e in
      let len' = (pop_last-occurs 0 x xs).1 in
      let len2 = ap length kept in
      let (empty, back, count) = later m2 (omega (arith, le, len, len', len2)) in
      (
        empty,
        (λ z.
            let o = ap (occurs z) e in
            let o' = ap (occurs_in parts z) e in
            let o2 = ap (occurs z) kept in
            let o2' = ap (occurs_in parts z) kept in
            omega (
              arith,
              back z,
              law.back z last m1,
              (pop_last-occurs z x xs).0,
              pop_last-occurs_in parts z x xs,
              o,
              o',
              o2,
              o2',
            )),
        (λ k h. count k (
            let all : k + length m.free_list ≡ suc (k + length front) = omega (arith, len, len') in
            let left : k + length front ≡ k + length m2.free_list = omega (arith, len2) in
            law.count last m1
            ∙ ap (λ a. sub_size a total)
                (h ∙ ap (λ j. (j * total) % size_mod) all ∙ one_more (k + length front) total)
            ∙ mod_sub ((k + length front) * total) total small
            ∙ ap (λ j. (j * total) % size_mod) left)),
      )

  free_final-Emptied :
      (n : ℕ) (m : Store) → length m.free_list ≤ n → Emptied parts total m (free_final free n m)
  unfolding free_final
  free_final-Emptied zero m le =
      nothing-Emptied parts total m (empty_list m.free_list (omega (arith, le)))
  free_final-Emptied (suc n) m le =
      step-Emptied n m m.free_list (λ m' le'. free_final-Emptied n m' le') refl le

abbrev pub no_parts : ℕ → List ℕ
no_parts obj = []

abbrev pub batch_parts : (ℕ → BatchParts) → ℕ → List ℕ
batch_parts parts obj =
    let b = parts obj in b.read_block ∷ b.read_buffer ∷ b.write_block ∷ b.write_buffer ∷ []

-- The bytes of a batch with its two buffers
abbrev pub total_batch : ℕ
total_batch = sizeof_batch + 2 * sizeof_buffer + 1024 * 12 + 1024 * 4

reply-GivesBack : (size : ℕ) → GivesBack no_parts size (reply_entry_free size)
unfolding reply_free list_free
reply-GivesBack size = record {
  same_list = λ obj m. refl;
  back = λ z obj m. omega arith;
  count = λ obj m. refl;
}

batch-GivesBack :
    (parts : ℕ → BatchParts) → GivesBack (batch_parts parts) total_batch (batch_entry_free parts)
unfolding batch_entry_free list_free
batch-GivesBack parts = record {
  same_list = λ obj m. refl;
  back = λ z obj m. omega arith;
  count = λ obj m. omega arith;
}

-- What `T_free_final` leaves of a pool: an empty list; every entry given back to the program's function once,
-- with its parts; and the bytes of the objects in use
abbrev pub Finishes : (ℕ → List ℕ) → ℕ → Pool → Store → Type 0
Finishes parts total p m' =
    (m'.free_list ≡ [])
    × ((z : ℕ)
        → occurs z m'.released
          ≡ occurs z p.store.released
            + occurs z p.store.free_list
            + occurs_in parts z p.store.free_list)
    × (m'.allocated ≡ (length p.used * total) % size_mod)

-- `Reply_free_final` and `Batch_free_final`, each on its own pool, end after as many rounds as the free list
-- has entries: then the list is empty, every entry has been given back to the program's function once, a batch
-- with its two buffers and their blocks, and, where the count was that of the objects in use and in the list
-- (a batch with buffers that have not grown), `allocated` is the size of the objects still in use, so that it
-- is 0 when there are none.
pub free_final-all :
    (size : ℕ) (replies : Pool) (parts : ℕ → BatchParts) (batches : Pool)
    → size < size_mod
    → IsPool size replies
    → IsPool total_batch batches
    → Finishes no_parts size replies
        (free_final (reply_entry_free size) (length replies.store.free_list) replies.store)
      × Finishes
          (batch_parts parts)
          total_batch
          batches
          (free_final (batch_entry_free parts) (length batches.store.free_list) batches.store)
free_final-all size replies parts batches small r b =
    let (empty, back, count) =
      free_final-Emptied no_parts size (reply_entry_free size) small (reply-GivesBack size)
        (length replies.store.free_list) replies.store (omega arith) in
    let (empty', back', count') =
      free_final-Emptied (batch_parts parts) total_batch (batch_entry_free parts) (omega arith)
        (batch-GivesBack parts) (length batches.store.free_list) batches.store (omega arith) in
    (
      (empty, back, count (length replies.used) r.counted),
      (empty', back', count' (length batches.used) b.counted),
    )
