-- ===== src/Alloc.antt =====
-- libredis/alloc.h: the count of the bytes allocated, the free list of a type, and, of
-- libredis/batch.c, `Reply_free` and what `_Batch_free` does to a batch of the free list. An object is its address. Memory comes from a function that the program gives; the address
-- that it returns is an argument here.
pub mod Pool
pub mod Frees
pub mod Final
pub mod Buffers
pub mod Circles
use libredis.Base.{
  ℕ, zero, suc, ◌+◌, ◌-◌, ◌*◌, ◌%◌, ◌^◌, Bool, true, false, not, List, [], ◌∷◌, length,
  if◌then◌else◌, ltb,
}
use libredis.Buffer.{size_mod, sub_size}

-- The sum of two `size_t`
abbrev pub add_size : ℕ → ℕ → ℕ
add_size a b = (a + b) % size_mod

-- `allocated` of `struct _Module`, the free list of a type from its head on, and the objects that have been given
-- back to the program's function, the last one first
pub record Store : Type 0 where
  pub allocated : ℕ
  pub free_list : List ℕ
  pub released : List ℕ

abbrev pub Alloc_alloc : ℕ → Store → Store
Alloc_alloc size m = record m { allocated = add_size m.allocated size }

abbrev pub Alloc_free : ℕ → ℕ → Store → Store
Alloc_free obj size m = record m {
  allocated = sub_size m.allocated size;
  released = obj ∷ m.released;
}

abbrev pub Alloc_realloc : ℕ → ℕ → Store → Store
Alloc_realloc new_size old_size m = record m {
  allocated = add_size (sub_size m.allocated old_size) new_size;
}

-- The last entry of a list, which `list_pop` takes, and the list without it
abbrev pub pop_last : ℕ → List ℕ → ℕ × List ℕ
pop_last x [] = (x, [])
pop_last x (y ∷ ys) = let (last, front) = pop_last y ys in (last, x ∷ front)

-- The object, whether it is a new one, and the store. The flag says that SINGLETHREADED is defined.
unfoldable pub list_alloc : Bool → ℕ → ℕ → Store → ℕ × Bool × Store
list_alloc false size fresh m = (fresh, true, Alloc_alloc size m)
list_alloc true size fresh m = elim m.free_list [
  | [] ↦ (fresh, true, Alloc_alloc size m)
  | x ∷ xs ↦ let (last, front) = pop_last x xs in (last, false, record m { free_list = front })
]

-- The second flag is `final`, which only the free list looks at.
unfoldable pub list_free : Bool → Bool → ℕ → ℕ → Store → Store
list_free false final size obj m = Alloc_free obj size m
list_free true true size obj m = Alloc_free obj size m
list_free true false size obj m = record m { free_list = obj ∷ m.free_list }

-- `T_free`, over the `_T_free` of the type, which is given `final`
abbrev pub type_free {ℓ} : {T : Type ℓ} → (Bool → T → Store → Store) → Bool → T → Store → Store
type_free free single obj m = free (not single) obj m

-- `T_free_final` with SINGLETHREADED (otherwise it does nothing): `n` is as many rounds as the list has entries.
pub free_final : (Bool → ℕ → Store → Store) → ℕ → Store → Store
free_final free zero m = m
free_final free (suc n) m = elim m.free_list [
  | [] ↦ m
  | x ∷ xs ↦
      let (last, front) = pop_last x xs in
      free_final free n (free true last (record m { free_list = front }))
]

-- The parts of a batch in the free list: its two buffers, which are cleared, each with its block. A batch there has
-- no replies and no error.
pub record BatchParts : Type 0 where
  pub read_buffer : ℕ
  pub read_block : ℕ
  pub write_buffer : ℕ
  pub write_block : ℕ

-- `sizeof(Buffer)`, of six fields with 8 bytes each, and `sizeof(Batch)`
abbrev pub sizeof_buffer : ℕ
sizeof_buffer = 48

abbrev pub sizeof_batch : ℕ
sizeof_batch = 104

-- `Buffer_free` of a buffer that has not grown
abbrev pub cleared_free : ℕ → ℕ → ℕ → Store → Store
cleared_free buffer block size m = Alloc_free buffer sizeof_buffer (Alloc_free block size m)

-- `_Batch_free` on a batch of the free list; where it is not final, it has nothing left to do but to enter it.
unfoldable pub batch_entry_free : (ℕ → BatchParts) → Bool → ℕ → Store → Store
batch_entry_free parts false obj m = list_free true false sizeof_batch obj m
batch_entry_free parts true obj m =
    let b = parts obj in
    list_free true true sizeof_batch obj (
      cleared_free b.write_buffer b.write_block (1024 * 4)
        (cleared_free b.read_buffer b.read_block (1024 * 12) m))

-- A reply with its children, as addresses
mutual
  pub data Tree : Type 0 where
    tree : ℕ → Trees → Tree

  pub data Trees : Type 0 where
    leaf : Trees
    branch : Tree → Trees → Trees

-- `_Reply_free`; the children are taken from the end of their list.
unfoldable mutual
  pub reply_free : Bool → ℕ → Bool → Tree → Store → Store
  reply_free single size final (tree a cs) m =
      list_free single final size a (if final then m else children_free single size cs m)

  pub children_free : Bool → ℕ → Trees → Store → Store
  children_free single size leaf m = m
  children_free single size (branch t ts) m =
      reply_free single size (not single) t (children_free single size ts m)

abbrev pub Reply_free : Bool → ℕ → Tree → Store → Store
Reply_free single size t m = type_free (reply_free single size) single t m
