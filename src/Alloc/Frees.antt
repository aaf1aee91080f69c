-- ===== src/Alloc/Frees.antt =====
-- What `Reply_free` does with a reply that has children.
use libredis.Base.{ℕ, ◌≡◌, refl, sym, ap, ◌∙◌, true, false, List, [], ◌∷◌, ◌++◌, append_assoc}
use libredis.Buffer.{sub_size}
use libredis.Alloc.{
  Store, Tree, Trees, tree, leaf, branch, list_free, reply_free, children_free, Reply_free,
}

-- The addresses of a reply and its children, in the order in which the free list takes them
abbrev mutual
  pub addresses : Tree → List ℕ
  addresses (tree a cs) = a ∷ child_addresses cs

  pub child_addresses : Trees → List ℕ
  child_addresses leaf = []
  child_addresses (branch t ts) = addresses t ++ child_addresses ts

abbrev pub put_back : List ℕ → Store → Store
put_back xs m = record m { free_list = xs ++ m.free_list }

mutual
  unfolding reply_free list_free

  single_free :
      (size : ℕ) (t : Tree) (m : Store) → reply_free true size false t m ≡ put_back (addresses t) m
  single_free size (tree a cs) m =
      ap (λ (s : Store). record s { free_list = a ∷ s.free_list }) (single_children size cs m)

  single_children :
      (size : ℕ) (ts : Trees) (m : Store)
      → children_free true size ts m ≡ put_back (child_addresses ts) m
  single_children size leaf m = refl
  single_children size (branch t ts) m =
      ap (reply_free true size false t) (single_children size ts m)
      ∙ single_free size t (put_back (child_addresses ts) m)
      ∙ ap (λ (xs : List ℕ). record m { free_list = xs })
          (sym (append_assoc (addresses t) (child_addresses ts) m.free_list))

-- Freeing a reply gives back its children as well in the build with SINGLETHREADED: they all go to the free list,
-- and nothing to the program's function. In the other build only the reply itself is given back, and its
-- size taken off the count, whatever children it has: the memory of these is lost.
pub reply_free-by_build :
    (size a : ℕ) (cs : Trees) (m : Store)
    → (Reply_free true size (tree a cs) m ≡ put_back (addresses (tree a cs)) m)
      × (Reply_free false size (tree a cs) m
          ≡ record m { allocated = sub_size m.allocated size; released = a ∷ m.released })
unfolding reply_free list_free
reply_free-by_build size a cs m = (single_free size (tree a cs) m, refl)
