-- ===== src/Tests/Allocs.antt =====
-- The theorems on libredis/alloc.h at concrete series of calls.
use libredis.Base.{ℕ, ◌≡◌, refl, true, false, [], ◌∷◌, arith}
use libredis.Buffer.{sub_size}
use libredis.Alloc.{
  Store, Trees, tree, leaf, branch, Reply_free, free_final, list_alloc, list_free, BatchParts,
  batch_entry_free,
}
use libredis.Alloc.Frees.{addresses, put_back, reply_free-by_build}
use libredis.Alloc.Pool.{Pool, IsPool, Step, Steps, allocates, frees, stop, more, Steps-IsPool}
use libredis.Alloc.Final.{
  reply_entry_free, Finishes, no_parts, batch_parts, total_batch, free_final-all,
}

abbrev at_start : Store
at_start = record { allocated = 128; free_list = []; released = [] }

-- A multibulk reply with two children
abbrev two_children : Trees
two_children = branch (tree 20 leaf) (branch (tree 30 leaf) leaf)

reply_free-by_build_example :
    (Reply_free true 64 (tree 10 two_children) at_start
      ≡ put_back (addresses (tree 10 two_children)) at_start)
    × (Reply_free false 64 (tree 10 two_children) at_start
        ≡ record at_start { allocated = sub_size 128 64; released = 10 ∷ [] })
reply_free-by_build_example = reply_free-by_build 64 10 two_children at_start

abbrev empty_pool : Pool
empty_pool = record { store = record { allocated = 0; free_list = []; released = [] }; used = [] }

-- An object is allocated, freed, and allocated again.
abbrev one_used : Pool
one_used = record {
  store = record { allocated = 64; free_list = []; released = [] };
  used = 10 ∷ [];
}

abbrev one_kept : Pool
one_kept = record {
  store = record { allocated = 64; free_list = 10 ∷ []; released = [] };
  used = [];
}

allocated_first : Step true 64 empty_pool one_used
unfolding list_alloc
allocated_first = allocates empty_pool 10 refl refl

freed_next : Step true 64 one_used one_kept
unfolding list_free
freed_next = frees one_used 10 (omega arith)

allocated_again : Step true 64 one_kept one_used
unfolding list_alloc
allocated_again = allocates one_kept 11 refl refl

reused : Steps true 64 empty_pool one_used
reused = more empty_pool one_used one_used allocated_first (
    more one_used one_kept one_used freed_next
      (more one_kept one_used one_used allocated_again (stop one_used)))

empty_pool-IsPool : IsPool 64 empty_pool
empty_pool-IsPool = record { once = λ x. omega arith; counted = refl }

Steps-IsPool_example : IsPool 64 one_used
Steps-IsPool_example = Steps-IsPool true 64 (omega arith) reused empty_pool-IsPool

one_kept-IsPool : IsPool 64 one_kept
one_kept-IsPool = record { once = λ x. ground arith; counted = refl }

-- A batch in the free list, with its buffers
abbrev one_batch : Pool
one_batch = record {
  store = record { allocated = 16584; free_list = 50 ∷ []; released = [] };
  used = [];
}

one_batch-IsPool : IsPool total_batch one_batch
one_batch-IsPool = record { once = λ x. ground arith; counted = refl }

abbrev its_parts : ℕ → BatchParts
its_parts obj = record { read_buffer = 51; read_block = 52; write_buffer = 53; write_block = 54 }

free_final-all_example :
    Finishes no_parts 64 one_kept (free_final (reply_entry_free 64) 1 one_kept.store)
    × Finishes
        (batch_parts its_parts)
        total_batch
        one_batch
        (free_final (batch_entry_free its_parts) 1 one_batch.store)
free_final-all_example =
    free_final-all 64 one_kept its_parts one_batch (omega arith) one_kept-IsPool one_batch-IsPool
