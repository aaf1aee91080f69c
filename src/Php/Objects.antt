-- ===== src/Php/Objects.antt =====
-- The objects of the PHP extension, php/ext/libredis/libredis.c: each has the address of what it
-- stands for as its "handle", and a table holds the addresses that are to be freed at the end of a request.
pub mod Counts
pub mod Owned
pub mod Destruct
pub mod Calls
use libredis.Base.{
  ℕ, zero, suc, Bool, true, false, Option, none, some, List, [], ◌∷◌, ◌++◌, length, get_elem?, set,
  if◌then◌else◌, ◌==◌, ◌>>=◌,
}

-- One of the classes over its type of C objects: the memory, the table (`g_batch`, `g_ketama` or
-- `g_executor`, the first entry first), the handles of the PHP objects that have been made, and the
-- addresses that have been freed, the last one first. Address 0 is NULL, `k + 1` is the k-th entry of the
-- memory, and `none` in it is freed memory, which is not given out again.
pub record Class (T : Type 0) : Type 0 where
  pub memory : List (Option T)
  pub table : List ℕ
  pub handles : List ℕ
  pub freed : List ℕ

abbrev pub no_objects : (T : Type 0) → Class T
no_objects T = record { memory = []; table = []; handles = []; freed = [] }

abbrev pub contains : ℕ → List ℕ → Bool
contains h [] = false
contains h (x ∷ xs) = let rest = contains h xs in if x == h then true else rest

-- `zend_hash_update` where the value is the key: an entry that is there is left in its place.
unfoldable pub hash_update : ℕ → List ℕ → List ℕ
hash_update h t = if contains h t then t else t ++ h ∷ []

-- `zend_hash_del`
unfoldable pub hash_del : ℕ → List ℕ → List ℕ
hash_del h [] = []
hash_del h (x ∷ xs) = let rest = hash_del h xs in if x == h then xs else x ∷ rest

module _ {T : Type 0} where
  -- What stands at an address; `none` is undefined.
  unfoldable pub deref : ℕ → List (Option T) → Option T
  deref zero m = none
  deref (suc k) m = do cell ← get_elem? m k; cell

  -- A write at the address of an object
  abbrev pub write_at : ℕ → Option T → List (Option T) → List (Option T)
  write_at zero x m = m
  write_at (suc k) x m = set m k x

  -- `T_free`, as far as the object itself goes. `Executor_free` looks whether it is given NULL,
  -- which the flag says; `Batch_free` and `Ketama_free` do not.
  unfoldable pub T_free : Bool → ℕ → Class T → Option (Class T)
  T_free checks zero c = if checks then some c else none
  T_free checks (suc k) c = do
    x ← deref (suc k) c.memory
    some (record c { memory = write_at (suc k) none c.memory; freed = suc k ∷ c.freed })

  -- `Redis::create_batch`, `create_ketama` and `create_executor`: the new object is the last one.
  unfoldable pub create : T → Class T → Class T
  create x c =
      let h = suc (length c.memory) in
      record c {
        memory = c.memory ++ some x ∷ [];
        table = hash_update h c.table;
        handles = c.handles ++ h ∷ [];
      }

  -- `__destruct` of the object with index `o`
  unfoldable pub destruct : Bool → ℕ → Class T → Option (Class T)
  destruct checks o c = do
    h ← get_elem? c.handles o
    c' ← T_free checks h (record c { table = hash_del h c.table })
    some (record c' { handles = set c'.handles o 0 })

  -- A method of the object with index `o`, by what it does to what the object stands for, and its result
  unfoldable pub method : {R : Type 0} → (T → Option (R × T)) → ℕ → Class T → Option (R × Class T)
  method f o c = do
    h ← get_elem? c.handles o
    x ← deref h c.memory
    (r, x') ← f x
    some (r, record c { memory = write_at h (some x') c.memory })

  -- `zend_hash_apply` with `shutdown_hash_free_T`, over the entries that the table has
  pub shutdown_free : Bool → List ℕ → Class T → Option (Class T)
  shutdown_free checks [] c = some c
  shutdown_free checks (h ∷ hs) c = do
    c' ← T_free checks h c
    shutdown_free checks hs (record c' { table = hash_del h c'.table })

  -- That part of `PHP_RSHUTDOWN_FUNCTION`
  pub shutdown_class : Bool → Class T → Option (Class T)
  shutdown_class checks c = shutdown_free checks c.table c
