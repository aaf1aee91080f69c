-- ===== src/Tests/Objects.antt =====
-- The theorems on the objects of the PHP extension, at a script with one object of each class.
use libredis.Base.{◌≡◌, refl, ◌>>=◌, false, none, some, List, [], ◌∷◌, Bytes}
use libredis.Base.Int.{pos}
use libredis.Batch.{Batch, Batch_new, Batch_write_get}
use libredis.Executor.{Executor, Executor_new, Executor_add}
use libredis.Ketama.{Mcs, Ketama, Ketama_new}
use libredis.Php.Objects.{
  Class, no_objects, create, destruct, method, deref, T_free, hash_update, hash_del,
}
use libredis.Php.Objects.Owned.{no_objects-IsOwned, create-IsOwned}
use libredis.Php.Objects.Destruct.{HasEnded, destruct-ends}
use libredis.Php.Objects.Calls.{
  Call, Php, create_batch, create_ketama, create_executor, executor_add, destruct_batch, script,
  call, request_shutdown,
}
use libredis.Php.Objects.Calls.Unfreed.{Lost}
use libredis.Php.Objects.Calls.Request.{IsOver, request-frees_all}

abbrev at_start : Php
at_start = record {
  batches = no_objects Batch;
  ketamas = no_objects Ketama;
  executors = no_objects Executor;
  connections = [];
  answers = [];
  sent = [];
  error = [];
  unfreed = 0;
}

-- The batch is destroyed while the executor still has it.
abbrev calls : List Call
calls =
    create_batch none 0
    ∷ create_executor
    ∷ executor_add 0 0 0
    ∷ create_ketama
    ∷ destruct_batch 0
    ∷ []

abbrev one_pair : Executor
one_pair = record {
  numevents = pos 0;
  fds = record { fd = pos 0; pollin = false; pollout = false } ∷ [];
  pairs = record { batch = 0; connection = 0 } ∷ [];
}

abbrev at_end : Php
at_end = record at_start {
  batches = record { memory = none ∷ []; table = []; handles = 0 ∷ []; freed = 1 ∷ [] };
  ketamas = record { memory = some Ketama_new ∷ []; table = 1 ∷ []; handles = 1 ∷ []; freed = [] };
  executors = record { memory = some one_pair ∷ []; table = 1 ∷ []; handles = 1 ∷ []; freed = [] };
}

abbrev toy_md5 : Bytes → Bytes
toy_md5 key = key

abbrev toy_sort : List Mcs → List Mcs
toy_sort ps = ps

request-frees_all_example :
    (q : Php) × (request_shutdown at_end ≡ some q)
    × IsOver at_end.batches q.batches
    × IsOver at_end.ketamas q.ketamas
    × IsOver at_end.executors q.executors
    × Lost toy_md5 toy_sort calls at_start q
unfolding script call create destruct method T_free hash_update hash_del deref Executor_add
    Executor_new
request-frees_all_example =
    request-frees_all toy_md5 toy_sort calls at_start at_end
      (record {
        batches = no_objects-IsOwned;
        ketamas = no_objects-IsOwned;
        executors = no_objects-IsOwned;
      })
      refl

abbrev two_batches : Class Batch
two_batches = create Batch_new (create Batch_new (no_objects Batch))

destruct-ends_example :
    (after : Class Batch) × (destruct false 0 two_batches ≡ some after)
    × HasEnded 0 0 two_batches after
    × (method (λ b. do b' ← Batch_write_get b []; some (tt, b')) 0 after ≡ none)
unfolding create
destruct-ends_example =
    destruct-ends (λ (b : Batch). do b' ← Batch_write_get b []; some (tt, b')) false 0 0 two_batches
      (create-IsOwned Batch_new (create Batch_new (no_objects Batch))
        (create-IsOwned Batch_new (no_objects Batch) no_objects-IsOwned))
      refl
