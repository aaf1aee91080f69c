-- ===== src/Php/Objects/Calls.antt =====
-- The calls of a script on the objects of the PHP extension, php/ext/libredis/libredis.c, and the end
-- of a request. MD5 and `qsort` are parameters, as in Ketama.
pub mod Keeps
pub mod Unfreed
pub mod Request
use libredis.Base.{
  ℕ, zero, suc, Bool, true, false, Option, none, some, List, [], ◌∷◌, ◌++◌, ◌-◌, if◌then◌else◌,
  Bytes, length, get_elem?, ◌>>=◌,
}
use libredis.Base.Int.{ℤ, pos, negsuc}
use libredis.Batch.{Batch, Batch_new, Batch_write, Batch_write_set, Batch_write_get}
use libredis.Connection.{Connection, Answer}
use libredis.Connection.Write.{text}
use libredis.Executor.{Pair, World, Tick, Executor, Executor_new, Executor_add}
use libredis.Ketama.{
  Mcs, Ketama, Ketama_new, Ketama_add_server, Ketama_get_server_address, Ketama_create_continuum,
  Ketama_get_server_ordinal,
}
use libredis.Php.{Zval, z_null, z_bool, z_long, z_string, z_other, Batch_cmd, strings_of}
use libredis.Php.Reply.{PhpReply, Batch_next_reply_method}
use libredis.Php.Methods.{
  Outcome, returns, fatal, State, execute_method, Executor_execute_method, Connection_set_method,
  Connection_get_method,
}
use libredis.Php.Objects.{
  Class, no_objects, deref, write_at, create, destruct, method, shutdown_class,
}

-- An object is the index of its class. A connection is its address, as `get_connection` gives it; the
-- turns, and the text of an error number, are what the system answers.
pub data Call : Type 0 where
  create_batch : Option Bytes → ℕ → Call
  create_batch_refused : Call
  create_ketama : Call
  create_executor : Call
  destruct_batch : ℕ → Call
  destruct_ketama : ℕ → Call
  destruct_executor : ℕ → Call
  batch_write : ℕ → Bytes → ℕ → Call
  batch_set : ℕ → Bytes → Bytes → Call
  batch_get : ℕ → Bytes → Call
  batch_cmd : ℕ → List Zval → Call
  batch_next_reply : ℕ → Call
  ketama_add_server : ℕ → Bytes → ℤ → ℕ → Call
  ketama_get_server_ordinal : ℕ → Bytes → Call
  ketama_get_server_address : ℕ → ℤ → Call
  ketama_create_continuum : ℕ → Call
  executor_add : ℕ → ℕ → ℕ → Call
  executor_execute : ℕ → List Tick → Bytes → Call
  connection_execute : ℕ → ℕ → List Tick → Bytes → Call
  connection_set : ℕ → Bytes → Bytes → List Tick → Bytes → Call
  connection_get : ℕ → Bytes → List Tick → Bytes → Call

-- What a call comes to: a value, a reply by its parameters, or an error that ends the script
pub data Returned : Type 0 where
  value : Zval → Returned
  reply : PhpReply → Returned
  ended : Bytes → Returned

-- The objects of a request, the connections, what the system will answer on these, and how many batches that
-- `Connection::get` and `Connection::set` made for themselves were never freed
pub record Php : Type 0 where
  pub batches : Class Batch
  pub ketamas : Class Ketama
  pub executors : Class Executor
  pub connections : List (Connection × ℕ)
  pub answers : List Answer
  pub sent : List Bytes
  pub error : Bytes
  pub unfreed : ℕ

abbrev Results : Type 0 → Type 0
Results T = Option (Returned × T)

abbrev on_batches : Php → Results (Class Batch) → Results Php
on_batches p r = do (v, c) ← r; some (v, record p { batches = c })

abbrev on_ketamas : Php → Results (Class Ketama) → Results Php
on_ketamas p r = do (v, c) ← r; some (v, record p { ketamas = c })

abbrev on_executors : Php → Results (Class Executor) → Results Php
on_executors p r = do (v, c) ← r; some (v, record p { executors = c })

abbrev nothing {ℓ} : {T : Type ℓ} → Option T → Option (Returned × T)
nothing o = do x ← o; some (value z_null, x)

abbrev method_write : Bytes → ℕ → Batch → Option (Returned × Batch)
method_write str n b = nothing (Batch_write b (some str) n)

-- `Redis::create_batch`, with the text that is given, if any
abbrev create_batch_method : Option Bytes → ℕ → Class Batch → Results (Class Batch)
create_batch_method none n c = some (value z_other, create Batch_new c)
create_batch_method (some []) n c = some (value z_other, create Batch_new c)
create_batch_method (some (x ∷ xs)) n c = do
  (v, c') ← method (method_write (x ∷ xs) n) (length c.handles) (create Batch_new c)
  some (value z_other, c')

-- A method that returns its object
abbrev same_object {ℓ} : {T : Type ℓ} → Option T → Option (Returned × T)
same_object o = do x ← o; some (value z_other, x)

abbrev method_set : Bytes → Bytes → Batch → Option (Returned × Batch)
method_set key v b = same_object (Batch_write_set b key v)

abbrev method_get : Bytes → Batch → Option (Returned × Batch)
method_get key b = same_object (Batch_write_get b key)

abbrev method_cmd : List Zval → Batch → Option (Returned × Batch)
method_cmd args b = do
  (strings, b') ← Batch_cmd b args
  some (if strings then value z_null else ended (text "all arguments must be strings!"), b')

abbrev method_next_reply : Batch → Option (Returned × Batch)
method_next_reply b = do (r, b') ← Batch_next_reply_method b; some (reply r, b')

-- -1 where there is no circle
abbrev ordinal_long : Option ℕ → ℤ
ordinal_long none = negsuc 0
ordinal_long (some n) = pos n

abbrev method_add_server : Bytes → ℤ → ℕ → Ketama → Option (Returned × Ketama)
method_add_server addr port weight k = some (value z_null, Ketama_add_server k addr port weight)

abbrev method_get_server_ordinal : (Bytes → Bytes) → Bytes → Ketama → Option (Returned × Ketama)
method_get_server_ordinal md5 key k = do
  n ← Ketama_get_server_ordinal md5 k key
  some (value (z_long (ordinal_long n)), k)

abbrev method_get_server_address : ℤ → Ketama → Option (Returned × Ketama)
method_get_server_address n k = some (value (z_string (Ketama_get_server_address k n)), k)

abbrev create_ketama_method : Class Ketama → Results (Class Ketama)
create_ketama_method c = some (value z_other, create Ketama_new c)

abbrev create_executor_method : Class Executor → Results (Class Executor)
create_executor_method c = some (value z_other, create Executor_new c)

abbrev destruct_batch_method : ℕ → Class Batch → Results (Class Batch)
destruct_batch_method o c = nothing (destruct false o c)

abbrev destruct_ketama_method : ℕ → Class Ketama → Results (Class Ketama)
destruct_ketama_method o c = nothing (destruct false o c)

abbrev destruct_executor_method : ℕ → Class Executor → Results (Class Executor)
destruct_executor_method o c = nothing (destruct true o c)

-- The pair that is added: an address of a batch is one more than its index.
abbrev method_add : ℕ → ℕ → Executor → Option (Returned × Executor)
method_add connection zero e = none
method_add connection (suc batch) e =
    elim (Executor_add e (record { batch = batch; connection = connection })) [
      | none ↦ some (ended (text "Executor is full, max = 1024"), e)
      | some e' ↦ some (value (z_bool true), e')
    ]

-- The batches as the executor has them, an unused one in the place of a freed one
abbrev contents : List (Option Batch) → List Batch
contents [] = []
contents (none ∷ m) = Batch_new ∷ contents m
contents (some b ∷ m) = b ∷ contents m

-- What the executor left of the batches; one that a method made for itself is not among them.
pub write_back : List (Option Batch) → List Batch → List (Option Batch)
write_back [] bs = []
write_back (cell ∷ m) [] = cell ∷ m
write_back (none ∷ m) (b ∷ bs) = none ∷ write_back m bs
write_back (some a ∷ m) (b ∷ bs) = some b ∷ write_back m bs

-- The executor starts every pair, and reads its batch: none of them may have been freed.
abbrev all_there : List Pair → List (Option Batch) → Option (Unit {0})
all_there [] m = some tt
all_there (pair ∷ pairs) m = do b ← deref (suc pair.batch) m; all_there pairs m

abbrev state_of : Executor → Php → State
state_of e p = record {
  world = record {
    connections = p.connections;
    batches = contents p.batches.memory;
    executor = e;
    answers = p.answers;
    sent = p.sent;
  };
  error = p.error;
  unfreed = p.unfreed;
}

abbrev outcome : Outcome → Returned
outcome (returns v) = value v
outcome (fatal t) = ended t

abbrev kept : Php → State → Php
kept p s = record p {
  batches = record p.batches { memory = write_back p.batches.memory s.world.batches };
  connections = s.world.connections;
  answers = s.world.answers;
  sent = s.world.sent;
  error = s.error;
}

abbrev simple : Php → Option (Outcome × State) → Results Php
simple p r = do (v, s) ← r; some (outcome v, kept p s)

-- A method with a batch of its own
abbrev with_own : Php → Option (Outcome × State) → Results Php
with_own p r = do (v, s) ← r; some (outcome v, record (kept p s) { unfreed = s.unfreed })

-- The arguments are looked at before the batch is.
abbrev cmd_call : ℕ → List Zval → Php → Results Php
cmd_call o args p = elim (strings_of args) [
  | none ↦ some (ended (text "all arguments must be strings!"), p)
  | some strings ↦ on_batches p (method (method_cmd args) o p.batches)
]

pub execute_executor : ℕ → List Tick → Bytes → Php → Results Php
execute_executor o ticks errno p = do
  h ← get_elem? p.executors.handles o
  e ← deref h p.executors.memory
  there ← all_there e.pairs p.batches.memory
  (v, s) ← Executor_execute_method ticks errno (state_of e p)
  let p' = kept p s
  some (
    outcome v,
    record p' {
      executors = record p.executors {
        memory = write_at h (some s.world.executor) p.executors.memory;
      };
    },
  )

-- `Connection::execute`, and `Batch::execute` with the two objects the other way round
pub execute_batch : ℕ → ℕ → List Tick → Bytes → Php → Results Php
execute_batch connection o ticks errno p = do
  h ← get_elem? p.batches.handles o
  b ← deref h p.batches.memory
  simple p (execute_method connection (h - 1) ticks errno (state_of Executor_new p))

module _ (md5 : Bytes → Bytes) (qsort : List Mcs → List Mcs) where
  unfoldable pub call : Call → Php → Results Php
  call (create_batch str n) p = on_batches p (create_batch_method str n p.batches)
  call create_batch_refused p =
      some (value z_null, record p { batches = create Batch_new p.batches })
  call create_ketama p = on_ketamas p (create_ketama_method p.ketamas)
  call create_executor p = on_executors p (create_executor_method p.executors)
  call (destruct_batch o) p = on_batches p (destruct_batch_method o p.batches)
  call (destruct_ketama o) p = on_ketamas p (destruct_ketama_method o p.ketamas)
  call (destruct_executor o) p = on_executors p (destruct_executor_method o p.executors)
  call (batch_write o str n) p = on_batches p (method (method_write str n) o p.batches)
  call (batch_set o key v) p = on_batches p (method (method_set key v) o p.batches)
  call (batch_get o key) p = on_batches p (method (method_get key) o p.batches)
  call (batch_cmd o args) p = cmd_call o args p
  call (batch_next_reply o) p = on_batches p (method method_next_reply o p.batches)
  call (ketama_add_server o addr port weight) p =
      on_ketamas p (method (method_add_server addr port weight) o p.ketamas)
  call (ketama_get_server_ordinal o key) p =
      on_ketamas p (method (method_get_server_ordinal md5 key) o p.ketamas)
  call (ketama_get_server_address o n) p =
      on_ketamas p (method (method_get_server_address n) o p.ketamas)
  call (ketama_create_continuum o) p =
      on_ketamas p (method (λ k. nothing (Ketama_create_continuum md5 qsort k)) o p.ketamas)
  call (executor_add o connection batch) p = do
    h ← get_elem? p.batches.handles batch
    on_executors p (method (method_add connection h) o p.executors)
  call (executor_execute o ticks errno) p = execute_executor o ticks errno p
  call (connection_execute connection o ticks errno) p = execute_batch connection o ticks errno p
  call (connection_set connection key v ticks errno) p =
      with_own p (Connection_set_method connection key v ticks errno (state_of Executor_new p))
  call (connection_get connection key ticks errno) p =
      with_own p (Connection_get_method connection key ticks errno (state_of Executor_new p))

  -- A script, up to its end or to the first error of level E_ERROR
  unfoldable pub script : List Call → Php → Option Php
  script [] p = some p
  script (c ∷ cs) p = do
    (v, p') ← call c p
    elim v [ value z ↦ script cs p' | reply r ↦ script cs p' | ended t ↦ some p' ]

  -- A script comes to an error of level E_ERROR.
  unfoldable pub is_ended : List Call → Php → Bool
  is_ended [] p = false
  is_ended (c ∷ cs) p = elim (call c p) [
    | none ↦ false
    | some (v, p') ↦ elim v [ value z ↦ is_ended cs p' | reply r ↦ is_ended cs p' | ended t ↦ true ]
  ]

-- `PHP_RSHUTDOWN_FUNCTION`
pub request_shutdown : Php → Option Php
request_shutdown p = do
  b ← shutdown_class false p.batches
  k ← shutdown_class false p.ketamas
  e ← shutdown_class true p.executors
  some (record p { batches = b; ketamas = k; executors = e })
