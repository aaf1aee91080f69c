-- ===== src/Php/Methods.antt =====
-- The methods of the PHP extension that execute a batch: `Connection_execute_simple`, `Connection::set` and
-- `Connection::get`, `Connection::execute` and `Batch::execute`, and `Executor::execute`.
pub mod Answers
pub mod Results
use libredis.Base.{
  ℕ, zero, suc, Bool, true, false, Option, none, some, List, [], ◌∷◌, ◌++◌, Bytes, length,
  get_elem?, ◌>>=◌,
}
use libredis.Base.Int.{ℤ, pos, negsuc}
use libredis.Reply.{
  ReplyType, BufferRef, rt_error, rt_none, rt_ok, rt_bulk_nil, rt_bulk, rt_multibulk_nil,
  rt_multibulk, rt_integer,
}
use libredis.Batch.{Batch, Batch_new, Batch_write_set, Batch_write_get}
use libredis.Batch.Next.{Next, invalid_argument, no_reply, found, Batch_next_reply}
use libredis.Connection.Write.{text}
use libredis.Executor.{Pair, World, Tick, Executor, Executor_new, Executor_add, Executor_execute}
use libredis.Php.{Zval, z_null, z_bool, z_string}
use libredis.Php.Error.{set_last_error_from_global_error, set_last_error_from_batch_error}
use libredis.Php.Reply.{data_of, value_of}

-- A method returns a value; or it raises an error of level E_ERROR, which ends the script.
pub data Outcome : Type 0 where
  returns : Zval → Outcome
  fatal : Bytes → Outcome

-- What the library keeps, `g_module_error`, and how many batches that a method made for itself were never
-- given to `Batch_free`
pub record State : Type 0 where
  pub world : World
  pub error : Bytes
  pub unfreed : ℕ

-- The new executor has room, so that the result of `Executor_add` is not looked at.
pub simple_executor : ℕ → ℕ → Executor
simple_executor connection batch =
    elim (Executor_add Executor_new (record { batch = batch; connection = connection })) [
      | none ↦ Executor_new
      | some e ↦ e
    ]

pub Connection_execute_simple : ℕ → ℕ → List Tick → World → Option (ℤ × World)
Connection_execute_simple connection batch ticks w =
    Executor_execute ticks (record w { executor = simple_executor connection batch })

-- What `Executor_execute` leaves as the error of the library when it returns 0, and when it is negative
abbrev pub timeout_error : Bytes
timeout_error = text "Execute timeout"

abbrev pub select_error : Bytes → Bytes
select_error errno = text "Execute select error, errno: " ++ errno

-- A method goes on only where the executor returned 1. The text of the error number is the system's.
abbrev pub after_execute :
    Bytes → State → ℤ × World → (World → Option (Outcome × State)) → Option (Outcome × State)
after_execute errno s (negsuc n, w) go = some (fatal (select_error errno), record s { world = w })
after_execute errno s (pos zero, w) go = some (
  returns (z_bool false),
  record s { world = w; error = set_last_error_from_global_error timeout_error },
)
after_execute errno s (pos (suc n), w) go = go w

-- The one reply of a batch, by its type
abbrev pub Handler : Type 0
Handler = ReplyType → Option (BufferRef × ℕ) → ℕ → Batch → State → Option (Outcome × State)

abbrev pub unexpected : Bytes → State → Option (Outcome × State)
unexpected t s = some (fatal t, s)

abbrev pub server_error : Batch → State → Option (Outcome × State)
server_error b s =
    some (returns (z_bool false), record s { error = set_last_error_from_batch_error b s.error })

abbrev pub handle_entry : Handler → Next → Batch → State → Option (Outcome × State)
handle_entry handle (found (suc zero) t d len) b s = handle t d len b s
handle_entry handle _ b s = unexpected (text "Unexpected level") s

abbrev pub first_reply : ℕ → Handler → State → Option (Outcome × State)
first_reply i handle s = do
  b ← get_elem? s.world.batches i
  (n, b') ← Batch_next_reply true b
  handle_entry handle n b' s

pub set_reply : Handler
set_reply rt_ok d len b s = some (returns (z_bool true), s)
set_reply rt_error d len b s = server_error b s
set_reply _ d len b s = unexpected (text "Unexpected reply type") s

pub get_reply : Handler
get_reply rt_bulk d len b s = do bs ← data_of b d; v ← value_of rt_bulk bs len; some (returns v, s)
get_reply rt_bulk_nil d len b s = some (returns z_null, s)
get_reply rt_error d len b s = server_error b s
get_reply _ d len b s = unexpected (text "Unexpected reply type") s

-- A new batch is the next one of the store.
abbrev pub with_batch : Batch → World → World
with_batch b w = record w { batches = w.batches ++ b ∷ [] }

-- `Batch_free` at the end of the method, which an error that ends the script does not come to. A freed batch
-- stays in the store unused.
abbrev pub unfreed_after : Outcome → ℕ → ℕ
unfreed_after (returns v) n = n
unfreed_after (fatal t) n = suc n

abbrev pub free_own : ℕ → Outcome × State → Option (Outcome × State)
free_own before (o, s) = some (o, record s { unfreed = unfreed_after o before })

-- The batch is executed on the connection, its reply handled, and the batch freed.
unfoldable pub run_command :
    ℕ → List Tick → Bytes → Handler → Batch → State → Option (Outcome × State)
run_command connection ticks errno handle b s = do
  let i = length s.world.batches
  r ← Connection_execute_simple connection i ticks (with_batch b s.world)
  x ← after_execute errno s r (λ w. first_reply i handle (record s { world = w }))
  free_own s.unfreed x

unfoldable pub Connection_set_method :
    ℕ → Bytes → Bytes → List Tick → Bytes → State → Option (Outcome × State)
Connection_set_method connection key value ticks errno s = do
  b ← Batch_write_set Batch_new key value
  run_command connection ticks errno set_reply b s

unfoldable pub Connection_get_method :
    ℕ → Bytes → List Tick → Bytes → State → Option (Outcome × State)
Connection_get_method connection key ticks errno s = do
  b ← Batch_write_get Batch_new key
  run_command connection ticks errno get_reply b s

-- `Connection::execute`, and `Batch::execute` with the two objects the other way round
unfoldable pub execute_method : ℕ → ℕ → List Tick → Bytes → State → Option (Outcome × State)
execute_method connection batch ticks errno s = do
  (r, w) ← Connection_execute_simple connection batch ticks s.world
  elim r [
    | negsuc n ↦ some (fatal (select_error errno), record s { world = w })
    | pos zero ↦ some (returns (z_bool false), record s { world = w })
    | pos (suc n) ↦ some (returns (z_bool true), record s { world = w })
  ]

-- `Executor::execute`
unfoldable pub Executor_execute_method : List Tick → Bytes → State → Option (Outcome × State)
Executor_execute_method ticks errno s = do
  r ← Executor_execute ticks s.world
  after_execute errno s r (λ w. some (returns (z_bool true), record s { world = w }))
