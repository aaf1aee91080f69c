-- ===== src/Tests/Php.antt =====
-- The theorems on php/ext/libredis/libredis.c at concrete arguments.
use libredis.Module.{Module, Module_set_error, Module_last_error, max_text}
use libredis.Base.{
  ℕ, zero, suc, replicate, take, ◌<◌, ◌≡◌, refl, ◌++◌, Bytes, List, [], ◌∷◌, map, true, none, some,
  arith,
}
use libredis.Base.Int.{negsuc}
use libredis.Reply.{Reply_new, nil, cons, rt_integer, read_buffer}
use libredis.Batch.Levels.{Cursor, at_entry, standing}
use libredis.Buffer.{Buffer, Buffer_new}
use libredis.Buffer.Grow.{new-IsWritable}
use libredis.Base.Decimal.{print_onto}
use libredis.Batch.{Batch, Batch_new, Batch_abort}
use libredis.Batch.Commands.{Adds}
use libredis.Parser.Wire.{Encodes, multibulk, number}
use libredis.Php.{Batch_cmd, z_string, z_long}
use libredis.Php.Error.{
  IsText, c_string, last_error, set_last_error_from_global_error, set_last_error_from_batch_error,
  last_error-aborted, last_error-set_error,
}
use libredis.Php.Reply.{Batch_next_reply_method}
use libredis.Php.Reply.Values.{given, next_reply_method-value}
use libredis.Php.Command.{cmd_text, Batch_cmd-Encodes}
use libredis.Tests.{codes}

abbrev increments : List Bytes
increments = codes "INCRBY" ∷ codes "n" ∷ codes "10" ∷ []

Batch_cmd-Encodes_example :
    (b' : Batch) × (Batch_cmd Batch_new (map z_string increments) ≡ some (true, b'))
    × Adds Batch_new (cmd_text increments) 1 b'
    × ((rest : Bytes)
        → Encodes (multibulk (some (map some increments))) rest (cmd_text increments ++ rest))
unfolding Batch_new Buffer_new print_onto
Batch_cmd-Encodes_example =
    Batch_cmd-Encodes Batch_new increments (new-IsWritable 4096 (omega arith) (omega arith))
      (omega arith) (omega arith, (omega arith, (omega arith, tt))) (omega arith)

increments-text : cmd_text increments ≡ codes "*3\r\n$6\r\nINCRBY\r\n$1\r\nn\r\n$2\r\n10\r\n"
unfolding print_onto
increments-text = refl

timeout-IsText : IsText (codes "timeout")
timeout-IsText = (
  omega arith,
  (omega arith, (omega arith, (omega arith, (omega arith, (omega arith, (omega arith, tt)))))),
)

last_error-aborted_example :
    (b' : Batch) × (Batch_abort Batch_new (codes "timeout") ≡ some b')
    × ((error' : Bytes) × (last_error (set_last_error_from_batch_error b' [])
          ≡ some (codes "timeout", error'))
        × (c_string error' ≡ some []))
    × (Batch_new.error ≡ none
        → 0 < 0
        → c_string (set_last_error_from_batch_error Batch_new []) ≡ some [])
last_error-aborted_example =
    last_error-aborted Batch_new (codes "timeout") [] timeout-IsText (omega arith)

-- A number in the read buffer, with the end of its line
abbrev counted : Buffer
counted = record {
  position = 6;
  limit = 6;
  capacity = 6;
  buff_size = 6;
  buff = codes ":-42\r\n";
  grown = none;
}

abbrev counted_batch : Batch
counted_batch = record Batch_new {
  reply_queue = cons (Reply_new rt_integer read_buffer 1 3) nil;
  read_buffer = counted;
}

next_reply_method-value_example :
    (c' : Cursor) × (Batch_next_reply_method (standing counted_batch (at_entry 0 none none))
      ≡ some (
        given (Reply_new rt_integer read_buffer 1 3) (z_long (negsuc 41)),
        standing counted_batch c',
      ))
unfolding print_onto
next_reply_method-value_example =
    next_reply_method-value counted_batch 0 none none (number (codes "-42"))
      (Reply_new rt_integer read_buffer 1 3) (z_long (negsuc 41)) refl (1, refl, refl)
      (negsuc 41, codes "\n", omega arith, refl, refl)

es-IsText : (n : ℕ) → IsText (replicate n b'e')
es-IsText zero = tt
es-IsText (suc n) = (omega arith, es-IsText n)

abbrev some_module : Module
some_module = record { alloc_malloc = none; alloc_realloc = none; alloc_free = none; error = [] }

last_error-set_error_example :
    (error' : Bytes) × (last_error (
        set_last_error_from_global_error
          (Module_last_error (Module_set_error some_module (replicate 300 b'e'))))
      ≡ some (take max_text (replicate 300 b'e'), error'))
    × (c_string error' ≡ some [])
last_error-set_error_example = last_error-set_error some_module (replicate 300 b'e') (es-IsText 300)
