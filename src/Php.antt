-- ===== src/Php.antt =====
-- The PHP extension, php/ext/libredis/libredis.c. PHP checks and converts the arguments of a method; what
-- it hands over is what the methods are given here.
pub mod Command
pub mod Error
pub mod Reply
pub mod Methods
pub mod Connections
pub mod Objects
use libredis.Base.{
  ℕ, zero, suc, Bool, true, false, Option, none, some, List, [], ◌∷◌, Bytes, length, ◌>>=◌,
}
use libredis.Base.Int.{ℤ, pos}
use libredis.Batch.{Batch, Batch_write, Batch_write_decimal, crlf_text}

-- `zval`, as far as the extension looks into one or makes one
pub data Zval : Type 0 where
  z_null : Zval
  z_bool : Bool → Zval
  z_long : ℤ → Zval
  z_string : Bytes → Zval
  z_other : Zval

-- The strings of the arguments, if all of them are
pub strings_of : List Zval → Option (List Bytes)
strings_of [] = some []
strings_of (z_string x ∷ zs) = do xs ← strings_of zs; some (x ∷ xs)
strings_of (_ ∷ zs) = none

pub write_arg : Batch → Bytes → Option Batch
write_arg b x = do
  b1 ← Batch_write b (some (b'$' ∷ [])) 0
  b2 ← Batch_write_decimal b1 (pos (length x))
  b3 ← Batch_write b2 (some crlf_text) 0
  b4 ← Batch_write b3 (some x) 0
  Batch_write b4 (some crlf_text) 0

pub write_args : Batch → List Bytes → Option Batch
write_args b [] = some b
write_args b (x ∷ xs) = do b1 ← write_arg b x; write_args b1 xs

pub write_cmd : Batch → List Bytes → Option Batch
write_cmd b xs = do
  b1 ← Batch_write b (some (b'*' ∷ [])) 1
  b2 ← Batch_write_decimal b1 (pos (length xs))
  b3 ← Batch_write b2 (some crlf_text) 0
  write_args b3 xs

-- `false` is the error "all arguments must be strings!".
pub Batch_cmd : Batch → List Zval → Option (Bool × Batch)
Batch_cmd b args = elim (strings_of args) [
  | none ↦ some (false, b)
  | some xs ↦ do b' ← write_cmd b xs; some (true, b')
]
