-- ===== src/Php/Reply.antt =====
-- `Batch::next_reply` of the PHP extension: a reply as values of PHP.
pub mod Values
use libredis.Base.{
  ℕ, zero, suc, ◌+◌, ◌-◌, ◌*◌, ◌^◌, ◌≤◌, ◌<◌, ◌≡◌, refl, sym, ap, ◌∙◌, inl, inr, Bool, true, false,
  ◌&&◌, ◌||◌, Option, none, some, [], ◌∷◌, ◌++◌, Bytes, arith, length, take, drop, append_nil,
  lt→ltb, if◌then◌else◌, ltb, leb, leb-le, ◌==◌, ◌>>=◌,
}
use libredis.Base.Int.{ℤ, pos, negsuc}
use libredis.Base.Decimal.{print_long, print_decimal}
use libredis.Buffer.{Buffer_data}
use libredis.Reply.{
  ReplyType, BufferRef, null_buffer, read_buffer, error_buffer, rt_error, rt_none, rt_ok,
  rt_bulk_nil, rt_bulk, rt_multibulk_nil, rt_multibulk, rt_integer,
}
use libredis.Batch.{Batch}
use libredis.Batch.Next.{Next, invalid_argument, no_reply, found, Batch_next_reply}
use libredis.Parser.{atoi_from, is_digit}
use libredis.Parser.Pieces.{atoi_from-decimal}
use libredis.Parser.Digits.{Digits, print_onto-Digits}
use libredis.Php.{Zval, z_null, z_long, z_string}

abbrev is_space : ℕ → Bool
is_space c = (leb 9 c && leb c 13) || (c == b' ')

abbrev skip_spaces : Bytes → Bytes
skip_spaces [] = []
skip_spaces (c ∷ cs) = let rest = skip_spaces cs in if is_space c then rest else c ∷ cs

-- A `long` has 64 bits; `strtol` stops at its ends.
abbrev long_limit : ℕ
long_limit = 2 ^ 63

abbrev up_to_limit : ℕ → ℤ
up_to_limit n = if ltb n long_limit then pos n else pos (long_limit - 1)

abbrev down_to_limit : ℕ → ℤ
down_to_limit zero = pos 0
down_to_limit (suc n) = if ltb n long_limit then negsuc n else negsuc (long_limit - 1)

abbrev signed : Bytes → ℤ
signed [] = pos 0
signed (c ∷ cs) =
    if c == b'-'
    then down_to_limit (atoi_from 0 cs)
    else if c == b'+'
    then up_to_limit (atoi_from 0 cs)
    else up_to_limit (atoi_from 0 (c ∷ cs))

-- `strtol` with base 10, on the bytes at a pointer
pub strtol : Bytes → ℤ
strtol bs = signed (skip_spaces bs)

-- The bytes at a pointer into a buffer of the batch
abbrev pub bytes_at : Batch → BufferRef → ℕ → Option Bytes
bytes_at b null_buffer o = none
bytes_at b read_buffer o = some (drop o (Buffer_data b.read_buffer))
bytes_at b error_buffer o = do e ← b.error; some (drop o (Buffer_data e))

-- The value that a reply is given as, from its type, its data and its length; `none` reads at NULL.
unfoldable pub value_of : ReplyType → Option Bytes → ℕ → Option Zval
value_of rt_ok (some bs) n = some (z_string (take n bs))
value_of rt_ok none n = some (z_string [])
value_of rt_error (some bs) n = some (z_string (take n bs))
value_of rt_error none n = some (z_string [])
value_of rt_bulk (some bs) n = some (z_string (take n bs))
value_of rt_bulk none n = some (z_string [])
value_of rt_integer (some bs) n = some (z_long (strtol bs))
value_of rt_integer none n = none
value_of _ _ n = some z_null

abbrev pub type_code : ReplyType → ℤ
type_code rt_error = negsuc 0
type_code rt_none = pos 0
type_code rt_ok = pos 1
type_code rt_bulk_nil = pos 2
type_code rt_bulk = pos 3
type_code rt_multibulk_nil = pos 4
type_code rt_multibulk = pos 5
type_code rt_integer = pos 6

-- The result, and the three parameters by reference
pub record PhpReply : Type 0 where
  pub level : ℤ
  pub reply_type : Zval
  pub reply_value : Zval
  pub reply_length : Zval

abbrev pub data_of : Batch → Option (BufferRef × ℕ) → Option (Option Bytes)
data_of b none = some none
data_of b (some (ref, o)) = do bs ← bytes_at b ref o; some (some bs)

pub Batch_next_reply_method : Batch → Option (PhpReply × Batch)
Batch_next_reply_method b = do
  (n, b') ← Batch_next_reply true b
  elim n [
    | invalid_argument ↦ none
    | no_reply ↦ some (
      record {
        level = pos 0;
        reply_type = z_long (type_code rt_none);
        reply_value = z_null;
        reply_length = z_long (pos 0);
      },
      b',
    )
    | found level t d len ↦ do
      bs ← data_of b' d
      v ← value_of t bs len
      some (
        record {
          level = pos level;
          reply_type = z_long (type_code t);
          reply_value = v;
          reply_length = z_long (pos len);
        },
        b',
      )
  ]

-- The value of a C `long`
abbrev pub IsLong : ℤ → Type 0
IsLong (pos n) = n < 2 ^ 63
IsLong (negsuc n) = n < 2 ^ 63

digit-no_space : (c : ℕ) → is_digit c ≡ true → is_space c ≡ false
digit-no_space c h = ground arith

digit-no_sign : (c : ℕ) → is_digit c ≡ true → ((c == b'-') ≡ false) × ((c == b'+') ≡ false)
digit-no_sign c h = (ground arith, ground arith)

up-in_range : (n : ℕ) → n < 2 ^ 63 → up_to_limit n ≡ pos n
up-in_range n h = rw (lt→ltb n long_limit h) refl

-- The digits of a number and a CR
atoi-printed : (n : ℕ) (rest : Bytes) → atoi_from 0 (print_decimal n ++ b'\r' ∷ rest) ≡ n
atoi-printed n rest =
    let d = print_onto-Digits (suc n) n [] (omega arith) in
    let text = d.printed ∙ ap (λ (xs : Bytes). d.first ∷ xs) (append_nil d.others) in
    ap (λ (xs : Bytes). atoi_from 0 (xs ++ b'\r' ∷ rest)) text
    ∙ atoi_from-decimal 0 (d.first ∷ d.others) rest (d.first_digit, d.other_digits)
    ∙ d.value

strtol-digits :
    (d : ℕ) (cs : Bytes) → is_digit d ≡ true → strtol (d ∷ cs) ≡ up_to_limit (atoi_from 0 (d ∷ cs))
unfolding strtol
strtol-digits d cs h =
    let (minus, plus) = digit-no_sign d h in rw (digit-no_space d h, minus, plus) refl

-- A number that `snprintf` writes with "%ld" is read back by `strtol` up to the CR behind it, whatever follows.
pub strtol-print_long :
    (z : ℤ) (rest : Bytes) → IsLong z → strtol (print_long z ++ b'\r' ∷ rest) ≡ z
unfolding strtol
strtol-print_long (pos n) rest h =
    let d = print_onto-Digits (suc n) n [] (omega arith) in
    let text = d.printed ∙ ap (λ (xs : Bytes). d.first ∷ xs) (append_nil d.others) in
    let all : print_decimal n ++ b'\r' ∷ rest ≡ d.first ∷ (d.others ++ b'\r' ∷ rest) =
      ap (λ (xs : Bytes). xs ++ b'\r' ∷ rest) text in
    ap strtol all
    ∙ strtol-digits d.first (d.others ++ b'\r' ∷ rest) d.first_digit
    ∙ ap (λ (xs : Bytes). up_to_limit (atoi_from 0 xs)) (sym all)
    ∙ ap up_to_limit (atoi-printed n rest)
    ∙ up-in_range n h
strtol-print_long (negsuc n) rest h =
    ap down_to_limit (atoi-printed (suc n) rest) ∙ (rw (lt→ltb n long_limit h) refl)
