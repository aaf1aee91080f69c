-- ===== src/Php/Command.antt =====
-- `Batch_cmd` writes a command that the reader of replies would read as the list of its arguments.
use mathlib.Core.Path.{subst}
use libredis.Base.{
  ℕ, suc, ◌+◌, ◌-◌, ◌^◌, ◌≤◌, ◌<◌, ◌≡◌, refl, sym, ap, true, Option, some, List, [], ◌∷◌, ◌++◌,
  Bytes, arith, length, map, length-append, append_assoc, append_nil,
}
use libredis.Base.Decimal.{print_decimal, print_decimal-short}
use libredis.Buffer.Grow.{IsWritable}
use libredis.Batch.{Batch, Batch_write_decimal, crlf_text}
use libredis.Batch.Commands.{
  Adds, write-Adds, then-Adds, then_write, front, one, two, digits_small, value_small,
}
use libredis.Parser.Wire.{Encodes, EncodesBulk, EncodesItems, multibulk, IsCount}
use libredis.Parser.Digits.{print_decimal-IsCount}
use libredis.Php.{z_string, strings_of, write_arg, write_args, write_cmd, Batch_cmd}

abbrev pub arg_text : Bytes → Bytes
arg_text x = ((((b'$' ∷ []) ++ print_decimal (length x)) ++ crlf_text) ++ x) ++ crlf_text

abbrev pub args_text : List Bytes → Bytes
args_text [] = []
args_text (x ∷ xs) = arg_text x ++ args_text xs

abbrev pub cmd_text : List Bytes → Bytes
cmd_text xs = (((b'*' ∷ []) ++ print_decimal (length xs)) ++ crlf_text) ++ args_text xs

-- Each argument has less than 2^31 - 1 bytes.
abbrev pub AllShort : List Bytes → Type 0
AllShort [] = Unit {0}
AllShort (x ∷ xs) = (length x < 2 ^ 31 - 1) × AllShort xs

write_arg-Adds :
    (b : Batch) (x : Bytes)
    → IsWritable b.write_buffer
    → length x < 2 ^ 31 - 1
    → b.write_buffer.position + length (arg_text x) ≤ 2 ^ 61
    → (b' : Batch) × (write_arg b x ≡ some b') × Adds b (arg_text x) 0 b'
unfolding write_arg Batch_write_decimal
write_arg-Adds b x w h small =
    let t1 : Bytes = b'$' ∷ [] in
    let digits = print_decimal (length x) in
    let t2 = t1 ++ digits in
    let t3 = t2 ++ crlf_text in
    let t4 = t3 ++ x in
    let s4 = front _ t4 crlf_text small in
    let s3 = front _ t3 x s4 in
    let s2 = front _ t2 crlf_text s3 in
    let (b1, e1, x1) = write-Adds b t1 0 w one (front _ t1 digits s2) in
    let (b2, e2, x2) = then_write t1 digits 0 x1 (digits_small x h) s2 in
    let (b3, e3, x3) = then_write t2 crlf_text 0 x2 two s3 in
    let (b4, e4, x4) = then_write t3 x 0 x3 (value_small x h) s4 in
    let (b5, e5, x5) = then_write t4 crlf_text 0 x4 two small in (b5, rw (e1, e2, e3, e4) e5, x5)

write_args-Adds :
    (xs : List Bytes) (b : Batch)
    → IsWritable b.write_buffer
    → AllShort xs
    → b.write_buffer.position + length (args_text xs) ≤ 2 ^ 61
    → (b' : Batch) × (write_args b xs ≡ some b') × Adds b (args_text xs) 0 b'
unfolding write_args
write_args-Adds [] b w h small = (
  b,
  refl,
  record {
    writable = w;
    appended = sym (append_nil _);
    moved = omega arith;
    counted = omega arith;
    only = refl;
  },
)
write_args-Adds (x ∷ xs) b w h small =
    let (b1, e1, x1) = write_arg-Adds b x w h.0 (front _ (arg_text x) (args_text xs) small) in
    let l = length-append (arg_text x) (args_text xs) in
    let (b2, e2, x2) = write_args-Adds xs b1 x1.writable h.1 (omega (arith, small, x1.moved, l)) in
    (b2, rw e1 e2, then-Adds (arg_text x) (args_text xs) 0 0 0 refl x1 x2)

count_small : (n : ℕ) → n < 2 ^ 31 - 1 → length (print_decimal n) < 2 ^ 31
count_small n h = omega (arith, print_decimal-short n)

write_cmd-Adds :
    (xs : List Bytes) (b : Batch)
    → IsWritable b.write_buffer
    → length xs < 2 ^ 31 - 1
    → AllShort xs
    → b.write_buffer.position + length (cmd_text xs) ≤ 2 ^ 61
    → (b' : Batch) × (write_cmd b xs ≡ some b') × Adds b (cmd_text xs) 1 b'
unfolding write_cmd Batch_write_decimal
write_cmd-Adds xs b w n h small =
    let t1 : Bytes = b'*' ∷ [] in
    let digits = print_decimal (length xs) in
    let t2 = t1 ++ digits in
    let t3 = t2 ++ crlf_text in
    let s3 = front _ t3 (args_text xs) small in
    let s2 = front _ t2 crlf_text s3 in
    let (b1, e1, x1) = write-Adds b t1 1 w one (front _ t1 digits s2) in
    let l2 = length-append t1 digits in
    let (b2, e2, y2) =
      write-Adds b1 digits 0 x1.writable (count_small (length xs) n)
        (omega (arith, s2, x1.moved, l2)) in
    let x2 = then-Adds t1 digits 1 0 1 refl x1 y2 in
    let l3 = length-append t2 crlf_text in
    let (b3, e3, y3) =
      write-Adds b2 crlf_text 0 x2.writable two (omega (arith, s3, x2.moved, l3)) in
    let x3 = then-Adds t2 crlf_text 1 0 1 refl x2 y3 in
    let l4 = length-append t3 (args_text xs) in
    let (b4, e4, y4) = write_args-Adds xs b3 x3.writable h (omega (arith, small, x3.moved, l4)) in
    (b4, rw (e1, e2, e3) e4, then-Adds t3 (args_text xs) 1 0 1 refl x3 y4)

arg-EncodesBulk :
    (x rest : Bytes) → length x < 2 ^ 31 - 1 → EncodesBulk (some x) rest (arg_text x ++ rest)
arg-EncodesBulk x rest h =
    let (d, ds, e, count) = print_decimal-IsCount (length x) (omega arith) in
    (d, ds, count, simp (e, append_assoc))

args-EncodesItems :
    (xs : List Bytes) (rest : Bytes)
    → AllShort xs
    → EncodesItems (map some xs) rest (args_text xs ++ rest)
args-EncodesItems [] rest h = refl
args-EncodesItems (x ∷ xs) rest h = (
  args_text xs ++ rest,
  subst (EncodesBulk (some x) (args_text xs ++ rest))
      (sym (append_assoc (arg_text x) (args_text xs) rest))
      (arg-EncodesBulk x (args_text xs ++ rest) h.0),
  args-EncodesItems xs rest h.1,
)

strings_of-map : (xs : List Bytes) → strings_of (map z_string xs) ≡ some xs
unfolding strings_of
strings_of-map [] = refl
strings_of-map (x ∷ xs) = rw (strings_of-map xs) refl

length-map-some : (xs : List Bytes) → length (map {B = Option Bytes} some xs) ≡ length xs
length-map-some [] = refl
length-map-some (x ∷ xs) = ap suc (length-map-some xs)

-- `Batch_cmd` with fewer than 2^31 - 1 strings, each of less than 2^31 - 1 bytes, and a writable write
-- buffer (2^61 bytes in all at most) succeeds and counts one command. What it appends is an encoding
-- of these strings as a multibulk value, whatever bytes the strings hold, whatever follows it.
pub Batch_cmd-Encodes :
    (b : Batch) (xs : List Bytes)
    → IsWritable b.write_buffer
    → length xs < 2 ^ 31 - 1
    → AllShort xs
    → b.write_buffer.position + length (cmd_text xs) ≤ 2 ^ 61
    → (b' : Batch) × (Batch_cmd b (map z_string xs) ≡ some (true, b'))
      × Adds b (cmd_text xs) 1 b'
      × ((rest : Bytes) → Encodes (multibulk (some (map some xs))) rest (cmd_text xs ++ rest))
unfolding Batch_cmd
Batch_cmd-Encodes b xs w n h small =
    let (b', e, adds) = write_cmd-Adds xs b w n h small in
    let (d, ds, p, count) = print_decimal-IsCount (length xs) (omega arith) in
    (
      b',
      rw (Batch_cmd, strings_of-map xs, e) refl,
      adds,
      λ rest. (
        d,
        ds,
        args_text xs ++ rest,
        subst (IsCount d ds) (sym (length-map-some xs)) count,
        simp (p, append_assoc),
        args-EncodesItems xs rest h,
      ),
    )
