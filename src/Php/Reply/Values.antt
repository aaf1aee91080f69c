-- ===== src/Php/Reply/Values.antt =====
-- What `Batch::next_reply` gives for the values of the server.
use mathlib.Core.Path.{subst}
use libredis.Base.{
  ℕ, ◌≡◌, refl, sym, ap, ◌∙◌, true, Option, none, some, ◌∷◌, ◌++◌, Bytes, length, take, drop,
}
use libredis.Base.Int.{ℤ, pos}
use libredis.Base.Decimal.{print_long}
use libredis.Buffer.{Buffer_data}
use libredis.Reply.{
  Reply, BufferRef, ReplyType, Reply_type, Reply_length, reply_offset, read_buffer, rt_error, rt_ok,
  rt_bulk_nil, rt_bulk, rt_multibulk_nil, rt_multibulk, rt_integer,
}
use libredis.Batch.{Batch, Node}
use libredis.Batch.Next.{reply_at, found, Batch_next_reply}
use libredis.Batch.Levels.{Cursor, at_entry, at_child, standing, entry_of}
use libredis.Batch.Levels.Calls.{next_reply-entry}
use libredis.Parser.Wire.{Value, status, failure, number, bulk, multibulk, Describes}
use libredis.Connection.Read.Values.{value-Shows}
use libredis.Php.{Zval, z_null, z_long, z_string}
use libredis.Php.Reply.{
  PhpReply, data_of, value_of, type_code, strtol, IsLong, strtol-print_long,
  Batch_next_reply_method,
}

-- The value of PHP for a value of the server, as its text lies in the buffer. The text of a number is what
-- `snprintf` writes for a `long`, with a CR behind it.
abbrev pub IsValueOf : Bytes → Value → Reply → Zval → Type 0
IsValueOf bytes (status s) r z = z ≡ z_string s
IsValueOf bytes (failure s) r z = z ≡ z_string s
IsValueOf bytes (number s) r z =
    (n : ℤ) × (rest : Bytes) × IsLong n
    × (drop (reply_offset r) bytes ≡ print_long n ++ b'\r' ∷ rest)
    × (z ≡ z_long n)
IsValueOf bytes (bulk none) r z = z ≡ z_null
IsValueOf bytes (bulk (some s)) r z = z ≡ z_string s
IsValueOf bytes (multibulk x) r z = z ≡ z_null

-- The parameters by reference and the result, for a reply of the first level
abbrev pub given : Reply → Zval → PhpReply
given r z = record {
  level = pos 1;
  reply_type = z_long (type_code (Reply_type r));
  reply_value = z;
  reply_length = z_long (pos (Reply_length r));
}

method-found :
    (b b' : Batch) (t : ReplyType) (d : Option (BufferRef × ℕ)) (n : ℕ) (bs : Option Bytes)
    (z : Zval)
    → data_of b' d ≡ some bs
    → value_of t bs n ≡ some z
    → Batch_next_reply true b ≡ some (found 1 t d n, b')
    → Batch_next_reply_method b
      ≡ some (
        record {
          level = pos 1;
          reply_type = z_long (type_code t);
          reply_value = z;
          reply_length = z_long (pos n);
        },
        b',
      )
unfolding Batch_next_reply_method
method-found b b' t d n bs z at value run = rw (run, at, value) refl

-- What the method does with an entry
module _ (b b' : Batch) where
  abbrev bytes : Bytes
  bytes = Buffer_data b'.read_buffer

  abbrev Given : Zval → Reply → Type 0
  Given z r =
      Batch_next_reply true b ≡ some (entry_of 1 r, b')
      → Batch_next_reply_method b ≡ some (given r z, b')

  string :
      (o : ℕ) (s : Bytes) (z : Zval)
      → take (length s) (drop o bytes) ≡ s
      → z ≡ z_string s
      → some (z_string (take (length s) (drop o bytes))) ≡ some z
  string o s z holds same = ap (λ (x : Bytes). some (z_string x)) holds ∙ ap some (sym same)

  value-Given :
      (v : Value) (r : Reply) (z : Zval) → Describes bytes v r → IsValueOf bytes v r z → Given z r
  unfolding value_of
  value-Given (status s) r z (o, e, holds) same = subst (Given z) (sym e) (
      method-found b b' rt_ok (some (read_buffer, o)) (length s) _ z refl (string o s z holds same))
  value-Given (failure s) r z (o, e, holds) same = subst (Given z) (sym e) (
      method-found b b' rt_error (some (read_buffer, o)) (length s) _ z refl
        (string o s z holds same))
  value-Given (number s) r z (o, e, holds) (n, rest, long, text, same) =
      let at : drop o bytes ≡ print_long n ++ b'\r' ∷ rest =
        ap (λ (x : Reply). drop (reply_offset x) bytes) (sym e) ∙ text in
      subst (Given z) (sym e) (
        method-found b b' rt_integer (some (read_buffer, o)) (length s) _ z refl (
          ap (λ (x : Bytes). some (z_long (strtol x))) at
          ∙ ap (λ k. some (z_long k)) (strtol-print_long n rest long)
          ∙ ap some (sym same)))
  value-Given (bulk none) r z d same =
      subst (Given z) (sym d)
        (method-found b b' rt_bulk_nil none 0 none z refl (ap some (sym same)))
  value-Given (bulk (some s)) r z (o, e, holds) same = subst (Given z) (sym e) (
      method-found b b' rt_bulk (some (read_buffer, o)) (length s) _ z refl
        (string o s z holds same))
  value-Given (multibulk none) r z d same =
      subst (Given z) (sym d)
        (method-found b b' rt_multibulk_nil none 0 none z refl (ap some (sym same)))
  value-Given (multibulk (some xs)) r z (rs, e, items) same =
      subst (Given z) (sym e)
        (method-found b b' rt_multibulk none (length xs) none z refl (ap some (sym same)))

at_cursor :
    (b : Batch) (c c' : Cursor) (v : Value) (r : Reply) (z : Zval)
    → Describes (Buffer_data b.read_buffer) v r
    → IsValueOf (Buffer_data b.read_buffer) v r z
    → Given (standing b c) (standing b c') z r
at_cursor b c (at_entry i x y) v r z d value =
    value-Given (standing b c) (standing b (at_entry i x y)) v r z d value
at_cursor b c (at_child i j) v r z d value =
    value-Given (standing b c) (standing b (at_child i j)) v r z d value

-- With the cursor of the batch in front of a reply of the queue that describes a value of the server in the read
-- buffer, `Batch::next_reply` gives level 1, the code of the type, and the value: the text as a string,
-- also an empty one; a number that stands there as `snprintf` writes a `long` as that long; and null for
-- nil values and for a multibulk value, whose items come next.
pub next_reply_method-value :
    (b : Batch) (i : ℕ) (x y : Option Node) (v : Value) (r : Reply) (z : Zval)
    → reply_at b.reply_queue i ≡ some r
    → Describes (Buffer_data b.read_buffer) v r
    → IsValueOf (Buffer_data b.read_buffer) v r z
    → (c' : Cursor) × (Batch_next_reply_method (standing b (at_entry i x y))
        ≡ some (given r z, standing b c'))
next_reply_method-value b i x y v r z here d value =
    let (shallow, shows) = value-Shows (Buffer_data b.read_buffer) v r d in
    let (c', run) = next_reply-entry b i x y r here shallow in
    (c', at_cursor b (at_entry i x y) c' v r z d value run)
