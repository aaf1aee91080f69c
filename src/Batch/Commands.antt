-- ===== src/Batch/Commands.antt =====
-- What `Batch_write` and the two commands put together from it leave in the write buffer.
use libredis.Base.{
  ℕ, ◌+◌, ◌-◌, ◌^◌, ◌≤◌, ◌<◌, ◌≡◌, refl, sym, ap, ◌∙◌, some, [], ◌∷◌, ◌++◌, Bytes, arith, length,
  take, length-append, append_assoc, append_nil,
}
use libredis.Base.Decimal.{print_decimal, print_decimal-short}
use libredis.Buffer.{Buffer, Buffer_data}
use libredis.Buffer.Grow.{IsWritable}
use libredis.Buffer.Write.{write-HasWritten}
use libredis.Batch.{
  Batch, Batch_write, Batch_write_decimal, Batch_write_set, Batch_write_get, crlf_text,
}

-- The bytes that were written
abbrev pub written : Batch → Bytes
written b = take b.write_buffer.position (Buffer_data b.write_buffer)

abbrev pub with_commands : Batch → Buffer → ℕ → Batch
with_commands b w n = record b { write_buffer = w; num_commands = n }

-- The text is appended to the write buffer, `n` more commands wait for a reply, and the rest of the batch is as
-- before.
pub record Adds (b : Batch) (text : Bytes) (n : ℕ) (b' : Batch) : Type 0 where
  pub writable : IsWritable b'.write_buffer
  pub appended : written b' ≡ written b ++ text
  pub moved : b'.write_buffer.position ≡ b.write_buffer.position + length text
  pub counted : b'.num_commands ≡ b.num_commands + n
  pub only : b' ≡ with_commands b b'.write_buffer b'.num_commands

pub write-Adds :
    (b : Batch) (text : Bytes) (n : ℕ)
    → IsWritable b.write_buffer
    → length text < 2 ^ 31
    → b.write_buffer.position + length text ≤ 2 ^ 61
    → (b' : Batch) × (Batch_write b (some text) n ≡ some b') × Adds b text n b'
unfolding Batch_write
write-Adds b [] n w h small = (
  record b { num_commands = b.num_commands + n },
  refl,
  record {
    writable = w;
    appended = sym (append_nil (written b));
    moved = omega arith;
    counted = refl;
    only = refl;
  },
)
write-Adds b (c ∷ cs) n w h small =
    let (w', e, has) = write-HasWritten b.write_buffer (c ∷ cs) w h small in
    (
      record b { write_buffer = w'; num_commands = b.num_commands + n },
      rw e,
      record {
        writable = has.writable;
        appended = has.appended;
        moved = has.position_moved;
        counted = refl;
        only = refl;
      },
    )

pub then-Adds :
    {b b1 b2 : Batch} (t1 t2 : Bytes) (n1 n2 n : ℕ)
    → n1 + n2 ≡ n
    → Adds b t1 n1 b1
    → Adds b1 t2 n2 b2
    → Adds b (t1 ++ t2) n b2
then-Adds {b} {b1} {b2} t1 t2 n1 n2 n e x y = record {
  writable = y.writable;
  appended = y.appended ∙ ap (λ (xs : Bytes). xs ++ t2) x.appended ∙ append_assoc (written b) t1 t2;
  moved = omega (arith, x.moved, y.moved, length-append t1 t2);
  counted = omega (arith, x.counted, y.counted, e);
  only = y.only ∙ ap (λ (c : Batch). with_commands c b2.write_buffer b2.num_commands) x.only;
}

-- A command of several parts: `n` counts for the last one.
pub then_write :
    {b b1 : Batch} (t1 t2 : Bytes) (n : ℕ)
    → Adds b t1 0 b1
    → length t2 < 2 ^ 31
    → b.write_buffer.position + length (t1 ++ t2) ≤ 2 ^ 61
    → (b2 : Batch) × (Batch_write b1 (some t2) n ≡ some b2) × Adds b (t1 ++ t2) n b2
then_write t1 t2 n x h small =
    let (b2, e, y) =
      write-Adds _ t2 n x.writable h (omega (arith, small, x.moved, length-append t1 t2)) in
    (b2, e, then-Adds t1 t2 0 n n (omega arith) x y)

pub front : (p : ℕ) (x y : Bytes) → p + length (x ++ y) ≤ 2 ^ 61 → p + length x ≤ 2 ^ 61
front p x y h = let l = length-append x y in omega (arith, h, l)

pub one : 1 < 2 ^ 31
one = omega arith

pub two : 2 < 2 ^ 31
two = omega arith

four : 4 < 2 ^ 31
four = omega arith

pub value_small : (value : Bytes) → length value < 2 ^ 31 - 1 → length value < 2 ^ 31
value_small value h = omega arith

pub digits_small :
    (value : Bytes) → length value < 2 ^ 31 - 1 → length (print_decimal (length value)) < 2 ^ 31
digits_small value h = omega (arith, print_decimal-short (length value))

abbrev pub get_text : Bytes → Bytes
get_text key = ((b'G' ∷ b'E' ∷ b'T' ∷ b' ' ∷ []) ++ key) ++ crlf_text

abbrev pub set_line : Bytes → ℕ → Bytes
set_line key n =
    ((((b'S' ∷ b'E' ∷ b'T' ∷ b' ' ∷ []) ++ key) ++ (b' ' ∷ [])) ++ print_decimal n) ++ crlf_text

abbrev pub set_text : Bytes → Bytes → Bytes
set_text key value = (set_line key (length value) ++ value) ++ crlf_text

-- `Batch_write_get` of a key of less than 2^31 bytes appends "GET key\r\n" to a writable write buffer
-- (2^61 bytes in all at most), and counts one command; nothing else of the batch changes.
pub write_get-Adds :
    (b : Batch) (key : Bytes)
    → IsWritable b.write_buffer
    → length key < 2 ^ 31
    → b.write_buffer.position + length (get_text key) ≤ 2 ^ 61
    → (b' : Batch) × (Batch_write_get b key ≡ some b') × Adds b (get_text key) 1 b'
unfolding Batch_write_get
write_get-Adds b key w h small =
    let get : Bytes = b'G' ∷ b'E' ∷ b'T' ∷ b' ' ∷ [] in
    let s2 = front _ (get ++ key) crlf_text small in
    let (b1, e1, x1) = write-Adds b get 0 w four (front _ get key s2) in
    let (b2, e2, x2) = then_write get key 0 x1 h s2 in
    let (b3, e3, x3) = then_write (get ++ key) crlf_text 1 x2 two small in (b3, rw (e1, e2) e3, x3)

-- `Batch_write_set` of a key of less than 2^31 bytes and a value of less than 2^31 - 1 appends
-- "SET key length\r\nvalue\r\n", the length in decimal digits, to a writable write buffer (2^61 bytes
-- in all at most), and counts one command; nothing else of the batch changes.
pub write_set-Adds :
    (b : Batch) (key value : Bytes)
    → IsWritable b.write_buffer
    → length key < 2 ^ 31
    → length value < 2 ^ 31 - 1
    → b.write_buffer.position + length (set_text key value) ≤ 2 ^ 61
    → (b' : Batch) × (Batch_write_set b key value ≡ some b') × Adds b (set_text key value) 1 b'
unfolding Batch_write_set Batch_write_decimal
write_set-Adds b key value w hk hv small =
    let set = b'S' ∷ b'E' ∷ b'T' ∷ b' ' ∷ [] in
    let digits = print_decimal (length value) in
    let t2 = set ++ key in
    let t3 = t2 ++ (b' ' ∷ []) in
    let t4 = t3 ++ digits in
    let t5 = t4 ++ crlf_text in
    let t6 = t5 ++ value in
    let s6 = front _ t6 crlf_text small in
    let s5 = front _ t5 value s6 in
    let s4 = front _ t4 crlf_text s5 in
    let s3 = front _ t3 digits s4 in
    let s2 = front _ t2 (b' ' ∷ []) s3 in
    let (b1, e1, x1) = write-Adds b set 0 w four (front _ set key s2) in
    let (b2, e2, x2) = then_write set key 0 x1 hk s2 in
    let (b3, e3, x3) = then_write t2 (b' ' ∷ []) 0 x2 one s3 in
    let (b4, e4, x4) = then_write t3 digits 0 x3 (digits_small value hv) s4 in
    let (b5, e5, x5) = then_write t4 crlf_text 0 x4 two s5 in
    let (b6, e6, x6) = then_write t5 value 0 x5 (value_small value hv) s6 in
    let (b7, e7, x7) = then_write t6 crlf_text 1 x6 two small in
    (b7, rw (e1, e2, e3, e4, e5, e6) e7, x7)
