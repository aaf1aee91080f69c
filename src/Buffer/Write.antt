-- ===== src/Buffer/Write.antt =====
-- `Buffer_write` appends, whatever blocks hold the bytes.
use libredis.Base.{
  ℕ, ◌+◌, ◌-◌, ◌^◌, ◌≤◌, ◌<◌, ◌≡◌, inl, inr, refl, ap, ◌∙◌, none, some, Bytes, ◌++◌, arith, ltb,
  ◌==◌, length, take, drop, replicate, if◌then◌else◌, Bool-cases, ltb→lt, ltb→ge, lt→ltb, ltb-ge,
  length-append, length-take, length-drop, length-replicate, take-take-append, take-of_append,
  take-all,
}
use libredis.Buffer.{
  Buffer, Buffer_data, resize, enlarge, blit, put, as_int, Buffer_ensure_remaining, Buffer_write,
}
use libredis.Buffer.Grow.{IsValid, IsWritable, max_size, grow_limit_total}

-- The bytes written so far
abbrev pub contents : Buffer → Bytes
contents b = take b.position (Buffer_data b)

length-resize : (n : ℕ) (xs : Bytes) → length xs ≤ n → length (resize n xs) ≡ n
length-resize n xs h = omega (
  arith,
  length-append (take n xs) (replicate (n - length xs) 0),
  length-take n xs,
  length-replicate {A = ℕ} (n - length xs) 0,
)

take-resize :
    (i n : ℕ) (xs : Bytes) → i ≤ length xs → length xs ≤ n → take i (resize n xs) ≡ take i xs
take-resize i n xs h k =
    ap (take i) (ap (λ (l : Bytes). l ++ replicate (n - length xs) 0) (take-all n xs k))
    ∙ take-of_append i xs (replicate (n - length xs) 0) h

length-blit : (xs d : Bytes) (i : ℕ) → i + length d ≤ length xs → length (blit xs i d) ≡ length xs
length-blit xs d i h = omega (
  arith,
  length-append (take i xs) (d ++ drop (i + length d) xs),
  length-append d (drop (i + length d) xs),
  length-take i xs,
  length-drop (i + length d) xs,
)

take-blit :
    (xs d : Bytes) (i : ℕ) → i ≤ length xs → take (i + length d) (blit xs i d) ≡ take i xs ++ d
take-blit xs d i h = take-take-append xs d (drop (i + length d) xs) i h

-- What an operation that keeps the contents and makes room leaves
pub record HasRoom (b : Buffer) (n : ℕ) (b' : Buffer) : Type 0 where
  pub writable : IsWritable b'
  pub same : contents b' ≡ contents b
  pub position_same : b'.position ≡ b.position
  pub room : b.position + n ≤ b'.capacity

length-data : {b : Buffer} → IsValid b → length (Buffer_data b) ≡ b.capacity
length-data v = ground arith

-- The block that is copied holds the data.
source-data :
    {b : Buffer}
    → IsValid b
    → (if b.capacity == b.buff_size then b.buff else Buffer_data b) ≡ Buffer_data b
source-data v = ground arith

enlarge-more :
    {b : Buffer} (l : ℕ)
    → IsValid b
    → b.capacity < l
    → enlarge b l ≡ record b { grown = some (resize l (Buffer_data b)); limit = l; capacity = l }
unfolding enlarge
enlarge-more {b} l v h = rw (lt→ltb _ _ h) (
    ap (λ (xs : Bytes). record b { grown = some (resize l xs); limit = l; capacity = l })
      (source-data v))

enlarge-same : (b : Buffer) (l : ℕ) → l ≤ b.capacity → enlarge b l ≡ record b { limit = l }
unfolding enlarge
enlarge-same b l h = rw (ltb-ge _ _ h)

enlarge-HasRoom :
    (b : Buffer) (n l : ℕ)
    → IsWritable b
    → b.capacity ≤ l
    → l ≤ max_size
    → b.position + n ≤ l
    → HasRoom b n (enlarge b l)
enlarge-HasRoom b n l w le small room = elim (Bool-cases (ltb b.capacity l)) [
  | inr same ↦ rw (enlarge-same b l (ltb→ge _ _ same)) (ground (arith, ltb→ge b.capacity l same))
  | inl more ↦
      let lt = ltb→lt _ _ more in
      let xs = Buffer_data b in
      let n' = length-data w.valid in
      rw (enlarge-more l w.valid lt) (record {
        writable = ground (arith, length-resize l xs);
        same = take-resize b.position l xs (omega arith) (omega arith);
        position_same = refl;
        room = room;
      })
]

as_int-small : (n : ℕ) → n < 2 ^ 31 → as_int n ≡ n
unfolding as_int
as_int-small n h = ground arith

pub ensure_remaining-HasRoom :
    (b : Buffer) (n : ℕ)
    → IsWritable b
    → n < 2 ^ 31
    → b.position + n ≤ 2 ^ 61
    → (b' : Buffer) × (Buffer_ensure_remaining b n ≡ some b') × HasRoom b n b'
unfolding Buffer_ensure_remaining
ensure_remaining-HasRoom b n w h small =
    let (l, e, enough, more, fits) =
      grow_limit_total 64 b.limit b.position n (ground arith) w.valid.in_limit (ground arith) small
        (ground arith) in
    (
      enlarge b l,
      rw (as_int-small n h, e),
      enlarge-HasRoom b n l w (omega (arith, w.open_end)) fits enough,
    )

put-first :
    (b : Buffer) (d : Bytes)
    → b.grown ≡ none
    → b.position + length d ≤ length b.buff
    → put b d
      ≡ some (record b { buff = blit b.buff b.position d; position = b.position + length d })
unfolding put
put-first b d e room = ground arith

put-grown :
    (b : Buffer) (d block : Bytes)
    → b.grown ≡ some block
    → b.position + length d ≤ length block
    → put b d
      ≡ some (record b { grown = some (blit block b.position d); position = b.position + length d })
unfolding put
put-grown b d block e room = ground arith

-- The buffer with `d` written behind its contents
pub record HasWritten (b : Buffer) (d : Bytes) (b' : Buffer) : Type 0 where
  pub writable : IsWritable b'
  pub appended : contents b' ≡ contents b ++ d
  pub position_moved : b'.position ≡ b.position + length d

-- `put` where there is room
pub put-HasWritten :
    (b : Buffer) (d : Bytes)
    → IsWritable b
    → b.position + length d ≤ b.capacity
    → (b' : Buffer) × (put b d ≡ some b') × HasWritten b d b'
put-HasWritten b d w room = elim w.valid.block [
  | inl (e, c) ↦
      let xs = b.buff in
      let fits : b.position + length d ≤ length xs = omega (arith, w.valid.buff_len) in
      (
        record b { buff = blit xs b.position d; position = b.position + length d },
        put-first b d e fits,
        record {
          writable = ground (arith, length-blit xs d b.position);
          appended = rw e (take-blit xs d b.position (omega arith));
          position_moved = refl;
        },
      )
  | inr (block, e, n, c) ↦
      let fits : b.position + length d ≤ length block = omega arith in
      (
        record b { grown = some (blit block b.position d); position = b.position + length d },
        put-grown b d block e fits,
        record {
          writable = ground (arith, length-blit block d b.position);
          appended = rw e (take-blit block d b.position (omega arith));
          position_moved = refl;
        },
      )
]

-- `Buffer_write` of less than 2^31 bytes into a writable buffer, up to 2^61 bytes in all, succeeds:
-- the bytes stand behind what was written before, in a buffer that has grown where it had to and is
-- writable again.
pub write-HasWritten :
    (b : Buffer) (d : Bytes)
    → IsWritable b
    → length d < 2 ^ 31
    → b.position + length d ≤ 2 ^ 61
    → (b' : Buffer) × (Buffer_write b d ≡ some b') × HasWritten b d b'
unfolding Buffer_write
write-HasWritten b d w h small =
    let (b1, e1, r) = ensure_remaining-HasRoom b (length d) w h small in
    let (b2, e2, p) = put-HasWritten b1 d r.writable (omega (arith, r.room, r.position_same)) in
    (
      b2,
      rw e1 e2,
      record {
        writable = p.writable;
        appended = p.appended ∙ ap (λ (xs : Bytes). xs ++ d) r.same;
        position_moved = omega (arith, p.position_moved, r.position_same);
      },
    )
