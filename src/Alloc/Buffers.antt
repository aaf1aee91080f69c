-- ===== src/Alloc/Buffers.antt =====
-- What the functions of libredis/buffer.c do to the count of the bytes allocated.
use libredis.Base.{
  ℕ, zero, suc, ◌+◌, ◌*◌, ◌%◌, ◌≤◌, ◌<◌, ◌≡◌, inl, inr, Bool, true, false, Option, none, some,
  Bytes, arith, if◌then◌else◌, ◌==◌, ltb, Bool-cases, Option-cases,
}
use libredis.Buffer.{
  Buffer, size_mod, sub_size, as_int, grow_limit, enlarge, put, Buffer_new, Buffer_clear,
  Buffer_flip, Buffer_send, Buffer_set_position, Buffer_set_limit,
}
use libredis.Alloc.{add_size, sizeof_buffer}

-- `allocated` after `Buffer_new`
pub Buffer_new_allocated : ℕ → ℕ → ℕ
Buffer_new_allocated size n = add_size (add_size n sizeof_buffer) size

-- After `Buffer_clear`
pub Buffer_clear_allocated : Buffer → ℕ → ℕ
Buffer_clear_allocated b n = if ltb b.buff_size b.capacity then sub_size n b.capacity else n

-- After `Buffer_ensure_remaining`, with the limit that its loop comes to
pub Buffer_ensure_remaining_allocated : Buffer → ℕ → ℕ → ℕ
Buffer_ensure_remaining_allocated b limit n =
    if ltb b.capacity limit
    then if b.capacity == b.buff_size
      then add_size n limit
      else add_size (sub_size n b.capacity) limit
    else n

-- After `Buffer_free`
pub Buffer_free_allocated : Buffer → ℕ → ℕ
Buffer_free_allocated b n =
    let kept = sub_size n b.buff_size in
    sub_size (if ltb b.buff_size b.capacity then sub_size kept b.capacity else kept) sizeof_buffer

-- A call on a buffer, with the count before and after it; positions and limits are `size_t`.
pub data Step : Buffer → ℕ → Buffer → ℕ → Type 0 where
  clears : (b : Buffer) (n : ℕ) → Step b n (Buffer_clear b) (Buffer_clear_allocated b n)
  ensures :
      (b : Buffer) (n least limit : ℕ)
      → grow_limit 65 b.limit b.position (as_int least) ≡ some limit
      → Step b n (enlarge b limit) (Buffer_ensure_remaining_allocated b limit n)
  puts :
      (b after : Buffer) (n : ℕ) (d : Bytes)
      → put b d ≡ some after
      → after.position < size_mod
      → Step b n after n
  sends :
      (b : Buffer) (n : ℕ) (written : Option ℕ)
      → (Buffer_send b written).position < size_mod
      → Step b n (Buffer_send b written) n
  flips : (b : Buffer) (n : ℕ) → Step b n (Buffer_flip b) n
  sets_position :
      (b : Buffer) (n position : ℕ)
      → position < size_mod
      → Step b n (Buffer_set_position b position) n
  sets_limit : (b : Buffer) (n limit : ℕ) → limit < size_mod → Step b n (Buffer_set_limit b limit) n

pub data Steps : Buffer → ℕ → Buffer → ℕ → Type 0 where
  ends : (b : Buffer) (n : ℕ) → Steps b n b n
  goes : (b c d : Buffer) (n m k : ℕ) → Step b n c m → Steps c m d k → Steps b n d k

abbrev pub has_block : Buffer → Bool
has_block b = elim b.grown [ none ↦ false | some block ↦ true ]

-- The bytes of the block that a buffer has grown to
abbrev grown_size : Buffer → ℕ
grown_size b = if ltb b.buff_size b.capacity then b.capacity else 0

-- The count is `base` with what the buffer holds.
record IsCounted (base : ℕ) (b : Buffer) (n : ℕ) : Type 0 where
  at_least : b.buff_size ≤ b.capacity
  in_capacity : b.capacity < size_mod
  in_limit : b.limit < size_mod
  in_position : b.position < size_mod
  block : ltb b.buff_size b.capacity ≡ has_block b
  count : n ≡ (base + sizeof_buffer + b.buff_size + grown_size b) % size_mod

grow_limit-small :
    (f limit position least l : ℕ)
    → limit < size_mod
    → grow_limit f limit position least ≡ some l
    → l < size_mod
unfolding grow_limit
grow_limit-small zero limit position least l small e = ground (arith, e)
grow_limit-small (suc f) limit position least l small e =
    elim (Bool-cases (ltb (sub_size limit position) least)) [
      | inl more ↦
          grow_limit-small f ((limit * 2) % size_mod) position least l (omega arith) (rw more at e)
      | inr fits ↦
          let same : some limit ≡ some l = rw fits at e in
          let eq : limit ≡ l = cc (same) in omega (arith, eq, small)
    ]

module _ (base : ℕ) where
  new-IsCounted :
      (size : ℕ)
      → size < size_mod
      → IsCounted base (Buffer_new size) (Buffer_new_allocated size base)
  unfolding Buffer_new Buffer_new_allocated
  new-IsCounted size small = ground (arith)

  clear-IsCounted :
      (b : Buffer) (n : ℕ)
      → IsCounted base b n
      → IsCounted base (Buffer_clear b) (Buffer_clear_allocated b n)
  unfolding Buffer_clear Buffer_clear_allocated
  clear-IsCounted b n v = ground (arith)

  enlarge-IsCounted :
      (b : Buffer) (n limit : ℕ)
      → limit < size_mod
      → IsCounted base b n
      → IsCounted base (enlarge b limit) (Buffer_ensure_remaining_allocated b limit n)
  unfolding enlarge Buffer_ensure_remaining_allocated
  enlarge-IsCounted b n limit small v = ground (arith)

  put-IsCounted :
      (b after : Buffer) (n : ℕ) (d : Bytes)
      → put b d ≡ some after
      → after.position < size_mod
      → IsCounted base b n
      → IsCounted base after n
  unfolding put
  put-IsCounted b after n d e h v = elim (Option-cases b.grown) [
    | inl none_yet ↦ ground (arith, e, none_yet)
    | inr (block, there) ↦ ground (arith, e, there)
  ]

  Step-IsCounted :
      (b after : Buffer) (n m : ℕ) → Step b n after m → IsCounted base b n → IsCounted base after m
  unfolding put Buffer_send Buffer_flip
  Step-IsCounted _ _ _ _ (clears b n) v = clear-IsCounted b n v
  Step-IsCounted _ _ _ _ (ensures b n least limit e) v =
      enlarge-IsCounted b n limit
        (grow_limit-small 65 b.limit b.position (as_int least) limit v.in_limit e) v
  Step-IsCounted _ _ _ _ (puts b after n d e h) v = put-IsCounted b after n d e h v
  Step-IsCounted _ _ _ _ (sends b n none h) v = v
  Step-IsCounted _ _ _ _ (sends b n (some w) h) v = ground arith
  Step-IsCounted _ _ _ _ (flips b n) v = ground arith
  Step-IsCounted _ _ _ _ (sets_position b n p h) v = ground arith
  Step-IsCounted _ _ _ _ (sets_limit b n l h) v = ground arith

  Steps-IsCounted :
      (b after : Buffer) (n m : ℕ) → Steps b n after m → IsCounted base b n → IsCounted base after m
  Steps-IsCounted _ _ _ _ (ends b n) v = v
  Steps-IsCounted _ _ _ _ (goes b c d n m k first later) v =
      Steps-IsCounted c d m k later (Step-IsCounted b c n m first v)

  free-IsCounted :
      (b : Buffer) (n : ℕ) → base < size_mod → IsCounted base b n → Buffer_free_allocated b n ≡ base
  unfolding Buffer_free_allocated
  free-IsCounted b n small v = ground arith

-- After any series of the calls on a new buffer, from any count `n` before it was made: `Buffer_free` brings
-- the count back to `n`, so that every byte is given back once; and the test by which `Buffer_clear` and
-- `Buffer_free` find a grown block holds exactly where there is one.
pub free-restores :
    (size n : ℕ) (b : Buffer) (m : ℕ)
    → size < size_mod
    → n < size_mod
    → Steps (Buffer_new size) (Buffer_new_allocated size n) b m
    → (Buffer_free_allocated b m ≡ n) × (ltb b.buff_size b.capacity ≡ has_block b)
free-restores size n b m size_small small steps =
    let v =
      Steps-IsCounted n (Buffer_new size) b (Buffer_new_allocated size n) m steps
        (new-IsCounted n size size_small) in
    (free-IsCounted n b m small v, v.block)
