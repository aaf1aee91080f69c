-- ===== src/Buffer/Grow.antt =====
-- The invariant of a buffer, and the loop that doubles the limit.
use libredis.Base.{
  ℕ, zero, suc, ◌+◌, ◌*◌, ◌%◌, ◌^◌, ◌≤◌, ◌<◌, ◌≡◌, ◌⊎◌, inl, inr, ap, ◌∙◌, none, some, Bytes, arith,
  ltb, length, Bool-cases, ltb→lt, lt→ltb, ltb→ge, ltb-ge, length-replicate,
}
use libredis.Buffer.{Buffer, size_mod, sub_size, grow_limit, Buffer_new, Buffer_clear, Buffer_flip}
use native.Mathlib.Nat.{pow-suc}

abbrev pub max_size : ℕ
max_size = 2 ^ 62

-- `data` is `buff` while the capacity is the original one, and a larger block afterwards.
abbrev pub IsBlock : Buffer → Type 0
IsBlock b =
    ((b.grown ≡ none) × (b.capacity ≡ b.buff_size))
    ⊎ ((block : Bytes) × (b.grown ≡ some block)
        × (length block ≡ b.capacity)
        × (b.buff_size < b.capacity))

pub record IsValid (b : Buffer) : Type 0 where
  pub buff_len : length b.buff ≡ b.buff_size
  pub size_pos : 0 < b.buff_size
  pub block : IsBlock b
  pub in_limit : b.position ≤ b.limit
  pub in_capacity : b.limit ≤ b.capacity
  pub small : b.capacity ≤ max_size

-- A buffer that is written to: nothing is set aside behind the limit.
pub record IsWritable (b : Buffer) : Type 0 where
  pub valid : IsValid b
  pub open_end : b.limit ≡ b.capacity

doubled : (l p q n : ℕ) → q ≡ p * 2 → n ≤ l * q → n ≤ l * 2 * p
doubled l p q n e h = grind arith

grow_stop :
    (f limit position least : ℕ)
    → least ≤ sub_size limit position
    → grow_limit (suc f) limit position least ≡ some limit
unfolding grow_limit
grow_stop f limit position least h = rw (ltb-ge _ _ h)

grow_more :
    (f limit position least : ℕ)
    → sub_size limit position < least
    → grow_limit (suc f) limit position least ≡ grow_limit f ((limit * 2) % size_mod) position least
unfolding grow_limit
grow_more f limit position least h = rw (lt→ltb _ _ h)

-- From a limit of 1 to 2^62 with the position inside it, and with at most 2^61 bytes asked for up to
-- their end, the doubling loop ends once it has rounds enough to double the limit past that end: the
-- new limit leaves room for `least` bytes, and is not below the old one nor above 2^62.
pub grow_limit_total :
    (f limit position least : ℕ)
    → 0 < limit
    → position ≤ limit
    → limit ≤ max_size
    → position + least ≤ 2 ^ 61
    → position + least ≤ limit * 2 ^ f
    → (l : ℕ) × (grow_limit (suc f) limit position least ≡ some l)
      × (position + least ≤ l)
      × (limit ≤ l)
      × (l ≤ max_size)
grow_limit_total zero limit position least pos le small b enough =
    (limit, grow_stop 0 limit position least (omega arith), omega arith, omega arith, small)
grow_limit_total (suc f) limit position least pos le small b enough =
    elim (Bool-cases (ltb (sub_size limit position) least)) [
      | inr fits ↦
          let room = ltb→ge _ _ fits in
          (limit, grow_stop (suc f) limit position least room, omega arith, omega arith, small)
      | inl less ↦
          let lt = ltb→lt _ _ less in
          let wrap : (limit * 2) % size_mod ≡ limit * 2 = omega arith in
          let (l, e, enough', grown, small') =
            grow_limit_total f (limit * 2) position least (omega arith) (omega arith) (omega arith)
              b (doubled limit (2 ^ f) (2 ^ suc f) (position + least) (pow-suc 2 f) enough) in
          (
            l,
            grow_more (suc f) limit position least lt
                ∙ ap (λ k. grow_limit (suc f) k position least) wrap
                ∙ e,
            enough',
            omega arith,
            small',
          )
    ]

-- A new buffer of a size from 1 on is writable and empty.
pub new-IsWritable : (size : ℕ) → 0 < size → size ≤ max_size → IsWritable (Buffer_new size)
unfolding Buffer_new
new-IsWritable size h s = ground (arith, length-replicate {A = ℕ} size 0)

-- A valid buffer is writable again after `Buffer_clear`.
pub clear-IsWritable : {b : Buffer} → IsValid b → IsWritable (Buffer_clear b)
unfolding Buffer_clear
clear-IsWritable v = ground arith

pub flip-IsValid : {b : Buffer} → IsValid b → IsValid (Buffer_flip b)
unfolding Buffer_flip
flip-IsValid v = ground arith
