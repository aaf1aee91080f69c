-- ===== src/Buffer.antt =====
-- `Buffer` of libredis/buffer.c: a growing array of bytes with a position and a limit. `size_t` has
-- 64 bits and `int` 32. The result `none` is a write outside a block, or a loop that never ends;
-- memory does not run out, and a byte that `malloc` leaves indeterminate is 0 here.
pub mod Grow
pub mod Write
pub mod Socket
use libredis.Base.{
  ℕ, zero, suc, ◌+◌, ◌-◌, ◌*◌, ◌/◌, ◌%◌, ◌^◌, Bool, Option, none, some, ◌++◌, Bytes, length, take,
  drop, replicate, if◌then◌else◌, ltb, leb, ◌==◌, ◌>>=◌,
}

abbrev pub size_mod : ℕ
size_mod = 2 ^ 64

-- `struct _Buffer`. `grown` is the block that `data` points to once it is not `buff`.
pub record Buffer : Type 0 where
  pub buff : Bytes
  pub grown : Option Bytes
  pub buff_size : ℕ
  pub position : ℕ
  pub limit : ℕ
  pub capacity : ℕ

-- The release build fills a new buffer with zeros.
unfoldable pub Buffer_new : ℕ → Buffer
Buffer_new size = record {
  buff = replicate size 0;
  grown = none;
  buff_size = size;
  position = 0;
  limit = size;
  capacity = size;
}

-- `memset` of `capacity` bytes at `buff`
unfoldable pub Buffer_fill : Buffer → ℕ → Option Buffer
Buffer_fill b v =
    if leb b.capacity (length b.buff)
    then some (record b { buff = replicate b.capacity v ++ drop b.capacity b.buff })
    else none

unfoldable pub Buffer_clear : Buffer → Buffer
Buffer_clear b = record b {
  grown = none;
  position = 0;
  limit = b.buff_size;
  capacity = b.buff_size;
}

abbrev pub Buffer_data : Buffer → Bytes
Buffer_data b = elim b.grown [ none ↦ b.buff | some block ↦ block ]

-- `size_t` subtraction wraps.
abbrev pub sub_size : ℕ → ℕ → ℕ
sub_size a b = (a + size_mod - b) % size_mod

abbrev pub Buffer_remaining : Buffer → ℕ
Buffer_remaining b = sub_size b.limit b.position

abbrev pub Buffer_position : Buffer → ℕ
Buffer_position b = b.position

abbrev pub Buffer_set_position : Buffer → ℕ → Buffer
Buffer_set_position b position = record b { position = position }

abbrev pub Buffer_set_limit : Buffer → ℕ → Buffer
Buffer_set_limit b limit = record b { limit = limit }

-- A `size_t` passed as the `int` parameter, and compared with a `size_t`: cut to 32 bits, and
-- extended by its sign.
unfoldable pub as_int : ℕ → ℕ
as_int n = let low = n % 2 ^ 32 in if ltb low (2 ^ 31) then low else low + (2 ^ 64 - 2 ^ 32)

-- `while (remaining < min_remaining) limit *= 2`. After 64 rounds the limit is 0 for good.
unfoldable pub grow_limit : ℕ → ℕ → ℕ → ℕ → Option ℕ
grow_limit zero limit position least = none
grow_limit (suc f) limit position least =
    let more = grow_limit f ((limit * 2) % size_mod) position least in
    if ltb (sub_size limit position) least then more else some limit

-- A block of `n` bytes that begins with those of another
abbrev pub resize : ℕ → Bytes → Bytes
resize n xs = take n xs ++ replicate (n - length xs) 0

-- Behind the loop, with the new limit: a larger block where the capacity is passed
unfoldable pub enlarge : Buffer → ℕ → Buffer
enlarge b limit =
    if ltb b.capacity limit
    then record b {
      grown = some (resize limit (if b.capacity == b.buff_size then b.buff else Buffer_data b));
      limit = limit;
      capacity = limit;
    }
    else record b { limit = limit }

unfoldable pub Buffer_ensure_remaining : Buffer → ℕ → Option Buffer
Buffer_ensure_remaining b min_remaining = do
  limit ← grow_limit 65 b.limit b.position (as_int min_remaining)
  some (enlarge b limit)

-- The bytes `d` copied over those from index `i` on
abbrev pub blit : Bytes → ℕ → Bytes → Bytes
blit xs i d = take i xs ++ (d ++ drop (i + length d) xs)

-- `memcpy(data + position, d, len)`, then `position += len`
unfoldable pub put : Buffer → Bytes → Option Buffer
put b d =
    if leb (b.position + length d) (length (Buffer_data b))
    then some (elim b.grown [
      | none ↦ record b { buff = blit b.buff b.position d; position = b.position + length d }
      | some block ↦ record b {
        grown = some (blit block b.position d);
        position = b.position + length d;
      }
    ])
    else none

pub Buffer_write : Buffer → Bytes → Option Buffer
Buffer_write b d = do b' ← Buffer_ensure_remaining b (length d); put b' d

unfoldable pub Buffer_flip : Buffer → Buffer
Buffer_flip b = record b { limit = b.position; position = 0 }

-- What `write` is given: the bytes from the position to the limit
abbrev pub offered : Buffer → Bytes
offered b = take (Buffer_remaining b) (drop b.position (Buffer_data b))

-- `write` takes the first `n` bytes of them, or returns -1 (`none`).
unfoldable pub Buffer_send : Buffer → Option ℕ → Buffer
Buffer_send b none = b
Buffer_send b (some n) = record b { position = b.position + n }

-- What `Buffer_recv` asks room for: an eighth of the capacity
abbrev pub recv_reserve : Buffer → ℕ
recv_reserve b = (b.capacity * 256) % size_mod / 2048

-- `read` delivers bytes at the position, or returns -1.
unfoldable pub Buffer_recv : Buffer → Option Bytes → Option Buffer
Buffer_recv b received = do
  b' ← Buffer_ensure_remaining b (recv_reserve b)
  elim received [ none ↦ some b' | some d ↦ put b' d ]
