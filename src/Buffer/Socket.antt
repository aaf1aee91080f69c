-- ===== src/Buffer/Socket.antt =====
-- What goes through the socket: `Buffer_flip` and `Buffer_send`, and `Buffer_recv`.
use libredis.Base.{
  ℕ, ◌+◌, ◌-◌, ◌^◌, ◌≤◌, ◌<◌, ◌≡◌, sym, ap, ◌∙◌, List, [], ◌∷◌, Option, none, some, Bytes, ◌++◌,
  arith, length, take, drop, drop-drop, take-take-drop,
}
use libredis.Buffer.{
  Buffer, sub_size, Buffer_data, Buffer_remaining, Buffer_flip, Buffer_send, Buffer_recv,
  Buffer_ensure_remaining, offered, recv_reserve,
}
use libredis.Buffer.Grow.{IsValid, IsWritable, flip-IsValid}
use libredis.Buffer.Write.{contents, HasRoom, HasWritten, ensure_remaining-HasRoom, put-HasWritten}

-- The bytes that a series of `write` calls take, the first `n` of those offered at each call
abbrev pub transmitted : Buffer → List ℕ → Bytes
transmitted b [] = []
transmitted b (n ∷ ns) = take n (offered b) ++ transmitted (Buffer_send b (some n)) ns

-- Each call takes at most what it is offered.
abbrev pub Accepts : Buffer → List ℕ → Type 0
Accepts b [] = Buffer_remaining b ≡ 0
Accepts b (n ∷ ns) = (n ≤ Buffer_remaining b) × Accepts (Buffer_send b (some n)) ns

pub remaining-valid : {b : Buffer} → IsValid b → Buffer_remaining b ≡ b.limit - b.position
remaining-valid v = omega arith

pub send-IsValid :
    {b : Buffer} (n : ℕ) → IsValid b → n ≤ Buffer_remaining b → IsValid (Buffer_send b (some n))
unfolding Buffer_send
send-IsValid n v h = ground arith

pieces :
    (xs : Bytes) (p n r r' : ℕ)
    → r ≡ n + r'
    → take n (take r (drop p xs)) ++ take r' (drop (p + n) xs) ≡ take r (drop p xs)
pieces xs p n r r' e = rw e (
    ap (λ (ys : Bytes). take n (take (n + r') (drop p xs)) ++ take r' ys) (sym (drop-drop p n xs))
    ∙ take-take-drop n r' (drop p xs))

-- What one `write` takes, and what it leaves
pub send-offered :
    (b : Buffer) (n : ℕ)
    → IsValid b
    → n ≤ Buffer_remaining b
    → take n (offered b) ++ offered (Buffer_send b (some n)) ≡ offered b
unfolding Buffer_send
send-offered b n v h =
    pieces (Buffer_data b) b.position n (Buffer_remaining b) (sub_size b.limit (b.position + n))
      (omega (arith, h, remaining-valid v))

pub transmitted-offered :
    (ns : List ℕ) (b : Buffer) → IsValid b → Accepts b ns → transmitted b ns ≡ offered b
transmitted-offered [] b v a = rw a
transmitted-offered (n ∷ ns) b v a =
    ap (λ (xs : Bytes). take n (offered b) ++ xs)
      (transmitted-offered ns (Buffer_send b (some n)) (send-IsValid n v a.0) a.1)
    ∙ send-offered b n v a.0

-- However the calls of `write` cut it up, each taking at most what it is offered, what is sent of a
-- valid buffer after a flip until nothing remains is what was written to the buffer, in order and
-- once.
pub transmitted-flip :
    (b : Buffer) (ns : List ℕ)
    → IsValid b
    → Accepts (Buffer_flip b) ns
    → transmitted (Buffer_flip b) ns ≡ contents b
unfolding Buffer_flip
transmitted-flip b ns v a =
    transmitted-offered ns (Buffer_flip b) (flip-IsValid v) a
    ∙ ap (λ (k : ℕ). take k (Buffer_data b))
        (let e : sub_size b.position 0 ≡ b.position = omega arith in e)

-- The bytes that the `read` of `Buffer_recv` has room for
abbrev pub recv_room : Buffer → ℕ
recv_room b = elim (Buffer_ensure_remaining b (recv_reserve b)) [
  | none ↦ 0
  | some b' ↦ Buffer_remaining b'
]

-- What `Buffer_recv` leaves, for what `read` delivers
abbrev pub Received : Buffer → Option Bytes → Type 0
Received b (some d) = (b' : Buffer) × (Buffer_recv b (some d) ≡ some b') × HasWritten b d b'
Received b none =
    (b' : Buffer) × (Buffer_recv b none ≡ some b') × IsWritable b' × (contents b' ≡ contents b)

module _ (b b' : Buffer) (reserved : Buffer_ensure_remaining b (recv_reserve b) ≡ some b')
    (r : HasRoom b (recv_reserve b) b') where
  recv_room-eq : recv_room b ≡ Buffer_remaining b'
  recv_room-eq = rw (reserved, recv_room)

  recv_room-pos : 8 ≤ b.capacity → b.capacity ≤ 2 ^ 33 → 0 < recv_room b
  recv_room-pos least most = omega (
    arith,
    recv_room-eq,
    remaining-valid r.writable.valid,
    r.room,
    r.position_same,
    r.writable.open_end,
  )

  recv-Received : (d : Bytes) → length d ≤ recv_room b → Received b (some d)
  unfolding Buffer_recv
  recv-Received d fits =
      let (b2, e2, p) = put-HasWritten b' d r.writable (
        omega (
          arith,
          recv_room-eq,
          remaining-valid r.writable.valid,
          r.writable.open_end,
          r.writable.valid.in_limit,
        )) in
      (
        b2,
        rw reserved e2,
        record {
          writable = p.writable;
          appended = p.appended ∙ ap (λ (xs : Bytes). xs ++ d) r.same;
          position_moved = omega (arith, p.position_moved, r.position_same);
        },
      )

  recv-failed : Received b none
  unfolding Buffer_recv
  recv-failed = (b', rw reserved, r.writable, r.same)

-- `Buffer_recv` on a writable buffer of 8 bytes to 2^33 asks `read` for at least one byte, so that 0
-- means the end of the stream. What `read` delivers, at most as many bytes as there is room for, is
-- written behind the contents; an error of `read` leaves a writable buffer with the same contents.
pub recv_lem :
    (b : Buffer) (d : Bytes)
    → IsWritable b
    → 8 ≤ b.capacity
    → b.capacity ≤ 2 ^ 33
    → length d ≤ recv_room b
    → (0 < recv_room b) × Received b (some d) × Received b none
recv_lem b d w least most fits =
    let (b', e, r) =
      ensure_remaining-HasRoom b (recv_reserve b) w (omega arith)
        (omega (arith, w.valid.in_limit, w.valid.in_capacity)) in
    (recv_room-pos b b' e r least most, recv-Received b b' e r d fits, recv-failed b b' e r)
