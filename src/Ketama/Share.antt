-- ===== src/Ketama/Share.antt =====
-- The share of a server in `Ketama_create_continuum` of libredis/ketama.c: the arithmetic on `float` and
-- `double`, which have 24 and 53 bits and round to the nearest number, to an even one between two.
pub mod Bounds
use libredis.Base.{
  ℕ, zero, suc, ◌+◌, ◌-◌, ◌*◌, ◌/◌, ◌%◌, ◌^◌, Bool, ◌&&◌, ◌||◌, if◌then◌else◌, ltb, ◌==◌,
}

-- A number in some unit is `digits * place` and a rest below `place`: the leading 24 bits, and the unit of the last
-- of them. With fuel for every number below 2^280.
abbrev pub Split : Type 0
Split = ℕ × ℕ

unfoldable pub split : ℕ → ℕ → Split
split zero n = (n, 1)
split (suc f) n =
    let (digits, place) = split f (n / 2) in if ltb n (2 ^ 24) then (n, 1) else (digits, 2 * place)

-- The nearest number of 24 bits
unfoldable pub round_to : ℕ → ℕ → ℕ → ℕ
round_to digits place n =
    let rest = n - digits * place in
    if ltb place (2 * rest) || (place == 2 * rest && digits % 2 == 1)
    then digits * place + place
    else digits * place

unfoldable pub to_float : ℕ → ℕ
to_float n = let (digits, place) = split 256 n in round_to digits place n

-- The quotient of two numbers in units of 2^-97, with the last bit set where it is not exact; this bit is too low
-- to be kept, and decides between two `float`s
unfoldable pub quotient : ℕ → ℕ → ℕ
quotient a b = 2 * (a * 2 ^ 96 / b) + (if a * 2 ^ 96 % b == 0 then 0 else 1)

-- `ks`, the number of the hashes of a server of a weight, where the weights are `memory` in all, which is not 0.
-- The product is exact as a `double`, and becomes a `float` again as the argument of `floorf`.
unfoldable pub share : ℕ → ℕ → ℕ → ℕ
share weight memory servers =
    let pct = to_float (quotient (to_float weight) (to_float memory)) in
    to_float (pct * 40 * to_float servers) / 2 ^ 97
