-- ===== src/Ketama/Share/Bounds.antt =====
-- The shares of the servers are not more than 40 for each of them, whatever the rounding.
use native.Mathlib.Nat.{mul-le-mul_right, mod-lt}
use native.Mathlib.Omega.{div_any}
use libredis.Base.{
  ℕ, zero, suc, ◌+◌, ◌-◌, ◌*◌, ◌/◌, ◌%◌, ◌^◌, ◌≤◌, ◌<◌, ◌≡◌, ◌⊎◌, inl, inr, refl, ltb, ◌==◌, arith,
  Bool-cases, ltb→ge,
}
use libredis.Ketama.Share.{split, round_to, to_float, quotient, share}

record IsSplit (n digits place : ℕ) : Type 0 where
  below : digits * place ≤ n
  above : n < digits * place + place
  exact : (place ≡ 1) ⊎ (2 ^ 23 * place ≤ n)

split-IsSplit : (f n : ℕ) → IsSplit n (split f n).0 (split f n).1
unfolding split
split-IsSplit zero n = record { below = omega arith; above = omega arith; exact = inl refl }
split-IsSplit (suc f) n =
    let v = split-IsSplit f (n / 2) in
    elim (Bool-cases (ltb n (2 ^ 24))) [
      | inl small ↦ rw small (record { below = omega arith; above = omega arith; exact = inl refl })
      | inr large ↦
          let ge = ltb→ge _ _ large in
          rw large (record {
            below = omega (arith, v.below);
            above = omega (arith, v.above);
            exact = elim v.exact [
              | inl one ↦ inr (omega (arith, one, ge))
              | inr more ↦ inr (omega (arith, more))
            ];
          })
    ]

-- A rounded number is off by less than one part in 2^24.
record IsNear (n r : ℕ) : Type 0 where
  not_more : 2 ^ 24 * r ≤ (2 ^ 24 + 1) * n
  not_less : (2 ^ 24 - 1) * n ≤ 2 ^ 24 * r

round_to-IsNear : (n digits place : ℕ) → IsSplit n digits place → IsNear n (round_to digits place n)
unfolding round_to
round_to-IsNear n digits place v = ground (arith, v.below, v.above, v.exact)

to_float-IsNear : (n : ℕ) → IsNear n (to_float n)
unfolding to_float
to_float-IsNear n = round_to-IsNear n (split 256 n).0 (split 256 n).1 (split-IsSplit 256 n)

quotient-le : (a b : ℕ) → b ≤ 2 ^ 65 → quotient a b * b ≤ a * (2 ^ 97 + 2 ^ 65)
unfolding quotient
quotient-le a b small =
    let d = div_any (a * 2 ^ 96) b in
    elim (Bool-cases (a * 2 ^ 96 % b == 0)) [
      | inl exact ↦ rw exact (omega (arith, d))
      | inr more ↦
          let some_rest : 0 < a * 2 ^ 96 % b = ground (arith, more) in
          rw more (omega (arith, d, some_rest, small))
    ]

-- What the sizes of the rounding errors come to: a share, times the memory, is at most 40 times the weight
-- and the number of servers, up to this factor
abbrev pub below : ℕ
below = (2 ^ 24) ^ 3 * (2 ^ 24 - 1) * 2 ^ 97

abbrev pub over : ℕ
over = 40 * (2 ^ 24 + 1) ^ 4 * (2 ^ 97 + 2 ^ 65)

product-le :
    (a b x p n r ks weight memory servers : ℕ)
    → IsNear weight a
    → IsNear memory b
    → x * b ≤ a * (2 ^ 97 + 2 ^ 65)
    → IsNear x p
    → IsNear servers n
    → IsNear (p * 40 * n) r
    → ks * 2 ^ 97 ≤ r
    → below * (ks * memory) ≤ over * (weight * servers)
product-le a b x p n r ks weight memory servers na nb hx np nn nr hk =
    let e1 = mul-le-mul_right servers (mul-le-mul_right 1 na.not_more) in
    let e2 = mul-le-mul_right ks nb.not_less in
    let e3 = mul-le-mul_right servers hx in
    let e4 = mul-le-mul_right (servers * b) np.not_more in
    let e5 = mul-le-mul_right (p * b) nn.not_more in
    let e6 = mul-le-mul_right b nr.not_more in
    let e7 = mul-le-mul_right b hk in omega (arith, e1, e2, e3, e4, e5, e6, e7)

to_float-small : (n : ℕ) → n < 2 ^ 64 → to_float n ≤ 2 ^ 65
to_float-small n h = let v = to_float-IsNear n in omega (arith, h, v.not_more)

pub share-le :
    (weight memory servers : ℕ)
    → memory < 2 ^ 64
    → below * (share weight memory servers * memory) ≤ over * (weight * servers)
unfolding share
share-le weight memory servers small =
    let a = to_float weight in
    let b = to_float memory in
    let x = quotient a b in
    let p = to_float x in
    let n = to_float servers in
    let r = to_float (p * 40 * n) in
    product-le a b x p n r (r / 2 ^ 97) weight memory servers (to_float-IsNear weight)
      (to_float-IsNear memory) (quotient-le a b (to_float-small memory small)) (to_float-IsNear x)
      (to_float-IsNear servers) (to_float-IsNear (p * 40 * n)) (omega arith)

-- From below: the shares are not much less than that, rounded down.
quotient-ge : (a b : ℕ) → 0 < b → b ≤ 2 ^ 65 → a * (2 ^ 97 - 2 ^ 65) ≤ quotient a b * b
unfolding quotient
quotient-ge a b pos_b small =
    let d = div_any (a * 2 ^ 96) b in
    elim (Bool-cases (a * 2 ^ 96 % b == 0)) [
      | inl exact ↦
          let z : a * 2 ^ 96 % b ≡ 0 = ground (arith, exact) in rw exact (omega (arith, d, z))
      | inr more ↦
          let some_rest : 0 < a * 2 ^ 96 % b = ground (arith, more) in
          let lt = mod-lt (a * 2 ^ 96) pos_b in rw more (omega (arith, d, some_rest, small, lt))
    ]

abbrev pub least : ℕ
least = 40 * (2 ^ 24 - 1) ^ 4 * (2 ^ 97 - 2 ^ 65)

abbrev pub above : ℕ
above = (2 ^ 24) ^ 3 * (2 ^ 24 + 1) * 2 ^ 97

product-ge :
    (a b x p n r ks weight memory servers : ℕ)
    → IsNear weight a
    → IsNear memory b
    → a * (2 ^ 97 - 2 ^ 65) ≤ x * b
    → IsNear x p
    → IsNear servers n
    → IsNear (p * 40 * n) r
    → r ≤ (ks + 1) * 2 ^ 97
    → least * (weight * servers) ≤ above * ((ks + 1) * memory)
product-ge a b x p n r ks weight memory servers na nb hx np nn nr hk =
    let e1 = mul-le-mul_right servers na.not_less in
    let e2 = mul-le-mul_right (ks + 1) nb.not_more in
    let e3 = mul-le-mul_right servers hx in
    let e4 = mul-le-mul_right (servers * b) np.not_less in
    let e5 = mul-le-mul_right (p * b) nn.not_less in
    let e6 = mul-le-mul_right b nr.not_less in
    let e7 = mul-le-mul_right b hk in omega (arith, e1, e2, e3, e4, e5, e6, e7)

to_float-pos : (n : ℕ) → 0 < n → 0 < to_float n
to_float-pos n h = let v = to_float-IsNear n in omega (arith, h, v.not_less)

pub share-ge :
    (weight memory servers : ℕ)
    → 0 < memory
    → memory < 2 ^ 64
    → least * (weight * servers) ≤ above * ((share weight memory servers + 1) * memory)
unfolding share
share-ge weight memory servers some_memory small =
    let a = to_float weight in
    let b = to_float memory in
    let x = quotient a b in
    let p = to_float x in
    let n = to_float servers in
    let r = to_float (p * 40 * n) in
    product-ge a b x p n r (r / 2 ^ 97) weight memory servers (to_float-IsNear weight)
      (to_float-IsNear memory)
      (quotient-ge a b (to_float-pos memory some_memory) (to_float-small memory small))
      (to_float-IsNear x) (to_float-IsNear servers) (to_float-IsNear (p * 40 * n)) (omega arith)
