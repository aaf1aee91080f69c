-- ===== src/Parser/Digits.antt =====
-- The digits that `snprintf` writes for a number are a count on the wire, and read back as the number.
use libredis.Base.{
  ℕ, zero, suc, ◌+◌, ◌-◌, ◌*◌, ◌/◌, ◌%◌, ◌<◌, ◌≡◌, refl, sym, ap, ◌∙◌, inl, inr, true, Bytes, [],
  ◌∷◌, ◌++◌, arith, ltb, Bool-cases, ltb→lt, ltb→ge, append_assoc, append_nil,
}
use libredis.Base.Decimal.{print_onto, print_decimal}
use libredis.Parser.{is_digit, int_limit}
use libredis.Parser.Wire.{All, IsCount, decimal_from}

-- `out` is `rest` behind digits that stand for `n`.
pub record Digits (n : ℕ) (rest out : Bytes) : Type 0 where
  pub first : ℕ
  pub others : Bytes
  pub printed : out ≡ first ∷ (others ++ rest)
  pub first_digit : is_digit first ≡ true
  pub other_digits : All (λ c. is_digit c ≡ true) others
  pub value : decimal_from 0 (first ∷ others) ≡ n

digit : (n : ℕ) → n < 10 → is_digit (b'0' + n) ≡ true
digit n h = ground arith

All-append : (P : ℕ → Type 0) (xs ys : Bytes) → All P xs → All P ys → All P (xs ++ ys)
All-append P [] ys x y = y
All-append P (c ∷ xs) ys x y = (x.0, All-append P xs ys x.1 y)

decimal_from-append :
    (acc : ℕ) (xs ys : Bytes) → decimal_from acc (xs ++ ys) ≡ decimal_from (decimal_from acc xs) ys
decimal_from-append acc [] ys = refl
decimal_from-append acc (x ∷ xs) ys = decimal_from-append (acc * 10 + (x - b'0')) xs ys

pub print_onto-Digits : (f n : ℕ) (rest : Bytes) → n < f → Digits n rest (print_onto f n rest)
unfolding print_onto
print_onto-Digits zero n rest h = absurd (omega arith)
print_onto-Digits (suc f) n rest h = elim (Bool-cases (ltb n 10)) [
  | inl small ↦
      rw (print_onto, small)
        (record {
          first = b'0' + n;
          others = [];
          printed = refl;
          first_digit = digit n (ltb→lt _ _ small);
          other_digits = tt;
          value = omega arith;
        })
  | inr large ↦
      let ge = ltb→ge _ _ large in
      let last = b'0' + n % 10 in
      let d = print_onto-Digits f (n / 10) (last ∷ rest) (omega arith) in
      rw (print_onto, large)
        (record {
          first = d.first;
          others = d.others ++ last ∷ [];
          printed =
              d.printed
              ∙ ap (λ (xs : Bytes). d.first ∷ xs) (sym (append_assoc d.others (last ∷ []) rest));
          first_digit = d.first_digit;
          other_digits =
              All-append (λ c. is_digit c ≡ true) d.others (last ∷ []) d.other_digits
                (digit (n % 10) (omega arith), tt);
          value =
              decimal_from-append 0 (d.first ∷ d.others) (last ∷ [])
              ∙ (let v = d.value in omega arith);
        })
]

-- A printed `int` is a count.
pub print_decimal-IsCount :
    (n : ℕ) → n < int_limit → (d : ℕ) × (ds : Bytes) × (print_decimal n ≡ d ∷ ds) × IsCount d ds n
print_decimal-IsCount n h =
    let d = print_onto-Digits (suc n) n [] (omega arith) in
    (
      d.first,
      d.others,
      d.printed ∙ ap (λ (xs : Bytes). d.first ∷ xs) (append_nil d.others),
      record { first = d.first_digit; others = d.other_digits; value = d.value; is_int = h },
    )
