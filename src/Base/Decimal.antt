-- ===== src/Base/Decimal.antt =====
-- `snprintf` with "%ld": decimal digits, and the number that they stand for.
use libredis.Base.{
  ℕ, zero, suc, ◌+◌, ◌/◌, ◌%◌, ◌≤◌, true, false, Bytes, [], ◌∷◌, arith, ltb, length,
}
use libredis.Base.Int.{ℤ, pos, negsuc}

-- The digits of `n` in front of `rest`. A number has fewer digits than `n + 1`.
unfoldable pub print_onto : ℕ → ℕ → Bytes → Bytes
print_onto zero n rest = rest
print_onto (suc f) n rest = elim (ltb n 10) [
  | true ↦ (b'0' + n) ∷ rest
  | false ↦ print_onto f (n / 10) ((b'0' + n % 10) ∷ rest)
]

abbrev pub print_decimal : ℕ → Bytes
print_decimal n = print_onto (suc n) n []

abbrev pub print_long : ℤ → Bytes
print_long (pos n) = print_decimal n
print_long (negsuc n) = b'-' ∷ print_decimal (suc n)

print_onto-short : (f n : ℕ) (rest : Bytes) → length (print_onto f n rest) ≤ f + length rest
unfolding print_onto
print_onto-short zero n rest = omega arith
print_onto-short (suc f) n rest =
    ground (arith, print_onto-short f (n / 10) ((b'0' + n % 10) ∷ rest))

pub print_decimal-short : (n : ℕ) → length (print_decimal n) ≤ n + 1
print_decimal-short n = let h = print_onto-short (suc n) n [] in omega (arith, h)
