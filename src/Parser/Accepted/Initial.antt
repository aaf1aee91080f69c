-- ===== src/Parser/Accepted/Initial.antt =====
-- The first byte of a reply that leads to one: which value begins with it.
use mathlib.Core.Path.{subst}
use libredis.Base.{
  ℕ, ◌+◌, ◌-◌, ◌<◌, ◌≡◌, inl, inr, sym, ◌∙◌, true, false, Option, ◌∷◌, ◌++◌, Bytes, arith, drop,
  ◌==◌, ==_iff, Bool-cases,
}
use libredis.Parser.{ReplyParser, s0, s1, s3, s5, s13, s19, goto, goto_mark, step_initial}
use libredis.Parser.Wire.{Value, status, failure, number, bulk, crlf, EncodesBulk, Encodes}
use libredis.Parser.Accepted.{Later, Awaits, Leads, same_head, Later-zero, Later-count}

-- A bulk reply at the beginning: a value of its own, or the first of the entries to come
bulk_first :
    (rp : ReplyParser) (e t : Bytes) (x : Option Bytes) (rest : Bytes)
    → EncodesBulk x rest t
    → Later (rp.multibulk_count - 1) e rest
    → (rp.multibulk_count ≡ 0 → (v : Value) × Encodes v e t)
      × (0 < rp.multibulk_count → Later rp.multibulk_count e t)
bulk_first rp e t x rest enc later = (
  (λ z.
      let same : rest ≡ e =
        Later-zero e rest
          (Later-count (rp.multibulk_count - 1) 0 e rest (omega (arith, z)) later) in
      (bulk x, subst (λ (u : Bytes). EncodesBulk x u t) same enc)),
  (λ some_left.
      let (xs, len, items) = later in (x ∷ xs, omega (arith, len, some_left), (rest, enc, items))),
)

outside_first :
    (rp : ReplyParser) (e t : Bytes)
    → rp.multibulk_count ≡ 0
    → (v : Value) × Encodes v e t
    → (rp.multibulk_count ≡ 0 → (v : Value) × Encodes v e t)
      × (0 < rp.multibulk_count → Later rp.multibulk_count e t)
outside_first rp e t z found = ((λ _. found), (λ some_left. absurd (omega (arith, z, some_left))))

module _ (bytes : Bytes) where
  -- Outside a multibulk reply, a first byte other than `$`
  outside_value :
      (rp : ReplyParser) (c : ℕ) (e t : Bytes)
      → (c == b'$') ≡ false
      → (rp.multibulk_count == 0) ≡ true
      → drop (rp.p + 1) bytes ≡ t
      → Leads bytes e (step_initial rp c)
      → (v : Value) × Encodes v e (c ∷ t)
  unfolding step_initial
  outside_value rp c e t no_dollar outside next h = elim (Bool-cases (c == b'+')) [
    | inl plus ↦
        let (s, line, eq) : Awaits s1 (goto_mark s1 rp) (drop (rp.p + 1) bytes) e
            (drop (rp.p + 1) bytes) =
          rw (no_dollar, outside, plus) at h in
        (status s, (line, same_head c b'+' t (s ++ crlf e) plus (sym next ∙ eq)))
    | inr no_plus ↦ elim (Bool-cases (c == b'-')) [
      | inl minus ↦
          let (s, line, eq) : Awaits s3 (goto_mark s3 rp) (drop (rp.p + 1) bytes) e
              (drop (rp.p + 1) bytes) =
            rw (no_dollar, outside, no_plus, minus) at h in
          (failure s, (line, same_head c b'-' t (s ++ crlf e) minus (sym next ∙ eq)))
      | inr no_minus ↦ elim (Bool-cases (c == b'*')) [
        | inl star ↦
            let (v, enc) : Awaits s13 (goto s13 rp) (drop rp.mark bytes) e (drop (rp.p + 1) bytes) =
              rw (no_dollar, outside, no_plus, no_minus, star) at h in
            (
              v,
              subst (Encodes v e) (sym (same_head c b'*' t (drop (rp.p + 1) bytes) star (sym next)))
                  enc,
            )
        | inr no_star ↦ elim (Bool-cases (c == b':')) [
          | inl colon ↦
              let (s, line, eq) : Awaits s19 (goto_mark s19 rp) (drop (rp.p + 1) bytes) e
                  (drop (rp.p + 1) bytes) =
                rw (no_dollar, outside, no_plus, no_minus, no_star, colon) at h in
              (number s, (line, same_head c b':' t (s ++ crlf e) colon (sym next ∙ eq)))
          | inr no_colon ↦
              let h' : ⊥ = rw (no_dollar, outside, no_plus, no_minus, no_star, no_colon) at h in
              absurd h'
        ]
      ]
    ]
  ]

  pub step_initial-Awaits :
      (rp : ReplyParser) (c : ℕ) (e t : Bytes)
      → drop (rp.p + 1) bytes ≡ t
      → Leads bytes e (step_initial rp c)
      → Awaits s0 rp (drop rp.mark bytes) e (c ∷ t)
  unfolding step_initial
  step_initial-Awaits rp c e t next h = elim (Bool-cases (c == b'$')) [
    | inl dollar ↦
        let (x, rest, enc, later) : Awaits s5 (goto s5 rp) (drop rp.mark bytes) e
            (drop (rp.p + 1) bytes) =
          rw dollar at h in
        bulk_first rp e (c ∷ t) x rest
          (subst (EncodesBulk x rest)
            (sym (same_head c b'$' t (drop (rp.p + 1) bytes) dollar (sym next))) enc)
          later
    | inr no_dollar ↦ elim (Bool-cases (rp.multibulk_count == 0)) [
      | inr inside ↦ let h' : ⊥ = rw (no_dollar, inside) at h in absurd h'
      | inl outside ↦
          outside_first rp e (c ∷ t) ((==_iff rp.multibulk_count 0).0 outside)
            (outside_value rp c e t no_dollar outside next h)
    ]
  ]
