-- ===== src/Parser/Accepted/Counts.antt =====
-- The counts of bulk and multibulk replies, the characters that are counted, and the LF behind a count.
use mathlib.Core.Path.{subst}
use libredis.Base.{
  ℕ, ◌+◌, ◌<◌, ◌≡◌, inl, inr, refl, sym, ap, ◌∙◌, true, none, some, [], ◌∷◌, ◌++◌, Bytes, arith,
  length, drop, ltb, ◌==◌, ==_iff, ltb→lt, Bool-cases, Option-cases,
}
use libredis.Reply.{Reply_new, null_buffer, rt_multibulk}
use libredis.Parser.{
  ReplyParser, State, s0, s5, s6, s9, s10, s13, s14, s17, s18, is_digit, atoi, int_limit, goto,
  mark_goto, step_count, step_bulk_digits, step_multibulk_digits, step_multibulk,
}
use libredis.Parser.Wire.{multibulk, All, IsCount, decimal_from, crlf}
use libredis.Parser.Pieces.{atoi_from-decimal}
use libredis.Parser.Accepted.{Later, Awaits, Leads, same_head, not_same, zero-Later, Later-count}

-- The digits at the mark are a count.
digits-IsCount :
    (m : Bytes) (c : ℕ) (ds u : Bytes) (n : ℕ)
    → m ≡ c ∷ (ds ++ crlf u)
    → is_digit c ≡ true
    → All (λ d. is_digit d ≡ true) ds
    → atoi m < int_limit
    → n ≡ atoi m
    → IsCount c ds n
digits-IsCount m c ds u n eq first others small same =
    let value : atoi m ≡ decimal_from 0 (c ∷ ds) =
      ap atoi eq ∙ atoi_from-decimal 0 (c ∷ ds) (b'\n' ∷ u) (first, others) in
    record {
      first = first;
      others = others;
      value = sym (same ∙ value);
      is_int = omega (arith, small, same);
    }

module _ (bytes : Bytes) where
  pub bulk_count-Awaits :
      (rp : ReplyParser) (c : ℕ) (e t : Bytes)
      → drop rp.p bytes ≡ c ∷ t
      → drop (rp.p + 1) bytes ≡ t
      → Leads bytes e (step_count s6 s9 rp c)
      → Awaits s5 rp (drop rp.mark bytes) e (c ∷ t)
  unfolding step_count
  bulk_count-Awaits rp c e t at next h = elim (Bool-cases (c == b'-')) [
    | inl minus ↦
        let (rest, eq, later) : Awaits s6 (goto s6 rp) (drop rp.mark bytes) e
            (drop (rp.p + 1) bytes) =
          rw minus at h in
        (
          none,
          rest,
          ap (λ (l : Bytes). b'$' ∷ l)
              (same_head c b'-' t (b'1' ∷ crlf rest) minus (sym next ∙ eq)),
          later,
        )
    | inr no_minus ↦ elim (Bool-cases (is_digit c)) [
      | inr no_digit ↦ let h' : ⊥ = rw (no_minus, no_digit) at h in absurd h'
      | inl digit ↦
          let (ds, u, digits, eq, small, (s, rest, len, eq', later)) : Awaits s9 (mark_goto s9 rp)
              (drop rp.p bytes) e (drop (rp.p + 1) bytes) =
            rw (no_minus, digit) at h in
          let whole : c ∷ t ≡ c ∷ (ds ++ crlf u) = ap (λ (l : Bytes). c ∷ l) (sym next ∙ eq) in
          (
            some s,
            rest,
            (
              c,
              ds,
              digits-IsCount (drop rp.p bytes) c ds u (length s) (at ∙ whole) digit digits small
                  len,
              ap (λ (l : Bytes). b'$' ∷ l) whole
                  ∙ ap (λ (l : Bytes). b'$' ∷ c ∷ (ds ++ crlf l)) eq',
            ),
            later,
          )
    ]
  ]

  pub multibulk_count-Awaits :
      (rp : ReplyParser) (c : ℕ) (e t : Bytes)
      → drop rp.p bytes ≡ c ∷ t
      → drop (rp.p + 1) bytes ≡ t
      → Leads bytes e (step_count s14 s17 rp c)
      → Awaits s13 rp (drop rp.mark bytes) e (c ∷ t)
  unfolding step_count
  multibulk_count-Awaits rp c e t at next h = elim (Bool-cases (c == b'-')) [
    | inl minus ↦
        let eq : drop (rp.p + 1) bytes ≡ b'1' ∷ crlf e = rw minus at h in
        (
          multibulk none,
          ap (λ (l : Bytes). b'*' ∷ l) (same_head c b'-' t (b'1' ∷ crlf e) minus (sym next ∙ eq)),
        )
    | inr no_minus ↦ elim (Bool-cases (is_digit c)) [
      | inr no_digit ↦ let h' : ⊥ = rw (no_minus, no_digit) at h in absurd h'
      | inl digit ↦
          let (ds, u, digits, eq, small, (xs, len, items)) : Awaits s17 (mark_goto s17 rp)
              (drop rp.p bytes) e (drop (rp.p + 1) bytes) =
            rw (no_minus, digit) at h in
          let whole : c ∷ t ≡ c ∷ (ds ++ crlf u) = ap (λ (l : Bytes). c ∷ l) (sym next ∙ eq) in
          (
            multibulk (some xs),
            (
              c,
              ds,
              u,
              digits-IsCount (drop rp.p bytes) c ds u (length xs) (at ∙ whole) digit digits small
                  len,
              ap (λ (l : Bytes). b'*' ∷ l) whole,
              items,
            ),
          )
    ]
  ]

  pub bulk_digits-Awaits :
      (rp : ReplyParser) (c : ℕ) (e t : Bytes)
      → rp.cs ≡ s9
      → drop (rp.p + 1) bytes ≡ t
      → Leads bytes e (step_bulk_digits (atoi (drop rp.mark bytes)) rp c)
      → Awaits s9 rp (drop rp.mark bytes) e (c ∷ t)
  unfolding step_bulk_digits
  bulk_digits-Awaits rp c e t state next h = elim (Bool-cases (c == b'\r')) [
    | inl cr ↦ elim (Bool-cases (ltb (atoi (drop rp.mark bytes)) int_limit)) [
      | inr large ↦ let h' : ⊥ = rw (cr, large) at h in absurd h'
      | inl small ↦
          let q : ReplyParser = record (goto s10 rp) { bulk_count = atoi (drop rp.mark bytes) } in
          let (u, eq, text) : Awaits s10 q (drop rp.mark bytes) e (drop (rp.p + 1) bytes) =
            rw (cr, small) at h in
          ([], u, tt, same_head c b'\r' t (b'\n' ∷ u) cr (sym next ∙ eq), ltb→lt _ _ small, text)
    ]
    | inr other ↦ elim (Bool-cases (is_digit c)) [
      | inr no_digit ↦ let h' : ⊥ = rw (other, no_digit) at h in absurd h'
      | inl digit ↦
          let q : ReplyParser = record rp { p = rp.p + 1 } in
          let h' : Awaits rp.cs q (drop rp.mark bytes) e (drop (rp.p + 1) bytes) =
            rw (other, digit) at h in
          let (ds, u, digits, eq, small, text) : Awaits s9 q (drop rp.mark bytes) e
              (drop (rp.p + 1) bytes) =
            subst (λ (st : State). Awaits st q (drop rp.mark bytes) e (drop (rp.p + 1) bytes)) state
              h' in
          (c ∷ ds, u, (digit, digits), ap (λ (l : Bytes). c ∷ l) (sym next ∙ eq), small, text)
    ]
  ]

  pub multibulk_digits-Awaits :
      (rp : ReplyParser) (c : ℕ) (e t : Bytes)
      → rp.cs ≡ s17
      → drop (rp.p + 1) bytes ≡ t
      → Leads bytes e (step_multibulk_digits (atoi (drop rp.mark bytes)) rp c)
      → Awaits s17 rp (drop rp.mark bytes) e (c ∷ t)
  unfolding step_multibulk_digits
  multibulk_digits-Awaits rp c e t state next h = elim (Bool-cases (c == b'\r')) [
    | inl cr ↦ elim (Bool-cases (ltb (atoi (drop rp.mark bytes)) int_limit)) [
      | inr large ↦ let h' : ⊥ = rw (cr, large) at h in absurd h'
      | inl small ↦
          let n = atoi (drop rp.mark bytes) in
          let q : ReplyParser = record (goto s18 rp) {
            multibulk_count = n;
            multibulk_reply = some (Reply_new rt_multibulk null_buffer 0 n);
          } in
          let (u, eq, later) : Awaits s18 q (drop rp.mark bytes) e (drop (rp.p + 1) bytes) =
            rw (cr, small) at h in
          ([], u, tt, same_head c b'\r' t (b'\n' ∷ u) cr (sym next ∙ eq), ltb→lt _ _ small, later)
    ]
    | inr other ↦ elim (Bool-cases (is_digit c)) [
      | inr no_digit ↦ let h' : ⊥ = rw (other, no_digit) at h in absurd h'
      | inl digit ↦
          let q : ReplyParser = record rp { p = rp.p + 1 } in
          let h' : Awaits rp.cs q (drop rp.mark bytes) e (drop (rp.p + 1) bytes) =
            rw (other, digit) at h in
          let (ds, u, digits, eq, small, later) : Awaits s17 q (drop rp.mark bytes) e
              (drop (rp.p + 1) bytes) =
            subst (λ (st : State). Awaits st q (drop rp.mark bytes) e (drop (rp.p + 1) bytes)) state
              h' in
          (c ∷ ds, u, (digit, digits), ap (λ (l : Bytes). c ∷ l) (sym next ∙ eq), small, later)
    ]
  ]

  pub multibulk-Awaits :
      (rp : ReplyParser) (c : ℕ) (e t : Bytes)
      → drop (rp.p + 1) bytes ≡ t
      → Leads bytes e (step_multibulk rp c)
      → Awaits s18 rp (drop rp.mark bytes) e (c ∷ t)
  unfolding step_multibulk
  multibulk-Awaits rp c e t next h = elim (Bool-cases (c == b'\n')) [
    | inr other ↦ let h' : ⊥ = rw other at h in absurd h'
    | inl lf ↦ elim (Bool-cases (rp.multibulk_count == 0)) [
      | inl empty ↦ elim (Option-cases rp.multibulk_reply) [
        | inl no_reply ↦ let h' : ⊥ = rw (lf, empty, no_reply) at h in absurd h'
        | inr (m, there) ↦
            let h' : drop (rp.p + 1) bytes ≡ e = rw (lf, empty, there) at h in
            (
              t,
              same_head c b'\n' t t lf refl,
              Later-count 0 rp.multibulk_count e t (sym ((==_iff rp.multibulk_count 0).0 empty))
                  (zero-Later e t (sym next ∙ h')),
            )
      ]
      | inr some_left ↦
          let h' : Awaits s0 (goto s0 rp) (drop rp.mark bytes) e (drop (rp.p + 1) bytes) =
            rw (lf, some_left) at h in
          (
            t,
            same_head c b'\n' t t lf refl,
            subst (Later rp.multibulk_count e) next
                (h'.1 (let ne = not_same _ _ some_left in ground (arith, ne))),
          )
    ]
  ]
