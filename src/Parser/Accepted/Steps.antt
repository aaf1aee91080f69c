-- ===== src/Parser/Accepted/Steps.antt =====
-- A step of the machine that leads to a reply, by kind of step: which bytes it leads over.
use mathlib.Core.Path.{subst}
use libredis.Base.{
  ℕ, ◌+◌, ◌-◌, ◌≡◌, inl, inr, refl, sym, ap, ◌∙◌, true, some, [], ◌∷◌, ◌++◌, Bytes, arith, drop,
  ltb, ◌==◌, ==_iff, ltb→ge, Bool-cases, Option-cases,
}
use libredis.Reply.{Reply, Reply_new, Reply_add_child, read_buffer, rt_bulk, rt_bulk_nil}
use libredis.Parser.{
  ReplyParser, State, s0, s8, s12, continue, goto, step_line, step_expect, step_reply,
  step_nil_bulk, step_bulk, finish_bulk,
}
use libredis.Parser.Wire.{IsLine, crlf}
use libredis.Parser.Accepted.{Later, Awaits, Leads, same_head, not_same, zero-Later, Later-count}

module _ (bytes : Bytes) where
  -- What a completed bulk reply leads to
  finish_bulk-Later :
      (r : Reply) (rp : ReplyParser) (e : Bytes)
      → rp.cs ≡ s0
      → Leads bytes e (finish_bulk r rp)
      → Later (rp.multibulk_count - 1) e (drop rp.p bytes)
  unfolding finish_bulk
  finish_bulk-Later r rp e initial h = elim (Bool-cases (ltb 0 rp.multibulk_count)) [
    | inr single ↦
        let h' : drop rp.p bytes ≡ e = rw single at h in
        Later-count 0 (rp.multibulk_count - 1) e (drop rp.p bytes)
          (let z = ltb→ge _ _ single in omega arith) (zero-Later e (drop rp.p bytes) h')
    | inl several ↦ elim (Option-cases rp.multibulk_reply) [
      | inl no_reply ↦ let h' : ⊥ = rw (several, no_reply) at h in absurd h'
      | inr (m, there) ↦ elim (Bool-cases (rp.multibulk_count - 1 == 0)) [
        | inl last ↦
            let h' : drop rp.p bytes ≡ e = rw (several, there, last) at h in
            Later-count 0 (rp.multibulk_count - 1) e (drop rp.p bytes)
              (sym ((==_iff (rp.multibulk_count - 1) 0).0 last)) (zero-Later e (drop rp.p bytes) h')
        | inr more ↦
            let q : ReplyParser = record rp {
              multibulk_count = rp.multibulk_count - 1;
              multibulk_reply = some (Reply_add_child m r);
            } in
            let h' : Awaits rp.cs q (drop rp.mark bytes) e (drop rp.p bytes) =
              rw (several, there, more) at h in
            let h'' : Awaits s0 q (drop rp.mark bytes) e (drop rp.p bytes) = rw initial at h' in
            h''.1 (let ne = not_same _ _ more in ground (arith, ne))
      ]
    ]
  ]

  pub step_line-Awaits :
      (s : State) (rp : ReplyParser) (c : ℕ) (e t : Bytes)
      → ((q : ReplyParser) (m u : Bytes) → Awaits s q m e u → u ≡ b'\n' ∷ e)
      → ((q : ReplyParser) (m u : Bytes)
          → Awaits rp.cs q m e u
          → (l : Bytes) × IsLine l × (u ≡ l ++ crlf e))
      → drop (rp.p + 1) bytes ≡ t
      → Leads bytes e (step_line s rp c)
      → (l : Bytes) × IsLine l × (c ∷ t ≡ l ++ crlf e)
  unfolding step_line
  step_line-Awaits s rp c e t ends goes next h = elim (Bool-cases (c == b'\r')) [
    | inl cr ↦
        let h' : Awaits s (goto s rp) (drop rp.mark bytes) e (drop (rp.p + 1) bytes) = rw cr at h in
        ([], tt, same_head c b'\r' t (b'\n' ∷ e) cr (sym next ∙ ends _ _ _ h'))
    | inr other ↦
        let q : ReplyParser = record rp { p = rp.p + 1 } in
        let h' : Awaits rp.cs q (drop rp.mark bytes) e (drop (rp.p + 1) bytes) = rw other at h in
        let (l, line, eq) = goes q (drop rp.mark bytes) (drop (rp.p + 1) bytes) h' in
        (c ∷ l, (not_same c b'\r' other, line), ap (λ (u : Bytes). c ∷ u) (sym next ∙ eq))
  ]

  -- One expected byte
  pub step_expect-Awaits :
      (b : ℕ) (q rp : ReplyParser) (c : ℕ) (e : Bytes)
      → Leads bytes e (step_expect b q rp c)
      → ((c == b) ≡ true) × Leads bytes e (continue q)
  unfolding step_expect
  step_expect-Awaits b q rp c e h = elim (Bool-cases (c == b)) [
    | inl same ↦ (same, rw same at h)
    | inr other ↦ let h' : ⊥ = rw other at h in absurd h'
  ]

  -- The LF that ends a reply
  pub step_reply-Awaits :
      (r : ReplyParser → Reply) (rp : ReplyParser) (c : ℕ) (e t : Bytes)
      → drop (rp.p + 1) bytes ≡ t
      → Leads bytes e (step_reply r rp c)
      → c ∷ t ≡ b'\n' ∷ e
  unfolding step_reply
  step_reply-Awaits r rp c e t next h = elim (Bool-cases (c == b'\n')) [
    | inl lf ↦
        let h' : drop (rp.p + 1) bytes ≡ e = rw lf at h in same_head c b'\n' t e lf (sym next ∙ h')
    | inr other ↦ let h' : ⊥ = rw other at h in absurd h'
  ]

  -- The LF behind a bulk reply
  pub step_nil_bulk-Awaits :
      (rp : ReplyParser) (c : ℕ) (e t : Bytes)
      → drop (rp.p + 1) bytes ≡ t
      → Leads bytes e (step_nil_bulk rp c)
      → Awaits s8 rp (drop rp.mark bytes) e (c ∷ t)
  unfolding step_nil_bulk
  step_nil_bulk-Awaits rp c e t next h = elim (Bool-cases (c == b'\n')) [
    | inl lf ↦
        let r = Reply_new rt_bulk_nil read_buffer 0 0 in
        let h' : Leads bytes e (finish_bulk r (goto s0 rp)) = rw lf at h in
        (
          t,
          same_head c b'\n' t t lf refl,
          subst (Later (rp.multibulk_count - 1) e) next
              (finish_bulk-Later r (goto s0 rp) e refl h'),
        )
    | inr other ↦ let h' : ⊥ = rw other at h in absurd h'
  ]

  pub step_bulk-Awaits :
      (rp : ReplyParser) (c : ℕ) (e t : Bytes)
      → drop (rp.p + 1) bytes ≡ t
      → Leads bytes e (step_bulk rp c)
      → Awaits s12 rp (drop rp.mark bytes) e (c ∷ t)
  unfolding step_bulk
  step_bulk-Awaits rp c e t next h = elim (Bool-cases (c == b'\n')) [
    | inl lf ↦
        let r = Reply_new rt_bulk read_buffer rp.mark (rp.p + 1 - rp.mark - 2) in
        let h' : Leads bytes e (finish_bulk r (goto s0 rp)) = rw lf at h in
        (
          t,
          same_head c b'\n' t t lf refl,
          subst (Later (rp.multibulk_count - 1) e) next
              (finish_bulk-Later r (goto s0 rp) e refl h'),
        )
    | inr other ↦ let h' : ⊥ = rw other at h in absurd h'
  ]
