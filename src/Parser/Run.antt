-- ===== src/Parser/Run.antt =====
-- The loop of `ReplyParser_execute` runs out of bytes before it runs out of rounds.
use libredis.Base.{
  ℕ, zero, suc, ◌-◌, ◌≤◌, ◌<◌, ◌≡◌, ◌⊎◌, inl, inr, refl, sym, ◌∙◌, some, Bytes, arith, ltb,
  get_elem?, Bool-cases, Option-cases, lt→ltb, ltb-ge, ltb→lt, ltb→ge,
}
use libredis.Parser.{
  ReplyParser, State, s0, Round, continue, return, Result, rpr_more, step, round, after, loop,
  ReplyParser_execute,
}

-- A round that goes on has moved forward.
pub step_progress :
    (s : State) (rp : ReplyParser) (bytes : Bytes) (len c : ℕ) {q : ReplyParser}
    → step s rp bytes len c ≡ continue q
    → rp.p < q.p
unfolding step
step_progress s0 rp bytes len c h = ground arith
step_progress _ rp bytes len c h = ground arith

pub Round-cases :
    (r : Round)
    → ((q : ReplyParser) × (x : Result) × (r ≡ return x q)) ⊎ ((q : ReplyParser) × (r ≡ continue q))
Round-cases (return x q) = inl (q, x, refl)
Round-cases (continue q) = inr (q, refl)

module _ (bytes : Bytes) (len : ℕ) where
  pub round_progress :
      (rp : ReplyParser) {q : ReplyParser} → round rp bytes len ≡ continue q → rp.p < q.p
  round_progress rp {q} h = elim (Option-cases (get_elem? bytes rp.p)) [
    | inl outside ↦ ground arith
    | inr (c, inside) ↦ step_progress rp.cs rp bytes len c {q = q} (ground arith)
  ]

  loop_more :
      (f : ℕ) (rp : ReplyParser)
      → rp.p < len
      → loop (suc f) rp bytes len ≡ after (round rp bytes len) (λ q. loop f q bytes len)
  unfolding loop
  loop_more f rp h = rw (lt→ltb _ _ h, loop)

  loop_done : (f : ℕ) (rp : ReplyParser) → len ≤ rp.p → loop f rp bytes len ≡ some (rpr_more, rp)
  unfolding loop
  loop_done zero rp h = rw (ltb-ge _ _ h)
  loop_done (suc f) rp h = rw (ltb-ge _ _ h, loop)

  -- Two numbers of rounds that are both enough give one result.
  pub loop_fuel :
      (f g : ℕ) (rp : ReplyParser)
      → len - rp.p ≤ f
      → len - rp.p ≤ g
      → loop f rp bytes len ≡ loop g rp bytes len
  loop_fuel zero g rp hf hg = loop_done zero rp (omega arith) ∙ sym (loop_done g rp (omega arith))
  loop_fuel (suc f) zero rp hf hg =
      loop_done (suc f) rp (omega arith) ∙ sym (loop_done zero rp (omega arith))
  loop_fuel (suc f) (suc g) rp hf hg = elim (Bool-cases (ltb rp.p len)) [
    | inr no_more ↦
        let e = ltb→ge _ _ no_more in loop_done (suc f) rp e ∙ sym (loop_done (suc g) rp e)
    | inl more ↦
        let e = ltb→lt _ _ more in
        loop_more f rp e
        ∙ (elim (Round-cases (round rp bytes len)) [
          | inl (q, x, r) ↦ rw r
          | inr (q, r) ↦
              let n = round_progress rp r in rw r (loop_fuel f g q (omega arith) (omega arith))
        ])
        ∙ sym (loop_more g rp e)
  ]

  -- A round that goes on leaves the result of the call as it is.
  pub execute-continue :
      (rp : ReplyParser) {q : ReplyParser}
      → rp.p < len
      → round rp bytes len ≡ continue q
      → ReplyParser_execute rp bytes len ≡ ReplyParser_execute q bytes len
  unfolding ReplyParser_execute
  execute-continue rp {q} h e =
      let n = round_progress rp e in
      loop_fuel (len - rp.p) (suc (len - rp.p)) rp (omega arith) (omega arith)
      ∙ loop_more (len - rp.p) rp h
      ∙ rw e (loop_fuel (len - rp.p) (len - q.p) q (omega arith) (omega arith))

  pub execute-return :
      (rp : ReplyParser) {q : ReplyParser} {r : Result}
      → rp.p < len
      → round rp bytes len ≡ return r q
      → ReplyParser_execute rp bytes len ≡ some (r, q)
  unfolding ReplyParser_execute
  execute-return rp h e =
      loop_fuel (len - rp.p) (suc (len - rp.p)) rp (omega arith) (omega arith)
      ∙ loop_more (len - rp.p) rp h
      ∙ rw e

  pub execute-more :
      (rp : ReplyParser) → len ≤ rp.p → ReplyParser_execute rp bytes len ≡ some (rpr_more, rp)
  unfolding ReplyParser_execute
  execute-more rp h = loop_done (len - rp.p) rp h

  loop_total :
      (f : ℕ) (rp : ReplyParser)
      → len - rp.p ≤ f
      → (o : Result × ReplyParser) × (loop f rp bytes len ≡ some o)
  loop_total zero rp h = ((rpr_more, rp), loop_done zero rp (omega arith))
  loop_total (suc f) rp h = elim (Bool-cases (ltb rp.p len)) [
    | inr no_more ↦ ((rpr_more, rp), loop_done (suc f) rp (ltb→ge _ _ no_more))
    | inl more ↦ elim (Round-cases (round rp bytes len)) [
      | inl (q, x, r) ↦ ((x, q), loop_more f rp (ltb→lt _ _ more) ∙ rw r)
      | inr (q, r) ↦
          let n = round_progress rp r in
          let (o, e) = loop_total f q (omega arith) in
          (o, loop_more f rp (ltb→lt _ _ more) ∙ rw r e)
    ]
  ]

  -- `ReplyParser_execute` always returns: its loop ends within a round for each byte left.
  pub execute_total :
      (rp : ReplyParser) → (o : Result × ReplyParser) × (ReplyParser_execute rp bytes len ≡ some o)
  unfolding ReplyParser_execute
  execute_total rp = loop_total (len - rp.p) rp (omega arith)
