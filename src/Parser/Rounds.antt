-- ===== src/Parser/Rounds.antt =====
-- How the rounds of `ReplyParser_execute` depend on the bytes: the digits at the mark, and the
-- characters of a bulk text taken at once or in parts.
use libredis.Base.{
  ℕ, zero, suc, ◌+◌, ◌-◌, ◌*◌, min, ◌≤◌, ◌<◌, ◌≡◌, ◌≢◌, ◌⊎◌, inl, inr, refl, sym, ap, ◌∙◌, some,
  Bytes, [], ◌∷◌, arith, ltb, drop, get_elem?, length, get_elem?-total, Bool-cases, Option-cases,
  ltb→lt,
}
use libredis.Parser.{
  ReplyParser, State, s0, s9, s11, s17, continue, return, Result, rpr_more, step, step_chars, round,
  atoi, atoi_from, ReplyParser_execute,
}
use libredis.Parser.Run.{execute-continue}

-- `atoi` stops at the CR behind the digits.
pub atoi_from-agree :
    (n acc : ℕ) (xs ys : Bytes)
    → ((i : ℕ) → i ≤ n → get_elem? xs i ≡ get_elem? ys i)
    → get_elem? xs n ≡ some b'\r'
    → atoi_from acc xs ≡ atoi_from acc ys
unfolding atoi_from
atoi_from-agree n acc [] ys same cr = ground arith
atoi_from-agree zero acc (x ∷ xs) [] same cr = ground (arith, same 0)
atoi_from-agree (suc n) acc (x ∷ xs) [] same cr = ground (arith, same 0)
atoi_from-agree zero acc (x ∷ xs) (y ∷ ys) same cr = ground (arith, same 0)
atoi_from-agree (suc n) acc (x ∷ xs) (y ∷ ys) same cr = ground (
  arith,
  same 0,
  atoi_from-agree n (acc * 10 + (x - b'0')) xs ys (λ i h. same (suc i) (omega arith)) cr,
)

pub step-agree :
    (s : State) (rp : ReplyParser) (xs ys : Bytes) (m n c : ℕ)
    → (s ≡ s11 → min rp.bulk_count (m - rp.p) ≡ min rp.bulk_count (n - rp.p))
    → (c ≡ b'\r' → atoi (drop rp.mark xs) ≡ atoi (drop rp.mark ys))
    → step s rp xs m c ≡ step s rp ys n c
unfolding step
step-agree s11 rp xs ys m n c ne a = ap (λ k. step_chars k rp c) (ne refl)
step-agree s9 rp xs ys m n c ne a = ground arith
step-agree s17 rp xs ys m n c ne a = ground arith
step-agree _ rp xs ys m n c ne a = refl

chars-step :
    (n : ℕ) (rp : ReplyParser) (c : ℕ)
    → 0 < n
    → step_chars n rp c ≡ continue (record rp { p = rp.p + n; bulk_count = rp.bulk_count - n })
unfolding step_chars
chars-step n rp c h = ground arith

-- `k` characters taken
abbrev took : ℕ → ReplyParser → ReplyParser
took k rp = record rp { p = rp.p + k; bulk_count = rp.bulk_count - k }

took-took :
    (j k l : ℕ) (rp : ReplyParser) → j + k ≡ l → l ≤ rp.bulk_count → took k (took j rp) ≡ took l rp
took-took j k l rp e h = ground arith

pub State-is_s11 : (s : State) → (s ≡ s11) ⊎ (s ≢ s11)
State-is_s11 s11 = inl refl
State-is_s11 _ = inr (ground arith)

pub continue-injective : {q r : ReplyParser} → continue q ≡ continue r → q ≡ r
continue-injective h = cc

pub continue≢return : {q r : ReplyParser} {x : Result} → continue q ≢ return x r
continue≢return h = cc

-- RPR_MORE is returned only where the bytes run out.
step-ne-more :
    (s : State) (rp : ReplyParser) (bytes : Bytes) (len c : ℕ) {r : Result} {q : ReplyParser}
    → step s rp bytes len c ≡ return r q
    → r ≢ rpr_more
unfolding step
step-ne-more s0 rp bytes len c h e = ground arith
step-ne-more _ rp bytes len c h e = ground arith

pub round-ne-more :
    (rp : ReplyParser) (bytes : Bytes) (len : ℕ) {r : Result} {q : ReplyParser}
    → round rp bytes len ≡ return r q
    → r ≢ rpr_more
round-ne-more rp bytes len {r} {q} h e = elim (Option-cases (get_elem? bytes rp.p)) [
  | inl outside ↦ ground arith
  | inr (c, inside) ↦ step-ne-more rp.cs rp bytes len c {r = r} {q = q} (ground arith) e
]

module _ (bytes : Bytes) (len : ℕ) (fits : len ≤ length bytes) where
  -- The round in state 11 with characters left
  pub chars-round :
      (rp : ReplyParser) (n : ℕ)
      → rp.cs ≡ s11
      → rp.p < len
      → 0 < rp.bulk_count
      → n ≡ min rp.bulk_count (len - rp.p)
      → round rp bytes len ≡ continue (took n rp)
  unfolding step
  chars-round rp n e h b m =
      let (c, there) = get_elem?-total bytes rp.p (omega arith) in
      ground (arith, there, chars-step n rp c (omega arith))

  -- Taking some of the characters first makes no difference.
  pub execute-took :
      (rp : ReplyParser) (k : ℕ)
      → rp.cs ≡ s11
      → 0 < k
      → k ≤ rp.bulk_count
      → rp.p + k ≤ len
      → ReplyParser_execute rp bytes len ≡ ReplyParser_execute (took k rp) bytes len
  execute-took rp k e h b l =
      let whole = min rp.bulk_count (len - rp.p) in
      let first =
        execute-continue bytes len rp {q = took whole rp} (omega arith)
          (chars-round rp whole e (omega arith) (omega arith) refl) in
      elim (Bool-cases (ltb k whole)) [
        | inr all ↦
            let eq : whole ≡ k = ground arith in
            first ∙ ap (λ j. ReplyParser_execute (took j rp) bytes len) eq
        | inl part ↦
            let lt : k < whole = ltb→lt _ _ part in
            first
            ∙ ap (λ r. ReplyParser_execute r bytes len)
                (sym (took-took k (whole - k) whole rp (omega arith) (omega arith)))
            ∙ sym (
                execute-continue bytes len (took k rp) {q = took (whole - k) (took k rp)}
                  (omega arith)
                  (chars-round (took k rp) (whole - k) e (omega arith) (omega arith) (omega arith)))
      ]
