-- ===== src/Parser/Accepted.antt =====
-- What the parser takes for a reply: in each state, the bytes that are still to come before it returns one.
pub mod Steps
pub mod Initial
pub mod Counts
pub mod Sound
pub mod Verdict
use mathlib.Core.Path.{subst}
use libredis.Base.{
  ℕ, zero, suc, ◌+◌, ◌-◌, ◌≤◌, ◌<◌, ◌≡◌, ◌≢◌, ◌⊎◌, inl, inr, refl, sym, ap, ◌∙◌, Bool, true, false,
  Option, none, some, List, [], ◌∷◌, ◌++◌, Bytes, arith, length, drop, min, if◌then◌else◌, ltb,
  ◌==◌, ==_iff, ltb→lt, ltb→ge, Bool-cases, Option-cases,
}
use libredis.Reply.{Reply, Reply_new, Reply_add_child, read_buffer, rt_bulk, rt_bulk_nil}
use libredis.Parser.{
  ReplyParser, State, s0, s1, s2, s3, s4, s5, s6, s7, s8, s9, s10, s11, s12, s13, s14, s15, s16,
  s17, s18, s19, s20, Result, rpr_error, rpr_more, rpr_reply, undefined, Round, continue, return,
  is_digit, atoi, int_limit, goto, goto_mark, mark_goto, step, step_initial, step_line, step_expect,
  step_reply, step_count, step_bulk_digits, step_multibulk_digits, step_chars, step_nil_bulk,
  step_bulk, step_multibulk, finish_bulk,
}
use libredis.Parser.Wire.{
  Value, status, failure, number, bulk, multibulk, All, IsLine, IsCount, crlf, EncodesBulk,
  EncodesItems, Encodes,
}

-- The entries of a multibulk reply that are still to come: `n` of them, up to the bytes `e`
abbrev pub Later : ℕ → Bytes → Bytes → Type 0
Later n e t = (xs : List (Option Bytes)) × (length xs ≡ n) × EncodesItems xs e t

-- The bytes of a text that is `n` long, and what comes after it
abbrev pub Text : ℕ → ℕ → Bytes → Bytes → Type 0
Text n mc e t =
    (s : Bytes) × (rest : Bytes) × (length s ≡ n) × (t ≡ s ++ crlf rest) × Later (mc - 1) e rest

-- The bytes `t` from `p` on that lead to a reply which ends where `e` begins; `m` are the bytes from
-- the mark on.
abbrev pub Awaits : State → ReplyParser → Bytes → Bytes → Bytes → Type 0
Awaits s0 rp m e t =
    (rp.multibulk_count ≡ 0 → (v : Value) × Encodes v e t)
    × (0 < rp.multibulk_count → Later rp.multibulk_count e t)
Awaits s1 rp m e t = (s : Bytes) × IsLine s × (t ≡ s ++ crlf e)
Awaits s2 rp m e t = t ≡ b'\n' ∷ e
Awaits s3 rp m e t = (s : Bytes) × IsLine s × (t ≡ s ++ crlf e)
Awaits s4 rp m e t = t ≡ b'\n' ∷ e
Awaits s5 rp m e t =
    (x : Option Bytes) × (rest : Bytes) × EncodesBulk x rest (b'$' ∷ t)
    × Later (rp.multibulk_count - 1) e rest
Awaits s6 rp m e t = (rest : Bytes) × (t ≡ b'1' ∷ crlf rest) × Later (rp.multibulk_count - 1) e rest
Awaits s7 rp m e t = (rest : Bytes) × (t ≡ crlf rest) × Later (rp.multibulk_count - 1) e rest
Awaits s8 rp m e t = (rest : Bytes) × (t ≡ b'\n' ∷ rest) × Later (rp.multibulk_count - 1) e rest
Awaits s9 rp m e t =
    (ds : Bytes) × (u : Bytes) × All (λ c. is_digit c ≡ true) ds
    × (t ≡ ds ++ crlf u)
    × (atoi m < int_limit)
    × Text (atoi m) rp.multibulk_count e u
Awaits s10 rp m e t = (u : Bytes) × (t ≡ b'\n' ∷ u) × Text rp.bulk_count rp.multibulk_count e u
Awaits s11 rp m e t = Text rp.bulk_count rp.multibulk_count e t
Awaits s12 rp m e t = (rest : Bytes) × (t ≡ b'\n' ∷ rest) × Later (rp.multibulk_count - 1) e rest
Awaits s13 rp m e t = (v : Value) × Encodes v e (b'*' ∷ t)
Awaits s14 rp m e t = t ≡ b'1' ∷ crlf e
Awaits s15 rp m e t = t ≡ crlf e
Awaits s16 rp m e t = t ≡ b'\n' ∷ e
Awaits s17 rp m e t =
    (ds : Bytes) × (u : Bytes) × All (λ c. is_digit c ≡ true) ds
    × (t ≡ ds ++ crlf u)
    × (atoi m < int_limit)
    × Later (atoi m) e u
Awaits s18 rp m e t = (u : Bytes) × (t ≡ b'\n' ∷ u) × Later rp.multibulk_count e u
Awaits s19 rp m e t = (s : Bytes) × IsLine s × (t ≡ s ++ crlf e)
Awaits s20 rp m e t = t ≡ b'\n' ∷ e

pub same_head : (c b : ℕ) (t u : Bytes) → (c == b) ≡ true → t ≡ u → c ∷ t ≡ b ∷ u
same_head c b t u eq h = ap (λ (x : ℕ). x ∷ t) ((==_iff c b).0 eq) ∙ ap (λ (l : Bytes). b ∷ l) h

pub not_same : (c b : ℕ) → (c == b) ≡ false → c ≢ b
not_same c b h = ground arith

pub zero-Later : (e t : Bytes) → t ≡ e → Later 0 e t
zero-Later e t h = ([], refl, h)

pub Later-zero : (e t : Bytes) → Later 0 e t → t ≡ e
Later-zero e t ([], len, h) = h
Later-zero e t (x ∷ xs, len, h) = absurd (omega (arith, len))

pub Later-count : (m n : ℕ) (e t : Bytes) → m ≡ n → Later m e t → Later n e t
Later-count m n e t h l = subst (λ (k : ℕ). Later k e t) h l

module _ (bytes : Bytes) where
  -- What a round that leads to a reply has left; a round that returns anything else leads to none.
  abbrev pub Leads : Bytes → Round → Type 0
  Leads e (continue q) = Awaits q.cs q (drop q.mark bytes) e (drop q.p bytes)
  Leads e (return (rpr_reply r) q) = drop q.p bytes ≡ e
  Leads e (return _ q) = ⊥
