-- ===== src/Tests/Replies.antt =====
-- The theorems on libredis/parser.c at concrete replies.
use libredis.Base.{
  ℕ, zero, suc, ◌++◌, get_elem?, ◌≤◌, ◌<◌, ◌≡◌, refl, none, some, Bytes, [], ◌∷◌, arith, length,
}
use libredis.Parser.{ReplyParser_execute}
use libredis.Parser.Valid.{Outcome, execute-Outcome, reset-IsValid}
use libredis.Parser.Resume.{resumed, execute-resumed}
use libredis.Parser.Wire.{IsCount, multibulk}
use libredis.Parser.Accepted.Verdict.{Verdict, execute-Verdict}
use libredis.Parser.RoundTrip.{HasRead, value-HasRead}
use libredis.Tests.{codes, fresh}

abbrev two_items : Bytes
two_items = codes "*2\r\n$2\r\nab\r\n$-1\r\n"

two_items-fits : length two_items ≤ length two_items
two_items-fits = omega arith

two-IsCount : IsCount b'2' [] 2
two-IsCount = record { first = refl; others = tt; value = refl; is_int = omega arith }

value-HasRead_example :
    HasRead two_items
      (length two_items)
      two_items-fits
      (multibulk (some (some (codes "ab") ∷ none ∷ [])))
      []
      two_items
      fresh
value-HasRead_example =
    value-HasRead two_items (length two_items) two_items-fits
      (multibulk (some (some (codes "ab") ∷ none ∷ []))) [] two_items fresh refl refl
      (
        b'2',
        [],
        codes "$2\r\nab\r\n$-1\r\n",
        two-IsCount,
        refl,
        (codes "$-1\r\n", (b'2', [], two-IsCount, refl), ([], refl, refl)),
      )
      refl (omega arith)

-- The reply has arrived up to its first item.
abbrev first_part : Bytes
first_part = codes "*2\r\n$2\r\nab"

abbrev later_part : Bytes
later_part = codes "\r\n$-1\r\n"

front_same : (xs ys : Bytes) (i : ℕ) → i < length xs → get_elem? xs i ≡ get_elem? (xs ++ ys) i
front_same [] ys i h = absurd (omega arith)
front_same (x ∷ xs) ys zero h = refl
front_same (x ∷ xs) ys (suc i) h = front_same xs ys i (omega arith)

execute-resumed_example :
    ReplyParser_execute fresh two_items 17
    ≡ resumed two_items 17 (ReplyParser_execute fresh first_part 10)
execute-resumed_example =
    execute-resumed first_part two_items 10 17 (omega arith) (omega arith) (omega arith)
      (front_same first_part later_part) fresh (reset-IsValid 10 fresh)

execute-Outcome_example : Outcome two_items 10 (ReplyParser_execute fresh two_items 10)
execute-Outcome_example = execute-Outcome two_items 10 (omega arith) fresh (reset-IsValid 10 fresh)

-- A text that is longer than its count says
abbrev malformed : Bytes
malformed = codes "$2\r\nabc\r\n"

execute-Verdict_example : Verdict malformed 9 fresh (ReplyParser_execute fresh malformed 9)
execute-Verdict_example =
    execute-Verdict malformed 9 (omega arith) fresh (reset-IsValid 9 fresh) refl refl
