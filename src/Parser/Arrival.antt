-- ===== src/Parser/Arrival.antt =====
-- A parser on the way to the end of a value that arrives in pieces, whatever stands in the buffer behind
-- the bytes that have arrived.
use mathlib.Core.Path.{subst}
use libredis.Base.{
  ℕ, ◌≤◌, ◌<◌, ◌≡◌, refl, sym, ap, ◌∙◌, Option, none, some, ◌++◌, Bytes, arith, length, take, drop,
  get_elem?, length-append, length-take, append_assoc, drop-append, take-append-drop, take-all,
  get_elem?-of_take, get_elem?-of_append,
}
use libredis.Reply.{Reply}
use libredis.Parser.{
  ReplyParser, ReplyParser_execute, Result, rpr_error, rpr_more, rpr_reply, undefined, s0,
}
use libredis.Parser.Run.{execute_total}
use libredis.Parser.Valid.{IsValid, Within, execute-Outcome}
use libredis.Parser.Resume.{resumed, execute-resumed}
use libredis.Parser.Wire.{Value, Encodes, Describes}
use libredis.Parser.RoundTrip.{value-HasRead}

-- In a buffer that begins with `d`, the parser gives a reply that describes `v`, and stands behind `d`,
-- between two replies.
pub record Ends (d : Bytes) (v : Value) (rp : ReplyParser) (bytes : Bytes) : Type 0 where
  pub found : Reply
  pub next : ReplyParser
  pub returns : ReplyParser_execute rp bytes (length d) ≡ some (rpr_reply found, next)
  pub describes : Describes bytes v found
  pub at_end : next.p ≡ length d
  pub initial : next.cs ≡ s0
  pub no_items : next.multibulk_count ≡ 0
  pub valid : IsValid (length d) next

-- So it does once all of `d` has arrived, in whatever buffer.
abbrev pub Reads : Bytes → Value → ReplyParser → Type 0
Reads d v rp = (bytes : Bytes) → take (length d) bytes ≡ d → Ends d v rp bytes

fits_in : (d bytes : Bytes) → take (length d) bytes ≡ d → length d ≤ length bytes
fits_in d bytes e = omega (arith, length-take (length d) bytes, ap length e)

pub longer-IsValid : (m n : ℕ) (q : ReplyParser) → IsValid m q → m ≤ n → IsValid n q
longer-IsValid m n q valid h = record {
  in_len = omega (arith, valid.in_len);
  mark_le = valid.mark_le;
  pending = valid.pending;
  within = valid.within;
  phase = valid.phase;
}

-- A parser between two replies, behind `pre` and at an encoding of `v`
pub initial-Reads :
    (pre e : Bytes) (v : Value) (rp : ReplyParser)
    → ((rest : Bytes) → Encodes v rest (e ++ rest))
    → rp.cs ≡ s0
    → rp.p ≡ length pre
    → rp.multibulk_count ≡ 0
    → IsValid (length pre) rp
    → Reads (pre ++ e) v rp
initial-Reads pre e v rp encodes s p c valid bytes same =
    let d = pre ++ e in
    let rest = drop (length d) bytes in
    let whole : bytes ≡ d ++ rest =
      sym (take-append-drop (length d) bytes) ∙ ap (λ (xs : Bytes). xs ++ rest) same in
    let dropped : drop rp.p bytes ≡ e ++ rest =
      ap (λ (k : ℕ). drop k bytes) p
      ∙ ap (drop (length pre)) (whole ∙ append_assoc pre e rest)
      ∙ drop-append pre (e ++ rest) in
    let l = length-append e rest in
    let l' = length-append pre e in
    let h =
      value-HasRead bytes (length d) (fits_in d bytes same) v rest (e ++ rest) rp s c (encodes rest)
        dropped (omega arith) in
    let o : IsValid (length d) h.next × Within h.next.p h.found = rw h.returns at (
      execute-Outcome bytes (length d) (fits_in d bytes same) rp
        (longer-IsValid (length pre) (length d) rp valid (omega arith))) in
    record {
      found = h.found;
      next = h.next;
      returns = h.returns;
      describes = h.describes;
      at_end = omega (arith, h.length_read, l, l', p);
      initial = h.initial;
      no_items = h.no_items;
      valid = o.0;
    }

abbrev result_of : Result → Option (Result × ReplyParser) → Result
result_of other none = other
result_of other (some (res, q)) = res

abbrev parser_of : ReplyParser → Option (Result × ReplyParser) → ReplyParser
parser_of other none = other
parser_of other (some (res, q)) = q

-- A part `x` of `d` has arrived, and `y` has not.
module _ (d x y : Bytes) (whole : x ++ y ≡ d) (more : 0 < length y) (v : Value) where
  same_front :
      (bytes later : Bytes)
      → take (length x) bytes ≡ x
      → take (length d) later ≡ d
      → (i : ℕ) → i < length x
      → get_elem? bytes i ≡ get_elem? later i
  same_front bytes later ex ed i h =
      let l = length-append x y in
      let n = ap length whole in
      sym (get_elem?-of_take (length x) i bytes h)
      ∙ ap (λ (xs : Bytes). get_elem? xs i) ex
      ∙ sym (get_elem?-of_append i x y h)
      ∙ ap (λ (xs : Bytes). get_elem? xs i) whole
      ∙ ap (λ (xs : Bytes). get_elem? xs i) (sym ed)
      ∙ get_elem?-of_take (length d) i later (omega arith)

  longer : length x < length d
  longer = omega (arith, length-append x y, ap length whole)

  agree :
      (rp : ReplyParser) (bytes later : Bytes)
      → IsValid (length x) rp
      → take (length x) bytes ≡ x
      → take (length d) later ≡ d
      → ReplyParser_execute rp later (length d)
        ≡ resumed later (length d) (ReplyParser_execute rp bytes (length x))
  agree rp bytes later valid ex ed =
      execute-resumed bytes later (length x) (length d) (omega (arith, longer)) (fits_in x bytes ex)
        (fits_in d later ed) (same_front bytes later ex ed) rp valid

  all_of_it : take (length d) d ≡ d
  all_of_it = take-all (length d) d (omega arith)

  -- A result that stands is the one at the end.
  last :
      (rp : ReplyParser) (bytes : Bytes) (res : Result) (q : ReplyParser)
      → IsValid (length x) rp
      → take (length x) bytes ≡ x
      → Reads d v rp
      → ReplyParser_execute rp bytes (length x) ≡ some (res, q)
      → resumed d (length d) (some (res, q)) ≡ some (res, q)
      → (r : Reply) × (res ≡ rpr_reply r) × (q.p ≡ length d)
  last rp bytes res q valid ex reads e stands =
      let h = reads d all_of_it in
      let same : some (res, q) ≡ some (rpr_reply h.found, h.next) =
        sym (agree rp bytes d valid ex all_of_it ∙ ap (resumed d (length d)) e ∙ stands)
        ∙ h.returns in
      (h.found, ap (result_of rpr_error) same, ap (λ o. (parser_of q o).p) same ∙ h.at_end)

  by_result :
      (rp : ReplyParser) (bytes : Bytes) (res : Result) (q : ReplyParser)
      → IsValid (length x) rp
      → take (length x) bytes ≡ x
      → Reads d v rp
      → ReplyParser_execute rp bytes (length x) ≡ some (res, q)
      → (ReplyParser_execute rp bytes (length x) ≡ some (rpr_more, q))
        × IsValid (length x) q
        × Reads d v q
  by_result rp bytes rpr_more q valid ex reads e =
      let valid' : IsValid (length x) q =
        rw e at (execute-Outcome bytes (length x) (fits_in x bytes ex) rp valid) in
      (
        e,
        valid',
        (λ later ed.
            let h = reads later ed in
            record {
              found = h.found;
              next = h.next;
              returns =
                  sym (agree rp bytes later valid ex ed ∙ ap (resumed later (length d)) e)
                  ∙ h.returns;
              describes = h.describes;
              at_end = h.at_end;
              initial = h.initial;
              no_items = h.no_items;
              valid = h.valid;
            }),
      )
  by_result rp bytes (rpr_reply r) q valid ex reads e =
      let o : IsValid (length x) q × Within q.p r =
        rw e at (execute-Outcome bytes (length x) (fits_in x bytes ex) rp valid) in
      let (r', same, at_end) = last rp bytes (rpr_reply r) q valid ex reads e refl in
      absurd (omega (arith, o.0.in_len, at_end, longer))
  by_result rp bytes rpr_error q valid ex reads e =
      let (r', same, at_end) = last rp bytes rpr_error q valid ex reads e refl in
      ground (arith, same)
  by_result rp bytes undefined q valid ex reads e =
      let (r', same, at_end) = last rp bytes undefined q valid ex reads e refl in
      ground (arith, same)

  -- A call on a part wants more, and the parser that it leaves goes on to read `v`.
  pub part-more :
      (rp : ReplyParser) (bytes : Bytes)
      → IsValid (length x) rp
      → take (length x) bytes ≡ x
      → Reads d v rp
      → (q : ReplyParser) × ((ReplyParser_execute rp bytes (length x) ≡ some (rpr_more, q))
          × IsValid (length x) q
          × Reads d v q)
  part-more rp bytes valid ex reads =
      let (o, e) = execute_total bytes (length x) rp in
      (o.1, by_result rp bytes o.0 o.1 valid ex reads e)

-- All of `d` has arrived, in the bytes `x` that begin with it. What the reply says does not depend on
-- the bytes behind `d`.
pub record Whole (d : Bytes) (v : Value) (rp : ReplyParser) (bytes : Bytes) (m : ℕ) : Type 0 where
  pub found : Reply
  pub next : ReplyParser
  pub returns : ReplyParser_execute rp bytes m ≡ some (rpr_reply found, next)
  pub describes : (later : Bytes) → take (length d) later ≡ d → Describes later v found
  pub at_end : next.p ≡ length d
  pub initial : next.cs ≡ s0
  pub no_items : next.multibulk_count ≡ 0
  pub valid : IsValid (length d) next

reply_of : Reply → Option (Result × ReplyParser) → Reply
reply_of other (some (rpr_reply r, q)) = r
reply_of other _ = other

front_agrees :
    (d bytes later : Bytes)
    → take (length d) bytes ≡ d
    → take (length d) later ≡ d
    → (i : ℕ) → i < length d
    → get_elem? bytes i ≡ get_elem? later i
front_agrees d bytes later e e' i h =
    sym (get_elem?-of_take (length d) i bytes h)
    ∙ ap (λ (xs : Bytes). get_elem? xs i) (e ∙ sym e')
    ∙ get_elem?-of_take (length d) i later h

pub Reads-Whole :
    (d : Bytes) (v : Value) (rp : ReplyParser) (bytes : Bytes) (m : ℕ)
    → IsValid (length d) rp
    → take (length d) bytes ≡ d
    → length d ≤ m
    → m ≤ length bytes
    → Reads d v rp
    → Whole d v rp bytes m
unfolding reply_of
Reads-Whole d v rp bytes m valid ex le fits reads =
    let h = reads bytes ex in
    record {
      found = h.found;
      next = h.next;
      returns =
          execute-resumed bytes bytes (length d) m le (fits_in d bytes ex) fits (λ i lt. refl) rp
            valid
          ∙ ap (resumed bytes m) h.returns;
      describes = λ later ed.
          let g = reads later ed in
          let run =
            execute-resumed bytes later (length d) (length d) (omega arith) (fits_in d bytes ex)
              (fits_in d later ed) (front_agrees d bytes later ex ed) rp valid
            ∙ ap (resumed later (length d)) h.returns in
          subst (Describes later v) (ap (reply_of h.found) (sym g.returns ∙ run)) g.describes;
      at_end = h.at_end;
      initial = h.initial;
      no_items = h.no_items;
      valid = h.valid;
    }
