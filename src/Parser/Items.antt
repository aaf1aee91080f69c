-- ===== src/Parser/Items.antt =====
-- The machine on the items of a multibulk reply.
use libredis.Base.{
  ℕ, suc, ◌+◌, ◌-◌, ◌≤◌, ◌<◌, ◌≡◌, inl, inr, refl, sym, ap, ◌∙◌, Option, none, some, List, [], ◌∷◌,
  ◌++◌, Bytes, arith, drop, take, length, length-append, take-append,
}
use libredis.Reply.{
  Reply, reply, Replies, nil, cons, Reply_new, Reply_add_child, add_tail, rt_bulk, rt_bulk_nil,
  rt_multibulk, read_buffer, null_buffer,
}
use libredis.Parser.{
  ReplyParser, s0, s5, s6, s7, s8, s12, Round, continue, Result, rpr_reply, step, step_initial,
  step_nil_bulk, step_bulk, after, finish_bulk, ReplyParser_execute,
}
use libredis.Parser.Run.{Round-cases}
use libredis.Parser.Pieces.{at, drop-suc, drop-at, one, last, after_text, bulk_text, bulk_run}
use libredis.Parser.Wire.{crlf, EncodesBulk, EncodesItems, Holds, DescribesBulk, DescribesItems}

abbrev pub append : Replies → Replies → Replies
append nil rs = rs
append (cons r cs) rs = cons r (append cs rs)

append-add_tail :
    (cs : Replies) (r : Reply) (rs : Replies) → append (add_tail cs r) rs ≡ append cs (cons r rs)
unfolding add_tail
append-add_tail nil r rs = refl
append-add_tail (cons c cs) r rs = ap (cons c) (append-add_tail cs r rs)

append_nil : (cs : Replies) → append cs nil ≡ cs
append_nil nil = refl
append_nil (cons c cs) = ap (cons c) (append_nil cs)

append-last : (cs : Replies) (r : Reply) → append cs (cons r nil) ≡ add_tail cs r
append-last cs r = sym (append-add_tail cs r nil) ∙ append_nil (add_tail cs r)

EncodesBulk-le :
    (x : Option Bytes) (rest bs : Bytes) → EncodesBulk x rest bs → length rest ≤ length bs
EncodesBulk-le none rest bs e = omega (arith, ap length e)
EncodesBulk-le (some s) rest bs (d, ds, count, e) =
    omega
      (arith, ap length e, length-append ds (crlf (s ++ crlf rest)), length-append s (crlf rest))

pub EncodesItems-le :
    (xs : List (Option Bytes)) (rest bs : Bytes) → EncodesItems xs rest bs → length rest ≤ length bs
EncodesItems-le [] rest bs e = omega (arith, ap length e)
EncodesItems-le (x ∷ xs) rest bs (later, e, es) =
    omega (arith, EncodesBulk-le x later bs e, EncodesItems-le xs rest later es)

module _ (bytes : Bytes) (len : ℕ) where
  -- What the rest of the call makes of a round
  abbrev pub onwards : Round → Option (Result × ReplyParser)
  onwards r = after r (λ q. ReplyParser_execute q bytes len)

  pub execute-onwards :
      (rp : ReplyParser) {c : ℕ} {rest : Bytes}
      → drop rp.p bytes ≡ c ∷ rest
      → rp.p < len
      → ReplyParser_execute rp bytes len ≡ onwards (step rp.cs rp bytes len c)
  execute-onwards rp {c} h lt = elim (Round-cases (step rp.cs rp bytes len c)) [
    | inl (q, r, e) ↦ last bytes len rp h lt e ∙ sym (ap onwards e)
    | inr (q, e) ↦ one bytes len rp h lt e ∙ sym (ap onwards e)
  ]

  -- The last child completes a multibulk reply, another one goes on.
  finish_last :
      (r m : Reply) (e b k : ℕ)
      → onwards (finish_bulk r (at e s0 b 1 (some m) k))
        ≡ some (rpr_reply (Reply_add_child m r), at e s0 b 0 none k)
  unfolding finish_bulk
  finish_last r m e b k = refl

  finish_more :
      (r m : Reply) (e b n k : ℕ)
      → onwards (finish_bulk r (at e s0 b (suc (suc n)) (some m) k))
        ≡ ReplyParser_execute (at e s0 b (suc n) (some (Reply_add_child m r)) k) bytes len
  unfolding finish_bulk
  finish_more r m e b n k =
      let one_less : suc (suc n) - 1 ≡ suc n = omega arith in
      ap onwards (
        let fin : finish_bulk r (at e s0 b (suc (suc n)) (some m) k)
            ≡ continue (at e s0 b (suc n) (some (Reply_add_child m r)) k) =
          ground arith in
        fin)

  pub holds : (o : ℕ) (s rest : Bytes) → drop o bytes ≡ s ++ rest → Holds bytes s o
  holds o s rest h = ap (take (length s)) h ∙ take-append s rest

  -- A bulk item has been read from `p` up to its end.
  pub record ItemRead (x : Option Bytes) (rest bs : Bytes) (rp : ReplyParser) : Type 0 where
    pub item : Reply
    pub end : ℕ
    pub count_left : ℕ
    pub marked_at : ℕ
    pub describes : DescribesBulk bytes x item
    pub behind : drop end bytes ≡ rest
    pub length_read : end + length rest ≡ rp.p + length bs
    pub runs :
        ReplyParser_execute rp bytes len
        ≡ onwards (
            finish_bulk item (at end s0 count_left rp.multibulk_count rp.multibulk_reply marked_at))

  module _ (fits : len ≤ length bytes) where
    pub item-ItemRead :
        (x : Option Bytes) (rest bs : Bytes) (p bc mc : ℕ) (mr : Option Reply) (mark : ℕ)
        → EncodesBulk x rest bs
        → drop p bytes ≡ bs
        → p + length bs ≤ len + length rest
        → ItemRead x rest bs (at p s0 bc mc mr mark)
    item-ItemRead none rest bs p bc mc mr mark e h le =
        let h0 = h ∙ e in
        let h1 = drop-suc p bytes h0 in
        let h2 = drop-suc (p + 1) bytes h1 in
        let h3 = drop-suc (p + 1 + 1) bytes h2 in
        let h4 = drop-suc (p + 1 + 1 + 1) bytes h3 in
        record {
          item = Reply_new rt_bulk_nil read_buffer 0 0;
          end = p + 1 + 1 + 1 + 1 + 1;
          count_left = bc;
          marked_at = mark;
          describes = refl;
          behind = drop-suc (p + 1 + 1 + 1 + 1) bytes h4;
          length_read = omega (arith, ap length e);
          runs =
              unfold step step_initial step_nil_bulk in
              (one bytes len (at p s0 bc mc mr mark) {q = at (p + 1) s5 bc mc mr mark} h0
                  (omega (arith, ap length e)) refl
                ∙ one bytes len (at (p + 1) s5 bc mc mr mark) {q = at (p + 1 + 1) s6 bc mc mr mark}
                    h1 (omega (arith, ap length e)) refl
                ∙ one bytes len (at (p + 1 + 1) s6 bc mc mr mark)
                    {q = at (p + 1 + 1 + 1) s7 bc mc mr mark} h2 (omega (arith, ap length e)) refl
                ∙ one bytes len (at (p + 1 + 1 + 1) s7 bc mc mr mark)
                    {q = at (p + 1 + 1 + 1 + 1) s8 bc mc mr mark} h3 (omega (arith, ap length e))
                    refl
                ∙ execute-onwards (at (p + 1 + 1 + 1 + 1) s8 bc mc mr mark) h4
                    (omega (arith, ap length e)));
        }
    item-ItemRead (some s) rest bs p bc mc mr mark (d, ds, count, e) h le =
        let size : length bs ≡ length ds + length s + length rest + 6 = omega (
          arith,
          ap length e,
          length-append ds (crlf (s ++ crlf rest)),
          length-append s (crlf rest),
        ) in
        let o = p + length ds + 4 in
        let text = bulk_text bytes len p d ds s rest (h ∙ e) in
        let (cr, lf, end) = after_text bytes len o s rest text in
        record {
          item = Reply_new rt_bulk read_buffer o (length s);
          end = o + length s + 2;
          count_left = 0;
          marked_at = o;
          describes = (o, refl, holds o s (crlf rest) text);
          behind = end;
          length_read = omega arith;
          runs =
              bulk_run bytes len bc mc mr mark p d ds s rest fits count (h ∙ e) (omega arith)
              ∙ execute-onwards (at (p + length ds + length s + 5) s12 0 mc mr o)
                  (drop-at bytes len (omega arith) lf) (omega arith)
              ∙ unfold step step_bulk in
                (ap
                    (λ (k : ℕ). onwards (
                      finish_bulk (Reply_new rt_bulk read_buffer o k)
                        (at (p + length ds + length s + 5 + 1) s0 0 mc mr o)))
                    (let e1 : p + length ds + length s + 5 + 1 - o - 2 ≡ length s = omega arith in
                      e1)
                  ∙ ap
                      (λ (k : ℕ). onwards (
                        finish_bulk (Reply_new rt_bulk read_buffer o (length s))
                          (at k s0 0 mc mr o)))
                      (let e2 : p + length ds + length s + 5 + 1 ≡ o + length s + 2 = omega arith in
                        e2));
        }

    -- The items that are left of a multibulk reply with the children `cs` so far
    pub record ItemsRead (xs : List (Option Bytes)) (rest bs : Bytes) (n : ℕ) (cs : Replies)
        (rp : ReplyParser) : Type 0 where
      pub items : Replies
      pub end : ℕ
      pub count_left : ℕ
      pub marked_at : ℕ
      pub describes : DescribesItems bytes xs items
      pub length_read : end + length rest ≡ rp.p + length bs
      pub returns :
          ReplyParser_execute rp bytes len
          ≡ some (
            rpr_reply (reply rt_multibulk null_buffer 0 n (append cs items)),
            at end s0 count_left 0 none marked_at,
          )

    abbrev pub collecting : ℕ → Replies → Option Reply
    collecting n cs = some (reply rt_multibulk null_buffer 0 n cs)

    pub items-ItemsRead :
        (x : Option Bytes) (xs : List (Option Bytes)) (rest bs : Bytes) (n : ℕ) (cs : Replies)
        (p bc mark : ℕ)
        → EncodesItems (x ∷ xs) rest bs
        → drop p bytes ≡ bs
        → p + length bs ≤ len + length rest
        → ItemsRead (x ∷ xs) rest bs n cs (at p s0 bc (length (x ∷ xs)) (collecting n cs) mark)
    unfolding Reply_add_child
    items-ItemsRead x [] rest bs n cs p bc mark (later, e, none_left) h le =
        let i =
          item-ItemRead x later bs p bc 1 (collecting n cs) mark e h
            (omega (arith, ap length none_left)) in
        record {
          items = cons i.item nil;
          end = i.end;
          count_left = i.count_left;
          marked_at = i.marked_at;
          describes = (i.item, nil, refl, i.describes, refl);
          length_read = omega (arith, i.length_read, ap length none_left);
          returns =
              i.runs
              ∙ finish_last i.item (reply rt_multibulk null_buffer 0 n cs) i.end i.count_left
                  i.marked_at
              ∙ ap
                  (λ l. some (
                    rpr_reply (reply rt_multibulk null_buffer 0 n l),
                    at i.end s0 i.count_left 0 none i.marked_at,
                  ))
                  (sym (append-last cs i.item));
        }
    items-ItemsRead x (y ∷ ys) rest bs n cs p bc mark (later, e, es) h le =
        let i =
          item-ItemRead x later bs p bc (length (x ∷ y ∷ ys)) (collecting n cs) mark e h
            (omega (arith, EncodesItems-le (y ∷ ys) rest later es)) in
        let is =
          items-ItemsRead y ys rest later n (add_tail cs i.item) i.end i.count_left i.marked_at es
            i.behind (omega (arith, i.length_read)) in
        record {
          items = cons i.item is.items;
          end = is.end;
          count_left = is.count_left;
          marked_at = is.marked_at;
          describes = (i.item, is.items, refl, i.describes, is.describes);
          length_read = omega (arith, i.length_read, is.length_read);
          returns =
              i.runs
              ∙ finish_more i.item (reply rt_multibulk null_buffer 0 n cs) i.end i.count_left
                  (length ys) i.marked_at
              ∙ is.returns
              ∙ ap
                  (λ l. some (
                    rpr_reply (reply rt_multibulk null_buffer 0 n l),
                    at is.end s0 is.count_left 0 none is.marked_at,
                  ))
                  (append-add_tail cs i.item is.items);
        }
