-- ===== src/Parser/RoundTrip.antt =====
-- The parser reads back every value of the wire format.
use libredis.Base.{
  ℕ, ◌+◌, ◌≤◌, ◌≡◌, refl, ap, ◌∙◌, Option, none, some, List, [], ◌∷◌, ◌++◌, Bytes, arith, drop,
  length, length-append,
}
use libredis.Reply.{
  ReplyType, Reply, reply, nil, Reply_new, rt_ok, rt_error, rt_integer, rt_multibulk,
  rt_multibulk_nil, read_buffer, null_buffer,
}
use libredis.Parser.{
  ReplyParser, State, s0, s1, s2, s3, s4, s13, s14, s15, s16, s17, s18, s19, s20, continue,
  rpr_reply, step, goto_mark, marked, step_line, step_reply, step_initial, finish_bulk,
  ReplyParser_execute,
}
use libredis.Parser.Pieces.{
  at, drop-suc, drop-at, one, last, line_run, count_run, after_text, atoi-count,
}
use libredis.Parser.Items.{holds, collecting, item-ItemRead, items-ItemsRead, EncodesItems-le}
use libredis.Parser.Wire.{
  Value, status, failure, number, bulk, multibulk, IsLine, IsCount, crlf, Encodes, Describes,
}

module _ (bytes : Bytes) (len : ℕ) where
  module _ (fits : len ≤ length bytes) where
    -- The parser has read the value `v` from `rp` up to its end, and is ready for the next one.
    pub record HasRead (v : Value) (rest bs : Bytes) (rp : ReplyParser) : Type 0 where
      pub found : Reply
      pub next : ReplyParser
      pub returns : ReplyParser_execute rp bytes len ≡ some (rpr_reply found, next)
      pub describes : Describes bytes v found
      pub length_read : next.p + length rest ≡ rp.p + length bs
      pub initial : next.cs ≡ s0
      pub no_items : next.multibulk_count ≡ 0

    -- `+`, `-` and `:`
    line_value :
        (st t : State) (type : ReplyType) (c : ℕ) (s rest bs : Bytes) (p bc : ℕ) (mr : Option Reply)
        (mark : ℕ)
        → ((rp : ReplyParser)
            → rp.cs ≡ s0
            → rp.multibulk_count ≡ 0
            → step s0 rp bytes len c ≡ continue (goto_mark st rp))
        → ((rp : ReplyParser) (c : ℕ) → step st rp bytes len c ≡ step_line t rp c)
        → ((rp : ReplyParser) → step t rp bytes len b'\n' ≡ step_reply (marked type) rp b'\n')
        → IsLine s
        → bs ≡ c ∷ (s ++ crlf rest)
        → drop p bytes ≡ bs
        → p + length bs ≤ len + length rest
        → ReplyParser_execute (at p s0 bc 0 mr mark) bytes len
          ≡ some (
            rpr_reply (Reply_new type read_buffer (p + 1) (length s)),
            at (p + length s + 3) s0 bc 0 mr (p + 1),
          )
    unfolding step_reply
    line_value st t type c s rest bs p bc mr mark first mid fin no_cr e h le =
        let size : length bs ≡ length s + length rest + 3 =
          omega (arith, ap length e, length-append s (crlf rest)) in
        let h0 = h ∙ e in
        let h1 = drop-suc p bytes h0 in
        let (cr, lf, end) = after_text bytes len (p + 1) s rest h1 in
        one bytes len (at p s0 bc 0 mr mark) {q = at (p + 1) st bc 0 mr (p + 1)} h0 (omega arith)
          (first (at p s0 bc 0 mr mark) refl refl)
        ∙ line_run bytes len bc 0 mr (p + 1) st t s (b'\n' ∷ rest) (p + 1) mid no_cr h1
            (omega arith)
        ∙ last bytes len (at (p + 1 + length s + 1) t bc 0 mr (p + 1)) lf (omega arith)
            (fin (at (p + 1 + length s + 1) t bc 0 mr (p + 1)) ∙ ground arith)

    bulk_value :
        (x : Option Bytes) (rest bs : Bytes) (p bc : ℕ) (mr : Option Reply) (mark : ℕ)
        → Encodes (bulk x) rest bs
        → drop p bytes ≡ bs
        → p + length bs ≤ len + length rest
        → HasRead (bulk x) rest bs (at p s0 bc 0 mr mark)
    unfolding finish_bulk
    bulk_value x rest bs p bc mr mark e h le =
        let i = item-ItemRead bytes len fits x rest bs p bc 0 mr mark e h le in
        record {
          found = i.item;
          next = at i.end s0 i.count_left 0 mr i.marked_at;
          returns = i.runs;
          describes = i.describes;
          length_read = i.length_read;
          initial = refl;
          no_items = refl;
        }

    nil_value :
        (rest bs : Bytes) (p bc : ℕ) (mr : Option Reply) (mark : ℕ)
        → Encodes (multibulk none) rest bs
        → drop p bytes ≡ bs
        → p + length bs ≤ len + length rest
        → HasRead (multibulk none) rest bs (at p s0 bc 0 mr mark)
    unfolding step step_initial
    nil_value rest bs p bc mr mark e h le =
        let h0 = h ∙ e in
        let h1 = drop-suc p bytes h0 in
        let h2 = drop-suc (p + 1) bytes h1 in
        let h3 = drop-suc (p + 1 + 1) bytes h2 in
        let h4 = drop-suc (p + 1 + 1 + 1) bytes h3 in
        let size = ap length e in
        record {
          found = Reply_new rt_multibulk_nil null_buffer 0 0;
          next = at (p + 1 + 1 + 1 + 1 + 1) s0 bc 0 mr mark;
          returns =
              one bytes len (at p s0 bc 0 mr mark) {q = at (p + 1) s13 bc 0 mr mark} h0
                (omega arith) refl
              ∙ one bytes len (at (p + 1) s13 bc 0 mr mark) {q = at (p + 1 + 1) s14 bc 0 mr mark} h1
                  (omega arith) refl
              ∙ one bytes len (at (p + 1 + 1) s14 bc 0 mr mark)
                  {q = at (p + 1 + 1 + 1) s15 bc 0 mr mark} h2 (omega arith) refl
              ∙ one bytes len (at (p + 1 + 1 + 1) s15 bc 0 mr mark)
                  {q = at (p + 1 + 1 + 1 + 1) s16 bc 0 mr mark} h3 (omega arith) refl
              ∙ last bytes len (at (p + 1 + 1 + 1 + 1) s16 bc 0 mr mark) h4 (omega arith) refl;
          describes = refl;
          length_read = omega (arith, ap length e);
          initial = refl;
          no_items = refl;
        }

    -- `*`, the number of items and the CR behind it
    header_run :
        (n d : ℕ) (ds items : Bytes) (p bc : ℕ) (mr : Option Reply) (mark : ℕ)
        → IsCount d ds n
        → drop p bytes ≡ b'*' ∷ d ∷ (ds ++ crlf items)
        → p + length ds + 4 ≤ len
        → ReplyParser_execute (at p s0 bc 0 mr mark) bytes len
          ≡ ReplyParser_execute
              (at (p + length ds + 3) s18 bc n (collecting bytes len fits n nil) (p + 1))
              bytes
              len
    unfolding step step_initial
    header_run n d ds items p bc mr mark count h le =
        let h1 = drop-suc p bytes h in
        let (cr, lf, end) = after_text bytes len (p + 1) (d ∷ ds) items h1 in
        one bytes len (at p s0 bc 0 mr mark) {q = at (p + 1) s13 bc 0 mr mark} h (omega arith) refl
        ∙ count_run bytes len s14 s13 s17 bc 0 mr mark (p + 1) d ds (crlf items) (λ _ _. refl)
            (λ q c x. ground arith) count.first count.others h1 (omega arith)
        ∙ one bytes len (at (p + 1 + length ds + 1) s17 bc 0 mr (p + 1))
            {q = at (p + length ds + 3) s18 bc n (collecting bytes len fits n nil) (p + 1)}
            (drop-at bytes len (omega arith) cr) (omega arith)
            (ground
              (arith, atoi-count bytes len (p + 1) d ds (b'\n' ∷ items) count h1, count.is_int))

    items_value :
        (xs : List (Option Bytes)) (rest bs : Bytes) (p bc : ℕ) (mr : Option Reply) (mark : ℕ)
        → Encodes (multibulk (some xs)) rest bs
        → drop p bytes ≡ bs
        → p + length bs ≤ len + length rest
        → HasRead (multibulk (some xs)) rest bs (at p s0 bc 0 mr mark)
    unfolding step
    items_value [] rest bs p bc mr mark (d, ds, items, count, e, none_left) h le =
        let size : length bs ≡ length ds + length rest + 4 =
          omega (arith, ap length e, length-append ds (crlf items), ap length none_left) in
        let (cr, lf, end) =
          after_text bytes len (p + 1) (d ∷ ds) items (drop-suc p bytes (h ∙ e)) in
        record {
          found = reply rt_multibulk null_buffer 0 0 nil;
          next = at (p + length ds + 3 + 1) s0 bc 0 none (p + 1);
          returns =
              header_run 0 d ds items p bc mr mark count (h ∙ e) (omega arith)
              ∙ last bytes len
                  (at (p + length ds + 3) s18 bc 0 (collecting bytes len fits 0 nil) (p + 1))
                  (drop-at bytes len (omega arith) lf) (omega arith) refl;
          describes = (nil, refl, refl);
          length_read = omega arith;
          initial = refl;
          no_items = refl;
        }
    items_value (x ∷ xs) rest bs p bc mr mark (d, ds, items, count, e, es) h le =
        let n = length (x ∷ xs) in
        let size : length bs ≡ length ds + length items + 4 =
          omega (arith, ap length e, length-append ds (crlf items)) in
        let shorter = EncodesItems-le (x ∷ xs) rest items es in
        let (cr, lf, end) =
          after_text bytes len (p + 1) (d ∷ ds) items (drop-suc p bytes (h ∙ e)) in
        let r =
          items-ItemsRead bytes len fits x xs rest items n nil (p + length ds + 3 + 1) bc (p + 1) es
            (drop-at bytes len (omega arith) end) (omega arith) in
        record {
          found = reply rt_multibulk null_buffer 0 n r.items;
          next = at r.end s0 r.count_left 0 none r.marked_at;
          returns =
              header_run n d ds items p bc mr mark count (h ∙ e) (omega arith)
              ∙ one bytes len
                  (at (p + length ds + 3) s18 bc n (collecting bytes len fits n nil) (p + 1))
                  {q = at (p + length ds + 3 + 1) s0 bc n (collecting bytes len fits n nil) (p + 1)}
                  (drop-at bytes len (omega arith) lf) (omega arith) (ground arith)
              ∙ r.returns;
          describes = (r.items, refl, r.describes);
          length_read = omega (arith, r.length_read);
          initial = refl;
          no_items = refl;
        }

    value_read :
        (v : Value) (rest bs : Bytes) (p bc : ℕ) (mr : Option Reply) (mark : ℕ)
        → Encodes v rest bs
        → drop p bytes ≡ bs
        → p + length bs ≤ len + length rest
        → HasRead v rest bs (at p s0 bc 0 mr mark)
    unfolding step step_initial
    value_read (status s) rest bs p bc mr mark (no_cr, e) h le = record {
      found = Reply_new rt_ok read_buffer (p + 1) (length s);
      next = at (p + length s + 3) s0 bc 0 mr (p + 1);
      returns =
          line_value s1 s2 rt_ok b'+' s rest bs p bc mr mark (λ rp i z. ground arith) (λ _ _. refl)
            (λ _. refl) no_cr e h le;
      describes = (p + 1, refl, holds bytes len (p + 1) s (crlf rest) (drop-suc p bytes (h ∙ e)));
      length_read = omega (arith, ap length e, length-append s (crlf rest));
      initial = refl;
      no_items = refl;
    }
    value_read (failure s) rest bs p bc mr mark (no_cr, e) h le = record {
      found = Reply_new rt_error read_buffer (p + 1) (length s);
      next = at (p + length s + 3) s0 bc 0 mr (p + 1);
      returns =
          line_value s3 s4 rt_error b'-' s rest bs p bc mr mark (λ rp i z. ground arith)
            (λ _ _. refl) (λ _. refl) no_cr e h le;
      describes = (p + 1, refl, holds bytes len (p + 1) s (crlf rest) (drop-suc p bytes (h ∙ e)));
      length_read = omega (arith, ap length e, length-append s (crlf rest));
      initial = refl;
      no_items = refl;
    }
    value_read (number s) rest bs p bc mr mark (no_cr, e) h le = record {
      found = Reply_new rt_integer read_buffer (p + 1) (length s);
      next = at (p + length s + 3) s0 bc 0 mr (p + 1);
      returns =
          line_value s19 s20 rt_integer b':' s rest bs p bc mr mark (λ rp i z. ground arith)
            (λ _ _. refl) (λ _. refl) no_cr e h le;
      describes = (p + 1, refl, holds bytes len (p + 1) s (crlf rest) (drop-suc p bytes (h ∙ e)));
      length_read = omega (arith, ap length e, length-append s (crlf rest));
      initial = refl;
      no_items = refl;
    }
    value_read (bulk x) rest bs p bc mr mark e h le = bulk_value x rest bs p bc mr mark e h le
    value_read (multibulk none) rest bs p bc mr mark e h le = nil_value rest bs p bc mr mark e h le
    value_read (multibulk (some xs)) rest bs p bc mr mark e h le =
        items_value xs rest bs p bc mr mark e h le

    -- From any parser between two replies, at the encoding of a value `v` all of which has arrived,
    -- with any bytes `rest` behind it, `ReplyParser_execute` returns RPR_REPLY with a reply that
    -- describes `v`, leaves `p` just behind the encoding, and is between two replies again.
    pub value-HasRead :
        (v : Value) (rest bs : Bytes) (rp : ReplyParser)
        → rp.cs ≡ s0
        → rp.multibulk_count ≡ 0
        → Encodes v rest bs
        → drop rp.p bytes ≡ bs
        → rp.p + length bs ≤ len + length rest
        → HasRead v rest bs rp
    value-HasRead v rest bs rp s c e h le =
        let same : at rp.p s0 rp.bulk_count 0 rp.multibulk_reply rp.mark ≡ rp = ground arith in
        rw same at (value_read v rest bs rp.p rp.bulk_count rp.multibulk_reply rp.mark e h le)
