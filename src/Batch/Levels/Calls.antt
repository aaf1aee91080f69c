-- ===== src/Batch/Levels/Calls.antt =====
-- What a call of `Batch_next_reply` does, wherever the cursor stands.
use mathlib.Core.Path.{subst}
use libredis.Base.{
  ℕ, zero, suc, ◌+◌, ◌-◌, ◌/◌, ◌≤◌, ◌<◌, ◌≡◌, refl, sym, ap, ◌∙◌, ◌⊎◌, inl, inr, true, false,
  Option, none, some, List, [], ◌∷◌, ◌++◌, arith, lt→ltb, ltb-ge, ◌==◌,
}
use libredis.Reply.{
  Reply, reply, Replies, nil, cons, count, Reply_type, reply_children, BufferRef, null_buffer,
  read_buffer, error_buffer, rt_error, rt_none, rt_ok, rt_bulk_nil, rt_bulk, rt_multibulk_nil,
  rt_multibulk, rt_integer,
}
use libredis.Batch.{Batch, Node, node}
use libredis.Batch.Next.{
  reply_at, Next, no_reply, found, deliver, deliver_type, descend, ascend, Reply_data,
  Batch_next_reply,
}
use libredis.Batch.Levels.{
  entry_of, entries_of, with_children, listing, IsPlain, AllPlain, IsShallow, AllShallow, skip,
  after, Cursor, at_entry, at_child, standing, children_of, children_at, left, IsGood,
}

abbrev reply_or : Reply → Option Reply → Reply
reply_or x none = x
reply_or x (some r) = r

skip-cons :
    (i : ℕ) (rs : Replies) {r : Reply} {later : Replies}
    → skip i rs ≡ cons r later
    → (reply_at rs i ≡ some r) × (skip (suc i) rs ≡ later) × (i < count rs)
skip-cons zero nil e = ground (arith, e)
skip-cons zero (cons x rs) e = (ap (λ l. reply_at l 0) e, ap (skip 1) e, omega arith)
skip-cons (suc i) nil e = ground (arith, e)
skip-cons (suc i) (cons x rs) e = let (a, b, c) = skip-cons i rs e in (a, b, omega (arith, c))

skip-nil : (i : ℕ) (rs : Replies) → skip i rs ≡ nil → count rs ≤ i
skip-nil zero nil e = omega arith
skip-nil zero (cons x rs) e = ground (arith, e)
skip-nil (suc i) nil e = omega arith
skip-nil (suc i) (cons x rs) e = omega (arith, skip-nil i rs e)

skip-AllShallow : (i : ℕ) (rs : Replies) → AllShallow rs → AllShallow (skip i rs)
skip-AllShallow zero rs h = h
skip-AllShallow (suc i) nil h = tt
skip-AllShallow (suc i) (cons r rs) h = skip-AllShallow i rs h.1

skip-AllPlain : (i : ℕ) (rs : Replies) → AllPlain rs → AllPlain (skip i rs)
skip-AllPlain zero rs h = h
skip-AllPlain (suc i) nil h = tt
skip-AllPlain (suc i) (cons r rs) h = skip-AllPlain i rs h.1

deliver_type-plain :
    (level : ℕ) (r : Reply) (current : Node) (b : Batch)
    → IsPlain r
    → b.current_reply_sp / 2 + 1 ≡ level
    → deliver_type (Reply_type r) current r b ≡ some (entry_of level r, b)
unfolding deliver_type Reply_data
deliver_type-plain l (reply rt_multibulk f o n cs) c b p h = absurd p
deliver_type-plain l (reply rt_none f o n cs) c b p h = rw h refl
deliver_type-plain l (reply rt_bulk_nil f o n cs) c b p h = rw h refl
deliver_type-plain l (reply rt_multibulk_nil f o n cs) c b p h = rw h refl
deliver_type-plain l (reply rt_ok null_buffer o n cs) c b p h = absurd p
deliver_type-plain l (reply rt_ok read_buffer o n cs) c b p h = rw h refl
deliver_type-plain l (reply rt_ok error_buffer o n cs) c b p h = rw h refl
deliver_type-plain l (reply rt_error null_buffer o n cs) c b p h = absurd p
deliver_type-plain l (reply rt_error read_buffer o n cs) c b p h = rw h refl
deliver_type-plain l (reply rt_error error_buffer o n cs) c b p h = rw h refl
deliver_type-plain l (reply rt_bulk null_buffer o n cs) c b p h = absurd p
deliver_type-plain l (reply rt_bulk read_buffer o n cs) c b p h = rw h refl
deliver_type-plain l (reply rt_bulk error_buffer o n cs) c b p h = rw h refl
deliver_type-plain l (reply rt_integer null_buffer o n cs) c b p h = absurd p
deliver_type-plain l (reply rt_integer read_buffer o n cs) c b p h = rw h refl
deliver_type-plain l (reply rt_integer error_buffer o n cs) c b p h = rw h refl

-- What a call does: it delivers the first of what is left, or starts again when nothing is.
abbrev pub Steps : Batch → Cursor → Type 0
Steps b c =
    ((left b.reply_queue c ≡ [])
      × (x : Option Node) × (y : Option Node) × (Batch_next_reply true (standing b c)
          ≡ some (no_reply, standing b (at_entry 0 x y))))
    ⊎ ((n : Next) × (c' : Cursor) × (left b.reply_queue c ≡ n ∷ left b.reply_queue c')
        × IsGood b.reply_queue c'
        × (n ≡ no_reply → ⊥)
        × (Batch_next_reply true (standing b c) ≡ some (n, standing b c')))

self_eq : (i : ℕ) → (i == i) ≡ true
self_eq i = ground arith

not_head : (i : ℕ) → (suc i == 0) ≡ false
not_head i = ground arith

entry-pos : (level : ℕ) (r : Reply) → entry_of level r ≡ no_reply → ⊥
entry-pos l (reply rt_multibulk b o n cs) e = ground (arith, e)
entry-pos l (reply rt_none b o n cs) e = ground (arith, e)
entry-pos l (reply rt_bulk_nil b o n cs) e = ground (arith, e)
entry-pos l (reply rt_multibulk_nil b o n cs) e = ground (arith, e)
entry-pos l (reply rt_ok b o n cs) e = ground (arith, e)
entry-pos l (reply rt_error b o n cs) e = ground (arith, e)
entry-pos l (reply rt_bulk b o n cs) e = ground (arith, e)
entry-pos l (reply rt_integer b o n cs) e = ground (arith, e)

-- The entry with the index `i`, when the cursor has come to it
module _ (b : Batch) (i : ℕ) (x y : Option Node) where
  deliver_plain :
      (r : Reply)
      → IsPlain r
      → reply_at b.reply_queue i ≡ some r
      → deliver (node [] (suc i)) (standing b (at_entry (suc i) x y))
        ≡ some (entry_of 1 r, standing b (at_entry (suc i) x y))
  unfolding deliver
  deliver_plain r p e =
      rw e (deliver_type-plain 1 r (node [] (suc i)) (standing b (at_entry (suc i) x y)) p refl)

  deliver_multibulk :
      (f : BufferRef) (o n : ℕ) (cs : Replies)
      → reply_at b.reply_queue i ≡ some (reply rt_multibulk f o n cs)
      → deliver (node [] (suc i)) (standing b (at_entry (suc i) x y))
        ≡ some (found 1 rt_multibulk none n, standing b (at_child i 0))
  unfolding deliver deliver_type descend
  deliver_multibulk f o n cs e = let less : suc i - 1 ≡ i = omega arith in rw (e, less) refl

-- A call that has come to the index `i` delivers the first of `rest`, which is what is left from there on.
abbrev Arrives : Batch → ℕ → Option Node → Option Node → Replies → Type 0
Arrives b i x y rest =
    (n : Next) × (c' : Cursor) × (listing rest ≡ n ∷ left b.reply_queue c')
    × IsGood b.reply_queue c'
    × (n ≡ no_reply → ⊥)
    × (deliver (node [] (suc i)) (standing b (at_entry (suc i) x y)) ≡ some (n, standing b c'))

arrives :
    (b : Batch) (i : ℕ) (x y : Option Node) (r : Reply) (later : Replies)
    → IsShallow r
    → skip i b.reply_queue ≡ cons r later
    → Arrives b i x y (cons r later)
arrives b i x y r later shallow e = by_type r shallow e
  where
    plain :
        (r : Reply)
        → IsPlain r
        → with_children r ≡ entry_of 1 r ∷ []
        → skip i b.reply_queue ≡ cons r later
        → Arrives b i x y (cons r later)
    plain r p one e =
        let (here, rest, lt) = skip-cons i b.reply_queue e in
        (
          entry_of 1 r,
          at_entry (suc i) x y,
          ap (λ l. l ++ listing later) one ∙ ap (λ l. entry_of 1 r ∷ listing l) (sym rest),
          tt,
          entry-pos 1 r,
          deliver_plain b i x y r p here,
        )

    by_type :
        (r : Reply)
        → IsShallow r
        → skip i b.reply_queue ≡ cons r later
        → Arrives b i x y (cons r later)
    by_type (reply rt_multibulk f o n cs) h e =
        let (here, rest, lt) = skip-cons i b.reply_queue e in
        (
          found 1 rt_multibulk none n,
          at_child i 0,
          ap (λ l. found 1 rt_multibulk none n ∷ (entries_of 2 l ++ listing later))
                (ap children_of (sym here))
              ∙ ap
                  (λ l.
                    found 1 rt_multibulk none n
                    ∷ (entries_of 2 (children_at i b.reply_queue) ++ listing l))
                  (sym rest),
          (reply rt_multibulk f o n cs, here, h),
          (λ z. entry-pos 1 (reply rt_multibulk f o n cs) z),
          deliver_multibulk b i x y f o n cs here,
        )
    by_type (reply rt_none f o n cs) h e = plain (reply rt_none f o n cs) h refl e
    by_type (reply rt_ok f o n cs) h e = plain (reply rt_ok f o n cs) h refl e
    by_type (reply rt_error f o n cs) h e = plain (reply rt_error f o n cs) h refl e
    by_type (reply rt_bulk_nil f o n cs) h e = plain (reply rt_bulk_nil f o n cs) h refl e
    by_type (reply rt_bulk f o n cs) h e = plain (reply rt_bulk f o n cs) h refl e
    by_type (reply rt_multibulk_nil f o n cs) h e = plain (reply rt_multibulk_nil f o n cs) h refl e
    by_type (reply rt_integer f o n cs) h e = plain (reply rt_integer f o n cs) h refl e

step_entry :
    (b : Batch) (i : ℕ) (x y : Option Node) (rest : Replies)
    → AllShallow rest
    → skip i b.reply_queue ≡ rest
    → Steps b (at_entry i x y)
unfolding Batch_next_reply ascend
step_entry b i x y nil h e =
    inl (ap listing e, x, y, rw (ltb-ge i (count b.reply_queue) (skip-nil i b.reply_queue e)) refl)
step_entry b i x y (cons r later) h e =
    let (here, rest, lt) = skip-cons i b.reply_queue e in
    let (n, c', a0, a1, a2, a3) = arrives b i x y r later h.0 e in
    inr (n, c', ap listing e ∙ a0, a1, a2, rw (lt→ltb i (count b.reply_queue) lt, not_head i) a3)

skip-of_reply_at :
    (i : ℕ) (rs : Replies) (r : Reply)
    → reply_at rs i ≡ some r
    → skip i rs ≡ cons r (skip (suc i) rs)
skip-of_reply_at i nil r e = ground (arith, e)
skip-of_reply_at zero (cons x rs) r e = ap (λ o. cons (reply_or x o) rs) e
skip-of_reply_at (suc i) (cons x rs) r e = skip-of_reply_at i rs r e

abbrev first_of : List Next → Next
first_of [] = no_reply
first_of (n ∷ ns) = n

first_of-listing : (r : Reply) (later : Replies) → first_of (listing (cons r later)) ≡ entry_of 1 r
first_of-listing (reply rt_multibulk f o n cs) later = refl
first_of-listing (reply rt_none f o n cs) later = refl
first_of-listing (reply rt_ok f o n cs) later = refl
first_of-listing (reply rt_error f o n cs) later = refl
first_of-listing (reply rt_bulk_nil f o n cs) later = refl
first_of-listing (reply rt_bulk f o n cs) later = refl
first_of-listing (reply rt_multibulk_nil f o n cs) later = refl
first_of-listing (reply rt_integer f o n cs) later = refl

-- A call with the cursor in front of a reply of the queue
pub next_reply-entry :
    (b : Batch) (i : ℕ) (x y : Option Node) (r : Reply)
    → reply_at b.reply_queue i ≡ some r
    → IsShallow r
    → (c' : Cursor) × (Batch_next_reply true (standing b (at_entry i x y))
        ≡ some (entry_of 1 r, standing b c'))
unfolding Batch_next_reply
next_reply-entry b i x y r e shallow =
    let there = skip-of_reply_at i b.reply_queue r e in
    let (here, rest, lt) = skip-cons i b.reply_queue there in
    let (n, c', shows, good, differs, run) =
      arrives b i x y r (skip (suc i) b.reply_queue) shallow there in
    let same : n ≡ entry_of 1 r =
      sym (ap first_of shows) ∙ first_of-listing r (skip (suc i) b.reply_queue) in
    (c', rw (lt→ltb i (count b.reply_queue) lt, not_head i, ← same) run)

-- What `current == last` leads to at the end of the children
goes_up :
    (b : Batch) (i : ℕ) (x y : Option Node) (rest : Replies)
    → AllShallow rest
    → skip (suc i) b.reply_queue ≡ rest
    → ((rest ≡ nil) × (after (count b.reply_queue) (suc i) ≡ 0))
      ⊎ ((after (count b.reply_queue) (suc i) ≡ suc (suc i)) × Arrives b (suc i) x y rest)
goes_up b i x y nil h e =
    inl (refl, rw (ltb-ge (suc i) (count b.reply_queue) (skip-nil (suc i) b.reply_queue e)) refl)
goes_up b i x y (cons r later) h e =
    let (here, rest, lt) = skip-cons (suc i) b.reply_queue e in
    inr (rw (lt→ltb (suc i) (count b.reply_queue) lt) refl, arrives b (suc i) x y r later h.0 e)

child-step :
    (b : Batch) (i j : ℕ) (r : Reply) (rest : Replies)
    → AllShallow b.reply_queue
    → reply_at b.reply_queue i ≡ some r
    → AllPlain (reply_children r)
    → skip j (reply_children r) ≡ rest
    → Steps b (at_child i j)
unfolding Batch_next_reply deliver ascend
child-step b i j r (cons c later) h here plain e =
    let (there, behind, lt) = skip-cons j (reply_children r) e in
    let kids = ap children_of here in
    let p : AllPlain (cons c later) = subst AllPlain e (skip-AllPlain j (reply_children r) plain) in
    inr (
      entry_of 2 c,
      at_child i (suc j),
      ap (λ l. entries_of 2 l ++ listing (skip (suc i) b.reply_queue)) (ap (skip j) kids ∙ e)
          ∙ ap (λ l. entry_of 2 c ∷ (entries_of 2 l ++ listing (skip (suc i) b.reply_queue)))
              (sym behind ∙ ap (skip (suc j)) (sym kids)),
      (r, here, plain),
      entry-pos 2 c,
      rw (here, lt→ltb j (count (reply_children r)) lt, self_eq i, not_head j, here, there)
          (deliver_type-plain 2 c (node (i ∷ []) (suc j)) (standing b (at_child i (suc j))) p.0
            refl),
    )
child-step b i j r nil h here plain e =
    let kids = ap (skip j) (ap children_of here) ∙ e in
    let left_above = ap (λ l. entries_of 2 l ++ listing (skip (suc i) b.reply_queue)) kids in
    let x = some (node (i ∷ []) 0) in
    let done = ltb-ge j (count (reply_children r)) (skip-nil j (reply_children r) e) in
    elim (goes_up b i x x (skip (suc i) b.reply_queue) (skip-AllShallow (suc i) b.reply_queue h)
      refl) [
        | inl (none_left, top) ↦
            inl (left_above ∙ ap listing none_left, x, x, rw (here, done, self_eq i, top) refl)
        | inr (top, (n, c', shows, good, differs, run)) ↦ inr (
          n,
          c',
          left_above ∙ shows,
          good,
          differs,
          rw (here, done, self_eq i, top, not_head (suc i)) run,
        )
      ]

pub step-Steps :
    (b : Batch) (c : Cursor) → AllShallow b.reply_queue → IsGood b.reply_queue c → Steps b c
step-Steps b (at_entry i x y) h good =
    step_entry b i x y (skip i b.reply_queue) (skip-AllShallow i b.reply_queue h) refl
step-Steps b (at_child i j) h (r, here, plain) =
    child-step b i j r (skip j (reply_children r)) h here plain refl
