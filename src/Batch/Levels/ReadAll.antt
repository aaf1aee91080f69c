-- ===== src/Batch/Levels/ReadAll.antt =====
-- A client that calls `Batch_next_reply` until there is no reply.
use libredis.Base.{
  ℕ, zero, suc, ◌<◌, ◌≡◌, refl, ap, inl, inr, true, Option, none, some, List, [], ◌∷◌, arith,
  length,
}
use libredis.Batch.{Batch, Node}
use libredis.Batch.Next.{Next, invalid_argument, no_reply, found, Batch_next_reply}
use libredis.Batch.Levels.{listing, AllShallow, Cursor, at_entry, standing, left, IsGood}
use libredis.Batch.Levels.Calls.{step-Steps}

-- `while((level = Batch_next_reply(...)))`, as a client reads the replies
pub read_all : ℕ → Batch → Option (List Next × Batch)
read_all zero b = none
read_all (suc f) b = elim (Batch_next_reply true b) [
  | none ↦ none
  | some (no_reply, b') ↦ some ([], b')
  | some (n, b') ↦ elim (read_all f b') [ none ↦ none | some (ns, b'') ↦ some (n ∷ ns, b'') ]
]

read_all-end :
    (f : ℕ) (b b' : Batch) (ns : List Next)
    → ns ≡ []
    → Batch_next_reply true b ≡ some (no_reply, b')
    → read_all (suc f) b ≡ some (ns, b')
unfolding read_all
read_all-end f b b' ns none_left e = rw (read_all, e, none_left) refl

read_all-more :
    (f : ℕ) (b b' b'' : Batch) (n : Next) (ns later : List Next)
    → ns ≡ n ∷ later
    → (n ≡ no_reply → ⊥)
    → Batch_next_reply true b ≡ some (n, b')
    → read_all f b' ≡ some (later, b'')
    → read_all (suc f) b ≡ some (ns, b'')
unfolding read_all
read_all-more f b b' b'' invalid_argument ns later shows h e run = rw (read_all, e, run, shows) refl
read_all-more f b b' b'' no_reply ns later shows h e run = absurd (h refl)
read_all-more f b b' b'' (found l t d n) ns later shows h e run = rw (read_all, e, run, shows) refl

read_all-left :
    (f : ℕ) (b : Batch) (c : Cursor)
    → AllShallow b.reply_queue
    → IsGood b.reply_queue c
    → length (left b.reply_queue c) < f
    → (x : Option Node) × (y : Option Node) × (read_all f (standing b c)
        ≡ some (left b.reply_queue c, standing b (at_entry 0 x y)))
read_all-left zero b c h good lt = absurd (omega arith)
read_all-left (suc f) b c h good lt = elim (step-Steps b c h good) [
  | inl (none_left, x, y, run) ↦ (
    x,
    y,
    read_all-end f (standing b c) (standing b (at_entry 0 x y)) (left b.reply_queue c) none_left
        run,
  )
  | inr (n, c', shows, good', differs, run) ↦
      let less : length (left b.reply_queue c') < f = omega (arith, lt, ap length shows) in
      let (x, y, later) = read_all-left f b c' h good' less in
      (
        x,
        y,
        read_all-more f (standing b c) (standing b c') (standing b (at_entry 0 x y)) n
            (left b.reply_queue c) (left b.reply_queue c') shows differs run later,
      )
]

-- A client that calls `Batch_next_reply` until it says that there is no reply, on a batch whose cursor is at
-- the head of a queue of replies that the code knows how to walk (a multibulk reply has no other
-- inside, and a reply with text has a buffer), is given every reply of the queue in order at level 1,
-- and behind each multibulk reply its children in order at level 2. The calls end, and leave the cursor at
-- the head, so that the next round gives the same.
pub read_all-listing :
    (f : ℕ) (b : Batch) (x y : Option Node)
    → AllShallow b.reply_queue
    → length (listing b.reply_queue) < f
    → (x' : Option Node) × (y' : Option Node) × (read_all f (standing b (at_entry 0 x y))
        ≡ some (listing b.reply_queue, standing b (at_entry 0 x' y')))
read_all-listing f b x y h lt = read_all-left f b (at_entry 0 x y) h tt lt
