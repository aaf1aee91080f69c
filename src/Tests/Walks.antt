-- ===== src/Tests/Walks.antt =====
-- The walk of `Batch_next_reply` at a queue with a multibulk reply between two others.
use libredis.Base.{◌≡◌, refl, Option, none, some, [], ◌∷◌, arith}
use libredis.Reply.{
  reply, Replies, nil, cons, Reply_new, rt_ok, rt_bulk, rt_bulk_nil, rt_multibulk, rt_integer,
  read_buffer, null_buffer,
}
use libredis.Batch.{Batch, Batch_new, Node}
use libredis.Batch.Next.{found}
use libredis.Batch.Levels.{at_entry, standing, listing}
use libredis.Batch.Levels.ReadAll.{read_all, read_all-listing}

abbrev mixed : Replies
mixed = cons (Reply_new rt_ok read_buffer 1 2) (
    cons
      (reply rt_multibulk null_buffer 0 2 (
        cons (Reply_new rt_bulk read_buffer 13 1)
          (cons (Reply_new rt_bulk_nil read_buffer 0 0) nil)))
      (cons (Reply_new rt_integer read_buffer 23 1) nil))

abbrev mixed_batch : Batch
mixed_batch = record Batch_new { reply_queue = mixed }

read_all-listing_example :
    (x' : Option Node) × (y' : Option Node) × (read_all 6
        (standing mixed_batch (at_entry 0 none none))
      ≡ some (listing mixed, standing mixed_batch (at_entry 0 x' y')))
read_all-listing_example =
    read_all-listing 6 mixed_batch none none (tt, ((tt, (tt, tt)), (tt, tt))) (omega arith)

-- What the client is given
mixed-listing :
    listing mixed
    ≡ found 1 rt_ok (some (read_buffer, 1)) 2
      ∷ found 1 rt_multibulk none 2
      ∷ found 2 rt_bulk (some (read_buffer, 13)) 1
      ∷ found 2 rt_bulk_nil none 0
      ∷ found 1 rt_integer (some (read_buffer, 23)) 1
      ∷ []
mixed-listing = refl
