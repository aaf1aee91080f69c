-- ===== src/Connection/Read/Values.antt =====
-- From the bytes that the server sends to what a client is given by `Batch_next_reply`.
use mathlib.Core.Path.{subst}
use libredis.Base.{
  ℕ, ◌<◌, ◌≡◌, refl, sym, ap, ◌∙◌, Option, none, some, List, [], ◌∷◌, ◌++◌, Bytes, length, take,
  drop, append_assoc, append_nil, map,
}
use libredis.Reply.{
  Reply, Replies, nil, cons, add_tail, ReplyType, BufferRef, read_buffer, rt_error, rt_none, rt_ok,
  rt_bulk_nil, rt_bulk, rt_multibulk_nil, rt_multibulk, rt_integer,
}
use libredis.Batch.{Batch, Node, head_node}
use libredis.Batch.Next.{Next, found}
use libredis.Batch.Levels.{
  at_entry, standing, entry_of, entries_of, with_children, listing, IsPlain, AllPlain, IsShallow,
  AllShallow,
}
use libredis.Batch.Levels.ReadAll.{read_all, read_all-listing}
use libredis.Parser.Wire.{
  Value, status, failure, number, bulk, multibulk, Describes, DescribesBulk, DescribesItems,
}
use libredis.Buffer.{Buffer_data}
use libredis.Buffer.Grow.{IsWritable}
use libredis.Parser.{s0}
use libredis.Parser.Valid.{IsValid}
use libredis.Connection.{Io, cs_connected, read_answer}
use libredis.Connection.Read.{Connection_read_data}
use libredis.Connection.Read.Steps.{joined, Arrive}
use libredis.Connection.Read.Delivers.{read_data-DeliversAll}
use libredis.Connection.Read.Stream.{DescribesAll, add_all, stream_text, AllEncode}

-- A reply as a client sees it: level, type, text if it has one, and length
abbrev pub Seen : Type 0
Seen = ℕ × ReplyType × Option Bytes × ℕ

abbrev pub text_at : Bytes → BufferRef → ℕ → ℕ → Option Bytes
text_at bytes read_buffer o n = some (take n (drop o bytes))
text_at bytes _ o n = none

abbrev pub seen_in : Bytes → Next → Seen
seen_in bytes (found level t (some (b, o)) n) = (level, t, text_at bytes b o n, n)
seen_in bytes (found level t none n) = (level, t, none, n)
seen_in bytes _ = (0, rt_none, none, 0)

-- What a value should be seen as
abbrev pub bulk_shown : ℕ → Option Bytes → Seen
bulk_shown level none = (level, rt_bulk_nil, none, 0)
bulk_shown level (some s) = (level, rt_bulk, some s, length s)

abbrev pub value_shown : Value → List Seen
value_shown (status s) = (1, rt_ok, some s, length s) ∷ []
value_shown (failure s) = (1, rt_error, some s, length s) ∷ []
value_shown (number s) = (1, rt_integer, some s, length s) ∷ []
value_shown (bulk x) = bulk_shown 1 x ∷ []
value_shown (multibulk none) = (1, rt_multibulk_nil, none, 0) ∷ []
value_shown (multibulk (some xs)) = (1, rt_multibulk, none, length xs) ∷ map (bulk_shown 2) xs

abbrev pub values_shown : List (Value × Bytes) → List Seen
values_shown [] = []
values_shown ((v, e) ∷ es) = value_shown v ++ values_shown es

module _ (bytes : Bytes) where
  -- The reply is one that `Batch_next_reply` can walk, and shows `seen`.
  abbrev Shows : Reply → List Seen → Type 0
  Shows r seen = IsShallow r × (map (seen_in bytes) (with_children r) ≡ seen)

  bulk-IsPlain :
      (level : ℕ) (x : Option Bytes) (r : Reply)
      → DescribesBulk bytes x r
      → IsPlain r × (seen_in bytes (entry_of level r) ≡ bulk_shown level x)
  bulk-IsPlain level none r d = rw d (tt, refl)
  bulk-IsPlain level (some s) r (o, e, text) =
      rw e (tt, ap (λ (x : Bytes). (level, rt_bulk, some x, length s)) text)

  items-AllPlain :
      (xs : List (Option Bytes)) (rs : Replies)
      → DescribesItems bytes xs rs
      → AllPlain rs × (map (seen_in bytes) (entries_of 2 rs) ≡ map (bulk_shown 2) xs)
  items-AllPlain [] rs d = rw d (tt, refl)
  items-AllPlain (x ∷ xs) rs (r, later, e, first, rest) =
      let (p, shows) = bulk-IsPlain 2 x r first in
      let (ps, show) = items-AllPlain xs later rest in
      rw e (
        (p, ps),
        ap (λ z. z ∷ map (seen_in bytes) (entries_of 2 later)) shows
            ∙ ap (λ zs. bulk_shown 2 x ∷ zs) show,
      )

  pub value-Shows : (v : Value) (r : Reply) → Describes bytes v r → Shows r (value_shown v)
  value-Shows (status s) r (o, e, text) =
      rw e (tt, ap (λ (x : Bytes). (1, rt_ok, some x, length s) ∷ []) text)
  value-Shows (failure s) r (o, e, text) =
      rw e (tt, ap (λ (x : Bytes). (1, rt_error, some x, length s) ∷ []) text)
  value-Shows (number s) r (o, e, text) =
      rw e (tt, ap (λ (x : Bytes). (1, rt_integer, some x, length s) ∷ []) text)
  value-Shows (bulk none) r d = rw d (tt, refl)
  value-Shows (bulk (some s)) r (o, e, text) =
      rw e (tt, ap (λ (x : Bytes). (1, rt_bulk, some x, length s) ∷ []) text)
  value-Shows (multibulk none) r d = rw d (tt, refl)
  value-Shows (multibulk (some xs)) r (rs, e, items) =
      let (p, shows) = items-AllPlain xs rs items in
      rw e (p, ap (λ zs. (1, rt_multibulk, none, length xs) ∷ zs) shows)

map_append : {A B : Type 0} (f : A → B) (xs ys : List A) → map f (xs ++ ys) ≡ map f xs ++ map f ys
map_append f [] ys = refl
map_append f (x ∷ xs) ys = ap (λ zs. f x ∷ zs) (map_append f xs ys)

listing-add_tail : (q : Replies) (r : Reply) → listing (add_tail q r) ≡ listing q ++ with_children r
unfolding add_tail
listing-add_tail nil r = append_nil (with_children r)
listing-add_tail (cons x q) r =
    ap (λ l. with_children x ++ l) (listing-add_tail q r)
    ∙ sym (append_assoc (with_children x) (listing q) (with_children r))

add_tail-AllShallow :
    (q : Replies) (r : Reply) → AllShallow q → IsShallow r → AllShallow (add_tail q r)
unfolding add_tail
add_tail-AllShallow nil r h s = (s, tt)
add_tail-AllShallow (cons x q) r h s = (h.0, add_tail-AllShallow q r h.1 s)

add_all-shown :
    (bytes : Bytes) (q : Replies) (es : List (Value × Bytes)) (rs : List Reply)
    → AllShallow q
    → DescribesAll bytes es rs
    → AllShallow (add_all q rs)
      × (map (seen_in bytes) (listing (add_all q rs))
          ≡ map (seen_in bytes) (listing q) ++ values_shown es)
add_all-shown bytes q [] [] h d = (h, sym (append_nil (map (seen_in bytes) (listing q))))
add_all-shown bytes q [] (r ∷ rs) h d = absurd d
add_all-shown bytes q ((v, e) ∷ es) [] h d = absurd d
add_all-shown bytes q ((v, e) ∷ es) (r ∷ rs) h (here, later) =
    let (shallow, shows) = value-Shows bytes v r here in
    let (all, rest) =
      add_all-shown bytes (add_tail q r) es rs (add_tail-AllShallow q r h shallow) later in
    let see = map (seen_in bytes) in
    (
      all,
      rest
          ∙ ap (λ l. see l ++ values_shown es) (listing-add_tail q r)
          ∙ ap (λ l. l ++ values_shown es)
              (map_append (seen_in bytes) (listing q) (with_children r))
          ∙ append_assoc (see (listing q)) (see (with_children r)) (values_shown es)
          ∙ ap (λ l. see (listing q) ++ (l ++ values_shown es)) shows,
    )

-- What a client comes to: the loop returns, and calls of `Batch_next_reply` until there is no reply,
-- as many as there are entries and one more, give what shows the values.
pub record ClientSees (es : List (Value × Bytes)) (before : Io) (x y : Option Node)
    (o : Option (Unit {0} × Io)) : Type 0 where
  pub final : Io
  pub entries : List Next
  pub replies : List Reply
  pub returns : o ≡ some (tt, final)
  pub same_events : final.numevents ≡ before.numevents
  pub same_sent : final.sent ≡ before.sent
  pub same_state : final.connection.state ≡ before.connection.state
  pub same_error : final.batch.error ≡ before.batch.error
  pub queued : final.batch.reply_queue ≡ add_all nil replies
  pub describes : DescribesAll (Buffer_data final.batch.read_buffer) es replies
  pub stands : final.batch ≡ standing final.batch (at_entry 0 x y)
  pub answered : final.batch.num_commands ≡ 0
  pub walk :
      (f : ℕ) → length entries < f → (b : Batch) × (read_all f final.batch ≡ some (entries, b))
  pub shown : map (seen_in (Buffer_data final.batch.read_buffer)) entries ≡ values_shown es

abbrev with_cursor : Batch → ℕ → List (Option Node) → Batch
with_cursor b sp l = record b { current_reply_sp = sp; current_reply = l }

same_standing :
    (b : Batch) (x y : Option Node)
    → b.current_reply_sp ≡ 0
    → b.current_reply ≡ some head_node ∷ some head_node ∷ x ∷ y ∷ []
    → b ≡ standing b (at_entry 0 x y)
same_standing b x y sp l =
    ap (λ (n : ℕ). with_cursor b n b.current_reply) sp
    ∙ ap (λ (l : List (Option Node)). with_cursor b 0 l) l

-- On a connected connection with a parser that is reset and a batch with an empty, writable read buffer, an
-- empty queue and the cursor at its head, with as many commands that wait as the server sends values: if
-- the bytes of encodings of the values, one behind the other, arrive by calls of `read` in pieces of any
-- sizes (each of a byte or more and within the room that `read` is given, while the buffer has 8 bytes to
-- 2^33), then after `Connection_read_data` a client that calls `Batch_next_reply` until there is no reply
-- is given each value in order, with its level, its type, its text and its length, and behind a
-- multibulk value its items. The events waited for, the bytes sent and the state stay.
pub read_data-ClientSees :
    (ordinal : ℕ) (s : Io) (es : List (Value × Bytes)) (ds : List Bytes) (x y : Option Node)
    → s.connection.state ≡ cs_connected
    → s.connection.parser.cs ≡ s0
    → s.connection.parser.p ≡ 0
    → s.connection.parser.multibulk_count ≡ 0
    → IsValid 0 s.connection.parser
    → IsWritable s.batch.read_buffer
    → s.batch.read_buffer.position ≡ 0
    → s.batch.num_commands ≡ length es
    → s.batch.reply_queue ≡ nil
    → s.batch.current_reply_sp ≡ 0
    → s.batch.current_reply ≡ some head_node ∷ some head_node ∷ x ∷ y ∷ []
    → s.answers ≡ map read_answer ds
    → Arrive s.batch.read_buffer ds
    → AllEncode es
    → joined ds ≡ stream_text es
    → ClientSees es s x y (Connection_read_data ordinal s)
read_data-ClientSees ordinal s es ds x y connected cs p c valid w empty num queue sp cursor answers
      arrive encode whole =
    let d =
      read_data-DeliversAll ordinal s es ds connected cs p c valid w empty num answers arrive encode
        whole in
    let b = d.final.batch in
    let bytes = Buffer_data b.read_buffer in
    let queued = d.queued ∙ ap (λ q. add_all q d.replies) queue in
    let (shallow, shown) = add_all-shown bytes nil es d.replies tt d.describes in
    let stands = same_standing b x y (d.same_sp ∙ sp) (d.same_cursor ∙ cursor) in
    record {
      final = d.final;
      entries = listing b.reply_queue;
      returns = d.returns;
      same_events = d.same_events;
      same_sent = d.same_sent;
      same_state = d.same_state;
      replies = d.replies;
      same_error = d.same_error;
      queued = queued;
      describes = d.describes;
      stands = stands;
      answered = d.answered;
      walk = λ f lt.
          let (x', y', run) = read_all-listing f b x y (subst AllShallow (sym queued) shallow) lt in
          (standing b (at_entry 0 x' y'), ap (read_all f) stands ∙ run);
      shown = ap (λ q. map (seen_in bytes) (listing q)) queued ∙ shown;
    }
