-- ===== src/Connection/Read/Pipeline.antt =====
-- The loop of `Connection_read_data` while the replies to several commands arrive.
use mathlib.Core.Path.{subst}
use libredis.Base.{
  ℕ, zero, suc, ◌+◌, ◌≤◌, ◌<◌, ◌≡◌, refl, sym, ap, ◌∙◌, inl, inr, Option, List, [], ◌∷◌, ◌++◌,
  Bytes, arith, length, take, drop, length-append, length-take, length-drop, append_assoc,
  append_nil, take-all, take-append, take-of_take, take-of_cut, append-drop-of_cut, ltb, ltb→lt,
  ltb→ge, Bool-cases,
}
use libredis.Buffer.{Buffer, Buffer_data}
use libredis.Buffer.Grow.{IsWritable}
use libredis.Buffer.Write.{contents}
use libredis.Buffer.Socket.{recv_lem}
use libredis.Reply.{Reply}
use libredis.Batch.{Batch_add_reply}
use libredis.Parser.{ReplyParser, ReplyParser_execute, s0}
use libredis.Parser.Valid.{IsValid}
use libredis.Parser.Wire.{Value, Describes}
use libredis.Parser.Arrival.{Reads, initial-Reads, part-more, Reads-Whole, longer-IsValid}
use libredis.Connection.{Io}
use libredis.Connection.Read.{read_loop}
use libredis.Connection.Read.Steps.{
  joined, Arrive, at_work, once-read, once-reply, go_on, no_command, added,
}
use libredis.Connection.Read.Stream.{stream_text, AllEncode, DeliversAll}

-- The parser is on the way to the end of the first of the values, of which it has looked at `n` bytes.
abbrev pub OnWay : Bytes → List (Value × Bytes) → ReplyParser → ℕ → Type 0
OnWay pre [] q n = Unit {0}
OnWay pre ((v, e) ∷ es) q n = Reads (pre ++ e) v q × (n ≤ length (pre ++ e))

pub next-OnWay :
    (pre : Bytes) (es : List (Value × Bytes)) (q : ReplyParser)
    → AllEncode es
    → q.cs ≡ s0
    → q.p ≡ length pre
    → q.multibulk_count ≡ 0
    → IsValid (length pre) q
    → OnWay pre es q (length pre)
next-OnWay pre [] q encode s p c valid = tt
next-OnWay pre ((v, e) ∷ es) q encode s p c valid =
    (initial-Reads pre e v q encode.0 s p c valid, omega (arith, length-append pre e))

-- The loop between two results of the parser: `pre` has been given out in replies, the parser has looked
-- at the first `n` of the bytes `x` that have arrived, and `ds` are the pieces to come.
pub record Middle (pre : Bytes) (es : List (Value × Bytes)) (q : ReplyParser) (b : Buffer)
    (x : Bytes) (ds : List Bytes) (n : ℕ) : Type 0 where
  pub writable : IsWritable b
  pub arrived : contents b ≡ x
  pub position : b.position ≡ length x
  pub cut : x ++ joined ds ≡ pre ++ stream_text es
  pub given : length pre ≤ length x
  pub looked : n ≤ length x
  pub valid : IsValid n q
  pub encode : AllEncode es
  pub on_way : OnWay pre es q n
  pub arrive : Arrive b ds

abbrev pub AtFuel : ℕ → Type 0
AtFuel f =
    (ordinal : ℕ) (s : Io) (pre : Bytes) (es : List (Value × Bytes)) (q : ReplyParser) (b : Buffer)
    (x : Bytes) (ds : List Bytes) (n : ℕ)
    → length ds + length es < f
    → s.batch.num_commands ≡ length es
    → Middle pre es q b x ds n
    → DeliversAll (pre ++ stream_text es) es s (read_loop f ordinal (at_work s q b ds))

-- The front of the buffer, and how much of it is there
module _ (pre : Bytes) (es : List (Value × Bytes)) (q : ReplyParser) (b : Buffer) (x : Bytes)
    (ds : List Bytes) (n : ℕ) (m : Middle pre es q b x ds n) where
  front :
      (d : Bytes)
      → length d ≤ length x
      → take (length d) x ≡ d
      → take (length d) (Buffer_data b) ≡ d
  front d h e =
      sym (take-of_take (length d) b.position (Buffer_data b) (omega (arith, h, m.position)))
      ∙ ap (take (length d)) m.arrived
      ∙ e

  room : b.position ≤ length (Buffer_data b)
  room = omega (arith, length-take b.position (Buffer_data b), ap length m.arrived, m.position)

no_more :
    (f : ℕ) (ordinal : ℕ) (s : Io) (pre : Bytes) (q : ReplyParser) (b : Buffer) (x : Bytes)
    (ds : List Bytes) (n : ℕ)
    → s.batch.num_commands ≡ 0
    → Middle pre [] q b x ds n
    → DeliversAll (pre ++ []) [] s (read_loop (suc f) ordinal (at_work s q b ds))
no_more f ordinal s pre q b x ds n none_left m =
    let given = take-of_cut x (joined ds) pre [] m.cut m.given in
    record {
      final = at_work s q b ds;
      replies = [];
      returns = no_command f ordinal (at_work s q b ds) none_left;
      answered = none_left;
      queued = refl;
      same_sp = refl;
      same_cursor = refl;
      same_error = refl;
      same_events = refl;
      same_fds = refl;
      same_sent = refl;
      same_state = refl;
      all_there = rw (append_nil pre) (front pre [] q b x ds n m pre m.given given);
      describes = tt;
    }

module _ (v : Value) (e : Bytes) (es : List (Value × Bytes)) where
  another :
      (f : ℕ)
      → AtFuel f
      → (ordinal : ℕ) (s : Io) (pre : Bytes) (q : ReplyParser) (b : Buffer) (x : Bytes)
        (ds : List Bytes) (n : ℕ)
      → length ds + suc (length es) < suc f
      → s.batch.num_commands ≡ suc (length es)
      → Middle pre ((v, e) ∷ es) q b x ds n
      → length x < length (pre ++ e)
      → DeliversAll
          (pre ++ (e ++ stream_text es))
          ((v, e) ∷ es)
          s
          (read_loop (suc f) ordinal (at_work s q b ds))
  another f loop ordinal s pre q b x [] n lt num m part =
      let l = ap length (sym (append_nil x) ∙ m.cut ∙ sym (append_assoc pre e (stream_text es))) in
      absurd (omega (arith, l, length-append (pre ++ e) (stream_text es), part))
  another f loop ordinal s pre q b x (d ∷ ds) n lt num m part =
      let y = drop (length x) (pre ++ e) in
      let cut = m.cut ∙ sym (append_assoc pre e (stream_text es)) in
      let whole : x ++ y ≡ pre ++ e =
        append-drop-of_cut x (d ++ joined ds) (pre ++ e) (stream_text es) cut
          (omega (arith, part)) in
      let valid = longer-IsValid n (length x) q m.valid m.looked in
      let ex =
        front pre ((v, e) ∷ es) q b x (d ∷ ds) n m x (omega arith)
          (take-all (length x) x (omega arith)) in
      let (q', rest) =
        part-more (pre ++ e) x y whole (omega (arith, length-drop (length x) (pre ++ e), part)) v q
          (Buffer_data b) valid ex m.on_way.0 in
      let (run, valid', reads') = rest in
      let a = m.arrive in
      let (b', received, has) = (recv_lem b d m.writable a.2 a.3 a.1).1 in
      let run' = ap (λ (k : ℕ). ReplyParser_execute q (Buffer_data b) k) m.position ∙ run in
      let step =
        go_on f ordinal (at_work s q b (d ∷ ds)) (at_work s q' b' ds) (omega (arith, num))
          (once-read ordinal s q q' b b' d ds a.0 a.1 run' received) in
      let l = length-append x d in
      rw step (
        loop ordinal s pre ((v, e) ∷ es) q' b' (x ++ d) ds (length x) (omega (arith, lt)) num
          record {
            writable = has.writable;
            arrived = has.appended ∙ ap (λ (xs : Bytes). xs ++ d) m.arrived;
            position = omega (arith, has.position_moved, m.position, l);
            cut = append_assoc x d (joined ds) ∙ m.cut;
            given = omega (arith, m.given, l);
            looked = omega (arith, l);
            valid = valid';
            encode = m.encode;
            on_way = (reads', omega (arith, part));
            arrive = a.4 b' received;
          })

  with_reply :
      (pre : Bytes) (before : Io) (o : Option (Unit {0} × Io)) (r : Reply)
      → ((bytes : Bytes) → take (length (pre ++ e)) bytes ≡ pre ++ e → Describes bytes v r)
      → DeliversAll
          ((pre ++ e) ++ stream_text es)
          es
          (record before { batch = Batch_add_reply before.batch r })
          o
      → DeliversAll (pre ++ (e ++ stream_text es)) ((v, e) ∷ es) before o
  unfolding Batch_add_reply
  with_reply pre before o r describes later =
      let d = pre ++ e in
      let whole = append_assoc pre e (stream_text es) in
      let bytes = Buffer_data later.final.batch.read_buffer in
      let l = length-append d (stream_text es) in
      let there : take (length d) bytes ≡ d =
        sym (take-of_take (length d) (length (d ++ stream_text es)) bytes (omega (arith, l)))
        ∙ ap (take (length d)) later.all_there
        ∙ take-append d (stream_text es) in
      record {
        final = later.final;
        replies = r ∷ later.replies;
        returns = later.returns;
        answered = later.answered;
        queued = later.queued;
        same_sp = later.same_sp;
        same_cursor = later.same_cursor;
        same_error = later.same_error;
        same_events = later.same_events;
        same_fds = later.same_fds;
        same_sent = later.same_sent;
        same_state = later.same_state;
        all_there = subst (λ (xs : Bytes). take (length xs) bytes ≡ xs) whole later.all_there;
        describes = (describes bytes there, later.describes);
      }

  a_reply :
      (f : ℕ)
      → AtFuel f
      → (ordinal : ℕ) (s : Io) (pre : Bytes) (q : ReplyParser) (b : Buffer) (x : Bytes)
        (ds : List Bytes) (n : ℕ)
      → length ds + suc (length es) < suc f
      → s.batch.num_commands ≡ suc (length es)
      → Middle pre ((v, e) ∷ es) q b x ds n
      → length (pre ++ e) ≤ length x
      → DeliversAll
          (pre ++ (e ++ stream_text es))
          ((v, e) ∷ es)
          s
          (read_loop (suc f) ordinal (at_work s q b ds))
  unfolding Batch_add_reply
  a_reply f loop ordinal s pre q b x ds n lt num m all =
      let d = pre ++ e in
      let cut = m.cut ∙ sym (append_assoc pre e (stream_text es)) in
      let ex =
        front pre ((v, e) ∷ es) q b x ds n m d all
          (take-of_cut x (joined ds) d (stream_text es) cut all) in
      let w =
        Reads-Whole d v q (Buffer_data b) b.position
          (longer-IsValid n (length d) q m.valid m.on_way.1) ex (omega (arith, all, m.position))
          (room pre ((v, e) ∷ es) q b x ds n m) m.on_way.0 in
      let s1 : Io = record s { batch = Batch_add_reply s.batch w.found } in
      let step =
        go_on f ordinal (at_work s q b ds) (at_work s1 w.next b ds) (omega (arith, num))
          (once-reply ordinal s q w.next b ds w.found w.returns) in
      let less = added s.batch w.found in
      let later =
        loop ordinal s1 d es w.next b x ds (length d) (omega (arith, lt))
          (omega (arith, less.0, num))
          record {
            writable = m.writable;
            arrived = m.arrived;
            position = m.position;
            cut = cut;
            given = all;
            looked = all;
            valid = w.valid;
            encode = m.encode.1;
            on_way = next-OnWay d es w.next m.encode.1 w.initial w.at_end w.no_items w.valid;
            arrive = m.arrive;
          } in
      rw step
        (with_reply pre s (read_loop f ordinal (at_work s1 w.next b ds)) w.found w.describes later)

pub loop-DeliversAll : (f : ℕ) → AtFuel f
loop-DeliversAll zero ordinal s pre es q b x ds n lt num m = absurd (omega arith)
loop-DeliversAll (suc f) ordinal s pre [] q b x ds n lt num m =
    no_more f ordinal s pre q b x ds n num m
loop-DeliversAll (suc f) ordinal s pre ((v, e) ∷ es) q b x ds n lt num m =
    elim (Bool-cases (ltb (length x) (length (pre ++ e)))) [
      | inl h ↦
          another v e es f (loop-DeliversAll f) ordinal s pre q b x ds n lt num m
            (ltb→lt (length x) (length (pre ++ e)) h)
      | inr h ↦
          a_reply v e es f (loop-DeliversAll f) ordinal s pre q b x ds n lt num m
            (ltb→ge (length x) (length (pre ++ e)) h)
    ]
