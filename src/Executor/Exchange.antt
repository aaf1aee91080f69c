-- ===== src/Executor/Exchange.antt =====
-- A whole run of `Executor_execute` on one pair: the commands go out, the replies come in.
use libredis.Base.{
  ℕ, ◌<◌, ◌≡◌, refl, ap, ◌∙◌, Bool, true, false, ◌&&◌, if◌then◌else◌, Option, none, some, List, [],
  ◌∷◌, ◌++◌, Bytes, arith, length, get_elem?, map, length-set, get_elem?-set, get_elem?-some-lt,
  lt→ltb,
}
use libredis.Base.Int.{ℤ, pos, is_positive}
use libredis.Buffer.{Buffer_data, Buffer_flip}
use libredis.Buffer.Grow.{IsValid, IsWritable}
use libredis.Buffer.Write.{contents}
use libredis.Reply.{Reply, nil}
use libredis.Batch.{Batch, Node, head_node}
use libredis.Batch.Next.{Next}
use libredis.Batch.Levels.{at_entry, standing}
use libredis.Batch.Levels.ReadAll.{read_all}
use libredis.Parser.Valid.{reset-IsValid}
use libredis.Parser.Wire.{Value}
use libredis.Connection.{Connection, cs_connected, PollFd, Io, write_answer, read_answer}
use libredis.Connection.Read.{
  Connection_handle_event, Connection_execute_start, Connection_read_data,
}
use libredis.Connection.Read.Steps.{joined, Arrive, handle_event-read}
use libredis.Connection.Read.Stream.{stream_text, AllEncode, DescribesAll, add_all}
use libredis.Connection.Read.Values.{read_data-ClientSees, seen_in, values_shown}
use libredis.Connection.Write.Complete.{Drains, started, execute_start-started}
use libredis.Executor.{
  Pair, World, Tick, polled, start_all, run_on, take_events, event_of, poll_all, turn, execute_loop,
  at_most_one, Executor_execute,
}
use libredis.Executor.Step.{io_of, stored_io, run_on-stored, dispatched, dispatch-run}

-- A batch of `n` commands that has not been executed, as it comes from `Batch_new`
pub record IsReady (b : Batch) (n : ℕ) (x y : Option Node) : Type 0 where
  pub written : IsValid b.write_buffer
  pub to_read : IsWritable b.read_buffer
  pub nothing_read : b.read_buffer.position ≡ 0
  pub commands : b.num_commands ≡ n
  pub no_replies : b.reply_queue ≡ nil
  pub first_level : b.current_reply_sp ≡ 0
  pub at_head : b.current_reply ≡ some head_node ∷ some head_node ∷ x ∷ y ∷ []

-- What `poll` says: the connection can be read.
abbrev pub readable : Bool × Bool
readable = (true, false)

-- What a run comes to: it succeeds, the connection stays open, the bytes of the commands have been sent, and
-- a client is given the values.
pub record Exchanged (w : World) (pair : Pair) (b : Batch) (sent : Bytes)
    (es : List (Value × Bytes)) (x y : Option Node) (o : Option (ℤ × World)) : Type 0 where
  pub final : World
  pub connection : Connection
  pub batch : Batch
  pub entries : List Next
  pub replies : List Reply
  pub returns : o ≡ some (pos 1, final)
  pub kept : get_elem? final.connections pair.connection ≡ some (connection, pair.batch)
  pub still_connected : connection.state ≡ cs_connected
  pub all_sent : get_elem? final.sent pair.connection ≡ some (sent ++ contents b.write_buffer)
  pub stored : get_elem? final.batches pair.batch ≡ some batch
  pub same_error : batch.error ≡ b.error
  pub queued : batch.reply_queue ≡ add_all nil replies
  pub describes : DescribesAll (Buffer_data batch.read_buffer) es replies
  pub stands : batch ≡ standing batch (at_entry 0 x y)
  pub answered : batch.num_commands ≡ 0
  pub walk : (f : ℕ) → length entries < f → (b' : Batch) × (read_all f batch ≡ some (entries, b'))
  pub shown : map (seen_in (Buffer_data batch.read_buffer)) entries ≡ values_shown es

abbrev with_result : Option World → Option (ℤ × World)
with_result o = elim o [ none ↦ none | some w' ↦ some (pos 1, w') ]

-- One turn in which the connection can be read, on a world in which its commands have been sent
module _ (w : World) (pair : Pair) (c : Connection) (b : Batch) (sent : Bytes) (fd : PollFd)
    (s' : Io) (connected : get_elem? w.connections pair.connection ≡ some (c, pair.batch))
    (stored : get_elem? w.batches pair.batch ≡ some b)
    (sending : get_elem? w.sent pair.connection ≡ some sent)
    (entry : get_elem? w.executor.fds 0 ≡ some fd) (is_open : c.state ≡ cs_connected)
    (waits : 0 < b.num_commands) (one : w.executor.numevents ≡ pos 1)
    (pairs : w.executor.pairs ≡ pair ∷ []) where
  abbrev taken : World
  taken = take_events 0 fd readable w

  abbrev read_world : World
  read_world = stored_io pair.connection pair.batch s' taken

  read_turn :
      Connection_read_data 0 (io_of taken c b sent) ≡ some (tt, s')
      → turn (polled (pos 1) (readable ∷ [])) w ≡ some (pos 1, read_world)
  unfolding turn poll_all
  read_turn read =
      let event = event_of (pos 1) readable in
      let run =
        run_on-stored pair.connection pair.batch pair.batch (Connection_handle_event event 0) taken
          c b sent s' connected stored sending
          (handle_event-read 0 (io_of taken c b sent) is_open ∙ read) in
      let step =
        dispatched (pos 1) 0 pair readable w fd b entry stored (lt→ltb 0 b.num_commands waits) refl
        ∙ dispatch-run 0 pair event taken c pair.batch connected
        ∙ run in
      let all : poll_all (pos 1) 0 (pair ∷ []) (readable ∷ []) w ≡ some read_world =
        ap (λ o. elim o [ none ↦ none | some w' ↦ poll_all (pos 1) 1 [] [] w' ]) step in
      ap (λ (ps : List Pair). with_result (poll_all (pos 1) 0 ps (readable ∷ []) w)) pairs
      ∙ ap with_result all

abbrev finish : Option (ℤ × World) → Option (ℤ × World)
finish o = elim o [ none ↦ none | some (r, w) ↦ some (at_most_one r, w) ]

abbrev loop_on : List Tick → Option World → Option (ℤ × World)
loop_on ticks o = elim o [ none ↦ none | some w ↦ finish (execute_loop ticks (pos 1) w) ]

-- The loop after one turn that leaves nothing to wait for
one_turn :
    (t : Tick) (w w' : World)
    → w.executor.numevents ≡ pos 1
    → turn t w ≡ some (pos 1, w')
    → w'.executor.numevents ≡ pos 0
    → execute_loop (t ∷ []) (pos 1) w ≡ some (pos 1, w')
unfolding execute_loop
one_turn t w w' one run none_left =
    let next : Option (ℤ × World) → Option (ℤ × World) =
      λ o. elim o [ none ↦ none | some (r, v) ↦ execute_loop [] r v ] in
    ap
      (λ (n : ℤ). elim (is_positive n && true) [ false ↦ some (pos 1, w) | true ↦ next (turn t w) ])
      one
    ∙ ap next run
    ∙ ap (λ (n : ℤ). if is_positive n && true then none else some (pos 1, w')) none_left

one_start :
    (ticks : List Tick) (w w' : World) (pair : Pair)
    → w.executor.pairs ≡ pair ∷ []
    → run_on pair.connection pair.batch
        (Connection_execute_start 0)
        (record w { executor = record w.executor { numevents = pos 0 } })
      ≡ some w'
    → Executor_execute ticks w ≡ finish (execute_loop ticks (pos 1) w')
unfolding Executor_execute start_all
one_start ticks w w' pair pairs run =
    let w0 : World = record w { executor = record w.executor { numevents = pos 0 } } in
    ap (λ (ps : List Pair). loop_on ticks (start_all 0 ps w0)) pairs
    ∙ ap (λ o. loop_on ticks (elim o [ none ↦ none | some v ↦ start_all 1 [] v ])) run

-- An executor with one pair, of a connected connection and a batch that is ready with at least one command,
-- whose connection can be written and read: if each `write` takes a part of what is left of the commands
-- until nothing is, the next `poll` says that the connection can be read, and the bytes of one value for
-- each command then arrive by calls of `read` in pieces of any sizes (each of a byte or more and within the
-- room that `read` is given, while the buffer has 8 bytes to 2^33), then `Executor_execute` returns 1. Exactly
-- the bytes of the commands have been sent, no command waits, the connection is still connected, and a client
-- that calls `Batch_next_reply` until there is no reply is given each value in order.
pub execute-Exchanged :
    (w : World) (pair : Pair) (c : Connection) (cur : ℕ) (b : Batch) (sent : Bytes) (fd : PollFd)
    (es : List (Value × Bytes)) (ns : List ℕ) (ds : List Bytes) (x y : Option Node)
    → w.executor.pairs ≡ pair ∷ []
    → get_elem? w.executor.fds 0 ≡ some fd
    → get_elem? w.connections pair.connection ≡ some (c, cur)
    → get_elem? w.batches pair.batch ≡ some b
    → get_elem? w.sent pair.connection ≡ some sent
    → c.state ≡ cs_connected
    → IsReady b (length es) x y
    → 0 < length es
    → w.answers ≡ map write_answer ns ++ map read_answer ds
    → Drains (Buffer_flip b.write_buffer) ns
    → Arrive b.read_buffer ds
    → AllEncode es
    → joined ds ≡ stream_text es
    → Exchanged w pair b sent es x y (Executor_execute (polled (pos 1) (readable ∷ []) ∷ []) w)
execute-Exchanged w pair c cur b sent fd es ns ds x y pairs entry connected stored sending is_open
      ready some_wait answers drains arrive encode whole =
    let w0 : World = record w { executor = record w.executor { numevents = pos 0 } } in
    let s1 = started 0 ns (map read_answer ds) fd (io_of w0 c b sent) in
    let w1 = stored_io pair.connection pair.batch s1 w0 in
    let start = one_start (polled (pos 1) (readable ∷ []) ∷ []) w w1 pair pairs (
      run_on-stored pair.connection pair.batch cur (Connection_execute_start 0) w0 c b sent s1
        connected stored sending
        (execute_start-started 0 (io_of w0 c b sent) ns (map read_answer ds) fd is_open
          ready.written drains answers entry)) in
    let fd' : PollFd = record fd { fd = c.sockfd; pollin = true } in
    let in_connections = get_elem?-some-lt w.connections pair.connection connected in
    let in_batches = get_elem?-some-lt w.batches pair.batch stored in
    let in_sent = get_elem?-some-lt w.sent pair.connection sending in
    let s2 = io_of (take_events 0 fd' readable w1) s1.connection s1.batch s1.sent in
    let sees =
      read_data-ClientSees 0 s2 es ds x y refl refl refl refl (reset-IsValid 0 c.parser)
        ready.to_read ready.nothing_read ready.commands ready.no_replies ready.first_level
        ready.at_head refl arrive encode whole in
    let s3 = sees.final in
    let read =
      read_turn w1 pair s1.connection s1.batch s1.sent fd' s3
        (get_elem?-set w.connections pair.connection (s1.connection, pair.batch) in_connections)
        (get_elem?-set w.batches pair.batch s1.batch in_batches)
        (get_elem?-set w.sent pair.connection s1.sent in_sent)
        (get_elem?-set w.executor.fds 0 fd' (get_elem?-some-lt w.executor.fds 0 entry)) refl
        (omega (arith, some_wait, ready.commands)) refl pairs sees.returns in
    let v = take_events 0 fd' readable w1 in
    let w3 = stored_io pair.connection pair.batch s3 v in
    let loop = one_turn (polled (pos 1) (readable ∷ [])) w1 w3 refl read sees.same_events in
    record {
      final = w3;
      connection = s3.connection;
      batch = s3.batch;
      entries = sees.entries;
      returns = start ∙ ap finish loop;
      kept =
          get_elem?-set v.connections pair.connection (s3.connection, pair.batch)
            (omega (
              arith,
              in_connections,
              length-set w.connections pair.connection (s1.connection, pair.batch),
            ));
      still_connected = sees.same_state;
      all_sent =
          get_elem?-set v.sent pair.connection s3.sent
            (omega (arith, in_sent, length-set w.sent pair.connection s1.sent))
          ∙ ap (λ (xs : Bytes). some xs) sees.same_sent;
      stored =
          get_elem?-set v.batches pair.batch s3.batch
            (omega (arith, in_batches, length-set w.batches pair.batch s1.batch));
      replies = sees.replies;
      same_error = sees.same_error;
      queued = sees.queued;
      describes = sees.describes;
      stands = sees.stands;
      answered = sees.answered;
      walk = sees.walk;
      shown = sees.shown;
    }
