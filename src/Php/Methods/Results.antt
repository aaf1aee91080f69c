-- ===== src/Php/Methods/Results.antt =====
-- A whole call of `Connection::get` and of `Connection::set` on a connection that answers.
use mathlib.Core.Path.{subst}
use libredis.Base.{
  ℕ, ◌+◌, ◌-◌, ◌^◌, ◌≤◌, ◌<◌, ◌≡◌, refl, sym, ap, ◌∙◌, false, none, some, List, [], ◌∷◌, ◌++◌,
  Bytes, arith, length, length-append, get_elem?, map, append_nil, get_elem?-last, ◌>>=◌,
}
use libredis.Base.Int.{pos}
use libredis.Base.Decimal.{print_decimal, print_decimal-short}
use libredis.Buffer.{Buffer_new}
use libredis.Buffer.Grow.{new-IsWritable}
use libredis.Batch.{Batch, Batch_new, crlf_text}
use libredis.Batch.Commands.{Adds, get_text, set_line, set_text, write_get-Adds, write_set-Adds}
use libredis.Parser.Wire.{Value, Encodes}
use libredis.Connection.{Connection, cs_connected, write_answer, read_answer}
use libredis.Connection.Read.Steps.{joined, Arrive}
use libredis.Executor.{Pair, World, Tick, polled, Executor_add, Executor_new}
use libredis.Executor.Exchange.{readable, execute-Exchanged}
use libredis.Php.Methods.{
  Outcome, State, Handler, get_reply, set_reply, run_command, with_batch, simple_executor,
  first_reply, after_execute, free_own, unfreed_after, Connection_execute_simple,
  Connection_get_method, Connection_set_method,
}
use libredis.Php.Methods.Answers.{
  get_outcome, set_outcome, error_after, get-Handles, set-Handles, Parts, command-IsReady,
  command-Drains, command-contents, command-read_buffer, no_error, Answered, Answers, one_reply,
}

-- One turn, in which the connection can be read
abbrev pub one_turn : List Tick
one_turn = polled (pos 1) (readable ∷ []) ∷ []

length-set_line : (key : Bytes) (n : ℕ) → length (set_line key n) ≤ length key + n + 8
length-set_line key n =
    let t = b'S' ∷ b'E' ∷ b'T' ∷ b' ' ∷ [] in
    let l1 = length-append t key in
    let l2 = length-append (t ++ key) (b' ' ∷ []) in
    let l3 = length-append ((t ++ key) ++ (b' ' ∷ [])) (print_decimal n) in
    let l4 = length-append (((t ++ key) ++ (b' ' ∷ [])) ++ print_decimal n) crlf_text in
    omega (arith, l1, l2, l3, l4, print_decimal-short n)

set_text-fits :
    (key value : Bytes)
    → length key < 2 ^ 31
    → length value < 2 ^ 31 - 1
    → 0 + length (set_text key value) ≤ 2 ^ 61
set_text-fits key value hk hv =
    let l1 = length-append (set_line key (length value)) value in
    let l2 = length-append (set_line key (length value) ++ value) crlf_text in
    omega (arith, l1, l2, length-set_line key (length value), hk, hv)

module _ (s : State) (pc : ℕ) (c : Connection) (cur : ℕ) (sent : Bytes) (v : Value) (ns : List ℕ)
    (ds : List Bytes) (errno : Bytes) (connected : get_elem? s.world.connections pc ≡ some (c, cur))
    (sending : get_elem? s.world.sent pc ≡ some sent) (is_open : c.state ≡ cs_connected)
    (answers : s.world.answers ≡ map write_answer ns ++ map read_answer ds)
    (arrive : Arrive (Buffer_new 12288) ds)
    (encode : (rest : Bytes) → Encodes v rest (joined ds ++ rest)) where
  command_run :
      (handle : Handler) (o : Outcome) (command : Bytes) (b : Batch)
      → Answers handle v o
      → Adds Batch_new command 1 b
      → Parts (length command) ns
      → Answered pc
          (sent ++ command)
          o
          (error_after v s.error)
          (unfreed_after o s.unfreed)
          (run_command pc one_turn errno handle b s)
  unfolding run_command Connection_execute_simple simple_executor Executor_add Executor_new
  command_run handle o command b h adds parts =
      let i = length s.world.batches in
      let pair : Pair = record { batch = i; connection = pc } in
      let w : World = record (with_batch b s.world) { executor = simple_executor pc i } in
      let x =
        execute-Exchanged w pair c cur b sent
          (record { fd = pos 0; pollin = false; pollout = false }) ((v, joined ds) ∷ []) ns ds none
          none refl refl connected (get_elem?-last s.world.batches b) sending is_open
          (command-IsReady command b adds) (omega arith) answers
          (command-Drains command b adds ns parts)
          (subst (λ z. Arrive z ds) (sym (command-read_buffer command b adds)) arrive) (encode, tt)
          (sym (append_nil (joined ds))) in
      let s1 : State = record s { world = x.final } in
      let run =
        one_reply handle v o h i (joined ds) x.batch s1 x.replies x.stored
          (x.same_error ∙ no_error command b adds) x.stands x.queued x.describes in
      record {
        final = record s1 { error = error_after v s.error; unfreed = unfreed_after o s.unfreed };
        returned =
            ap
              (λ r. r >>= λ x.
                after_execute errno s x (λ w. first_reply i handle (record s { world = w }))
                >>= free_own s.unfreed)
              x.returns
            ∙ ap (λ r. r >>= free_own s.unfreed) run;
        error_left = refl;
        freed = refl;
        all_sent =
            x.all_sent ∙ ap (λ (t : Bytes). some (sent ++ t)) (command-contents command b adds);
        kept = x.connection;
        current = i;
        in_store = x.kept;
        still_connected = x.still_connected;
      }

  -- `Connection::get` with a key of less than 2^31 bytes, on a connection that is connected, when the socket takes
  -- the bytes of the command in parts of any sizes, the next `poll` says that the connection can be read, and
  -- the bytes of one value then arrive in pieces of any sizes (each of a byte or more and within the room that
  -- `read` is given, while the buffer has 8 bytes to 2^33): exactly the GET command for the key has been sent,
  -- the connection is still connected, and the method returns the text of a bulk value, null for a nil one,
  -- and false for an error of the server, with the error text emptied, and has freed its
  -- batch; another value ends the script, and the batch is never freed.
  pub get_method-Answered :
      (key : Bytes)
      → length key < 2 ^ 31
      → Parts (length (get_text key)) ns
      → Answered pc
          (sent ++ get_text key)
          (get_outcome v)
          (error_after v s.error)
          (unfreed_after (get_outcome v) s.unfreed)
          (Connection_get_method pc key one_turn errno s)
  unfolding Connection_get_method Batch_new Buffer_new
  get_method-Answered key h parts =
      let l = length-append ((b'G' ∷ b'E' ∷ b'T' ∷ b' ' ∷ []) ++ key) crlf_text in
      let l' = length-append (b'G' ∷ b'E' ∷ b'T' ∷ b' ' ∷ []) key in
      let (b, e, adds) =
        write_get-Adds Batch_new key (new-IsWritable 4096 (omega arith) (omega arith)) h
          (omega (arith, h, l, l')) in
      let run =
        command_run get_reply (get_outcome v) (get_text key) b
          (λ b s no_error r d. get-Handles b s no_error v r d) adds parts in
      subst
        (Answered pc (sent ++ get_text key) (get_outcome v) (error_after v s.error)
          (unfreed_after (get_outcome v) s.unfreed))
        (ap (λ o. o >>= λ b. run_command pc one_turn errno get_reply b s) (sym e)) run

  -- `Connection::set` with a key of less than 2^31 bytes and a value of less than 2^31 - 1, under the conditions
  -- of `get`: exactly the SET command has been sent, the connection is still connected, and the method returns
  -- true for a status reply and false for an error of the server, with the error text emptied, and
  -- has freed its batch; another value ends the script, and the batch is never freed.
  pub set_method-Answered :
      (key value : Bytes)
      → length key < 2 ^ 31
      → length value < 2 ^ 31 - 1
      → Parts (length (set_text key value)) ns
      → Answered pc
          (sent ++ set_text key value)
          (set_outcome v)
          (error_after v s.error)
          (unfreed_after (set_outcome v) s.unfreed)
          (Connection_set_method pc key value one_turn errno s)
  unfolding Connection_set_method Batch_new Buffer_new
  set_method-Answered key value hk hv parts =
      let (b, e, adds) =
        write_set-Adds Batch_new key value (new-IsWritable 4096 (omega arith) (omega arith)) hk hv
          (set_text-fits key value hk hv) in
      let run =
        command_run set_reply (set_outcome v) (set_text key value) b
          (λ b s no_error r d. set-Handles b s no_error v r d) adds parts in
      subst
        (Answered pc (sent ++ set_text key value) (set_outcome v) (error_after v s.error)
          (unfreed_after (set_outcome v) s.unfreed))
        (ap (λ o. o >>= λ b. run_command pc one_turn errno set_reply b s) (sym e)) run
