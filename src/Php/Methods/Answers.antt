-- ===== src/Php/Methods/Answers.antt =====
-- `Connection::get` and `Connection::set` from the arguments to the value that they return.
use mathlib.Core.Path.{subst}
use libredis.Base.{
  ℕ, ◌-◌, ◌≤◌, ◌<◌, ◌≡◌, refl, sym, ap, ◌∙◌, true, false, Option, none, some, List, [], ◌∷◌, Bytes,
  arith, length, set, get_elem?,
}
use libredis.Buffer.{Buffer, Buffer_new, Buffer_data, Buffer_flip, Buffer_send, Buffer_remaining}
use libredis.Buffer.Grow.{IsValid, IsWritable, flip-IsValid, new-IsWritable}
use libredis.Buffer.Socket.{send-IsValid}
use libredis.Buffer.Write.{contents}
use libredis.Reply.{Reply, nil, add_tail}
use libredis.Batch.{Batch, Batch_new}
use libredis.Batch.Commands.{Adds}
use libredis.Batch.Next.{reply_at, Batch_next_reply}
use libredis.Batch.Levels.{Cursor, at_entry, at_child, standing, entry_of}
use libredis.Batch.Levels.Calls.{next_reply-entry}
use libredis.Parser.Wire.{Value, status, failure, number, bulk, multibulk, Describes}
use libredis.Connection.{Connection, cs_connected}
use libredis.Connection.Read.Stream.{DescribesAll, add_all}
use libredis.Connection.Read.Values.{value-Shows}
use libredis.Connection.Write.{text}
use libredis.Connection.Write.Complete.{Drains}
use libredis.Executor.Exchange.{IsReady}
use libredis.Php.{z_null, z_bool, z_string}
use libredis.Php.Error.{set_last_error_from_batch_error}
use libredis.Php.Reply.{value_of}
use libredis.Php.Methods.{
  Outcome, returns, fatal, State, Handler, handle_entry, first_reply, get_reply, set_reply,
}

-- What `get` returns for the value that the server sends, and what `set` does
abbrev pub get_outcome : Value → Outcome
get_outcome (bulk (some s)) = returns (z_string s)
get_outcome (bulk none) = returns z_null
get_outcome (failure s) = returns (z_bool false)
get_outcome _ = fatal (text "Unexpected reply type")

abbrev pub set_outcome : Value → Outcome
set_outcome (status s) = returns (z_bool true)
set_outcome (failure s) = returns (z_bool false)
set_outcome _ = fatal (text "Unexpected reply type")

-- An error of the server empties the error text.
abbrev pub error_after : Value → Bytes → Bytes
error_after (failure s) error = set error 0 0
error_after _ error = error

-- The handlers at a reply that describes a value
module _ (b : Batch) (s : State) (no_error : b.error ≡ none) where
  abbrev Handles : Handler → Outcome → Bytes → Reply → Type 0
  Handles handle o error r =
      handle_entry handle (entry_of 1 r) b s ≡ some (o, record s { error = error })

  emptied : set_last_error_from_batch_error b s.error ≡ set s.error 0 0
  unfolding set_last_error_from_batch_error
  emptied = rw no_error refl

  pub set-Handles :
      (v : Value) (r : Reply)
      → Describes (Buffer_data b.read_buffer) v r
      → Handles set_reply (set_outcome v) (error_after v s.error) r
  unfolding set_reply
  set-Handles (status t) r (o, e, holds) =
      subst (Handles set_reply (returns (z_bool true)) s.error) (sym e) refl
  set-Handles (failure t) r (o, e, holds) =
      subst (Handles set_reply (returns (z_bool false)) (set s.error 0 0)) (sym e)
        (ap (λ (x : Bytes). some (returns (z_bool false), record s { error = x })) emptied)
  set-Handles (number t) r (o, e, holds) =
      subst (Handles set_reply (set_outcome (number t)) s.error) (sym e) refl
  set-Handles (bulk none) r d =
      subst (Handles set_reply (set_outcome (bulk none)) s.error) (sym d) refl
  set-Handles (bulk (some t)) r (o, e, holds) =
      subst (Handles set_reply (set_outcome (bulk none)) s.error) (sym e) refl
  set-Handles (multibulk none) r d =
      subst (Handles set_reply (set_outcome (bulk none)) s.error) (sym d) refl
  set-Handles (multibulk (some xs)) r (rs, e, items) =
      subst (Handles set_reply (set_outcome (bulk none)) s.error) (sym e) refl

  pub get-Handles :
      (v : Value) (r : Reply)
      → Describes (Buffer_data b.read_buffer) v r
      → Handles get_reply (get_outcome v) (error_after v s.error) r
  unfolding get_reply value_of
  get-Handles (status t) r (o, e, holds) =
      subst (Handles get_reply (get_outcome (status t)) s.error) (sym e) refl
  get-Handles (failure t) r (o, e, holds) =
      subst (Handles get_reply (returns (z_bool false)) (set s.error 0 0)) (sym e)
        (ap (λ (x : Bytes). some (returns (z_bool false), record s { error = x })) emptied)
  get-Handles (number t) r (o, e, holds) =
      subst (Handles get_reply (get_outcome (number t)) s.error) (sym e) refl
  get-Handles (bulk none) r d = subst (Handles get_reply (returns z_null) s.error) (sym d) refl
  get-Handles (bulk (some t)) r (o, e, holds) =
      subst (Handles get_reply (returns (z_string t)) s.error) (sym e)
        (ap (λ (x : Bytes). some (returns (z_string x), s)) holds)
  get-Handles (multibulk none) r d =
      subst (Handles get_reply (get_outcome (multibulk none)) s.error) (sym d) refl
  get-Handles (multibulk (some xs)) r (rs, e, items) =
      subst (Handles get_reply (get_outcome (multibulk none)) s.error) (sym e) refl

-- Parts of `n` bytes, each of at most what is left, until nothing is
abbrev pub Parts : ℕ → List ℕ → Type 0
Parts n [] = n ≡ 0
Parts n (k ∷ ks) = (0 < n) × (k ≤ n) × Parts (n - k) ks

Parts-Drains :
    (b : Buffer) (n : ℕ) (ks : List ℕ)
    → IsValid b
    → Buffer_remaining b ≡ n
    → Parts n ks
    → Drains b ks
unfolding Buffer_send
Parts-Drains b n [] v e h = e ∙ h
Parts-Drains b n (k ∷ ks) v e h = (
  omega (arith, e, h.0),
  omega (arith, e, h.1),
  Parts-Drains (Buffer_send b (some k)) (n - k) ks (send-IsValid k v (omega (arith, e, h.1)))
      (omega (arith, e, h.1, v.in_limit, v.in_capacity, v.small)) h.2,
)

-- A batch of one command, made from a new one
module _ (command : Bytes) (b : Batch) (adds : Adds Batch_new command 1 b) where
  read_buffer-IsWritable : IsWritable (Buffer_new 12288)
  read_buffer-IsWritable = new-IsWritable 12288 (omega arith) (omega arith)

  pub command-IsReady : IsReady b 1 none none
  unfolding Batch_new Buffer_new
  command-IsReady = record {
    written = adds.writable.valid;
    to_read =
        subst IsWritable (sym (ap (λ (x : Batch). x.read_buffer) adds.only)) read_buffer-IsWritable;
    nothing_read = ap (λ (x : Batch). x.read_buffer.position) adds.only;
    commands = adds.counted;
    no_replies = ap (λ (x : Batch). x.reply_queue) adds.only;
    first_level = ap (λ (x : Batch). x.current_reply_sp) adds.only;
    at_head = ap (λ (x : Batch). x.current_reply) adds.only;
  }

  pub command-Drains :
      (ns : List ℕ) → Parts (length command) ns → Drains (Buffer_flip b.write_buffer) ns
  unfolding Buffer_flip Batch_new Buffer_new
  command-Drains ns parts =
      Parts-Drains (Buffer_flip b.write_buffer) (length command) ns
        (flip-IsValid adds.writable.valid)
        (let m = adds.moved in
          omega (
            arith, m, adds.writable.valid.in_limit, adds.writable.valid.in_capacity,
            adds.writable.valid.small,
          ))
        parts

  pub command-contents : contents b.write_buffer ≡ command
  unfolding Batch_new Buffer_new
  command-contents = adds.appended

  pub command-read_buffer : b.read_buffer ≡ Buffer_new 12288
  unfolding Batch_new
  command-read_buffer = ap (λ (x : Batch). x.read_buffer) adds.only

  pub no_error : b.error ≡ none
  unfolding Batch_new
  no_error = ap (λ (x : Batch). x.error) adds.only

-- What a method comes to: the outcome, the error text that it leaves, exactly the command sent, the
-- connection still connected, and the number of batches that were not freed.
pub record Answered (connection : ℕ) (sent : Bytes) (o : Outcome) (error : Bytes) (unfreed : ℕ)
    (result : Option (Outcome × State)) : Type 0 where
  pub final : State
  pub returned : result ≡ some (o, final)
  pub error_left : final.error ≡ error
  pub freed : final.unfreed ≡ unfreed
  pub all_sent : get_elem? final.world.sent connection ≡ some sent
  pub kept : Connection
  pub current : ℕ
  pub in_store : get_elem? final.world.connections connection ≡ some (kept, current)
  pub still_connected : kept.state ≡ cs_connected

-- A handler that comes to an outcome at every reply that describes `v`
abbrev pub Answers : Handler → Value → Outcome → Type 0
Answers handle v o =
    (b : Batch) (s : State) (no_error : b.error ≡ none) (r : Reply)
    → Describes (Buffer_data b.read_buffer) v r
    → handle_entry handle (entry_of 1 r) b s ≡ some (o, record s { error = error_after v s.error })

at_cursor :
    (handle : Handler) (v : Value) (o : Outcome)
    → Answers handle v o
    → (b : Batch) (c : Cursor) (s : State) (r : Reply) → b.error ≡ none
    → Describes (Buffer_data b.read_buffer) v r
    → handle_entry handle (entry_of 1 r) (standing b c) s
      ≡ some (o, record s { error = error_after v s.error })
at_cursor handle v o h b (at_entry i x y) s r e d = h (standing b (at_entry i x y)) s e r d
at_cursor handle v o h b (at_child i j) s r e d = h (standing b (at_child i j)) s e r d

-- The one reply of an executed batch
pub one_reply :
    (handle : Handler) (v : Value) (o : Outcome)
    → Answers handle v o
    → (i : ℕ) (e : Bytes) (b : Batch) (s : State) (rs : List Reply)
    → get_elem? s.world.batches i ≡ some b
    → b.error ≡ none
    → b ≡ standing b (at_entry 0 none none)
    → b.reply_queue ≡ add_all nil rs
    → DescribesAll (Buffer_data b.read_buffer) ((v, e) ∷ []) rs
    → first_reply i handle s ≡ some (o, record s { error = error_after v s.error })
unfolding add_tail
one_reply handle v o h i e b s [] stored no_error stands queued d = absurd d
one_reply handle v o h i e b s (r ∷ r' ∷ rs) stored no_error stands queued d = absurd d.1
one_reply handle v o h i e b s (r ∷ []) stored no_error stands queued d =
    let (shallow, shows) = value-Shows (Buffer_data b.read_buffer) v r d.0 in
    let (c', run) = next_reply-entry b 0 none none r (ap (λ q. reply_at q 0) queued) shallow in
    let run' = ap (Batch_next_reply true) stands ∙ run in
    rw (stored, run') (at_cursor handle v o h b c' s r no_error d.0)
