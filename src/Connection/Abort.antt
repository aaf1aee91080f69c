-- ===== src/Connection/Abort.antt =====
-- `Connection_abort`: the connection is closed, and its batch answered.
use libredis.Base.{
  zero, suc, if◌then◌else◌, ◌-◌, ◌^◌, ◌<◌, ◌≡◌, ◌≢◌, refl, sym, ap, ◌∙◌, ◌⊎◌, inl, inr, true, false,
  none, some, Bytes, arith, length, take, length-take,
}
use libredis.Base.Int.{ℤ, pos, negsuc, is_positive}
use libredis.Batch.Abort.{abort_lem, with_copies, error_reply}
use libredis.Connection.{
  Connection, ConnectionState, cs_closed, cs_connecting, cs_connected, cs_aborted, Io,
  Connection_abort, abort_in, abort_open, Connection_close, error_text, long_error_text,
  max_error_text,
}

take-short : (xs : Bytes) → length (take max_error_text xs) < 2 ^ 31 - 1
take-short xs = omega (arith, length-take max_error_text xs)

error_text-short : (c : Connection) (text : Bytes) → length (error_text c text) < 2 ^ 31 - 1
unfolding error_text
error_text-short c text = take-short (long_error_text c text)

-- What an abort leaves, where the connection was not aborted before
pub record HasAborted (s : Io) (text : Bytes) (s' : Io) : Type 0 where
  pub aborted : s'.connection.state ≡ cs_aborted
  pub detached : s'.connection.has_batch ≡ false
  pub closed : is_positive s'.connection.sockfd ≡ false
  pub freed : s'.connection.addrinfo ≡ false
  pub answered : s'.batch.num_commands ≡ 0
  pub errors :
      s'.batch.reply_queue
      ≡ with_copies s.batch.num_commands
          (error_reply (error_text s.connection text))
          s.batch.reply_queue
  pub same_buffer : s'.batch.write_buffer ≡ s.batch.write_buffer
  pub same_sent : s'.sent ≡ s.sent
  pub same_answers : s'.answers ≡ s.answers
  pub same_fds : s'.fds ≡ s.fds

positive-closed : (z : ℤ) → is_positive (if is_positive z then pos 0 else z) ≡ false
positive-closed (pos zero) = refl
positive-closed (pos (suc n)) = refl
positive-closed (negsuc n) = refl

closed_socket : (c : Connection) → is_positive (Connection_close c).sockfd ≡ false
unfolding Connection_close
closed_socket c = positive-closed c.sockfd

freed_list : (c : Connection) → (Connection_close c).addrinfo ≡ false
unfolding Connection_close
freed_list c = refl

abort_open-HasAborted :
    (text : Bytes) (s : Io)
    → s.connection.has_batch ≡ true
    → (s' : Io) × (abort_open text s ≡ some (tt, s')) × HasAborted s text s'
unfolding abort_open Connection_close error_text error_text-short
abort_open-HasAborted text s has =
    let (b, e, none_left, errors, same, error) =
      abort_lem s.batch (error_text s.connection text) (error_text-short s.connection text) in
    (
      record s {
        batch = b;
        connection = record (Connection_close s.connection) {
          has_batch = false;
          state = cs_aborted;
        };
      },
      rw (abort_open, has, e) refl,
      record {
        aborted = refl;
        detached = refl;
        closed = closed_socket s.connection;
        freed = freed_list s.connection;
        answered = none_left;
        errors = errors;
        same_buffer = same;
        same_sent = refl;
        same_answers = refl;
        same_fds = refl;
      },
    )

cs_closed-open : cs_closed ≢ cs_aborted
cs_closed-open = ground arith

cs_connecting-open : cs_connecting ≢ cs_aborted
cs_connecting-open = ground arith

cs_connected-open : cs_connected ≢ cs_aborted
cs_connected-open = ground arith

pub state-cases : (st : ConnectionState) → (st ≢ cs_aborted) ⊎ (st ≡ cs_aborted)
state-cases cs_closed = inl cs_closed-open
state-cases cs_connecting = inl cs_connecting-open
state-cases cs_connected = inl cs_connected-open
state-cases cs_aborted = inr refl

-- A connection that is not aborted has a batch, as it has during a call of `Executor_execute`.
abbrev pub HasBatch : Connection → Type 0
HasBatch c = c.state ≢ cs_aborted → c.has_batch ≡ true

by_state :
    (text : Bytes) (s : Io) (st : ConnectionState)
    → HasBatch s.connection
    → s.connection.state ≡ st
    → (s' : Io) × (Connection_abort text s ≡ some (tt, s'))
      × (s.connection.state ≢ cs_aborted → HasAborted s text s')
      × (s.connection.state ≡ cs_aborted → s' ≡ s)
unfolding Connection_abort
by_state text s cs_aborted w h =
    (s, ap (λ (st : ConnectionState). abort_in st text s) h, (λ no. absurd (no h)), (λ yes. refl))
by_state text s cs_closed w h =
    let (s', e, a) = abort_open-HasAborted text s (w (λ yes. cs_closed-open (sym h ∙ yes))) in
    (
      s',
      ap (λ (st : ConnectionState). abort_in st text s) h ∙ e,
      (λ no. a),
      (λ yes. absurd (cs_closed-open (sym h ∙ yes))),
    )
by_state text s cs_connecting w h =
    let (s', e, a) = abort_open-HasAborted text s (w (λ yes. cs_connecting-open (sym h ∙ yes))) in
    (
      s',
      ap (λ (st : ConnectionState). abort_in st text s) h ∙ e,
      (λ no. a),
      (λ yes. absurd (cs_connecting-open (sym h ∙ yes))),
    )
by_state text s cs_connected w h =
    let (s', e, a) = abort_open-HasAborted text s (w (λ yes. cs_connected-open (sym h ∙ yes))) in
    (
      s',
      ap (λ (st : ConnectionState). abort_in st text s) h ∙ e,
      (λ no. a),
      (λ yes. absurd (cs_connected-open (sym h ∙ yes))),
    )

no_batch_in :
    (text : Bytes) (s : Io) (st : ConnectionState)
    → st ≢ cs_aborted
    → s.connection.has_batch ≡ false
    → abort_in st text s ≡ none
unfolding abort_open
no_batch_in text s cs_aborted ne none_there = absurd (ne refl)
no_batch_in text s cs_closed ne none_there = rw (abort_open, none_there) refl
no_batch_in text s cs_connecting ne none_there = rw (abort_open, none_there) refl
no_batch_in text s cs_connected ne none_there = rw (abort_open, none_there) refl

pub connection_abort-no_batch :
    (text : Bytes) (s : Io)
    → s.connection.state ≢ cs_aborted
    → s.connection.has_batch ≡ false
    → Connection_abort text s ≡ none
unfolding Connection_abort
connection_abort-no_batch text s ne none_there = no_batch_in text s s.connection.state ne none_there

pub connection_abort-run :
    (text : Bytes) (s : Io)
    → HasBatch s.connection
    → (s' : Io) × (Connection_abort text s ≡ some (tt, s'))
      × (s.connection.state ≢ cs_aborted → HasAborted s text s')
      × (s.connection.state ≡ cs_aborted → s' ≡ s)
connection_abort-run text s w = by_state text s s.connection.state w refl

-- `Connection_abort` on a connection that is not aborted and has a current batch succeeds: the
-- connection is aborted, its socket is closed, its address list is freed, it has no batch any more, and
-- every command of the batch that waited for a reply has an error reply at the end of the queue.
-- On one that is aborted it changes nothing; on one that is not aborted and has no batch, as
-- `Connection_new` leaves it, it is undefined.
pub connection_abort-HasAborted :
    (text : Bytes) (s : Io)
    → (s.connection.state ≢ cs_aborted
        → s.connection.has_batch ≡ true
        → (s' : Io) × (Connection_abort text s ≡ some (tt, s')) × HasAborted s text s')
      × (s.connection.state ≢ cs_aborted
          → s.connection.has_batch ≡ false
          → Connection_abort text s ≡ none)
      × (s.connection.state ≡ cs_aborted → Connection_abort text s ≡ some (tt, s))
connection_abort-HasAborted text s = (
  (λ ne has.
      let (s', e, opened, shut) = connection_abort-run text s (λ ne'. has) in (s', e, opened ne)),
  connection_abort-no_batch text s,
  (λ aborted.
      let (s', e, opened, shut) = connection_abort-run text s (λ ne. absurd (ne aborted)) in
      e ∙ ap (λ (x : Io). some (tt, x)) (shut aborted)),
)

-- An abort sends nothing, and takes nothing from the write buffer.
pub connection_abort-same :
    (text : Bytes) (s : Io)
    → HasBatch s.connection
    → (s' : Io) × (Connection_abort text s ≡ some (tt, s'))
      × (s'.batch.write_buffer ≡ s.batch.write_buffer)
      × (s'.sent ≡ s.sent)
connection_abort-same text s w =
    let (s', e, opened, shut) = connection_abort-run text s w in
    elim (state-cases s.connection.state) [
      | inl other ↦ let a = opened other in (s', e, a.same_buffer, a.same_sent)
      | inr aborted ↦ (
        s',
        e,
        ap (λ (x : Io). x.batch.write_buffer) (shut aborted),
        ap (λ (x : Io). x.sent) (shut aborted),
      )
    ]
