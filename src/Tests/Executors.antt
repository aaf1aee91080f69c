-- ===== src/Tests/Executors.antt =====
-- The theorem on `Executor_execute` at three pairs.
use libredis.Base.{inl, inr, ℕ, ◌≡◌, ◌≢◌, refl, true, false, none, some, [], ◌∷◌, arith}
use libredis.Base.Int.{pos}
use libredis.Buffer.{Buffer_new}
use libredis.Reply.{nil}
use libredis.Batch.{Batch}
use libredis.Connection.{
  Connection, ConnectionState, cs_connected, cs_connecting, cs_aborted, PollFd,
}
use libredis.Executor.{Pair, World, no_time, execute_loop}
use libredis.Executor.Step.{Works}
use libredis.Executor.Timeout.{AllAnswered, execute_loop-AllAnswered}
use libredis.Tests.{codes, fresh}

abbrev busy : ConnectionState → Connection
busy st = record {
  addr = codes "localhost";
  serv = codes "6379";
  addrinfo = true;
  sockfd = pos 3;
  state = st;
  has_batch = true;
  parser = fresh;
}

abbrev waiting : ℕ → Batch
waiting n = record {
  num_commands = n;
  reply_queue = nil;
  write_buffer = Buffer_new 8;
  read_buffer = Buffer_new 8;
  current_reply_sp = 0;
  current_reply = [];
  error = none;
}

abbrev first_pair : Pair
first_pair = record { batch = 0; connection = 0 }

abbrev second_pair : Pair
second_pair = record { batch = 1; connection = 1 }

abbrev entry : PollFd
entry = record { fd = pos 3; pollin = true; pollout = false }

-- The connection of a third pair has been aborted, and its batch answered.
abbrev third_pair : Pair
third_pair = record { batch = 2; connection = 2 }

abbrev three_pairs : World
three_pairs = record {
  connections =
      (busy cs_connected, 0)
      ∷ (busy cs_connecting, 1)
      ∷ (record (busy cs_aborted) { has_batch = false; sockfd = pos 0; addrinfo = false }, 2)
      ∷ [];
  batches = waiting 2 ∷ waiting 1 ∷ waiting 0 ∷ [];
  executor = record {
    numevents = pos 2;
    fds = entry ∷ entry ∷ entry ∷ [];
    pairs = first_pair ∷ second_pair ∷ third_pair ∷ [];
  };
  answers = [];
  sent = [] ∷ [] ∷ [] ∷ [];
}

connected-open : cs_connected ≢ cs_aborted
connected-open = ground arith

connecting-open : cs_connecting ≢ cs_aborted
connecting-open = ground arith

first-Works : Works three_pairs first_pair
first-Works = record {
  connection = busy cs_connected;
  batch = waiting 2;
  sent = [];
  connected = refl;
  stored = refl;
  sending = refl;
  not_aborted = connected-open;
  has_batch = refl;
}

second-Works : Works three_pairs second_pair
second-Works = record {
  connection = busy cs_connecting;
  batch = waiting 1;
  sent = [];
  connected = refl;
  stored = refl;
  sending = refl;
  not_aborted = connecting-open;
  has_batch = refl;
}

execute_loop-AllAnswered_example :
    (w' : World) × (execute_loop (no_time ∷ []) (pos 1) three_pairs ≡ some (pos 0, w'))
    × AllAnswered w' (first_pair ∷ second_pair ∷ third_pair ∷ [])
execute_loop-AllAnswered_example =
    execute_loop-AllAnswered no_time [] (pos 1) three_pairs refl refl
      (
        inl first-Works,
        ((λ e. ground arith), ((λ e. ground arith), tt)),
        (inl second-Works, ((λ e. ground arith), tt), (inr (waiting 0, refl, refl), tt, tt)),
      )
      (omega arith)
