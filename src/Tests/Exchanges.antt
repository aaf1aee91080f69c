-- ===== src/Tests/Exchanges.antt =====
-- The theorem on a whole run of `Executor_execute`, at a SET and a GET whose bytes go out in two parts.
use libredis.Base.{refl, true, false, none, some, [], ◌∷◌, ◌++◌, arith, replicate, inl}
use libredis.Base.Int.{pos}
use libredis.Buffer.{Buffer, Buffer_new, Buffer_send, Buffer_flip}
use libredis.Buffer.Grow.{IsValid, new-IsWritable}
use libredis.Reply.{nil}
use libredis.Batch.{Batch, head_node}
use libredis.Connection.{Connection, cs_connected, write_answer, read_answer}
use libredis.Executor.{Pair, World, Executor_execute, polled}
use libredis.Executor.Exchange.{IsReady, readable, Exchanged, execute-Exchanged}
use libredis.Tests.{codes, fresh}
use libredis.Tests.Reads.{two_pieces, two_values, two_pieces-Arrive, two_values-AllEncode}

abbrev commands : Buffer
commands = record {
  position = 20;
  limit = 24;
  capacity = 24;
  buff_size = 24;
  buff = codes "SET k 2\r\nab\r\nGET k\r\n" ++ replicate 4 0;
  grown = none;
}

abbrev two_commands : Batch
two_commands = record {
  num_commands = 2;
  reply_queue = nil;
  write_buffer = commands;
  read_buffer = Buffer_new 64;
  current_reply_sp = 0;
  current_reply = some head_node ∷ some head_node ∷ none ∷ none ∷ [];
  error = none;
}

abbrev pub server : Connection
server = record {
  addr = codes "localhost";
  serv = codes "6379";
  addrinfo = true;
  sockfd = pos 3;
  state = cs_connected;
  has_batch = false;
  parser = fresh;
}

abbrev only_pair : Pair
only_pair = record { batch = 0; connection = 0 }

abbrev one_pair : World
one_pair = record {
  connections = (server, 7) ∷ [];
  batches = two_commands ∷ [];
  executor = record {
    numevents = pos 0;
    fds = record { fd = pos 0; pollin = false; pollout = false } ∷ [];
    pairs = only_pair ∷ [];
  };
  answers =
      write_answer 10
      ∷ write_answer 10
      ∷ read_answer (codes "+OK\r\n$2")
      ∷ read_answer (codes "\r\nab\r\n")
      ∷ [];
  sent = [] ∷ [];
}

commands-IsValid : IsValid commands
commands-IsValid = record {
  buff_len = refl;
  size_pos = omega arith;
  block = inl (refl, refl);
  in_limit = omega arith;
  in_capacity = omega arith;
  small = omega arith;
}

two_commands-IsReady : IsReady two_commands 2 none none
unfolding Buffer_new
two_commands-IsReady = record {
  written = commands-IsValid;
  to_read = new-IsWritable 64 (omega arith) (omega arith);
  nothing_read = refl;
  commands = refl;
  no_replies = refl;
  first_level = refl;
  at_head = refl;
}

execute-Exchanged_example :
    Exchanged one_pair only_pair two_commands [] two_values none none
      (Executor_execute (polled (pos 1) (readable ∷ []) ∷ []) one_pair)
unfolding Buffer_send Buffer_flip
execute-Exchanged_example =
    execute-Exchanged one_pair only_pair server 7 two_commands [] _ two_values (10 ∷ 10 ∷ [])
      two_pieces none none refl refl refl refl refl refl two_commands-IsReady (omega arith) refl
      (omega arith, omega arith, (omega arith, omega arith, refl)) two_pieces-Arrive
      two_values-AllEncode refl
