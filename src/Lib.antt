-- ===== src/Lib.antt =====
-- libredis: a C client library for the Redis server.
--
-- The program. A `Batch` collects commands as text in a write buffer and, later, the replies to them. A
-- `Connection` sends the write buffer of its current batch over a non-blocking socket, receives into
-- the batch's read buffer, and hands what has arrived to its `ReplyParser`, which cuts it into replies
-- that point into that buffer. An `Executor` runs several connections, each with a batch, under `poll`
-- until no event is left or the time is over. `Ketama` chooses the server for a key. The extension for
-- PHP makes methods of these functions, and keeps the text of the last error.
--
-- The files, each with the part of the repository that it models:
--   Base        shared names; lists over the native numbers, signed numbers, decimal digits
--   Reply       libredis/batch.c and redis.h: `Reply`, with the list of its children as a sequence
--   Parser      libredis/parser.c: `ReplyParser_execute`, a function for each kind of case of its switch.
--               Run has the rounds, Valid the invariant, Rounds, Resume and Arrival the arrival in pieces;
--               Wire says what a server sends, Pieces, Items and RoundTrip read it, Accepted (with
--               Accepted/Steps, Accepted/Initial, Accepted/Counts, Accepted/Sound and
--               Accepted/Verdict) is on what the machine takes for a reply, and Digits on the digits
--               that are printed.
--   Buffer      libredis/buffer.c. Grow has the invariant and the loop that makes room, Write the writing,
--               Socket the sending and receiving.
--   Batch       libredis/batch.c: the commands, the replies and the abort. Next is the walk of
--               `Batch_next_reply`; Commands, Abort, Reuse, Walk and Levels (with Levels/Calls
--               and Levels/ReadAll) have the theorems.
--   Connection  libredis/connection.c: the states, closing and abort. Address is `Connection_new`, Write is
--               `Connection_create_socket` and `Connection_write_data`, Read is `Connection_read_data`
--               and the handler of events. Abort, Split, Write/Sends and Read/Failed have theorems;
--               Write/Complete, Read/Steps, Read/Stream, Read/Pipeline, Read/Delivers and Read/Values
--               follow the commands out, the replies in, and the replies to the client. States,
--               Write/States, Read/States and Read/Life follow the states of a connection.
--   Executor    libredis/connection.c: `Executor`, with connections and batches in a store. Step and
--               Timeout have the theorem on a turn that fails, Exchange the one on a whole run.
--   Ketama      libredis/ketama.c. Share is the arithmetic on `float`, with its error in Share/Bounds.
--               Servers has the list of servers, Search the binary search, Circle
--               the making of the circle.
--   Alloc       libredis/alloc.h: the count of the bytes, the free list of a type, and `Reply_free` of
--               libredis/batch.c, in both builds. Pool, Frees and Final have the theorems; Buffers and
--               Circles follow the count through libredis/buffer.c and libredis/ketama.c.
--   Module      libredis/module.c: the functions for memory and the error text
--   Php         php/ext/libredis/libredis.c: `Batch_cmd`, with the theorem in Command. Error is the last
--               error, Reply is `Batch::next_reply` with Reply/Values, Methods are the methods that
--               execute a batch, with Methods/Answers and Methods/Results, and Connections is the
--               table of `Redis::get_connection`, with the theorem in Connections/Table. Objects has the
--               objects of a request and the tables that keep them, Objects/Calls the calls of a script
--               and its end; Counts, Owned, Destruct, Calls/Keeps, Calls/Unfreed and
--               Calls/Request have the theorems.
--   Tests       runs, and the theorems at concrete inputs
--
-- State is passed along: an operation takes a record and returns the new one, under the name of the C
-- function. An `Option` that is `none` stands for what C leaves undefined (a read or write outside a
-- block, a NULL pointer), or for a loop that never ends; the handlers of a connection are steps on the
-- record `Io`, which holds the connection, its batch, the executor's entries, the answers of the
-- operating system that are left, and the bytes that were sent.
--
-- Bounds. `size_t` and `unsigned long` have 64 bits and `int` 32, and where they wrap the remainder is
-- written out. Fuel: `ReplyParser_execute` has a round for each byte left, as a round that goes on takes
-- a byte; the loop of `Buffer_ensure_remaining` has 65 rounds, after which the limit is 0 for good; the
-- loops of a connection have a round for each answer (and each command), as a round takes one; the
-- binary search has two more than there are points, as a round drops one; a `float` is split with 256 rounds, one for
-- each bit that a number may have beyond 24. The numbers of points and of
-- events are taken to fit an `int`.
--
-- Not modelled: the addresses of buffers, batches and connections, and running out of memory; the text of
-- dumps and of debugging; the list of libredis/list.h (a sequence here). Of the binding for PHP, what PHP
-- itself does is left out (the arguments are checked and converted, and objects found, before a method
-- of the model begins; its tables are lists of keys; an error of level E_ERROR ends the script), and so are
-- the start and the end of the process. The MD5 digest
-- and `qsort` are parameters of Ketama; the operating system is a script of
-- answers, and the clock and `poll` a list of turns.
pub mod Base
pub mod Reply
pub mod Parser
pub mod Buffer
pub mod Batch
pub mod Connection
pub mod Executor
pub mod Ketama
pub mod Alloc
pub mod Module
pub mod Php
mod Tests
