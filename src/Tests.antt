-- ===== src/Tests.antt =====
-- Runs of the parser of libredis/parser.c at concrete inputs. The children apply the theorems at some.
mod Replies
mod Buffers
mod Connections
mod Servers
mod Lives
mod Objects
mod Lists
mod Circles
mod Counts
mod Reads
mod Executors
mod Walks
mod Exchanges
mod Methods
mod Allocs
mod Registries
mod Php
use Prim.Native.Char.{code}
use Prim.Native.String.{String}
use libredis.Base.{ℕ, ◌≡◌, refl, Option, none, some, Bytes, [], ◌∷◌, length}
use libredis.Reply.{
  Reply_add_child, add_tail, reply, nil, cons, rt_ok, rt_bulk, rt_bulk_nil, rt_multibulk,
  read_buffer, null_buffer,
}
use libredis.Parser.{
  ReplyParser, ReplyParser_reset, ReplyParser_execute, atoi_from, Result, rpr_reply, s0,
}

abbrev pub codes : String → Bytes
codes String.[] = []
codes (String.◌∷◌ c s) = code c ∷ codes s

abbrev pub fresh : ReplyParser
fresh = ReplyParser_reset (record {
  p = 0;
  cs = s0;
  bulk_count = 0;
  multibulk_count = 0;
  multibulk_reply = none;
  mark = 0;
})

abbrev results : Bytes → Option Result
results bs = elim (ReplyParser_execute fresh bs (length bs)) [ none ↦ none | some x ↦ some x.0 ]

run_line : results (codes "+OK\r\n") ≡ some (rpr_reply (reply rt_ok read_buffer 1 2 nil))
unfolding ReplyParser_execute atoi_from Reply_add_child add_tail
run_line = refl

run_multibulk :
    results (codes "*2\r\n$5\r\nblaat\r\n$-1\r\n")
    ≡ some (
        rpr_reply (
          reply rt_multibulk null_buffer 0 2 (
            cons
              (reply rt_bulk read_buffer 8 5 nil)
              (cons (reply rt_bulk_nil read_buffer 0 0 nil) nil))))
unfolding ReplyParser_execute atoi_from Reply_add_child add_tail
run_multibulk = refl
