-- ===== src/Tests/Counts.antt =====
-- The theorems on the count of the bytes allocated, for a buffer that grows and a ketama with a late server.
use libredis.Base.{ℕ, ◌*◌, ◌≡◌, ltb, refl, some, Bytes, List, [], ◌∷◌, arith, length}
use libredis.Base.Int.{pos}
use libredis.Buffer.{Buffer, Buffer_new, grow_limit, enlarge, as_int, sub_size}
use libredis.Ketama.{Mcs, Ketama, Ketama_new, Ketama_add_server, Ketama_create_continuum}
use libredis.Base.Decimal.{print_onto}
use libredis.Ketama.{all_points, server_points, hash_points, word_at}
use libredis.Ketama.Share.{share, to_float, split, round_to, quotient}
use libredis.Alloc.Buffers.{
  Steps, ensures, ends, goes, has_block, Buffer_new_allocated, Buffer_ensure_remaining_allocated,
  Buffer_free_allocated, free-restores,
}
use libredis.Alloc.Circles.{
  Made, news, adds, creates, Ketama_new_allocated, Ketama_add_server_allocated,
  Ketama_create_continuum_allocated, Ketama_free_allocated, sizeof_points, free-restores_less,
}
use libredis.Tests.{codes}

-- A buffer of 4 bytes that has made room for 5, from a count of 100
abbrev grown_buffer : Buffer
grown_buffer = enlarge (Buffer_new 4) 8

abbrev grown_count : ℕ
grown_count = Buffer_ensure_remaining_allocated (Buffer_new 4) 8 (Buffer_new_allocated 4 100)

grown-Steps : Steps (Buffer_new 4) (Buffer_new_allocated 4 100) grown_buffer grown_count
unfolding Buffer_new grow_limit as_int
grown-Steps =
    goes (Buffer_new 4) grown_buffer grown_buffer (Buffer_new_allocated 4 100) grown_count
      grown_count (ensures (Buffer_new 4) (Buffer_new_allocated 4 100) 5 8 refl)
      (ends grown_buffer grown_count)

free-restores_example :
    (Buffer_free_allocated grown_buffer grown_count ≡ 100)
    × (ltb grown_buffer.buff_size grown_buffer.capacity ≡ has_block grown_buffer)
free-restores_example =
    free-restores 4 100 grown_buffer grown_count (omega arith) (omega arith) grown-Steps

abbrev toy_md5 : Bytes → Bytes
toy_md5 text = length text ∷ 0 ∷ 0 ∷ 0 ∷ 1 ∷ 0 ∷ 0 ∷ 0 ∷ 2 ∷ 0 ∷ 0 ∷ 0 ∷ 3 ∷ 0 ∷ 0 ∷ 0 ∷ []

abbrev toy_sort : List Mcs → List Mcs
toy_sort points = []

-- One server, then the circle, then another server
abbrev one_server : Ketama
one_server = Ketama_add_server Ketama_new (codes "a") (pos 1) 1

abbrev with_circle : Ketama
with_circle = record one_server { numpoints = 160; continuum = some [] }

abbrev with_late : Ketama
with_late = Ketama_add_server with_circle (codes "b") (pos 1) 1

abbrev circle_count : ℕ
circle_count =
    Ketama_create_continuum_allocated one_server
      (Ketama_add_server_allocated Ketama_new (Ketama_new_allocated 5000))

with_late-Made :
    Made toy_md5 toy_sort with_late 5000 (Ketama_add_server_allocated with_circle circle_count) 1
unfolding Ketama_new Ketama_add_server Ketama_create_continuum all_points server_points hash_points
    word_at share to_float split round_to quotient print_onto
with_late-Made =
    adds with_circle 5000 circle_count 0 (codes "b") (pos 1) 1
      (creates one_server with_circle 5000
        (Ketama_add_server_allocated Ketama_new (Ketama_new_allocated 5000)) 0
        (adds Ketama_new 5000 (Ketama_new_allocated 5000) 0 (codes "a") (pos 1) 1 (news 5000)
          (omega arith))
        refl)
      (omega arith)

free-restores_less_example :
    Ketama_free_allocated with_late (Ketama_add_server_allocated with_circle circle_count)
    ≡ sub_size 5000 (1 * sizeof_points)
free-restores_less_example =
    free-restores_less toy_md5 toy_sort with_late 5000
      (Ketama_add_server_allocated with_circle circle_count) 1 (omega arith) with_late-Made
