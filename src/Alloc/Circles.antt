-- ===== src/Alloc/Circles.antt =====
-- What the functions of libredis/ketama.c do to the count of the bytes allocated.
use libredis.Base.{
  ℕ, ◌+◌, ◌-◌, ◌*◌, ◌%◌, ◌^◌, ◌≤◌, ◌<◌, ◌≡◌, inl, inr, Bool, true, false, none, some, Bytes, List,
  [], ◌∷◌, arith, length-append, if◌then◌else◌, ◌==◌, leb, Bool-cases, Option-cases,
}
use libredis.Base.Int.{ℤ}
use libredis.Buffer.{size_mod, sub_size}
use libredis.Ketama.{
  Ketama, Mcs, server_list, numservers, server_entry, Ketama_new, Ketama_add_server,
  Ketama_create_continuum, all_points,
}
use libredis.Alloc.{add_size}

-- `sizeof(Ketama)`, `sizeof(serverinfo)` and the 160 points of a server, where a `long` and a pointer have 8 bytes
abbrev sizeof_ketama : ℕ
sizeof_ketama = 40

abbrev sizeof_serverinfo : ℕ
sizeof_serverinfo = 264

abbrev pub sizeof_points : ℕ
sizeof_points = 8 * 160

-- `allocated` after `Ketama_new`
pub Ketama_new_allocated : ℕ → ℕ
Ketama_new_allocated n = add_size n sizeof_ketama

-- After `Ketama_add_server`: the array of one server at first, and one of twice the size where it is full
pub Ketama_add_server_allocated : Ketama → ℕ → ℕ
Ketama_add_server_allocated k n =
    let room = elim k.servers as (λ _. ℕ) [ none ↦ 1 | some l ↦ k.maxservers ] in
    let with_array = elim k.servers as (λ _. ℕ) [
      | none ↦ add_size n (sizeof_serverinfo * room)
      | some l ↦ n
    ] in
    if leb room (numservers k)
    then add_size (sub_size with_array (sizeof_serverinfo * room))
        (sizeof_serverinfo * ((room * 2) % 2 ^ 32))
    else with_array

-- After `Ketama_create_continuum`
pub Ketama_create_continuum_allocated : Ketama → ℕ → ℕ
Ketama_create_continuum_allocated k n = elim k.continuum [
  | some c ↦ n
  | none ↦ if numservers k == 0 then n else add_size n (numservers k * sizeof_points)
]

-- After `Ketama_free`
pub Ketama_free_allocated : Ketama → ℕ → ℕ
Ketama_free_allocated k n =
    let without_circle = elim k.continuum as (λ _. ℕ) [
      | none ↦ n
      | some c ↦ sub_size n (numservers k * sizeof_points)
    ] in
    let without_servers = elim k.servers as (λ _. ℕ) [
      | none ↦ without_circle
      | some l ↦ sub_size without_circle (k.maxservers * sizeof_serverinfo)
    ] in
    sub_size without_servers sizeof_ketama

abbrev has_circle : Ketama → Bool
has_circle k = elim k.continuum [ none ↦ false | some c ↦ true ]

module _ (md5 : Bytes → Bytes) (qsort : List Mcs → List Mcs) where
  -- Calls on a ketama, with the count before and after them; `late` of the servers have been added once the circle
  -- was there.
  pub data Made : Ketama → ℕ → ℕ → ℕ → Type 0 where
    news : (n : ℕ) → Made Ketama_new n (Ketama_new_allocated n) 0
    adds :
        (k : Ketama) (n m late : ℕ) (addr : Bytes) (port : ℤ) (weight : ℕ)
        → Made k n m late
        → numservers k < 2 ^ 30
        → Made
            (Ketama_add_server k addr port weight)
            n
            (Ketama_add_server_allocated k m)
            (if has_circle k then late + 1 else late)
    creates :
        (k made : Ketama) (n m late : ℕ)
        → Made k n m late
        → Ketama_create_continuum md5 qsort k ≡ some made
        → Made made n (Ketama_create_continuum_allocated k m) late

  abbrev servers_size : Ketama → ℕ
  servers_size k = elim k.servers as (λ _. ℕ) [
    | none ↦ 0
    | some l ↦ k.maxservers * sizeof_serverinfo
  ]

  abbrev circle_size : Ketama → ℕ → ℕ
  circle_size k late = if has_circle k then (numservers k - late) * sizeof_points else 0

  record IsCounted (k : Ketama) (n m late : ℕ) : Type 0 where
    added : late ≤ numservers k
    before : has_circle k ≡ false → late ≡ 0
    few : numservers k ≤ 2 ^ 30
    few_places : k.maxservers < 2 ^ 32
    count : m ≡ (n + sizeof_ketama + servers_size k + circle_size k late) % size_mod

  add-IsCounted :
      (k : Ketama) (n m late : ℕ) (addr : Bytes) (port : ℤ) (weight : ℕ)
      → numservers k < 2 ^ 30
      → IsCounted k n m late
      → IsCounted
          (Ketama_add_server k addr port weight)
          n
          (Ketama_add_server_allocated k m)
          (if has_circle k then late + 1 else late)
  unfolding Ketama_add_server Ketama_add_server_allocated
  add-IsCounted k n m late addr port weight h v =
      let size = length-append (server_list k) (server_entry addr port weight ∷ []) in
      elim (Option-cases k.servers) [
        | inl no_servers ↦ elim (Option-cases k.continuum) [
          | inl no_circle ↦ ground (arith, size, no_servers, no_circle)
          | inr (c, circle) ↦ ground (arith, size, no_servers, circle)
        ]
        | inr (l, servers) ↦ elim (Option-cases k.continuum) [
          | inl no_circle ↦ ground (arith, size, servers, no_circle)
          | inr (c, circle) ↦ ground (arith, size, servers, circle)
        ]
      ]

  create-IsCounted :
      (k made : Ketama) (n m late : ℕ)
      → Ketama_create_continuum md5 qsort k ≡ some made
      → IsCounted k n m late
      → IsCounted made n (Ketama_create_continuum_allocated k m) late
  unfolding Ketama_create_continuum Ketama_create_continuum_allocated
  create-IsCounted k made n m late e v = elim (Option-cases k.continuum) [
    | inr (c, circle) ↦ ground (arith, e, circle)
    | inl no_circle ↦ elim (Bool-cases (numservers k == 0)) [
      | inl none_yet ↦ ground (arith, e, no_circle, none_yet)
      | inr some_there ↦ elim (Option-cases (all_points md5 qsort k (server_list k) 0)) [
        | inl outside ↦ ground (arith, e, no_circle, some_there, outside)
        | inr (points, made_of) ↦ ground (arith, e, no_circle, some_there, made_of)
      ]
    ]
  ]

  free-IsCounted :
      (k : Ketama) (n m late : ℕ)
      → IsCounted k n m late
      → n < size_mod
      → Ketama_free_allocated k m ≡ sub_size n (late * sizeof_points)
  unfolding Ketama_free_allocated
  free-IsCounted k n m late v small = elim (Option-cases k.continuum) [
    | inl no_circle ↦ elim (Option-cases k.servers) [
      | inl no_servers ↦ ground (arith, no_circle, no_servers)
      | inr (l, servers) ↦ ground (arith, no_circle, servers)
    ]
    | inr (c, circle) ↦ elim (Option-cases k.servers) [
      | inl no_servers ↦ ground (arith, circle, no_servers)
      | inr (l, servers) ↦ ground (arith, circle, servers)
    ]
  ]

  Made-IsCounted : (k : Ketama) (n m late : ℕ) → Made k n m late → IsCounted k n m late
  unfolding Ketama_new Ketama_new_allocated
  Made-IsCounted _ _ _ _ (news n) = ground arith
  Made-IsCounted _ _ _ _ (adds k n m late addr port weight made few) =
      add-IsCounted k n m late addr port weight few (Made-IsCounted k n m late made)
  Made-IsCounted _ _ _ _ (creates k made n m late before e) =
      create-IsCounted k made n m late e (Made-IsCounted k n m late before)

  -- After any series of calls of `Ketama_add_server` (on fewer than 2^30 servers) and `Ketama_create_continuum` on
  -- a new ketama, made at the count `n`: `Ketama_free` brings the count back to `n`, less the 1280 bytes of 160
  -- points for each server that was added once the circle was there.
  pub free-restores_less :
      (k : Ketama) (n m late : ℕ)
      → n < size_mod
      → Made k n m late
      → Ketama_free_allocated k m ≡ sub_size n (late * sizeof_points)
  free-restores_less k n m late small made =
      free-IsCounted k n m late (Made-IsCounted k n m late made) small
