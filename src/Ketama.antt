-- ===== src/Ketama.antt =====
-- `Ketama` of libredis/ketama.c: consistent hashing of keys to servers over a sorted circle of
-- points. The MD5 digest (libredis/md5.c, another project's code) and the C library's `qsort` are
-- parameters. Share is the arithmetic on `float`.
pub mod Search
pub mod Circle
pub mod Servers
pub mod Share
use libredis.Base.{
  ℕ, zero, suc, ◌+◌, ◌-◌, ◌*◌, ◌/◌, ◌%◌, ◌^◌, Bool, true, false, ◌&&◌, Option, none, some, List, [],
  ◌∷◌, ◌++◌, Bytes, length, take, get_elem?, map, if◌then◌else◌, ltb, leb, ◌==◌, ◌>>=◌,
}
use libredis.Ketama.Share.{share}
use libredis.Base.Int.{ℤ, pos, negsuc}
use libredis.Base.Decimal.{print_long, print_decimal}

-- `mcs`: a point on the circle, and the server that it belongs to
pub record Mcs : Type 0 where
  pub point : ℕ
  pub ordinal : ℕ

-- `serverinfo`
pub record ServerInfo : Type 0 where
  pub addr : Bytes
  pub memory : ℕ

-- `struct _Ketama`; `numservers` is the length of `servers`, and NULL arrays are `none`.
pub record Ketama : Type 0 where
  pub numpoints : ℕ
  pub maxservers : ℕ
  pub memory : ℕ
  pub continuum : Option (List Mcs)
  pub servers : Option (List ServerInfo)

unfoldable pub Ketama_new : Ketama
Ketama_new = record { numpoints = 0; maxservers = 0; memory = 0; continuum = none; servers = none }

abbrev pub server_list : Ketama → List ServerInfo
server_list k = elim k.servers [ none ↦ [] | some l ↦ l ]

abbrev pub numservers : Ketama → ℕ
numservers k = length (server_list k)

-- ADDR_SIZE with its terminating NUL
abbrev pub max_addr : ℕ
max_addr = 254

abbrev pub server_entry : Bytes → ℤ → ℕ → ServerInfo
server_entry addr port weight = record {
  addr = take max_addr (addr ++ b':' ∷ print_long port);
  memory = weight;
}

-- The array of servers starts with room for one, and doubles. An `unsigned long` has 64 bits.
unfoldable pub Ketama_add_server : Ketama → Bytes → ℤ → ℕ → Ketama
Ketama_add_server k addr port weight =
    let room = elim k.servers as (λ _. ℕ) [ none ↦ 1 | some l ↦ k.maxservers ] in
    record k {
      maxservers = if leb room (numservers k) then (room * 2) % 2 ^ 32 else room;
      servers = some (server_list k ++ server_entry addr port weight ∷ []);
      memory = (k.memory + weight) % 2 ^ 64;
    }

-- The empty text for an ordinal that is no server's
pub Ketama_get_server_address : Ketama → ℤ → Bytes
Ketama_get_server_address k (negsuc n) = []
Ketama_get_server_address k (pos n) = elim (get_elem? (server_list k) n) [
  | none ↦ []
  | some s ↦ s.addr
]

-- Four bytes of a digest from index `i` on, the first one the lowest
unfoldable pub word_at : Bytes → ℕ → Option ℕ
word_at d i = do
  b0 ← get_elem? d i
  b1 ← get_elem? d (i + 1)
  b2 ← get_elem? d (i + 2)
  b3 ← get_elem? d (i + 3)
  some (b3 * 2 ^ 24 + b2 * 2 ^ 16 + b1 * 2 ^ 8 + b0)

-- What a round of the search comes to: the index of the entry whose ordinal is returned, or the new
-- `lowp` and `highp`.
pub data Probe : Type 0 where
  stop : ℕ → Probe
  go : ℕ → ℕ → Probe

-- The tests on `midval` and `midval1`. Where `highp` would be -1, `lowp` is above it.
pub probe : ℕ → ℕ → ℕ → ℕ → ℕ → ℕ → Probe
probe h midval midval1 midp lowp highp =
    if leb h midval && ltb midval1 h
    then stop midp
    else if ltb midval h
    then if ltb highp (midp + 1) then stop 0 else go (midp + 1) highp
    else if midp == 0
    then stop 0
    else if ltb (midp - 1) lowp
    then stop 0
    else go lowp (midp - 1)

-- One round between `lowp` and `highp`; `none` is a read outside the array.
pub probe_at : List Mcs → ℕ → ℕ → ℕ → Option Probe
probe_at mcsarr h lowp highp =
    let midp = (lowp + highp) / 2 in
    if midp == length mcsarr then some (stop 0) else (do
      entry ← get_elem? mcsarr midp
      midval1 ← (if midp == 0 then some 0 else (do e ← get_elem? mcsarr (midp - 1); some e.point))
      some (probe h entry.point midval1 midp lowp highp))

-- `while (1)`; `none` is undefined, or no rounds are left.
pub find_point : ℕ → List Mcs → ℕ → ℕ → ℕ → Option ℕ
find_point zero mcsarr h lowp highp = none
find_point (suc f) mcsarr h lowp highp = elim (probe_at mcsarr h lowp highp) [
  | none ↦ none
  | some (stop i) ↦ some i
  | some (go low high) ↦ find_point f mcsarr h low high
]

module _ (md5 : Bytes → Bytes) where
  abbrev pub Ketama_hashi : Bytes → Option ℕ
  Ketama_hashi key = word_at (md5 key) 0

  -- `none` in the inner option is the result -1.
  pub Ketama_get_server_ordinal : Ketama → Bytes → Option (Option ℕ)
  unfolding find_point word_at
  Ketama_get_server_ordinal k key = elim k.continuum [
    | none ↦ some none
    | some mcsarr ↦ do
      h ← Ketama_hashi key
      i ← find_point (suc (suc (length mcsarr))) mcsarr h 0 k.numpoints
      e ← get_elem? mcsarr i
      some (some e.ordinal)
  ]

  -- The four points of the `j`-th hash of a server
  unfoldable pub hash_points : ServerInfo → ℕ → ℕ → Option (List Mcs)
  unfolding word_at
  hash_points s ordinal j = do
    let digest = md5 (take 265 (s.addr ++ b'-' ∷ print_decimal j))
    p0 ← word_at digest 0
    p1 ← word_at digest 4
    p2 ← word_at digest 8
    p3 ← word_at digest 12
    some (
        map (λ (p : ℕ). let m : Mcs = record { point = p; ordinal = ordinal } in m)
          (p0 ∷ p1 ∷ p2 ∷ p3 ∷ []))

  -- `for (k = 0; k < ks; k++)`, with `n` rounds left
  unfoldable pub server_points : ServerInfo → ℕ → ℕ → ℕ → Option (List Mcs)
  unfolding hash_points
  server_points s ordinal zero j = some []
  server_points s ordinal (suc n) j = do
    four ← hash_points s ordinal j
    more ← server_points s ordinal n (j + 1)
    some (four ++ more)

  module _ (qsort : List Mcs → List Mcs) where
    -- The loop over the servers, from ordinal `i` on. Where the weights are 0 in all, the share is 0/0, which no
    -- integer stands for.
    unfoldable pub all_points : Ketama → List ServerInfo → ℕ → Option (List Mcs)
    unfolding server_points
    all_points k [] i = some []
    all_points k (s ∷ ss) i = do
      ks ← (if k.memory == 0 then none else some (share s.memory k.memory (numservers k)))
      here ← server_points s i ks 0
      later ← all_points k ss (i + 1)
      some (here ++ later)

    -- The array holds 160 points for each server; a write behind it is undefined.
    unfoldable pub Ketama_create_continuum : Ketama → Option Ketama
    unfolding all_points
    Ketama_create_continuum k = elim k.continuum [
      | some c ↦ some k
      | none ↦ if numservers k == 0 then some k else (do
        points ← all_points k (server_list k) 0
        if leb (length points) (numservers k * 160)
            then some (record k { numpoints = length points; continuum = some (qsort points) })
            else none)
    ]
