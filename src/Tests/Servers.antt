-- ===== src/Tests/Servers.antt =====
-- The theorem on libredis/ketama.c at a concrete circle.
use libredis.Base.{
  ℕ, zero, suc, ◌≡◌, refl, none, some, List, [], ◌∷◌, Bytes, arith, get_elem?, length,
}
use libredis.Ketama.{Mcs, Ketama, Ketama_get_server_ordinal, word_at}
use libredis.Ketama.Search.{IsSorted, Owns, get_server_ordinal-owner}
use libredis.Tests.{codes}

abbrev first_point : Mcs
first_point = record { point = 5; ordinal = 1 }

abbrev second_point : Mcs
second_point = record { point = 9; ordinal = 0 }

abbrev two_points : List Mcs
two_points = first_point ∷ second_point ∷ []

two_points-IsSorted : IsSorted two_points
two_points-IsSorted zero zero a b le x y = ground arith
two_points-IsSorted zero (suc zero) a b le x y = ground arith
two_points-IsSorted zero (suc (suc j)) a b le x y = ground arith
two_points-IsSorted (suc zero) zero a b le x y = ground arith
two_points-IsSorted (suc zero) (suc zero) a b le x y = ground arith
two_points-IsSorted (suc zero) (suc (suc j)) a b le x y = ground arith
two_points-IsSorted (suc (suc i)) j a b le x y = ground arith

abbrev two_servers : Ketama
two_servers = record {
  numpoints = 2;
  maxservers = 2;
  memory = 2;
  continuum = some two_points;
  servers = none;
}

-- A digest that begins with the length of the text
abbrev toy_md5 : Bytes → Bytes
toy_md5 key = length key ∷ 0 ∷ 0 ∷ 0 ∷ []

get_server_ordinal-owner_example :
    (n : ℕ) × ((e : Mcs) × (get_elem? two_points n ≡ some e)
      × Owns two_points 6 n e
      × (Ketama_get_server_ordinal toy_md5 two_servers (codes "string") ≡ some (some e.ordinal)))
unfolding word_at
get_server_ordinal-owner_example =
    get_server_ordinal-owner toy_md5 two_servers two_points (codes "string") 6 refl refl
      two_points-IsSorted (omega arith) refl
