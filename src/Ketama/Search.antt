-- ===== src/Ketama/Search.antt =====
-- The search of `Ketama_get_server_ordinal` on a sorted circle: the first point at or above the hash,
-- and the first of all where there is none.
use libredis.Base.{
  ℕ, zero, suc, ◌+◌, ◌-◌, ◌/◌, ◌≤◌, ◌<◌, ◌≡◌, ◌≢◌, ◌⊎◌, inl, inr, refl, ap, some, Bytes, List, [],
  ◌∷◌, arith, length, get_elem?, get_elem?-total, get_elem?-some-lt, if◌then◌else◌, ltb, ◌==◌,
  Bool-cases, ltb→lt, ltb→ge, ==_iff,
}
use libredis.Ketama.{
  Ketama, Ketama_get_server_ordinal, word_at, Mcs, Probe, stop, go, probe, probe_at, find_point,
}

-- The points rise along the circle.
abbrev pub IsSorted : List Mcs → Type 0
IsSorted ps =
    (i j : ℕ) (a b : Mcs)
    → i ≤ j
    → get_elem? ps i ≡ some a
    → get_elem? ps j ≡ some b
    → a.point ≤ b.point

-- The number of points below `h` at the front
pub first_at_least : List Mcs → ℕ → ℕ
first_at_least [] h = 0
first_at_least (p ∷ ps) h = let n = first_at_least ps h in if ltb p.point h then suc n else 0

-- The entry that `h` belongs to: the next point on the circle
abbrev pub successor : List Mcs → ℕ → ℕ
successor ps h = let n = first_at_least ps h in if n == length ps then 0 else n

pub first_at_least-le : (ps : List Mcs) (h : ℕ) → first_at_least ps h ≤ length ps
unfolding first_at_least
first_at_least-le [] h = omega arith
first_at_least-le (p ∷ ps) h = ground (arith, first_at_least-le ps h)

pub below_first :
    (ps : List Mcs) (h i : ℕ) (a : Mcs)
    → get_elem? ps i ≡ some a
    → i < first_at_least ps h
    → a.point < h
unfolding first_at_least
below_first [] h i a e lt = ground arith
below_first (p ∷ ps) h zero a e lt = ground arith
below_first (p ∷ ps) h (suc i) a e lt = ground (arith, below_first ps h i a e)

pub at_first :
    (ps : List Mcs) (h : ℕ) (a : Mcs) → get_elem? ps (first_at_least ps h) ≡ some a → h ≤ a.point
unfolding first_at_least
at_first [] h a e = ground arith
at_first (p ∷ ps) h a e = elim (Bool-cases (ltb p.point h)) [
  | inl lt ↦ at_first ps h a (rw lt at e)
  | inr ge ↦ let e' : some p ≡ some a = rw ge at e in ground (arith, ltb→ge _ _ ge)
]

pub above_first :
    (ps : List Mcs) (h i : ℕ) (a : Mcs)
    → IsSorted ps
    → get_elem? ps i ≡ some a
    → first_at_least ps h ≤ i
    → h ≤ a.point
above_first ps h i a sorted e le =
    let (b, there) =
      get_elem?-total ps (first_at_least ps h) (omega (arith, get_elem?-some-lt ps i e)) in
    let first = at_first ps h b there in
    let later = sorted (first_at_least ps h) i b a le there e in omega arith

-- `high` bounds the search from above, `size` the rounds that are left.
module _ (ps : List Mcs) (h : ℕ) (sorted : IsSorted ps) where
  abbrev Keeps : ℕ → Probe → Type 0
  Keeps size (stop i) = i ≡ successor ps h
  Keeps size (go low high) =
      (low ≤ first_at_least ps h)
      × (first_at_least ps h ≤ high)
      × (high ≤ length ps)
      × (high - low < size)

  probe-Keeps :
      (mid low high prev : ℕ) (a : Mcs)
      → low ≤ first_at_least ps h
      → first_at_least ps h ≤ high
      → high ≤ length ps
      → low ≤ mid
      → mid ≤ high
      → mid < length ps
      → (a.point < h → mid < first_at_least ps h)
      → (h ≤ a.point → first_at_least ps h ≤ mid)
      → ((mid ≡ 0) × (prev ≡ 0))
        ⊎ ((mid ≢ 0)
            × (prev < h → mid ≤ first_at_least ps h)
            × (h ≤ prev → first_at_least ps h < mid))
      → Keeps (high - low) (probe h a.point prev mid low high)
  unfolding probe
  probe-Keeps mid low high prev a l m n lm mh lt below above (inl (z, p)) = ground arith
  probe-Keeps mid low high prev a l m n lm mh lt below above (inr (nz, below', above')) =
      ground arith

  lt_first : (i : ℕ) (a : Mcs) → get_elem? ps i ≡ some a → a.point < h → i < first_at_least ps h
  lt_first i a e lt = elim (Bool-cases (ltb i (first_at_least ps h))) [
    | inl l ↦ ltb→lt _ _ l
    | inr ge ↦ let le = above_first ps h i a sorted e (ltb→ge _ _ ge) in omega arith
  ]

  first_le : (i : ℕ) (a : Mcs) → get_elem? ps i ≡ some a → h ≤ a.point → first_at_least ps h ≤ i
  first_le i a e le = elim (Bool-cases (ltb i (first_at_least ps h))) [
    | inl l ↦ let lt = below_first ps h i a e (ltb→lt _ _ l) in omega arith
    | inr ge ↦ ltb→ge _ _ ge
  ]

  probe_at-Keeps :
      (low high : ℕ)
      → low ≤ first_at_least ps h
      → first_at_least ps h ≤ high
      → high ≤ length ps
      → (q : Probe) × (probe_at ps h low high ≡ some q) × Keeps (high - low) q
  unfolding probe_at
  probe_at-Keeps low high l m n =
      let mid = (low + high) / 2 in
      elim (Bool-cases (mid == length ps)) [
        | inl end ↦
            let e = (==_iff mid (length ps)).0 end in
            let last : first_at_least ps h ≡ length ps = omega arith in
            let there = (==_iff (first_at_least ps h) (length ps)).1 last in
            (stop 0, rw end, rw there)
        | inr inside ↦
            let lt : mid < length ps = ground arith in
            let (a, there) = get_elem?-total ps mid lt in
            elim (Bool-cases (mid == 0)) [
              | inl first ↦ (
                probe h a.point 0 mid low high,
                rw (inside, there, first),
                probe-Keeps mid low high 0 a l m n (omega arith) (omega arith) lt
                    (lt_first mid a there) (first_le mid a there)
                    (inl ((==_iff mid 0).0 first, refl)),
              )
              | inr later ↦
                  let pos : mid ≢ 0 = ground arith in
                  let (b, before) = get_elem?-total ps (mid - 1) (omega arith) in
                  (
                    probe h a.point b.point mid low high,
                    rw (inside, there, later, before),
                    probe-Keeps mid low high b.point a l m n (omega arith) (omega arith) lt
                        (lt_first mid a there) (first_le mid a there)
                        (inr (
                          pos,
                          (λ lt. let k = lt_first (mid - 1) b before lt in omega arith),
                          (λ le. let k = first_le (mid - 1) b before le in omega arith),
                        )),
                  )
            ]
      ]

  pub find_point-within :
      (f low high : ℕ)
      → low ≤ first_at_least ps h
      → first_at_least ps h ≤ high
      → high ≤ length ps
      → high - low < f
      → find_point f ps h low high ≡ some (successor ps h)
  unfolding find_point
  find_point-within zero low high l m n lt = ground arith
  find_point-within (suc f) low high l m n lt =
      let (q, e, keeps) = probe_at-Keeps low high l m n in
      elim q
          as (λ (q : Probe).
            probe_at ps h low high ≡ some q
            → Keeps (high - low) q
            → find_point (suc f) ps h low high ≡ some (successor ps h)) [
              | stop i ↦ λ e k. rw (find_point, e) (ap some k)
              | go lo hi ↦ λ e k.
                  rw (find_point, e) (find_point-within f lo hi k.0 k.1 k.2 (omega (arith, k.3)))
            ]
        e keeps

-- The search of a whole sorted circle with the fuel of `Ketama_get_server_ordinal` stops at the
-- point that the hash belongs to.
pub find_point-successor :
    (ps : List Mcs) (h : ℕ)
    → IsSorted ps
    → find_point (suc (suc (length ps))) ps h 0 (length ps) ≡ some (successor ps h)
find_point-successor ps h sorted =
    find_point-within ps h sorted (suc (suc (length ps))) 0 (length ps) (omega arith)
      (first_at_least-le ps h) (omega arith) (omega arith)

-- The `n`-th point `e` owns `h`: it is the first one at or above `h`, or it is the first of all and
-- every point is below `h`.
abbrev pub Owns : List Mcs → ℕ → ℕ → Mcs → Type 0
Owns ps h n e =
    ((h ≤ e.point) × ((i : ℕ) (a : Mcs) → i < n → get_elem? ps i ≡ some a → a.point < h))
    ⊎ ((n ≡ 0) × ((i : ℕ) (a : Mcs) → get_elem? ps i ≡ some a → a.point < h))

successor-Owns :
    (ps : List Mcs) (h : ℕ)
    → 0 < length ps
    → (e : Mcs) × (get_elem? ps (successor ps h) ≡ some e) × Owns ps h (successor ps h) e
successor-Owns ps h some_point = elim (Bool-cases (first_at_least ps h == length ps)) [
  | inl all ↦
      let last = (==_iff (first_at_least ps h) (length ps)).0 all in
      let (e, there) = get_elem?-total ps 0 some_point in
      rw all (
        e,
        there,
        inr (refl, (λ i a at. below_first ps h i a at (omega (arith, get_elem?-some-lt ps i at)))),
      )
  | inr some_above ↦
      let inside : first_at_least ps h < length ps = ground (arith, first_at_least-le ps h) in
      let (e, there) = get_elem?-total ps (first_at_least ps h) inside in
      rw some_above
        (e, there, inl (at_first ps h e there, (λ i a lt at. below_first ps h i a at lt)))
]

-- With a continuum that is a sorted circle of one point or more, and a digest of the key whose first
-- four bytes are a number, a key is always given a server: the owner of the first point at or
-- above that number, and of the first point of all where every point is below it.
pub get_server_ordinal-owner :
    (md5 : Bytes → Bytes) (k : Ketama) (ps : List Mcs) (key : Bytes) (h : ℕ)
    → k.continuum ≡ some ps
    → k.numpoints ≡ length ps
    → IsSorted ps
    → 0 < length ps
    → word_at (md5 key) 0 ≡ some h
    → (n : ℕ) × ((e : Mcs) × (get_elem? ps n ≡ some e)
        × Owns ps h n e
        × (Ketama_get_server_ordinal md5 k key ≡ some (some e.ordinal)))
unfolding Ketama_get_server_ordinal
get_server_ordinal-owner md5 k ps key h cont num sorted some_point word =
    let (e, there, owns) = successor-Owns ps h some_point in
    let found = find_point-successor ps h sorted in
    (successor ps h, (e, there, owns, rw (cont, word, num, found, there)))
