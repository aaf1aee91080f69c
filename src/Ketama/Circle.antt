-- ===== src/Ketama/Circle.antt =====
-- The circle that `Ketama_create_continuum` makes: its points are sorted, fit their array, and belong
-- to servers of the list.
use mathlib.Core.Path.{subst}
use native.Mathlib.Nat.{le_of_mul-le-mul_right}
use libredis.Base.{
  ap, ℕ, zero, suc, ◌+◌, ◌*◌, ◌^◌, ◌≤◌, ◌<◌, ◌≡◌, refl, sym, ◌∙◌, false, Option, none, some, List,
  [], ◌∷◌, ◌++◌, Bytes, arith, length, length-append, take, get_elem?, get_elem?-total, leb-le,
  ◌==◌,
}
use libredis.Base.Decimal.{print_decimal}
use libredis.Ketama.{
  Mcs, ServerInfo, Ketama, server_list, numservers, word_at, hash_points, server_points, all_points,
  Ketama_create_continuum, Ketama_get_server_ordinal,
}
use libredis.Ketama.Search.{IsSorted, Owns, get_server_ordinal-owner}
use libredis.Ketama.Servers.{weights}
use libredis.Ketama.Share.{share}
use libredis.Ketama.Share.Bounds.{below, over, least, above, share-le, share-ge}

-- Something holds of every point.
abbrev pub AllPoints : (Mcs → Type 0) → List Mcs → Type 0
AllPoints P [] = Unit {0}
AllPoints P (p ∷ ps) = P p × AllPoints P ps

-- The hashes of all servers, by the arithmetic of the code
abbrev pub total_share : Ketama → List ServerInfo → ℕ
total_share k [] = 0
total_share k (s ∷ ss) = share s.memory k.memory (numservers k) + total_share k ss

AllPoints-append :
    (P : Mcs → Type 0) (xs ys : List Mcs) → AllPoints P xs → AllPoints P ys → AllPoints P (xs ++ ys)
AllPoints-append P [] ys hx hy = hy
AllPoints-append P (x ∷ xs) ys hx hy = (hx.0, AllPoints-append P xs ys hx.1 hy)

AllPoints-at :
    (P : Mcs → Type 0) (ps : List Mcs) (i : ℕ) (e : Mcs)
    → AllPoints P ps
    → get_elem? ps i ≡ some e
    → P e
AllPoints-at P [] i e o h = let no : ⊥ = ground (arith, h) in absurd no
AllPoints-at P (p ∷ ps) zero e o h = let same : p ≡ e = cc (h) in subst P same o.0
AllPoints-at P (p ∷ ps) (suc i) e o h = AllPoints-at P ps i e o.1 h

-- A point of the circle: word `h` of the `j`-th hash of its server, which is in the list at its ordinal
abbrev pub IsPoint : (Bytes → Bytes) → Ketama → Mcs → Type 0
IsPoint md5 k p =
    (s : ServerInfo) × (j : ℕ) × (h : ℕ) × (get_elem? (server_list k) p.ordinal ≡ some s)
    × (j < share s.memory k.memory (numservers k))
    × (h < 4)
    × (word_at (md5 (take 265 (s.addr ++ b'-' ∷ print_decimal j))) (4 * h) ≡ some p.point)

-- `m` points of the circle
abbrev pub Makes : (Bytes → Bytes) → Ketama → Option (List Mcs) → ℕ → Type 0
Makes md5 k made m =
    (ps : List Mcs) × (made ≡ some ps) × (length ps ≡ m) × AllPoints (IsPoint md5 k) ps

-- The weights of a list, which are the memory of the ketama, are not 0 and fit; and the servers are not too many
-- for the precision of a `float`.
pub record IsWeighed (k : Ketama) : Type 0 where
  pub summed : k.memory ≡ weights (server_list k)
  pub some_weight : 0 < k.memory
  pub fits : k.memory < 2 ^ 64
  pub few : numservers k ≤ 2 ^ 16

shares-le :
    (k : Ketama) (ss : List ServerInfo)
    → k.memory < 2 ^ 64
    → below * (total_share k ss * k.memory) ≤ over * (weights ss * numservers k)
shares-le k [] fits = omega arith
shares-le k (s ∷ ss) fits =
    let here = share-le s.memory k.memory (numservers k) fits in
    let later = shares-le k ss fits in omega (arith, here, later)

shares-ge :
    (k : Ketama) (ss : List ServerInfo)
    → 0 < k.memory
    → k.memory < 2 ^ 64
    → least * (weights ss * numservers k) ≤ above * ((total_share k ss + length ss) * k.memory)
shares-ge k [] some_weight fits = omega arith
shares-ge k (s ∷ ss) some_weight fits =
    let here = share-ge s.memory k.memory (numservers k) some_weight fits in
    let later = shares-ge k ss some_weight fits in omega (arith, here, later)

-- The points fit the array of 160 for each server.
total_share-le : (k : Ketama) → IsWeighed k → total_share k (server_list k) ≤ numservers k * 40
total_share-le k v =
    let all = shares-le k (server_list k) v.fits in
    let same = ap (λ (w : ℕ). over * (w * numservers k)) (sym v.summed) in
    let cut : below * total_share k (server_list k) ≤ over * numservers k =
      le_of_mul-le-mul_right {k = k.memory} (omega (arith, all, same)) v.some_weight in
    omega (arith, cut, v.few)

-- There are points.
total_share-pos : (k : Ketama) → IsWeighed k → 0 < numservers k → 0 < total_share k (server_list k)
total_share-pos k v some_server =
    let all = shares-ge k (server_list k) v.some_weight v.fits in
    let same = ap (λ (w : ℕ). least * (w * numservers k)) (sym v.summed) in
    let cut : least * numservers k ≤ above * (total_share k (server_list k) + numservers k) =
      le_of_mul-le-mul_right {k = k.memory} (omega (arith, all, same)) v.some_weight in
    omega (arith, cut, some_server)

abbrev four_points : ℕ → ℕ → ℕ → ℕ → ℕ → List Mcs
four_points i w0 w1 w2 w3 =
    record { point = w0; ordinal = i }
    ∷ record { point = w1; ordinal = i }
    ∷ record { point = w2; ordinal = i }
    ∷ record { point = w3; ordinal = i }
    ∷ []

word_at-total : (d : Bytes) (i : ℕ) → i + 4 ≤ length d → (w : ℕ) × (word_at d i ≡ some w)
unfolding word_at
word_at-total d i h =
    let (b0, e0) = get_elem?-total d i (omega arith) in
    let (b1, e1) = get_elem?-total d (i + 1) (omega arith) in
    let (b2, e2) = get_elem?-total d (i + 2) (omega arith) in
    let (b3, e3) = get_elem?-total d (i + 3) (omega arith) in
    (b3 * 2 ^ 24 + b2 * 2 ^ 16 + b1 * 2 ^ 8 + b0, rw (e0, e1, e2, e3) refl)

==-pos : (n : ℕ) → 0 < n → (n == 0) ≡ false
==-pos n h = ground arith

module _ (md5 : Bytes → Bytes) (digest : (text : Bytes) → length (md5 text) ≡ 16) where
  hash_points-Makes :
      (k : Ketama) (s : ServerInfo) (i j : ℕ)
      → get_elem? (server_list k) i ≡ some s
      → j < share s.memory k.memory (numservers k)
      → Makes md5 k (hash_points md5 s i j) 4
  unfolding hash_points
  hash_points-Makes k s i j at inside =
      let text = take 265 (s.addr ++ b'-' ∷ print_decimal j) in
      let len = digest text in
      let (w0, e0) = word_at-total (md5 text) 0 (omega (arith, len)) in
      let (w1, e1) = word_at-total (md5 text) 4 (omega (arith, len)) in
      let (w2, e2) = word_at-total (md5 text) 8 (omega (arith, len)) in
      let (w3, e3) = word_at-total (md5 text) 12 (omega (arith, len)) in
      (
        four_points i w0 w1 w2 w3,
        rw (e0, e1, e2, e3) refl,
        refl,
        (
          (s, j, 0, at, inside, omega arith, e0),
          (
            (s, j, 1, at, inside, omega arith, e1),
            ((s, j, 2, at, inside, omega arith, e2), ((s, j, 3, at, inside, omega arith, e3), tt)),
          ),
        ),
      )

  server_points-Makes :
      (k : Ketama) (s : ServerInfo) (i rounds j : ℕ)
      → get_elem? (server_list k) i ≡ some s
      → j + rounds ≤ share s.memory k.memory (numservers k)
      → Makes md5 k (server_points md5 s i rounds j) (rounds * 4)
  unfolding server_points
  server_points-Makes k s i zero j at inside = ([], refl, omega arith, tt)
  server_points-Makes k s i (suc rounds) j at inside =
      let (four, e, l, o) = hash_points-Makes k s i j at (omega (arith, inside)) in
      let (more, e', l', o') =
        server_points-Makes k s i rounds (j + 1) at (omega (arith, inside)) in
      (
        four ++ more,
        rw (e, e') refl,
        omega (arith, l, l', length-append four more),
        AllPoints-append (IsPoint md5 k) four more o o',
      )

  module _ (qsort : List Mcs → List Mcs) where
    all_points-Makes :
        (k : Ketama) (ss : List ServerInfo) (i : ℕ)
        → (k.memory == 0) ≡ false
        → ((q : ℕ) (s : ServerInfo)
            → get_elem? ss q ≡ some s
            → get_elem? (server_list k) (i + q) ≡ some s)
        → Makes md5 k (all_points md5 qsort k ss i) (total_share k ss * 4)
    unfolding all_points
    all_points-Makes k [] i memory at = ([], refl, omega arith, tt)
    all_points-Makes k (s ∷ ss) i memory at =
        let ks = share s.memory k.memory (numservers k) in
        let (here, e, l, o) =
          server_points-Makes k s i ks 0
            (let same : i ≡ i + 0 = omega arith in
              ap (get_elem? (server_list k)) same ∙ at 0 s refl)
            (omega arith) in
        let (later, e', l', o') = all_points-Makes k ss (i + 1) memory (λ q s' h.
          let same : i + 1 + q ≡ i + suc q = omega arith in
          ap (get_elem? (server_list k)) same ∙ at (suc q) s' h) in
        (
          here ++ later,
          rw (all_points, memory, e, e') refl,
          omega (arith, l, l', length-append here later),
          AllPoints-append (IsPoint md5 k) here later o o',
        )

    created_lem :
        (k : Ketama) (ps : List Mcs)
        → k.continuum ≡ none
        → 0 < numservers k
        → all_points md5 qsort k (server_list k) 0 ≡ some ps
        → length ps ≤ numservers k * 160
        → Ketama_create_continuum md5 qsort k
          ≡ some (record k { numpoints = length ps; continuum = some (qsort ps) })
    unfolding Ketama_create_continuum
    created_lem k ps c n e l =
        rw
          (
            Ketama_create_continuum,
            c,
            ==-pos (numservers k) n,
            e,
            leb-le (length ps) (numservers k * 160) l,
          )
          refl

    -- A circle: four points for each share, sorted, each one of its server in the list
    pub record HasCircle (k : Ketama) (k' : Ketama) : Type 0 where
      pub points : List Mcs
      pub created : k'.continuum ≡ some points
      pub counted : k'.numpoints ≡ length points
      pub size : length points ≡ total_share k (server_list k) * 4
      pub sorted : IsSorted points
      pub owned : AllPoints (IsPoint md5 k) points
      pub same_servers : k'.servers ≡ k.servers

    -- Where there are servers (up to 2^16) and no circle yet, where the memory is the sum of the weights, which is
    -- not 0 and below 2^64, where MD5 gives 16 bytes and `qsort` sorts the points, keeps their number, and
    -- keeps what holds of all of them: `Ketama_create_continuum` stays inside its array of 160 points for
    -- each server, and makes a sorted circle of four points for each hash of the servers' shares, where
    -- every point is a word of a hash of the server at its ordinal, below that server's share.
    pub create_continuum-HasCircle :
        (k : Ketama)
        → ((ps : List Mcs) → IsSorted (qsort ps))
        → ((ps : List Mcs) → length (qsort ps) ≡ length ps)
        → ((P : Mcs → Type 0) (ps : List Mcs) → AllPoints P ps → AllPoints P (qsort ps))
        → k.continuum ≡ none
        → 0 < numservers k
        → IsWeighed k
        → (k' : Ketama) × (Ketama_create_continuum md5 qsort k ≡ some k') × HasCircle k k'
    unfolding Ketama_create_continuum
    create_continuum-HasCircle k sorts keeps holds no_circle servers weighed =
        let (ps, e, l, o) =
          all_points-Makes k (server_list k) 0 (==-pos k.memory weighed.some_weight) (λ q s h.
            let same : 0 + q ≡ q = omega arith in ap (get_elem? (server_list k)) same ∙ h) in
        let fits = total_share-le k weighed in
        (
          record k { numpoints = length ps; continuum = some (qsort ps) },
          created_lem k ps no_circle servers e (omega (arith, l, fits)),
          record {
            points = qsort ps;
            created = refl;
            counted = sym (keeps ps);
            size = keeps ps ∙ l;
            sorted = sorts ps;
            owned = holds (IsPoint md5 k) ps o;
            same_servers = refl;
          },
        )

    -- The answer for a key whose hash is `h`: the ordinal of the point of the circle that owns the hash, a
    -- point of the server at this ordinal of the list
    abbrev pub Answers : Ketama → Bytes → Type 0
    Answers k key =
        (k' : Ketama) × (circle : HasCircle k k') × (h : ℕ) × (n : ℕ) × (e : Mcs)
        × (Ketama_create_continuum md5 qsort k ≡ some k')
        × (word_at (md5 key) 0 ≡ some h)
        × (get_elem? circle.points n ≡ some e)
        × Owns circle.points h n e
        × IsPoint md5 k e
        × (Ketama_get_server_ordinal md5 k' key ≡ some (some e.ordinal))

    -- Under the same conditions, `Ketama_create_continuum` makes the circle, and then
    -- `Ketama_get_server_ordinal` gives every key the ordinal of the first point at or above the key's hash
    -- (or of the first point of all, where there is none): a point of the server that the list has at
    -- this ordinal.
    pub get_server_ordinal-created :
        (k : Ketama) (key : Bytes)
        → ((ps : List Mcs) → IsSorted (qsort ps))
        → ((ps : List Mcs) → length (qsort ps) ≡ length ps)
        → ((P : Mcs → Type 0) (ps : List Mcs) → AllPoints P ps → AllPoints P (qsort ps))
        → k.continuum ≡ none
        → 0 < numservers k
        → IsWeighed k
        → Answers k key
    get_server_ordinal-created k key sorts keeps holds no_circle servers weighed =
        let (k', made, circle) =
          create_continuum-HasCircle k sorts keeps holds no_circle servers weighed in
        let (h, word) = word_at-total (md5 key) 0 (omega (arith, digest key)) in
        let some_point = total_share-pos k weighed servers in
        let (n, rest) =
          get_server_ordinal-owner md5 k' circle.points key h circle.created circle.counted
            circle.sorted (omega (arith, circle.size, some_point)) word in
        let (e, there, owns, found) = rest in
        (
          k',
          circle,
          h,
          n,
          e,
          made,
          word,
          there,
          owns,
          AllPoints-at (IsPoint md5 k) circle.points n e circle.owned there,
          found,
        )
