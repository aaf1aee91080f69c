-- ===== src/Php/Objects/Calls/Request.antt =====
-- A whole request of the PHP extension: whatever the script did, its end frees what is left.
use libredis.Base.{
  ℕ, zero, suc, ◌≤◌, ◌≡◌, refl, sym, ap, ◌∙◌, Bool, true, false, Option, none, some, List, [], ◌∷◌,
  Bytes, arith, length, length-set, ==_iff,
}
use libredis.Ketama.{Mcs}
use libredis.Php.Objects.{Class, deref, hash_del, T_free, shutdown_free, shutdown_class}
use libredis.Php.Objects.Calls.{Call, Php, script, request_shutdown}
use libredis.Php.Objects.Counts.{live_at, live_at-there, live_at-null, count, count-at}
use libredis.Php.Objects.Owned.{IsKept, removed, removed-IsKept}
use libredis.Php.Objects.Calls.Unfreed.{Lost, script-Lost}
use libredis.Php.Objects.Calls.Keeps.{AreOwned, script-AreOwned}

-- Nothing is left of a class: each address that was given out has been freed, once, and the table is empty.
pub record IsOver {T : Type 0} (before after : Class T) : Type 0 where
  pub same_made : length after.memory ≡ length before.memory
  pub no_entry : after.table ≡ []
  pub all_freed : (h : ℕ) → 1 ≤ h → h ≤ length before.memory → count h after.freed ≡ 1
  pub none_left : (h : ℕ) → live_at h after.memory ≡ 0

hash_del-first : (h : ℕ) (t : List ℕ) → hash_del h (h ∷ t) ≡ t
unfolding hash_del
hash_del-first h t = rw ((==_iff h h).1 refl) refl

module _ {T : Type 0} where
  T_free-there :
      (checks : Bool) (k : ℕ) (x : T) (c : Class T)
      → deref (suc k) c.memory ≡ some x
      → T_free checks (suc k) c ≡ some (record (removed k c) { table = c.table })
  unfolding T_free
  T_free-there checks k x c e = rw e refl

  shutdown-ends :
      (checks : Bool) (t : List ℕ) (c : Class T)
      → c.table ≡ t
      → IsKept c
      → (c' : Class T) × (shutdown_free checks t c ≡ some c')
        × IsKept c'
        × (c'.table ≡ [])
        × (length c'.memory ≡ length c.memory)
  unfolding shutdown_free
  shutdown-ends checks [] c e v = (c, refl, v, e, refl)
  shutdown-ends checks (zero ∷ t) c e v =
      absurd (omega (arith, v.in_table 0, live_at-null c.memory, ap (count 0) e))
  shutdown-ends checks (suc k ∷ t) c e v =
      let (x, there) = live_at-there (suc k) c.memory (
        omega
          (arith, v.in_table (suc k), ap (count (suc k)) e, count-at (suc k) 0 (suc k ∷ t) refl)) in
      let rest : (removed k c).table ≡ t = ap (hash_del (suc k)) e ∙ hash_del-first (suc k) t in
      let (c', run, v', empty, len) =
        shutdown-ends checks t (removed k c) rest (removed-IsKept k x c there v) in
      (
        c',
        rw (T_free-there checks k x c there) run,
        v',
        empty,
        len ∙ length-set {A = Option T} c.memory k none,
      )

  class-IsOver :
      (checks : Bool) (c : Class T)
      → IsKept c
      → (c' : Class T) × (shutdown_class checks c ≡ some c') × IsOver c c'
  unfolding shutdown_class
  class-IsOver checks c v =
      let (c', run, v', empty, len) = shutdown-ends checks c.table c refl v in
      let gone : (h : ℕ) → live_at h c'.memory ≡ 0 =
        λ h. sym (v'.in_table h) ∙ ap (count h) empty in
      (
        c',
        run,
        record {
          same_made = len;
          no_entry = empty;
          all_freed =
              λ h le le'. omega (arith, v'.freed_once h le (omega (arith, le', len)), gone h);
          none_left = gone;
        },
      )

-- From objects that are owned, and in particular from none, whatever calls a script makes, in any order: if it
-- runs to its end or to an error that ends it, then `PHP_RSHUTDOWN_FUNCTION` returns, and every batch, ketama
-- and executor of an object that was ever created has been freed exactly once, by its `__destruct` or
-- here, and the tables are empty. Of the batches that `Connection::get` and `Connection::set` make for
-- themselves, all have been freed too, or all but one, and that only where an error has ended the script.
pub request-frees_all :
    (md5 : Bytes → Bytes) (qsort : List Mcs → List Mcs) (calls : List Call) (p p' : Php)
    → AreOwned p
    → script md5 qsort calls p ≡ some p'
    → (q : Php) × (request_shutdown p' ≡ some q)
      × IsOver p'.batches q.batches
      × IsOver p'.ketamas q.ketamas
      × IsOver p'.executors q.executors
      × Lost md5 qsort calls p q
unfolding request_shutdown
request-frees_all md5 qsort calls p p' v run =
    let v' = script-AreOwned md5 qsort calls p p' run v in
    let (b, eb, over_b) = class-IsOver false p'.batches v'.batches.kept in
    let (k, ek, over_k) = class-IsOver false p'.ketamas v'.ketamas.kept in
    let (e, ee, over_e) = class-IsOver true p'.executors v'.executors.kept in
    (
      record p' { batches = b; ketamas = k; executors = e },
      rw eb (rw ek (rw ee refl)),
      over_b,
      over_k,
      over_e,
      script-Lost md5 qsort calls p p' run,
    )
