-- ===== src/Php/Objects/Calls/Keeps.antt =====
-- Every call of a script keeps the objects of the PHP extension owned.
use mathlib.Core.Path.{subst}
use libredis.Base.{
  ◌-◌, ℕ, zero, suc, ◌≡◌, refl, ap, Bool, true, false, Option, none, some, List, [], ◌∷◌, Bytes,
  length, get_elem?, Option-cases, inl, inr,
}
use libredis.Batch.{Batch, Batch_new}
use libredis.Executor.{Executor_new, Executor, Tick}
use libredis.Ketama.{Ketama_new, Mcs, Ketama}
use libredis.Connection.Write.{text}
use libredis.Php.{Zval, strings_of}
use libredis.Php.Methods.{Outcome, State, Executor_execute_method, execute_method}
use libredis.Php.Objects.{Class, create, deref, destruct, method}
use libredis.Php.Objects.Calls.{
  Call, create_batch, create_batch_refused, create_ketama, create_executor, destruct_batch,
  destruct_ketama, destruct_executor, batch_write, batch_set, batch_get, batch_cmd,
  batch_next_reply, ketama_add_server, ketama_get_server_ordinal, ketama_get_server_address,
  ketama_create_continuum, executor_add, executor_execute, connection_execute, connection_set,
  connection_get, Returned, value, reply, ended, Php, write_back, execute_executor, execute_batch,
  call, script, kept, Results, on_batches, on_ketamas, on_executors, simple, nothing,
  create_batch_method, method_write, state_of, method_add, all_there, with_own, cmd_call,
  method_cmd,
}
use libredis.Php.Objects.Counts.{live_at}
use libredis.Php.Objects.Owned.{
  IsOwned, written, written-IsOwned, >>=-eq-some, create-IsOwned, destruct-IsOwned, method-IsOwned,
  same_live-IsOwned,
}

-- The objects of all three classes
pub record AreOwned (p : Php) : Type 0 where
  pub batches : IsOwned p.batches
  pub ketamas : IsOwned p.ketamas
  pub executors : IsOwned p.executors

write_back-live :
    (m : List (Option Batch)) (bs : List Batch) (h : ℕ) → live_at h (write_back m bs) ≡ live_at h m
unfolding write_back deref
write_back-live [] bs h = refl
write_back-live (cell ∷ m) [] h = refl
write_back-live (none ∷ m) (b ∷ bs) zero = refl
write_back-live (none ∷ m) (b ∷ bs) (suc zero) = refl
write_back-live (none ∷ m) (b ∷ bs) (suc (suc k)) = write_back-live m bs (suc k)
write_back-live (some a ∷ m) (b ∷ bs) zero = refl
write_back-live (some a ∷ m) (b ∷ bs) (suc zero) = refl
write_back-live (some a ∷ m) (b ∷ bs) (suc (suc k)) = write_back-live m bs (suc k)

length-write_back :
    (m : List (Option Batch)) (bs : List Batch) → length (write_back m bs) ≡ length m
unfolding write_back
length-write_back [] bs = refl
length-write_back (cell ∷ m) [] = refl
length-write_back (none ∷ m) (b ∷ bs) = ap suc (length-write_back m bs)
length-write_back (some a ∷ m) (b ∷ bs) = ap suc (length-write_back m bs)

kept-AreOwned : (p : Php) (s : State) → AreOwned p → AreOwned (kept p s)
kept-AreOwned p s v = record {
  batches =
      same_live-IsOwned (write_back p.batches.memory s.world.batches) p.batches
        (write_back-live p.batches.memory s.world.batches)
        (length-write_back p.batches.memory s.world.batches) v.batches;
  ketamas = v.ketamas;
  executors = v.executors;
}

-- What a step on one of the classes keeps
module _ (p : Php) (v : AreOwned p) {a : Returned} {p' : Php} where
  batches-AreOwned :
      (r : Results (Class Batch))
      → on_batches p r ≡ some (a, p')
      → ((x : Returned) (c : Class Batch) → r ≡ some (x, c) → IsOwned c)
      → AreOwned p'
  batches-AreOwned r run keeps =
      let ((x, c), e, last) = >>=-eq-some r _ run in
      let same : record p { batches = c } ≡ p' = cc (last) in
      subst AreOwned same
        (record { batches = keeps x c e; ketamas = v.ketamas; executors = v.executors })

  ketamas-AreOwned :
      (r : Results (Class Ketama))
      → on_ketamas p r ≡ some (a, p')
      → ((x : Returned) (c : Class Ketama) → r ≡ some (x, c) → IsOwned c)
      → AreOwned p'
  ketamas-AreOwned r run keeps =
      let ((x, c), e, last) = >>=-eq-some r _ run in
      let same : record p { ketamas = c } ≡ p' = cc (last) in
      subst AreOwned same
        (record { batches = v.batches; ketamas = keeps x c e; executors = v.executors })

  executors-AreOwned :
      (r : Results (Class Executor))
      → on_executors p r ≡ some (a, p')
      → ((x : Returned) (c : Class Executor) → r ≡ some (x, c) → IsOwned c)
      → AreOwned p'
  executors-AreOwned r run keeps =
      let ((x, c), e, last) = >>=-eq-some r _ run in
      let same : record p { executors = c } ≡ p' = cc (last) in
      subst AreOwned same
        (record { batches = v.batches; ketamas = v.ketamas; executors = keeps x c e })

  simple-AreOwned : (r : Option (Outcome × State)) → simple p r ≡ some (a, p') → AreOwned p'
  simple-AreOwned r run =
      let ((x, s), e, last) = >>=-eq-some r _ run in
      let same : kept p s ≡ p' = cc (last) in subst AreOwned same (kept-AreOwned p s v)

  with_own-AreOwned : (r : Option (Outcome × State)) → with_own p r ≡ some (a, p') → AreOwned p'
  with_own-AreOwned r run =
      let ((x, s), e, last) = >>=-eq-some r _ run in
      let same : record (kept p s) { unfreed = s.unfreed } ≡ p' = cc (last) in
      let old = kept-AreOwned p s v in
      subst AreOwned same
        (record { batches = old.batches; ketamas = old.ketamas; executors = old.executors })

  batch_method :
      (f : Batch → Option (Returned × Batch)) (o : ℕ)
      → on_batches p (method f o p.batches) ≡ some (a, p')
      → AreOwned p'
  batch_method f o run =
      batches-AreOwned (method f o p.batches) run
        (λ x c e. method-IsOwned f o p.batches e v.batches)

  cmd_call-AreOwned : (o : ℕ) (args : List Zval) → cmd_call o args p ≡ some (a, p') → AreOwned p'
  cmd_call-AreOwned o args run = elim (Option-cases (strings_of args)) [
    | inl refused ↦
        let run' : ◌≡◌ {A = Option (Returned × Php)}
            (some (ended (text "all arguments must be strings!"), p)) (some (a, p')) =
          rw (cmd_call, refused) at run in
        let same : p ≡ p' = cc (run') in subst AreOwned same v
    | inr (strings, e) ↦ batch_method (method_cmd args) o (rw (cmd_call, e) at run)
  ]

  ketama_method :
      (f : Ketama → Option (Returned × Ketama)) (o : ℕ)
      → on_ketamas p (method f o p.ketamas) ≡ some (a, p')
      → AreOwned p'
  ketama_method f o run =
      ketamas-AreOwned (method f o p.ketamas) run
        (λ x c e. method-IsOwned f o p.ketamas e v.ketamas)

  executor_method :
      (f : Executor → Option (Returned × Executor)) (o : ℕ)
      → on_executors p (method f o p.executors) ≡ some (a, p')
      → AreOwned p'
  executor_method f o run =
      executors-AreOwned (method f o p.executors) run
        (λ x c e. method-IsOwned f o p.executors e v.executors)

destruct_call-IsOwned :
    {T : Type 0} (checks : Bool) (o : ℕ) (c : Class T)
    → IsOwned c
    → (x : Returned) (c' : Class T) → nothing (destruct checks o c) ≡ some (x, c')
    → IsOwned c'
destruct_call-IsOwned checks o c v x c' run =
    let (c1, e, last) = >>=-eq-some (destruct checks o c) _ run in
    let same : c1 ≡ c' = cc (last) in subst IsOwned same (destruct-IsOwned checks o c c1 e v)

create_batch-IsOwned :
    (str : Option Bytes) (n : ℕ) (c : Class Batch)
    → IsOwned c
    → (x : Returned) (c' : Class Batch) → create_batch_method str n c ≡ some (x, c')
    → IsOwned c'
create_batch-IsOwned none n c v x c' run =
    let same : create Batch_new c ≡ c' = cc (run) in
    subst IsOwned same (create-IsOwned Batch_new c v)
create_batch-IsOwned (some []) n c v x c' run =
    let same : create Batch_new c ≡ c' = cc (run) in
    subst IsOwned same (create-IsOwned Batch_new c v)
create_batch-IsOwned (some (b ∷ bs)) n c v x c' run =
    let ((y, c1), e, last) =
      >>=-eq-some (method (method_write (b ∷ bs) n) (length c.handles) (create Batch_new c)) _
        run in
    let same : c1 ≡ c' = cc (last) in
    subst IsOwned same (
      method-IsOwned (method_write (b ∷ bs) n) (length c.handles) (create Batch_new c) e
        (create-IsOwned Batch_new c v))

executor-AreOwned :
    (o : ℕ) (ticks : List Tick) (errno : Bytes) (p : Php) {a : Returned} {p' : Php}
    → execute_executor o ticks errno p ≡ some (a, p')
    → AreOwned p
    → AreOwned p'
unfolding execute_executor
executor-AreOwned o ticks errno p {p' = p'} run v =
    let (h, at, run1) = >>=-eq-some (get_elem? p.executors.handles o) _ run in
    let (e, there, run2) = >>=-eq-some (deref h p.executors.memory) _ run1 in
    let (u, pairs, run3) = >>=-eq-some (all_there e.pairs p.batches.memory) _ run2 in
    let ((x, s), ran, run4) =
      >>=-eq-some (Executor_execute_method ticks errno (state_of e p)) _ run3 in
    let after = kept p s in
    let same : record after { executors = written h s.world.executor p.executors } ≡ p' =
      cc (run4) in
    let old = kept-AreOwned p s v in
    subst AreOwned same (record {
      batches = old.batches;
      ketamas = old.ketamas;
      executors = written-IsOwned h e s.world.executor p.executors there v.executors;
    })

batch-AreOwned :
    (connection o : ℕ) (ticks : List Tick) (errno : Bytes) (p : Php) {a : Returned} {p' : Php}
    → execute_batch connection o ticks errno p ≡ some (a, p')
    → AreOwned p
    → AreOwned p'
unfolding execute_batch
batch-AreOwned connection o ticks errno p run v =
    let (h, at, run1) = >>=-eq-some (get_elem? p.batches.handles o) _ run in
    let (b, there, run2) = >>=-eq-some (deref h p.batches.memory) _ run1 in
    simple-AreOwned p v (execute_method connection (h - 1) ticks errno (state_of Executor_new p))
      run2

goes_on-AreOwned :
    (x : Returned) (next : Option Php) (p1 p' : Php)
    → (elim x as (λ _. Option Php) [ value z ↦ next | reply r ↦ next | ended t ↦ some p1 ])
      ≡ some p'
    → (next ≡ some p' → AreOwned p')
    → AreOwned p1
    → AreOwned p'
goes_on-AreOwned (value z) next p1 p' run later v = later run
goes_on-AreOwned (reply r) next p1 p' run later v = later run
goes_on-AreOwned (ended t) next p1 p' run later v =
    let same : p1 ≡ p' = cc (run) in subst AreOwned same v

module _ (md5 : Bytes → Bytes) (qsort : List Mcs → List Mcs) where
  -- Every call keeps the objects owned.
  call-AreOwned :
      (c : Call) (p : Php) {a : Returned} {p' : Php}
      → call md5 qsort c p ≡ some (a, p')
      → AreOwned p
      → AreOwned p'
  unfolding call
  call-AreOwned (create_batch str n) p run v =
      batches-AreOwned p v (create_batch_method str n p.batches) run
        (create_batch-IsOwned str n p.batches v.batches)
  call-AreOwned create_batch_refused p {p' = p'} run v =
      let same : record p { batches = create Batch_new p.batches } ≡ p' = cc (run) in
      subst AreOwned same (record {
        batches = create-IsOwned Batch_new p.batches v.batches;
        ketamas = v.ketamas;
        executors = v.executors;
      })
  call-AreOwned create_ketama p {p' = p'} run v =
      let same : record p { ketamas = create Ketama_new p.ketamas } ≡ p' = cc (run) in
      subst AreOwned same (record {
        batches = v.batches;
        ketamas = create-IsOwned Ketama_new p.ketamas v.ketamas;
        executors = v.executors;
      })
  call-AreOwned create_executor p {p' = p'} run v =
      let same : record p { executors = create Executor_new p.executors } ≡ p' = cc (run) in
      subst AreOwned same (record {
        batches = v.batches;
        ketamas = v.ketamas;
        executors = create-IsOwned Executor_new p.executors v.executors;
      })
  call-AreOwned (destruct_batch o) p run v =
      batches-AreOwned p v (nothing (destruct false o p.batches)) run
        (destruct_call-IsOwned false o p.batches v.batches)
  call-AreOwned (destruct_ketama o) p run v =
      ketamas-AreOwned p v (nothing (destruct false o p.ketamas)) run
        (destruct_call-IsOwned false o p.ketamas v.ketamas)
  call-AreOwned (destruct_executor o) p run v =
      executors-AreOwned p v (nothing (destruct true o p.executors)) run
        (destruct_call-IsOwned true o p.executors v.executors)
  call-AreOwned (batch_write o str n) p run v = batch_method p v _ o run
  call-AreOwned (batch_set o key x) p run v = batch_method p v _ o run
  call-AreOwned (batch_get o key) p run v = batch_method p v _ o run
  call-AreOwned (batch_cmd o args) p run v = cmd_call-AreOwned p v o args run
  call-AreOwned (batch_next_reply o) p run v = batch_method p v _ o run
  call-AreOwned (ketama_add_server o addr port weight) p run v = ketama_method p v _ o run
  call-AreOwned (ketama_get_server_ordinal o key) p run v = ketama_method p v _ o run
  call-AreOwned (ketama_get_server_address o n) p run v = ketama_method p v _ o run
  call-AreOwned (ketama_create_continuum o) p run v = ketama_method p v _ o run
  call-AreOwned (executor_add o connection batch) p run v =
      let (h, at, run1) = >>=-eq-some (get_elem? p.batches.handles batch) _ run in
      executor_method p v (method_add connection h) o run1
  call-AreOwned (executor_execute o ticks errno) p run v = executor-AreOwned o ticks errno p run v
  call-AreOwned (connection_execute connection o ticks errno) p run v =
      batch-AreOwned connection o ticks errno p run v
  call-AreOwned (connection_set connection key x ticks errno) p run v = with_own-AreOwned p v _ run
  call-AreOwned (connection_get connection key ticks errno) p run v = with_own-AreOwned p v _ run

  -- So does a script.
  pub script-AreOwned :
      (cs : List Call) (p p' : Php) → script md5 qsort cs p ≡ some p' → AreOwned p → AreOwned p'
  unfolding script
  script-AreOwned [] p p' run v = let same : p ≡ p' = cc (run) in subst AreOwned same v
  script-AreOwned (c ∷ cs) p p' run v =
      let ((x, p1), e, run1) = >>=-eq-some (call md5 qsort c p) _ run in
      let v1 = call-AreOwned c p e v in
      goes_on-AreOwned x (script md5 qsort cs p1) p1 p' run1
        (λ run2. script-AreOwned cs p1 p' run2 v1) v1
