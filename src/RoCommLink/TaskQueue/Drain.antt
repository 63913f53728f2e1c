-- ===== src/RoCommLink/TaskQueue/Drain.antt =====
-- Every task that the queue accepts is somewhere, and is called before the last worker returns.
use knowledge_acquisition.Prelude.{
  ℕ, zero, suc, ◌+◌, ◌≡◌, ◌≢◌, refl, sym, ◌∙◌, ap, arith, Bool, true, Option, none, some, List, [],
  ◌∷◌, ◌++◌, set, get_elem?, replicate, All, if◌then◌else◌, ◌⊎◌, inl, inr, Bool-cases,
}
use knowledge_acquisition.RoCommLink.TaskQueue.{
  TaskItem, Worker, looking, waiting, holding, returned, TaskQueue, new_queue, push_delayed,
  WorkerStep, returns, waits, takes, waits_until, wakes, calls, skips, Step, pushes, shuts, works,
  Reaches, start, next,
}

module _ {ℓ} {F : Type ℓ} (p : F → Bool) where
  -- How many of the functions are callable and satisfy `p`.
  abbrev pub weight : Option F → ℕ
  weight none = 0
  weight (some f) = if p f then 1 else 0

  abbrev pub in_accepted : List (Option F) → ℕ
  in_accepted [] = 0
  in_accepted (f ∷ fs) = weight f + in_accepted fs

  abbrev pub in_ran : List F → ℕ
  in_ran [] = 0
  in_ran (f ∷ fs) = weight (some f) + in_ran fs

  abbrev pub in_tasks : List (TaskItem F) → ℕ
  in_tasks [] = 0
  in_tasks (t ∷ ts) = weight t.func + in_tasks ts

  abbrev pub in_worker : Worker F → ℕ
  in_worker looking = 0
  in_worker waiting = 0
  in_worker (holding f) = weight f
  in_worker returned = 0

  abbrev pub in_workers : List (Worker F) → ℕ
  in_workers [] = 0
  in_workers (w ∷ ws) = in_worker w + in_workers ws

  in_tasks-append : (xs ys : List (TaskItem F)) → in_tasks (xs ++ ys) ≡ in_tasks xs + in_tasks ys
  in_tasks-append [] ys = omega arith
  in_tasks-append (t ∷ xs) ys = omega (arith, in_tasks-append xs ys)

  in_tasks-top :
      (before after : List (TaskItem F)) (top : TaskItem F)
      → in_tasks (before ++ (top ∷ after)) ≡ weight top.func + in_tasks (before ++ after)
  in_tasks-top before after top =
      omega (arith, in_tasks-append before (top ∷ after), in_tasks-append before after)

  in_workers-set :
      (ws : List (Worker F)) (i : ℕ) (v w : Worker F)
      → get_elem? ws i ≡ some v
      → in_workers (set ws i w) + in_worker v ≡ in_workers ws + in_worker w
  in_workers-set [] i v w e = cc
  in_workers-set (u ∷ ws) zero v w e = ground (arith, e)
  in_workers-set (u ∷ ws) (suc i) v w e = omega (arith, in_workers-set ws i v w e)

  in_workers-replicate : (n : ℕ) → in_workers (replicate n looking) ≡ 0
  in_workers-replicate zero = refl
  in_workers-replicate (suc n) = omega (arith, in_workers-replicate n)

  -- Nothing is lost and nothing is called twice.
  unfoldable pub Conserves : TaskQueue F → Type 0
  Conserves q = in_tasks q.tasks + in_workers q.workers + in_ran q.ran ≡ in_accepted q.accepted

  WorkerStep-Conserves :
      (i now : ℕ) (q r : TaskQueue F) → WorkerStep i now q r → Conserves q → Conserves r
  unfolding Conserves
  WorkerStep-Conserves i now q _ (returns e s t) c =
      omega (arith, c, in_workers-set q.workers i looking returned e)
  WorkerStep-Conserves i now q _ (waits e s t) c =
      omega (arith, c, in_workers-set q.workers i looking waiting e)
  WorkerStep-Conserves i now q _ (takes before after top e t m l) c = omega (
    arith,
    c,
    ap in_tasks t,
    in_tasks-top before after top,
    in_workers-set q.workers i looking (holding top.func) e,
  )
  WorkerStep-Conserves i now q _ (waits_until before after top e t m l) c =
      omega (arith, c, in_workers-set q.workers i looking waiting e)
  WorkerStep-Conserves i now q _ (wakes e) c =
      omega (arith, c, in_workers-set q.workers i waiting looking e)
  WorkerStep-Conserves i now q _ (calls f e) c =
      omega (arith, c, in_workers-set q.workers i (holding (some f)) looking e)
  WorkerStep-Conserves i now q _ (skips e) c =
      omega (arith, c, in_workers-set q.workers i (holding none) looking e)

  Step-Conserves : (q r : TaskQueue F) → Step q r → Conserves q → Conserves r
  unfolding Conserves
  Step-Conserves q _ (pushes f now delay) c = ground (arith, c)
  Step-Conserves q _ shuts c = c
  Step-Conserves q r (works i now _ w) c = WorkerStep-Conserves i now q r w c

module _ {ℓ} {F : Type ℓ} where
  -- A worker returns only when the queue is shut down and empty, and it stays so.
  pub Closed : TaskQueue F → Type ℓ
  Closed q =
      (j : ℕ) → get_elem? q.workers j ≡ some returned → (q.is_shutdown ≡ true) × (q.tasks ≡ [])

  set-returned :
      (ws : List (Worker F)) (i j : ℕ) (w : Worker F)
      → get_elem? (set ws i w) j ≡ some returned
      → (w ≡ returned) ⊎ (get_elem? ws j ≡ some returned)
  set-returned [] i j w e = inr e
  set-returned (u ∷ ws) zero zero w e = inl (ground arith)
  set-returned (u ∷ ws) zero (suc j) w e = inr e
  set-returned (u ∷ ws) (suc i) zero w e = inr e
  set-returned (u ∷ ws) (suc i) (suc j) w e = set-returned ws i j w e

  with_top-ne-nil :
      (before after : List (TaskItem F)) (top : TaskItem F) → (before ++ (top ∷ after)) ≢ []
  with_top-ne-nil [] after top e = cc
  with_top-ne-nil (t ∷ before) after top e = cc

  -- A step of a worker that does not return leaves the others as they are.
  before_step :
      (q : TaskQueue F) (i j : ℕ) (w : Worker F)
      → Closed q
      → w ≢ returned
      → get_elem? (set q.workers i w) j ≡ some returned
      → (q.is_shutdown ≡ true) × (q.tasks ≡ [])
  unfolding Closed
  before_step q i j w c n e = elim (set-returned q.workers i j w e) [
    | inl x ↦ absurd (n x)
    | inr x ↦ c j x
  ]

  WorkerStep-Closed : (i now : ℕ) (q r : TaskQueue F) → WorkerStep i now q r → Closed q → Closed r
  unfolding Closed
  WorkerStep-Closed i now q _ (returns e s t) c = λ j x. (s, t)
  WorkerStep-Closed i now q _ (waits e s t) c = λ j. before_step q i j waiting c (λ n. cc)
  WorkerStep-Closed i now q _ (takes before after top e t m l) c = λ j x. absurd (
      with_top-ne-nil before after top
        (sym t ∙ (before_step q i j (holding top.func) c (λ n. cc) x).1))
  WorkerStep-Closed i now q _ (waits_until before after top e t m l) c =
      λ j. before_step q i j waiting c (λ n. cc)
  WorkerStep-Closed i now q _ (wakes e) c = λ j. before_step q i j looking c (λ n. cc)
  WorkerStep-Closed i now q _ (calls f e) c = λ j. before_step q i j looking c (λ n. cc)
  WorkerStep-Closed i now q _ (skips e) c = λ j. before_step q i j looking c (λ n. cc)

  push_delayed-Closed :
      (f : Option F) (now delay : ℕ) (q : TaskQueue F)
      → Closed q
      → Closed (push_delayed f now delay q)
  unfolding Closed
  push_delayed-Closed f now delay q c = elim (Bool-cases q.is_shutdown) [
    | inl t ↦ rw t (λ j x. (refl, (c j x).1))
    | inr t ↦ rw t (λ j x. cc ((c j x).0, t))
  ]

  Step-Closed : (q r : TaskQueue F) → Step q r → Closed q → Closed r
  unfolding Closed
  Step-Closed q _ (pushes f now delay) c = push_delayed-Closed f now delay q c
  Step-Closed q _ shuts c = λ j x. (refl, (c j x).1)
  Step-Closed q _ (works i now r w) c = WorkerStep-Closed i now q r w c

module _ {ℓ} (F : Type ℓ) where
  replicate-looking : (n j : ℕ) → get_elem? {A = Worker F} (replicate n looking) j ≢ some returned
  replicate-looking zero j e = cc
  replicate-looking (suc n) zero e = cc
  replicate-looking (suc n) (suc j) e = replicate-looking n j e

  Reaches-Closed : (n : ℕ) (q : TaskQueue F) → Reaches (new_queue n) q → Closed q
  unfolding Closed
  Reaches-Closed n _ start = λ j e. absurd (replicate-looking n j e)
  Reaches-Closed n q (next r s x y) = Step-Closed r q y (Reaches-Closed n r x)

module _ {ℓ} {F : Type ℓ} (p : F → Bool) where
  -- However the pushes, the shutdown and any number of workers interleave, each callable task that the
  -- queue accepted waits in the queue, is held by one worker or has been called, and exactly once.
  -- `p` picks the tasks to count.
  pub Reaches-Conserves : (n : ℕ) (q : TaskQueue F) → Reaches (new_queue n) q → Conserves p q
  unfolding Conserves
  Reaches-Conserves n _ start = omega (arith, in_workers-replicate p n)
  Reaches-Conserves n q (next r s x y) = Step-Conserves p r q y (Reaches-Conserves n r x)

  in_workers-returned : (ws : List (Worker F)) → All (λ w. w ≡ returned) ws → in_workers p ws ≡ 0
  in_workers-returned [] a = refl
  in_workers-returned (w ∷ ws) a = rw a.0 (omega (arith, in_workers-returned ws a.1))

  -- Once all workers, one at least, have returned, the queue is shut down and every callable task
  -- that it accepted has been called exactly once. `p` picks the tasks to count.
  pub Reaches-drained :
      (threads : ℕ) (q : TaskQueue F)
      → Reaches (new_queue threads) q
      → All (λ w. w ≡ returned) q.workers
      → get_elem? q.workers 0 ≡ some returned
      → (q.is_shutdown ≡ true) × (in_ran p q.ran ≡ in_accepted p q.accepted)
  unfolding Conserves Closed
  Reaches-drained n q r a e =
      let c = Reaches-Conserves n q r in
      let (s, t) = Reaches-Closed F n q r 0 e in
      (s, omega (arith, c, ap (in_tasks p) t, in_workers-returned q.workers a))
