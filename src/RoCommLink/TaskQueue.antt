-- ===== src/RoCommLink/TaskQueue.antt =====
-- include/core/common/task_queue.h and src/core/common/task_queue.cpp: the queue of delayed tasks and its
-- workers. Threads interleave at the points where a worker takes or gives back the lock, so the
-- behaviour is a relation between states. The standard library's queue does not say which of two
-- tasks with the same time is on top, so the relation allows each of them.
pub mod Drain
mod Tests
use knowledge_acquisition.Prelude.{
  ℕ, zero, suc, ◌+◌, ◌≤◌, ◌<◌, ◌≡◌, Bool, true, false, Option, none, some, List, [], ◌∷◌, ◌++◌, set,
  get_elem?, replicate, All,
}

-- `none` is an empty `std::function`.
pub record TaskItem {ℓ} (F : Type ℓ) : Type ℓ where
  pub func : Option F
  pub execute_at : ℕ

-- Where a worker stands: before a look at the queue, in one of the two waits, in a callback, or
-- after its return.
pub data Worker {ℓ} (F : Type ℓ) : Type ℓ where
  looking : Worker F
  waiting : Worker F
  holding : (func : Option F) → Worker F
  returned : Worker F

-- `accepted` and `ran` record what was pushed and what was called.
pub record TaskQueue {ℓ} (F : Type ℓ) : Type ℓ where
  pub tasks : List (TaskItem F)
  pub workers : List (Worker F)
  pub is_shutdown : Bool
  pub accepted : List (Option F)
  pub ran : List F

module _ {ℓ} {F : Type ℓ} where
  -- The constructor starts `threads` workers.
  abbrev pub new_queue : ℕ → TaskQueue F
  new_queue threads = record {
    tasks = [];
    workers = replicate threads looking;
    is_shutdown = false;
    accepted = [];
    ran = [];
  }

  -- `push` at the time `now`; `push_delayed` pushes `now + delay`.
  abbrev pub push_delayed : Option F → ℕ → ℕ → TaskQueue F → TaskQueue F
  push_delayed f now delay q = elim q.is_shutdown [
    | true ↦ q
    | false ↦ record q {
      tasks = record { func = f; execute_at = now + delay } ∷ q.tasks;
      accepted = f ∷ q.accepted;
    }
  ]

  abbrev pub push : Option F → ℕ → TaskQueue F → TaskQueue F
  push f now q = push_delayed f now 0 q

  abbrev pub shutdown : TaskQueue F → TaskQueue F
  shutdown q = record q { is_shutdown = true }

  -- A worker goes on from another place.
  abbrev pub goes : ℕ → Worker F → TaskQueue F → TaskQueue F
  goes i w q = record q { workers = set q.workers i w }

  -- A round of a worker's loop under the lock, at the time `now`, and what it does outside.
  pub data WorkerStep (i now : ℕ) (q : TaskQueue F) : TaskQueue F → Type ℓ where
    returns :
        get_elem? q.workers i ≡ some looking
        → q.is_shutdown ≡ true
        → q.tasks ≡ []
        → WorkerStep i now q (goes i returned q)
    waits :
        get_elem? q.workers i ≡ some looking
        → q.is_shutdown ≡ false
        → q.tasks ≡ []
        → WorkerStep i now q (goes i waiting q)
    takes :
        (before after : List (TaskItem F)) (top : TaskItem F)
        → get_elem? q.workers i ≡ some looking
        → q.tasks ≡ before ++ (top ∷ after)
        → All (λ t. top.execute_at ≤ t.execute_at) (before ++ after)
        → top.execute_at ≤ now
        → WorkerStep i now q (goes i (holding top.func) (record q { tasks = before ++ after }))
    waits_until :
        (before after : List (TaskItem F)) (top : TaskItem F)
        → get_elem? q.workers i ≡ some looking
        → q.tasks ≡ before ++ (top ∷ after)
        → All (λ t. top.execute_at ≤ t.execute_at) (before ++ after)
        → now < top.execute_at
        → WorkerStep i now q (goes i waiting q)
    wakes : get_elem? q.workers i ≡ some waiting → WorkerStep i now q (goes i looking q)
    calls :
        (f : F)
        → get_elem? q.workers i ≡ some (holding (some f))
        → WorkerStep i now q (goes i looking (record q { ran = f ∷ q.ran }))
    skips : get_elem? q.workers i ≡ some (holding none) → WorkerStep i now q (goes i looking q)

  pub data Step (q : TaskQueue F) : TaskQueue F → Type ℓ where
    pushes : (f : Option F) (now delay : ℕ) → Step q (push_delayed f now delay q)
    shuts : Step q (shutdown q)
    works : (i now : ℕ) (r : TaskQueue F) → WorkerStep i now q r → Step q r

  pub data Reaches (q : TaskQueue F) : TaskQueue F → Type ℓ where
    start : Reaches q q
    next : (r s : TaskQueue F) → Reaches q r → Step r s → Reaches q s
