-- ===== src/ThreadPool.antt =====
-- The thread pool with one queue: hikyuu/utilities/thread/ThreadPool.h. A step of a worker is the part
-- of its loop between two accesses of shared state, so every interleaving is a sequence of steps.
pub mod Order
pub mod Waits
pub mod Join
use hku_utils.Base.{
  ℕ, zero, suc, ◌*◌, List, [], ◌∷◌, ◌++◌, Option, none, some, Bool, true, false, ◌&&◌, get_elem?,
  replicate, if◌then◌else◌,
}
use hku_utils.Queue.{FuncWrapper, push, wait_and_pop, clear}

-- Where a worker stands: before the test of `m_done`, in `wait_and_pop`, in a task, or out of its loop.
pub data Phase {ℓ} (T : Type ℓ) : Type ℓ where
  testing waiting ended : Phase T
  running : T → Phase T

-- The members, whether a call of `stop` or `join` waits for the workers, and what has happened: the tasks
-- that were submitted, those that a worker started, each in their order, and those that the final
-- `clear` of the queue discarded.
pub record ThreadPool {ℓ} (T : Type ℓ) : Type ℓ where
  pub done : Bool
  pub worker_num : ℕ
  pub running_until_empty : Bool
  pub master_work_queue : List (FuncWrapper T)
  pub workers : List (Phase T)
  pub closing : Bool
  pub submitted : List T
  pub started : List T
  pub dropped : List T

-- The tasks of a queue.
abbrev pub tasks {ℓ} : {T : Type ℓ} → List (FuncWrapper T) → List T
tasks [] = []
tasks (none ∷ queue) = tasks queue
tasks (some t ∷ queue) = t ∷ tasks queue

module _ {ℓ} {T : Type ℓ} where
  unfoldable pub init : ℕ → Bool → ThreadPool T
  init n until_empty = record {
    done = false;
    worker_num = n;
    running_until_empty = until_empty;
    master_work_queue = [];
    workers = replicate n testing;
    closing = false;
    submitted = [];
    started = [];
    dropped = [];
  }

  unfoldable pub enqueue : T → ThreadPool T → ThreadPool T
  unfolding push
  enqueue t p = record p {
    master_work_queue = push (some t) p.master_work_queue;
    submitted = p.submitted ++ t ∷ [];
  }

  -- `none`: the exception of a stopped pool.
  unfoldable pub submit : T → ThreadPool T → Option (ThreadPool T)
  submit t p = if p.done then none else some (enqueue t p)

  unfoldable pub set_phase : ℕ → Phase T → List (Phase T) → List (Phase T)
  set_phase i phase [] = []
  set_phase zero phase (w ∷ workers) = phase ∷ workers
  set_phase (suc i) phase (w ∷ workers) = w ∷ set_phase i phase workers

  -- What a worker does with the task that it popped.
  unfoldable pub take_task : ℕ → FuncWrapper T → List (FuncWrapper T) → ThreadPool T → ThreadPool T
  take_task i none queue p = record p {
    master_work_queue = queue;
    workers = set_phase i ended p.workers;
  }
  take_task i (some t) queue p = record p {
    master_work_queue = queue;
    workers = set_phase i (running t) p.workers;
    started = p.started ++ t ∷ [];
  }

  -- The next step of worker `i`, in its phase. `none`: it waits, or has ended.
  unfoldable pub advance : ℕ → Phase T → ThreadPool T → Option (ThreadPool T)
  advance i testing p =
      some (record p { workers = set_phase i (if p.done then ended else waiting) p.workers })
  advance i waiting p = elim (wait_and_pop p.master_work_queue) [
    | none ↦ none
    | some (task, queue) ↦ some (take_task i task queue p)
  ]
  advance i (running t) p = some (record p { workers = set_phase i testing p.workers })
  advance i ended p = none

  unfoldable pub worker_thread : ℕ → ThreadPool T → Option (ThreadPool T)
  worker_thread i p = elim (get_elem? p.workers i) [ none ↦ none | some phase ↦ advance i phase p ]

  -- The null tasks with which `stop` and `join` end the workers.
  unfoldable pub send_nulls : Bool → ℕ → ThreadPool T → ThreadPool T
  send_nulls done n p = record p {
    done = done;
    master_work_queue = p.master_work_queue ++ replicate n none;
    closing = true;
  }

  -- `stop` up to the wait for the workers.
  unfoldable pub stop : ThreadPool T → ThreadPool T
  stop p = if p.done then p else send_nulls true p.worker_num p

  -- `join` up to the wait for the workers.
  unfoldable pub join : ThreadPool T → ThreadPool T
  join p =
      if p.done
      then p
      else send_nulls (if p.running_until_empty then p.done else true) (2 * p.worker_num) p

  unfoldable pub all_ended : List (Phase T) → Bool
  all_ended [] = true
  all_ended (ended ∷ workers) = all_ended workers
  all_ended (testing ∷ workers) = false
  all_ended (waiting ∷ workers) = false
  all_ended (running t ∷ workers) = false

  -- The end of `stop` and `join`, once the workers are joined.
  unfoldable pub finish : ThreadPool T → Option (ThreadPool T)
  finish p =
      if p.closing && all_ended p.workers
      then some (record p {
        done = true;
        master_work_queue = clear p.master_work_queue;
        dropped = p.dropped ++ tasks p.master_work_queue;
      })
      else none

-- What a run of the pool computes with.
unfoldable pub program : Unit {0}
unfolding init submit enqueue push wait_and_pop set_phase take_task advance worker_thread stop join
    send_nulls all_ended finish clear
program = tt
