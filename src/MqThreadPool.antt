-- ===== src/MqThreadPool.antt =====
-- hikyuu/utilities/thread/MQThreadPool.h: a pool with a queue for each worker. Between two accesses of what
-- the threads share other threads go on, so a run is a sequence of these operations.
pub mod Balance
use hku_utils.Base.{
  ℕ, zero, suc, ◌+◌, ◌-◌, List, [], ◌∷◌, ◌++◌, map, Option, none, some, Bool, true, false, ◌&&◌,
  ◌||◌, not, length, ltb, ◌==◌, if◌then◌else◌, u64_mod, replicate, get_elem?,
}
use hku_utils.Queue.{FuncWrapper, push, size, clear, wait_and_pop}

-- A worker: its entries of `m_queues` and `m_thread_need_stop`, and whether its thread has ended.
pub record Worker {ℓ} (T : Type ℓ) : Type ℓ where
  pub queue : List (FuncWrapper T)
  pub need_stop : Bool
  pub ended : Bool

pub record MqThreadPool {ℓ} (T : Type ℓ) : Type ℓ where
  pub done : Bool
  pub running_until_empty : Bool
  pub workers : List (Worker T)
  -- The tasks that workers have started.
  pub started : List T

-- `std::numeric_limits<size_t>::max()`.
abbrev pub max_size : ℕ
max_size = u64_mod - 1

module _ {ℓ} {T : Type ℓ} where
  unfoldable pub init : ℕ → Bool → MqThreadPool T
  init n until_empty = record {
    done = false;
    running_until_empty = until_empty;
    workers = replicate n (record { queue = []; need_stop = false; ended = false });
    started = [];
  }

  unfoldable pub remain_task_count : List (Worker T) → ℕ
  remain_task_count [] = 0
  remain_task_count (w ∷ workers) = size w.queue + remain_task_count workers

  -- The loop of submit from the worker i on, with `min_count` and `index`.
  unfoldable pub choose : ℕ → List (Worker T) → ℕ → ℕ → ℕ
  choose i [] min_count index = index
  choose i (w ∷ workers) min_count index =
      let cur_count = size w.queue in
      let same = choose (i + 1) workers min_count index in
      let less = choose (i + 1) workers cur_count i in
      if w.need_stop
      then same
      else (if cur_count == 0 then i else (if ltb cur_count min_count then less else same))

  abbrev pub with_task : FuncWrapper T → Worker T → Worker T
  with_task task w = record w { queue = push task w.queue }

  unfoldable pub push_to : ℕ → FuncWrapper T → List (Worker T) → List (Worker T)
  push_to i task [] = []
  push_to zero task (w ∷ workers) = with_task task w ∷ workers
  push_to (suc i) task (w ∷ workers) = w ∷ push_to i task workers

  -- `none` is the exception.
  unfoldable pub submit : T → MqThreadPool T → Option (MqThreadPool T)
  submit t p =
      if p.done
      then none
      else some (record p { workers = push_to (choose 0 p.workers max_size 0) (some t) p.workers })

  unfoldable pub set_stop : Worker T → Worker T
  set_stop w = record w { need_stop = true }

  unfoldable pub push_null : Worker T → Worker T
  push_null w = with_task none w

  unfoldable pub clear_queue : Worker T → Worker T
  clear_queue w = record w { queue = clear w.queue }

  -- `stop` up to its wait for the threads, and after it.
  unfoldable pub stop : MqThreadPool T → MqThreadPool T
  stop p =
      if p.done
      then p
      else record p { done = true; workers = map (λ w. push_null (set_stop w)) p.workers }

  unfoldable pub stop_finish : MqThreadPool T → MqThreadPool T
  stop_finish p = record p { workers = map clear_queue p.workers }

  -- `join` up to its wait for the threads, and after it.
  unfoldable pub join : MqThreadPool T → MqThreadPool T
  join p =
      if p.done
      then p
      else (if p.running_until_empty
          then record p { workers = map push_null p.workers }
          else record p { done = true; workers = map (λ w. push_null (set_stop w)) p.workers })

  unfoldable pub join_finish : MqThreadPool T → MqThreadPool T
  join_finish p = record p { done = true }

  -- A round of the worker's loop: the test, and the next task, which it starts. `none`: the thread waits.
  unfoldable pub round : Bool → Worker T → Option (List T × Worker T)
  round done w =
      if not (not w.need_stop || not done)
      then some ([], record w { ended = true })
      else (elim (wait_and_pop w.queue) [
        | none ↦ none
        | some (none, rest) ↦ some ([], record w { queue = rest; need_stop = true; ended = true })
        | some (some t, rest) ↦ some (t ∷ [], record w { queue = rest })
      ])
