-- ===== src/Ranges/Loops.antt =====
-- The other loops of hikyuu/utilities/thread/algorithm.h: those of a function without a result, those
-- with one task for each index, and those on the global thread pool. A given `cpu_num` is not negative. The
-- global pool is not stopped while a loop runs, and every task that it takes is run, by a worker or by the
-- caller that waits.
use Prim.{tt}
use hku_utils.Base.{
  ℕ, zero, suc, ◌+◌, ◌-◌, List, [], ◌∷◌, map, Option, none, some, Bool, true, false, not, ◌&&◌,
  ◌||◌, leb, ltb, ◌==◌, if◌then◌else◌,
}
use hku_utils.Ranges.{
  parallel_index_range, workers_of, prepend_result, index_loop, index_task, collect, Outcome,
  returned, thrown, blocked, undefined, outcome_of,
}

-- A task of a function without a result: the indices that it calls the function on, in their order, and
-- whether the last call left with an exception, which the future keeps.
pub record Task : Type 0 where
  pub calls : List ℕ
  pub failed : Bool

abbrev pub Tasks : Type 0
Tasks = List Task

-- `for (ix = first; ix < second; ix++) f(ix)`, by the rounds left, for the indices on which `f` throws.
unfoldable pub call_loop : (ℕ → Bool) → ℕ → ℕ → Task
call_loop throws zero ix = record { calls = []; failed = false }
call_loop throws (suc rounds) ix =
    let rest = call_loop throws rounds (ix + 1) in
    if throws ix
    then record { calls = ix ∷ []; failed = true }
    else record { calls = ix ∷ rest.calls; failed = rest.failed }

unfoldable pub range_calls : (ℕ → Bool) → ℕ × ℕ → Task
unfolding call_loop
range_calls throws range = call_loop throws (range.1 - range.0) range.0

-- `for (i = start; i < end; i++) tg.submit(func(i))`, by the rounds left.
unfoldable pub single_tasks : (ℕ → Bool) → ℕ → ℕ → Tasks
single_tasks throws zero i = []
single_tasks throws (suc rounds) i =
    record { calls = i ∷ []; failed = throws i } ∷ single_tasks throws rounds (i + 1)

-- `for (auto& task : tasks) task.get()`.
unfoldable pub get_all : Tasks → Outcome (Unit {0})
get_all [] = returned tt
get_all (task ∷ tasks) = if task.failed then thrown else get_all tasks

-- A loop of a function without a result: how it ends, and the tasks that were submitted.
abbrev pub VoidRun : Type 0
VoidRun = Outcome (Unit {0}) × Tasks

-- The pool has no queue where it has no worker. The futures are dropped, and with them the exceptions.
unfoldable pub run_void : ℕ → (ℕ × ℕ → Task) → List (ℕ × ℕ) → VoidRun
run_void workers task [] = (returned tt, [])
run_void workers task (r ∷ ranges) =
    if workers == 0 then (undefined, []) else (returned tt, map task (r ∷ ranges))

unfoldable pub parallel_for_index_void : ℕ → ℕ → ℕ → (ℕ → Bool) → ℕ → VoidRun
unfolding range_calls run_void
parallel_for_index_void hardware start end throws cpu_num =
    run_void (workers_of hardware cpu_num) (range_calls throws)
      (parallel_index_range hardware start end cpu_num)

-- A ThreadPool without a worker drops its tasks in `join_results`.
unfoldable pub parallel_for_index_void_single : ℕ → ℕ → ℕ → (ℕ → Bool) → ℕ → VoidRun
unfolding single_tasks
parallel_for_index_void_single hardware start end throws cpu_num =
    if leb end start
    then (returned tt, [])
    else (if workers_of hardware cpu_num == 0
        then (returned tt, [])
        else (returned tt, single_tasks throws (end - start) start))

-- `if (end - start) < threshold || (!enable_nested && is_work_thread())`.
abbrev pub runs_inline : ℕ → ℕ → ℕ → Bool → Bool → Bool
runs_inline start end threshold enable_nested is_work_thread =
    ltb (end - start) threshold || (not enable_nested && is_work_thread)

-- The global pool; `stopped` is what `submit` refuses on.
pub record GlobalPool : Type 0 where
  pub worker_num : ℕ
  pub stopped : Bool

-- A loop that runs inline is one task, of the caller.
unfoldable pub own_loop : (ℕ → Bool) → ℕ → ℕ → VoidRun
unfolding call_loop get_all
own_loop throws start end =
    let task = call_loop throws (end - start) start in (get_all (task ∷ []), task ∷ [])

-- `HKU_ASSERT(tg)` throws where there is no pool, and the first `submit` where it is stopped. The caller
-- runs tasks while it waits, so a pool without a worker serves too.
unfoldable pub on_global : Option GlobalPool → (ℕ → Tasks) → VoidRun
unfolding get_all
on_global none tasks = (thrown, [])
on_global (some tg) tasks =
    if tg.stopped then (thrown, []) else (get_all (tasks tg.worker_num), tasks tg.worker_num)

unfoldable pub global_parallel_for_index_void :
    ℕ → Option GlobalPool → ℕ → ℕ → (ℕ → Bool) → ℕ → Bool → Bool → VoidRun
unfolding own_loop on_global range_calls
global_parallel_for_index_void hardware pool start end throws threshold enable_nested
      is_work_thread =
    if leb end start
    then (returned tt, [])
    else (if runs_inline start end threshold enable_nested is_work_thread
        then own_loop throws start end
        else on_global pool (λ worker_num.
          map (range_calls throws) (parallel_index_range hardware start end worker_num)))

unfoldable pub global_parallel_for_index_void_single :
    Option GlobalPool → ℕ → ℕ → (ℕ → Bool) → ℕ → Bool → Bool → VoidRun
unfolding own_loop on_global single_tasks
global_parallel_for_index_void_single pool start end throws threshold enable_nested is_work_thread =
    if leb end start
    then (returned tt, [])
    else (if runs_inline start end threshold enable_nested is_work_thread
        then own_loop throws start end
        else on_global pool (λ worker_num. single_tasks throws (end - start) start))

module _ {ℓ} {A : Type ℓ} where
  -- One task for each index, and its future taken in the order of the tasks, by the rounds left.
  unfoldable pub single_results : (ℕ → Option A) → ℕ → ℕ → Option (List A)
  unfolding prepend_result
  single_results f zero i = some []
  single_results f (suc rounds) i = prepend_result (f i) (single_results f rounds (i + 1))

  -- The tasks of a ThreadPool without a worker never run, and `get` waits for them.
  unfoldable pub parallel_for_index_single : ℕ → ℕ → ℕ → (ℕ → Option A) → ℕ → Outcome (List A)
  unfolding single_results
  parallel_for_index_single hardware start end f cpu_num =
      if leb end start
      then returned []
      else (if workers_of hardware cpu_num == 0
          then blocked
          else outcome_of (single_results f (end - start) start))

  unfoldable pub results_on_global : Option GlobalPool → (ℕ → Option (List A)) → Outcome (List A)
  results_on_global none results = thrown
  results_on_global (some tg) results =
      if tg.stopped then thrown else outcome_of (results tg.worker_num)

  unfoldable pub global_parallel_for_index :
      ℕ → Option GlobalPool → ℕ → ℕ → (ℕ → Option A) → ℕ → Bool → Bool → Outcome (List A)
  unfolding index_loop results_on_global collect index_task
  global_parallel_for_index hardware pool start end f threshold enable_nested is_work_thread =
      if leb end start
      then returned []
      else (if runs_inline start end threshold enable_nested is_work_thread
          then outcome_of (index_loop f (end - start) start)
          else results_on_global pool (λ worker_num.
            collect (index_task f) (parallel_index_range hardware start end worker_num)))

  unfoldable pub global_parallel_for_index_single :
      Option GlobalPool → ℕ → ℕ → (ℕ → Option A) → ℕ → Bool → Bool → Outcome (List A)
  unfolding index_loop results_on_global single_results
  global_parallel_for_index_single pool start end f threshold enable_nested is_work_thread =
      if leb end start
      then returned []
      else (if runs_inline start end threshold enable_nested is_work_thread
          then outcome_of (index_loop f (end - start) start)
          else results_on_global pool (λ worker_num. single_results f (end - start) start))
