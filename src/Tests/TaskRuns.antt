-- ===== src/Tests/TaskRuns.antt =====
-- The queues and the thread pool of hikyuu/utilities/thread at work.
use hku_utils.Base.{ℕ, [], ◌∷◌, ◌++◌, none, some, true, false, arith, ◌≡◌, refl}
use mathlib.Core.List.Perm
use hku_utils.Queue.Order.{History, Balanced, run-Balanced, push, push_front, try_pop, try_steal}
use hku_utils.Queue.Order
use hku_utils.ThreadPool
use hku_utils.ThreadPool.{ThreadPool, tasks, init}
use hku_utils.ThreadPool.Order.{run, submit, work, stop, finish, run-in_order}
use hku_utils.ThreadPool.Waits
use hku_utils.ThreadPool.Join.{join_runs_all}

abbrev nothing : History ℕ
nothing = record { queue = []; pushed = []; popped = []; stolen = [] }

nothing-Balanced : Balanced nothing
nothing-Balanced = record { same = Perm.nil; tasks = tt }

run-Balanced_example : Balanced (
    Order.run
      (push (some 1) ∷ push_front (some 2) ∷ try_steal ∷ try_pop ∷ push none ∷ try_steal ∷ [])
      nothing)
run-Balanced_example =
    run-Balanced
      (push (some 1) ∷ push_front (some 2) ∷ try_steal ∷ try_pop ∷ push none ∷ try_steal ∷ [])
      nothing nothing-Balanced

-- One worker runs the first of two tasks; then the pool is stopped, and the second task is discarded.
abbrev stopped : ThreadPool ℕ
stopped = record {
  done = true;
  worker_num = 1;
  running_until_empty = true;
  master_work_queue = [];
  workers = ThreadPool.ended ∷ [];
  closing = true;
  submitted = 7 ∷ 8 ∷ [];
  started = 7 ∷ [];
  dropped = 8 ∷ [];
}

stopped-run :
    run (submit 7 ∷ submit 8 ∷ work 0 ∷ work 0 ∷ stop ∷ work 0 ∷ work 0 ∷ finish ∷ []) (init 1 true)
    ≡ some stopped
unfolding run ThreadPool.Order.step ThreadPool.program
stopped-run = refl

run-in_order_example :
    stopped.submitted ≡ stopped.started ++ (stopped.dropped ++ tasks stopped.master_work_queue)
run-in_order_example =
    run-in_order 1 true
      (submit 7 ∷ submit 8 ∷ work 0 ∷ work 0 ∷ stop ∷ work 0 ∷ work 0 ∷ finish ∷ []) stopped
      stopped-run

-- The same tasks, with a join.
abbrev busy : ThreadPool ℕ
busy = record {
  done = false;
  worker_num = 1;
  running_until_empty = true;
  master_work_queue = some 8 ∷ [];
  workers = ThreadPool.running 7 ∷ [];
  closing = false;
  submitted = 7 ∷ 8 ∷ [];
  started = 7 ∷ [];
  dropped = [];
}

abbrev joined : ThreadPool ℕ
joined = record busy {
  master_work_queue = none ∷ [];
  workers = ThreadPool.ended ∷ [];
  closing = true;
  started = 7 ∷ 8 ∷ [];
}

busy-run :
    Waits.run (Waits.submit 7 ∷ Waits.submit 8 ∷ Waits.work 0 ∷ Waits.work 0 ∷ []) (init 1 true)
    ≡ some busy
unfolding Waits.run Waits.step ThreadPool.program
busy-run = refl

joined-run :
    Waits.run
      (Waits.work 0 ∷ Waits.work 0 ∷ Waits.work 0 ∷ Waits.work 0 ∷ Waits.work 0 ∷ Waits.work 0 ∷ [])
      (ThreadPool.join busy)
    ≡ some joined
unfolding Waits.run Waits.step ThreadPool.program
joined-run = refl

join_runs_all_example : Waits.AllStarted busy.submitted joined
unfolding ThreadPool.all_ended
join_runs_all_example =
    join_runs_all 1 (Waits.submit 7 ∷ Waits.submit 8 ∷ Waits.work 0 ∷ Waits.work 0 ∷ [])
      (Waits.work 0 ∷ Waits.work 0 ∷ Waits.work 0 ∷ Waits.work 0 ∷ Waits.work 0 ∷ Waits.work 0 ∷ [])
      busy joined busy-run joined-run (omega arith) refl
