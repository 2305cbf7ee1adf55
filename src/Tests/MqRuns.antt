-- ===== src/Tests/MqRuns.antt =====
-- The theorem on hikyuu/utilities/thread/MQThreadPool.h at a pool of three workers; a task is a number.
use hku_utils.Base.{ℕ, ◌≡◌, refl, [], ◌∷◌, some, true, false, arith, get_elem?, ◌⊎◌}
use hku_utils.Queue.{size}
use hku_utils.MqThreadPool.{Worker, MqThreadPool, submit, with_task, choose}
use hku_utils.MqThreadPool.Balance.{AtLeast, submit-balanced}

abbrev stopping : Worker ℕ
stopping = record { queue = []; need_stop = true; ended = false }

abbrev busy : Worker ℕ
busy = record { queue = some 1 ∷ some 2 ∷ []; need_stop = false; ended = false }

abbrev idle : Worker ℕ
idle = record { queue = some 3 ∷ []; need_stop = false; ended = false }

abbrev three : MqThreadPool ℕ
three = record {
  done = false;
  running_until_empty = true;
  workers = stopping ∷ busy ∷ idle ∷ [];
  started = [];
}

busy_small : size busy.queue ≡ 2
unfolding size
busy_small = refl

third_chosen : choose 0 three.workers 9 0 ≡ 2
unfolding choose size
third_chosen = refl

submit-balanced_example :
    (i : ℕ) × (w : Worker ℕ) × (after : MqThreadPool ℕ) × (submit 4 three ≡ some after)
    × (get_elem? three.workers i ≡ some w)
    × (w.need_stop ≡ false)
    × AtLeast (size w.queue) three.workers
    × (get_elem? after.workers i ≡ some (with_task (some 4) w))
    × ((j : ℕ) → (i ≡ j) ⊎ (get_elem? after.workers j ≡ get_elem? three.workers j))
submit-balanced_example =
    submit-balanced 4 three 1 busy refl refl refl (rw (busy_small) (omega arith))
