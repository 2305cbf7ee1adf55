-- ===== src/Tests/TimerRuns.antt =====
-- The theorems on hikyuu/utilities/TimerManager.h at concrete timers; a function is a number.
use hku_utils.Base.{
  ℕ, ◌+◌, ◌-◌, ◌*◌, ◌≤◌, ◌<◌, ◌≡◌, refl, List, [], ◌∷◌, none, some, false, ℕ_discrete, arith, ◌⊎◌,
}
use hku_utils.Base.Int.{pos, ◌-ℤ◌, ◌≤ℤ◌}
use hku_utils.Base.Assoc.{keys, modify, erase_key}
use mathlib.Core.List.{lookup, Nodup, Nodup-nil, Nodup-cons, Perm, not-mem-nil}
use hku_utils.TimerManager.{
  Timer, IntervalS, TimerManager, max_int, one_day, start_of_day, get_new_timer_id, remove_timer,
  shift, push, first_point, insert_timer, add_timer, next_id, free_id, in_window, not_over,
  erase_timer,
}
use hku_utils.TimerManager.Calls
use hku_utils.TimerManager.Calls.{
  detect, next_point, init, add_func, add_duration_func, add_delay_func, add_func_at_time,
  add_func_at_time_every_day, start, rebuild, erase_all, set_running,
}
use hku_utils.TimerManager.Numbers.{get_new_timer_id-ends}
use hku_utils.TimerManager.Runs.{
  Step, add_delay, add_every_day, round, remove, stops, starts, run, step, run-init-Scheduled,
}
use hku_utils.TimerManager.Scheduled.{ids}
use hku_utils.TimerManager.Points.{IsLater, Placed, next_point-due}
use hku_utils.TimerManager.Errors.{
  Added, Dates, InDay, FuncArgs, func_timer, interval_timer, moment_timer, add_calls-Added,
}
use hku_utils.TimerManager.Removal.{remove_timer-detect}

-- A timer that runs from 1 s to 9 s of each day, every 2 s.
abbrev every_two : Timer ℕ
every_two = record {
  start_date = 0;
  end_date = 3_141_084 * one_day;
  start_time = pos 1_000_000;
  end_time = pos 9_000_000;
  duration = pos 2_000_000;
  repeat_num = pos 3;
  func = 77;
}

-- The timer has the number 0 and is due at 3 s of the second day.
abbrev due : IntervalS
due = record { time_point = one_day + 3_000_000; timer_id = 0 }

abbrev waiting_one : TimerManager ℕ
waiting_one = record {
  queue = due ∷ [];
  stop = false;
  timers = (0, every_two) ∷ [];
  current_timer_id = some 0;
  submitted = [];
}

next_number : get_new_timer_id waiting_one ≡ some (some 1)
unfolding get_new_timer_id free_id next_id lookup ℕ_discrete
next_number = refl

get_new_timer_id-ends_example :
    ((1 < max_int)
      × (id : ℕ) × (get_new_timer_id waiting_one ≡ some (some id))
      × (lookup ℕ_discrete id waiting_one.timers ≡ none)
      × (id ≤ max_int))
    ⊎ ((max_int ≤ 1) × (get_new_timer_id waiting_one ≡ some none))
get_new_timer_id-ends_example = get_new_timer_id-ends waiting_one

-- A timer is added, runs, another one is added and removed, and the manager is stopped and started.
abbrev steps : List (Step ℕ)
steps =
    add_delay one_day (pos 5) 7
    ∷ add_every_day one_day (some 0) (some one_day) (pos 9) 8
    ∷ round (one_day + 5) (one_day + 6)
    ∷ remove 1
    ∷ stops
    ∷ starts (λ id. one_day + 20)
    ∷ []

still_on : (run steps init).stop ≡ false
unfolding run step init start Calls.stop Calls.set_stopped set_running erase_all rebuild
    add_delay_func add_func_at_time_every_day add_timer not_over first_point insert_timer
    get_new_timer_id free_id next_id lookup ℕ_discrete detect Calls.detect_top Calls.fire
    Calls.settle Calls.run_timer Calls.take_top Calls.count_down Calls.is_over Calls.schedule
    next_point remove_timer modify Calls.restart_point erase_timer erase_key push shift in_window
    ◌-ℤ◌
still_on = refl

run-init-Scheduled_example :
    Nodup (keys (run steps init).timers)
    × Perm (ids (run steps init).queue) (keys (run steps init).timers)
run-init-Scheduled_example = run-init-Scheduled steps still_on

next_point-due_example :
    (one_day + 9_500_000 ≤ next_point every_two (one_day + 9_500_000) (one_day + 8_000_000))
    × (((◌≡◌ {A = ℕ} 1_000_000 9_000_000)
          × IsLater
              (one_day + 9_500_000)
              (one_day + 8_000_000 + 2_000_000)
              (next_point every_two (one_day + 9_500_000) (one_day + 8_000_000)))
        ⊎ Placed 1_000_000 9_000_000 2_000_000
            (one_day + 9_500_000)
            (one_day + 8_000_000)
            (next_point every_two (one_day + 9_500_000) (one_day + 8_000_000)))
next_point-due_example =
    next_point-due every_two (one_day + 9_500_000) (one_day + 8_000_000) 1_000_000 9_000_000
      2_000_000 refl refl refl

-- The run of 9 s of a day, seen after midnight: the next one is at once, before 1 s.
before_span : next_point every_two (one_day + 5) 9_000_000 ≡ one_day + 5
unfolding next_point shift
before_span = refl

add_calls-Added_example :
    Added
      (FuncArgs (some 0) (some 1) (pos 0) (pos 0) (pos 1) (pos 4))
      5
      (func_timer (some 0) (some 1) (pos 0) (pos 0) (pos 1) (pos 4) 77)
      waiting_one
      (add_func 5 (some 0) (some 1) (pos 0) (pos 0) (pos 1) (pos 4) 77 waiting_one)
    × Added
        ((pos 1 ≤ℤ pos 1) × (pos 1 ≤ℤ pos 4))
        5
        (interval_timer (pos 1) (pos 4) 77)
        waiting_one
        (add_duration_func 5 (pos 1) (pos 4) 77 waiting_one)
    × Added
        (pos 1 ≤ℤ pos 4)
        5
        (interval_timer (pos 1) (pos 4) 77)
        waiting_one
        (add_delay_func 5 (pos 4) 77 waiting_one)
    × Added
        (5 < 9)
        6
        (moment_timer (start_of_day 9) (pos (9 - start_of_day 9)) (pos 1) 77)
        waiting_one
        (add_func_at_time 5 6 9 77 waiting_one)
    × Added
        (Dates (some 0) (some 1) × InDay (pos 0))
        5
        (moment_timer 0 (pos 0) (pos max_int) 77)
        waiting_one
        (add_func_at_time_every_day 5 (some 0) (some 1) (pos 0) 77 waiting_one)
add_calls-Added_example =
    add_calls-Added 5 6 (some 0) (some 1) (pos 0) (pos 0) (pos 1) (pos 4) 9 77 waiting_one

every_two_found : lookup ℕ_discrete 0 waiting_one.timers ≡ some every_two
unfolding lookup ℕ_discrete
every_two_found = refl

remove_timer-detect_example :
    ((detect (one_day + 3_000_000) (one_day + 3_000_001) (remove_timer 0 waiting_one)).1.submitted
      ≡ 77 ∷ [])
    × (lookup ℕ_discrete 0
          (detect (one_day + 3_000_000) (one_day + 3_000_001) (remove_timer 0 waiting_one)).1.timers
        ≡ none)
remove_timer-detect_example =
    remove_timer-detect (one_day + 3_000_000) (one_day + 3_000_001) due [] every_two waiting_one
      refl refl every_two_found (Nodup-cons.1 (not-mem-nil, Nodup-nil)) (omega arith) (omega arith)
