-- ===== src/TimerManager/Calls.antt =====
-- The calls of hikyuu/utilities/TimerManager.h: adding timers, starting and stopping, and the rounds of the
-- detecting thread.
use hku_utils.Base.{
  ℕ, ◌+◌, ◌-◌, List, [], ◌∷◌, ◌++◌, Option, none, some, Bool, true, false, not, ◌&&◌, ◌||◌, leb,
  ltb, ◌==◌, if◌then◌else◌, ℕ_discrete,
}
use hku_utils.Base.Int.{ℤ, pos, negsuc, leb_ℤ, is_negative, ◌-ℤ◌}
use hku_utils.Base.Assoc.{modify}
use mathlib.Core.List.{lookup}
use hku_utils.TimerManager.{
  Timer, IntervalS, TimerManager, one_day, max_point, max_int, ltb_ℤ, start_of_day, shift, push,
  first_point, add_timer, erase_timer,
}

-- `TimeDelta(0, 23, 59, 59, 999, 999)`.
abbrev pub last_time : ℤ
last_time = pos (one_day - 1)

abbrev pub in_day : ℤ → Bool
in_day t = leb_ℤ (pos 0) t && leb_ℤ t last_time

-- The time of the next run of a timer that ran at `s` and was seen at `now`.
unfoldable pub next_point : {F : Type 0} → Timer F → ℕ → ℕ → ℕ
next_point timer now s =
    if not (is_negative timer.start_time)
    then (let p = shift s timer.duration in
        let p = if ltb p now then now else p in
        if not (leb_ℤ timer.start_time timer.end_time && leb_ℤ timer.end_time timer.start_time)
          && ltb (shift (start_of_day now) timer.end_time) p
        then shift (start_of_day now) timer.start_time + one_day
        else p)
    else s + (start_of_day now + one_day) - start_of_day s

-- What a round of the detecting thread does next.
pub data Progress : Type 0 where
  ended : Progress
  waits : Progress
  waits_for : ℕ → Progress
  goes_on : Progress

-- `TimeDelta(-1)` is minus one day.
abbrev pub minus_one_day : ℤ
minus_one_day = negsuc (one_day - 1)

module _ {F : Type 0} where
  -- `m_repeat_num--`, except of the largest number.
  unfoldable pub count_down : Timer F → Timer F
  count_down timer =
      if leb_ℤ (pos max_int) timer.repeat_num && leb_ℤ timer.repeat_num (pos max_int)
      then timer
      else record timer { repeat_num = timer.repeat_num -ℤ pos 1 }

  -- The checks of addFunc; a date that is null is `none`.
  unfoldable pub add_func :
      ℕ → Option ℕ → Option ℕ → ℤ → ℤ → ℤ → ℤ → F → TimerManager F → Option ℕ × TimerManager F
  add_func now none end_date start_time end_time repeat_num duration f m = (none, m)
  add_func now (some s) none start_time end_time repeat_num duration f m = (none, m)
  add_func now (some s) (some e) start_time end_time repeat_num duration f m =
      if leb (start_of_day s) (start_of_day e)
        && (in_day start_time
            && (in_day end_time
                && (leb_ℤ start_time end_time
                    && (ltb_ℤ (pos 0) repeat_num && ltb_ℤ (pos 0) duration))))
      then add_timer now
          (record {
            start_date = start_of_day s;
            end_date = start_of_day e;
            start_time = start_time;
            end_time = end_time;
            duration = duration;
            repeat_num = repeat_num;
            func = f;
          })
          m
      else (none, m)

  -- A timer of any date, as the next three calls make it.
  abbrev pub timer_from : ℕ → ℤ → ℤ → ℤ → ℤ → F → Timer F
  timer_from start_date start_time end_time repeat_num duration f = record {
    start_date = start_date;
    end_date = max_point;
    start_time = start_time;
    end_time = end_time;
    duration = duration;
    repeat_num = repeat_num;
    func = f;
  }

  unfoldable pub add_duration_func : ℕ → ℤ → ℤ → F → TimerManager F → Option ℕ × TimerManager F
  add_duration_func now repeat_num duration f m =
      if ltb_ℤ (pos 0) repeat_num && ltb_ℤ (pos 0) duration
      then add_timer now (timer_from 0 (pos 0) (pos 0) repeat_num duration f) m
      else (none, m)

  unfoldable pub add_delay_func : ℕ → ℤ → F → TimerManager F → Option ℕ × TimerManager F
  add_delay_func now delay f m =
      if ltb_ℤ (pos 0) delay
      then add_timer now (timer_from 0 (pos 0) (pos 0) (pos 1) delay f) m
      else (none, m)

  -- The clock is read here and again in `_addFunc`.
  unfoldable pub add_func_at_time : ℕ → ℕ → ℕ → F → TimerManager F → Option ℕ × TimerManager F
  add_func_at_time now later time_point f m =
      if ltb now time_point
      then add_timer later
          (timer_from (start_of_day time_point) minus_one_day
            (pos (time_point - start_of_day time_point)) (pos 1) (pos 0) f)
          m
      else (none, m)

  unfoldable pub add_func_at_time_every_day :
      ℕ → Option ℕ → Option ℕ → ℤ → F → TimerManager F → Option ℕ × TimerManager F
  add_func_at_time_every_day now none end_date time f m = (none, m)
  add_func_at_time_every_day now (some s) none time f m = (none, m)
  add_func_at_time_every_day now (some s) (some e) time f m =
      if in_day time && leb (start_of_day s) (start_of_day e)
      then add_timer now (timer_from 0 minus_one_day time (pos max_int) (pos 0) f) m
      else (none, m)

  -- `m_end_date != max && p > m_end_date + m_end_time`.
  unfoldable pub is_over : Timer F → ℕ → Bool
  is_over timer p = not (timer.end_date == max_point) && ltb (shift timer.end_date timer.end_time) p

  unfoldable pub schedule : ℕ → ℕ → TimerManager F → TimerManager F
  schedule p id m = record m { queue = push (record { time_point = p; timer_id = id }) m.queue }

  unfoldable pub take_top : List IntervalS → TimerManager F → TimerManager F
  take_top rest m = record m { queue = rest }

  -- The timer at the top of the queue is due: it is submitted, and removed or put back.
  unfoldable pub run_timer : Timer F → ℕ → TimerManager F → TimerManager F
  run_timer timer id m = record m {
    submitted = m.submitted ++ timer.func ∷ [];
    timers = modify ℕ_discrete id count_down m.timers;
  }

  unfoldable pub settle : Timer F → ℕ → ℕ → ℕ → TimerManager F → TimerManager F
  settle timer now s id m =
      if leb_ℤ timer.repeat_num (pos 0)
      then erase_timer id m
      else (if is_over timer (next_point timer now s)
          then erase_timer id m
          else schedule (next_point timer now s) id m)

  unfoldable pub fire : ℕ → IntervalS → TimerManager F → TimerManager F
  fire now s m = elim (lookup ℕ_discrete s.timer_id m.timers) [
    | none ↦ m
    | some timer ↦
        settle (count_down timer) now s.time_point s.timer_id (run_timer timer s.timer_id m)
  ]

  -- A round of the detecting thread that runs, with the two times that it reads.
  unfoldable pub detect_top : ℕ → ℕ → List IntervalS → TimerManager F → Progress × TimerManager F
  detect_top now later [] m = (waits, m)
  detect_top now later (s ∷ rest) m =
      if s.time_point == 0
      then (ended, m)
      else (if ltb now s.time_point
          then (waits_for (s.time_point - now), m)
          else (goes_on, fire later s (take_top rest m)))

  unfoldable pub detect : ℕ → ℕ → TimerManager F → Progress × TimerManager F
  detect now later m = if m.stop then (ended, m) else detect_top now later m.queue m

  -- The time from which start lets a timer run; `none` where the timer is not valid any more.
  unfoldable pub restart_point : Timer F → ℕ → Option ℕ
  restart_point timer now =
      if leb_ℤ timer.repeat_num (pos 0) || is_over timer now then none else first_point timer now

  -- The loop over the timers, with the queue and the invalid timers so far. The clock is read for each.
  unfoldable pub rebuild :
      (ℕ → ℕ) → List (ℕ × Timer F) → List IntervalS → List ℕ → List IntervalS × List ℕ
  rebuild clock [] queue invalid_timers = (queue, invalid_timers)
  rebuild clock ((id, timer) ∷ timers) queue invalid_timers =
      elim (restart_point timer (clock id)) [
        | none ↦ rebuild clock timers queue (id ∷ invalid_timers)
        | some p ↦
            rebuild clock timers (push (record { time_point = p; timer_id = id }) queue)
              invalid_timers
      ]

  unfoldable pub erase_all : List ℕ → TimerManager F → TimerManager F
  erase_all [] m = m
  erase_all (id ∷ ids) m = erase_all ids (erase_timer id m)

  unfoldable pub set_running : List IntervalS → TimerManager F → TimerManager F
  set_running queue m = record m { queue = queue; stop = false }

  unfoldable pub start : (ℕ → ℕ) → TimerManager F → TimerManager F
  start clock m =
      if not m.stop
      then m
      else (let r = rebuild clock m.timers [] [] in erase_all r.1 (set_running r.0 m))

  unfoldable pub set_stopped : TimerManager F → TimerManager F
  set_stopped m = record m { queue = []; stop = true }

  unfoldable pub stop : TimerManager F → TimerManager F
  stop m = if m.stop then m else set_stopped m

  -- A new manager starts at once.
  unfoldable pub init : TimerManager F
  init =
      start (λ id. 0)
        (record { queue = []; stop = true; timers = []; current_timer_id = none; submitted = [] })
