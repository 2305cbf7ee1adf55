-- ===== src/TimerManager/Errors.antt =====
-- What the calls of hikyuu/utilities/TimerManager.h that add a timer leave, with a result and with an
-- exception.
use hku_utils.Base.{
  ℕ, ◌-◌, ◌≤◌, ◌<◌, ◌≡◌, ◌≢◌, refl, ◌∷◌, Option, none, some, Bool, true, false, ℕ_discrete,
  Bool-cases, Option-cases, ◌⊎◌, inl, inr, if◌then◌else◌, length, arith,
}
use hku_utils.Base.Int.{ℤ, pos, negsuc, ◌≤ℤ◌}
use mathlib.Core.List.{lookup}
use hku_utils.TimerManager.{
  Timer, TimerManager, max_int, max_point, one_day, start_of_day, shift, push, first_point,
  insert_timer, add_timer, not_over,
}
use hku_utils.TimerManager.Numbers.{get_new_timer_id-ends}
use hku_utils.TimerManager.Calls.{
  add_func, add_duration_func, add_delay_func, add_func_at_time, add_func_at_time_every_day,
}

-- A time of the day.
abbrev pub InDay : ℤ → Type 0
InDay t = (pos 0 ≤ℤ t) × (t ≤ℤ pos (one_day - 1))

-- A date that is given, which is not null.
abbrev pub date : Option ℕ → ℕ
date none = 0
date (some s) = s

abbrev pub Dates : Option ℕ → Option ℕ → Type 0
Dates s e = (s ≢ none) × (e ≢ none) × (start_of_day (date s) ≤ start_of_day (date e))

-- What addFunc asks of its arguments.
abbrev pub FuncArgs : Option ℕ → Option ℕ → ℤ → ℤ → ℤ → ℤ → Type 0
FuncArgs s e start_time end_time repeat_num duration =
    Dates s e
    × InDay start_time
    × InDay end_time
    × (start_time ≤ℤ end_time)
    × (pos 1 ≤ℤ repeat_num)
    × (pos 1 ≤ℤ duration)

module _ {F : Type 0} where
  -- The last day of the timer is not before today, and if it has one, its time of that day has not passed.
  abbrev pub IsCurrent : ℕ → Timer F → Type 0
  IsCurrent now timer =
      (start_of_day now ≤ timer.end_date)
      × ((timer.end_date ≡ max_point) ⊎ (now ≤ shift timer.end_date timer.end_time))

  -- The result of a call that asks `Args` of its arguments and adds this timer.
  abbrev pub Added : Type 0 → ℕ → Timer F → TimerManager F → Option ℕ × TimerManager F → Type 0
  Added Args now timer m r =
      (((¬ Args)
          ⊎ ((¬ IsCurrent now timer)
              ⊎ ((first_point timer now ≡ none) ⊎ (max_int ≤ length m.timers))))
        × (r.0 ≡ none)
        × (r.1 ≡ m))
      ⊎ (Args
          × IsCurrent now timer
          × (length m.timers < max_int)
          × (id p : ℕ) × (first_point timer now ≡ some p)
          × (lookup ℕ_discrete id m.timers ≡ none)
          × (id ≤ max_int)
          × (r.0 ≡ some id)
          × (r.1 ≡ record m {
            queue = push (record { time_point = p; timer_id = id }) m.queue;
            timers = (id, timer) ∷ m.timers;
            current_timer_id = some id;
          }))

  not_over-true : (now : ℕ) (timer : Timer F) → not_over now timer ≡ true → IsCurrent now timer
  unfolding not_over
  not_over-true now timer h = ground arith

  not_over-false : (now : ℕ) (timer : Timer F) → not_over now timer ≡ false → ¬ IsCurrent now timer
  unfolding not_over
  not_over-false now timer h c = ground arith

  add_timer-Added :
      (Args : Type 0) (now : ℕ) (timer : Timer F) (m : TimerManager F)
      → Args
      → Added Args now timer m (add_timer now timer m)
  unfolding add_timer insert_timer
  add_timer-Added Args now timer m a = elim (Bool-cases (not_over now timer)) [
    | inr e ↦ rw (e) (inl (inr (inl (not_over-false now timer e)), refl, refl))
    | inl e ↦ elim (Option-cases (first_point timer now)) [
      | inl n ↦ rw (e, n) (inl (inr (inr (inl refl)), refl, refl))
      | inr (p, h) ↦ elim (get_new_timer_id-ends m) [
        | inl (room, id, g, free, le) ↦
            rw (e, h, g)
              (inr (a, not_over-true now timer e, room, id, p, refl, free, le, refl, refl))
        | inr (full, g) ↦ rw (e, h, g) (inl (inr (inr (inr full)), refl, refl))
      ]
    ]
  ]

  -- A call that checks its arguments first.
  checked-Added :
      (Args : Type 0) (b : Bool) (now : ℕ) (timer : Timer F) (m : TimerManager F)
      → (b ≡ true → Args)
      → (b ≡ false → ¬ Args)
      → Added Args now timer m (if b then add_timer now timer m else (none, m))
  checked-Added Args true now timer m yes_ no_ = add_timer-Added Args now timer m (yes_ refl)
  checked-Added Args false now timer m yes_ no_ = inl (inl (no_ refl), refl, refl)

  -- The timers that the calls add.
  abbrev pub func_timer : Option ℕ → Option ℕ → ℤ → ℤ → ℤ → ℤ → F → Timer F
  func_timer s e start_time end_time repeat_num duration f = record {
    start_date = start_of_day (date s);
    end_date = start_of_day (date e);
    start_time = start_time;
    end_time = end_time;
    duration = duration;
    repeat_num = repeat_num;
    func = f;
  }

  -- From the first date on, all day long, at intervals.
  abbrev pub interval_timer : ℤ → ℤ → F → Timer F
  interval_timer repeat_num duration f = record {
    start_date = 0;
    end_date = max_point;
    start_time = pos 0;
    end_time = pos 0;
    duration = duration;
    repeat_num = repeat_num;
    func = f;
  }

  -- At one time of the day, from a date on.
  abbrev pub moment_timer : ℕ → ℤ → ℤ → F → Timer F
  moment_timer start_date time repeat_num f = record {
    start_date = start_date;
    end_date = max_point;
    start_time = negsuc (one_day - 1);
    end_time = time;
    duration = pos 0;
    repeat_num = repeat_num;
    func = f;
  }

  add_func-Added :
      (now : ℕ) (s e : Option ℕ) (t u n d : ℤ) (f : F) (m : TimerManager F)
      → Added (FuncArgs s e t u n d) now (func_timer s e t u n d f) m (add_func now s e t u n d f m)
  unfolding add_func
  add_func-Added now none e t u n d f m = inl (inl (λ a. a.0.0 refl), refl, refl)
  add_func-Added now (some s) none t u n d f m = inl (inl (λ a. a.0.1 refl), refl, refl)
  add_func-Added now (some s) (some e) t u n d f m =
      checked-Added _ _ now _ m
        (λ h. (
          ((λ q. cc), (λ q. cc), ground arith),
          ground arith,
          ground arith,
          ground arith,
          ground arith,
          ground arith,
        ))
        (λ h a. ground arith)

  every_day-Added :
      (now : ℕ) (s e : Option ℕ) (t : ℤ) (f : F) (m : TimerManager F)
      → Added
          (Dates s e × InDay t)
          now
          (moment_timer 0 t (pos max_int) f)
          m
          (add_func_at_time_every_day now s e t f m)
  unfolding add_func_at_time_every_day
  every_day-Added now none e t f m = inl (inl (λ a. a.0.0 refl), refl, refl)
  every_day-Added now (some s) none t f m = inl (inl (λ a. a.0.1 refl), refl, refl)
  every_day-Added now (some s) (some e) t f m =
      checked-Added _ _ now _ m (λ h. (((λ q. cc), (λ q. cc), ground arith), ground arith))
        (λ h a. ground arith)

  -- Each of the five calls that add a timer throws and leaves the manager as it was, or returns a number that no
  -- timer has, and adds its timer under that number to the map and, with its first time, to the queue. It throws
  -- exactly where its arguments are not what it asks for, where the timer is over or never runs, or where
  -- there are as many timers as the largest `int`.
  pub add_calls-Added :
      (now later : ℕ) (s e : Option ℕ) (t u n d : ℤ) (point : ℕ) (f : F) (m : TimerManager F)
      → Added (FuncArgs s e t u n d) now (func_timer s e t u n d f) m (add_func now s e t u n d f m)
        × Added
            ((pos 1 ≤ℤ n) × (pos 1 ≤ℤ d))
            now
            (interval_timer n d f)
            m
            (add_duration_func now n d f m)
        × Added (pos 1 ≤ℤ d) now (interval_timer (pos 1) d f) m (add_delay_func now d f m)
        × Added
            (now < point)
            later
            (moment_timer (start_of_day point) (pos (point - start_of_day point)) (pos 1) f)
            m
            (add_func_at_time now later point f m)
        × Added
            (Dates s e × InDay t)
            now
            (moment_timer 0 t (pos max_int) f)
            m
            (add_func_at_time_every_day now s e t f m)
  unfolding add_duration_func add_delay_func add_func_at_time
  add_calls-Added now later s e t u n d point f m = (
    add_func-Added now s e t u n d f m,
    checked-Added _ _ now _ m (λ h. ground arith) (λ h a. ground arith),
    checked-Added _ _ now _ m (λ h. ground arith) (λ h a. ground arith),
    checked-Added _ _ later _ m (λ h. ground arith) (λ h a. ground arith),
    every_day-Added now s e t f m,
  )
