-- ===== src/TimerManager.antt =====
-- hikyuu/utilities/TimerManager.h: the timers, the queue of their next runs, and how a timer gets its
-- number and its first time. Points in time are the microseconds since `Datetime::min()`, and a TimeDelta
-- is a whole number of microseconds.
pub mod Calls
pub mod Numbers
pub mod Scheduled
pub mod Runs
pub mod Points
pub mod Errors
pub mod Removal
use hku_utils.Base.{
  ℕ, zero, suc, ◌+◌, ◌-◌, ◌*◌, ◌/◌, ◌%◌, List, [], ◌∷◌, ◌++◌, map, Option, none, some, Bool, true,
  false, not, ◌&&◌, ◌||◌, leb, ltb, ◌==◌, if◌then◌else◌, length, ℕ_discrete,
}
use hku_utils.Base.Int.{ℤ, pos, negsuc, leb_ℤ, is_negative, ◌-ℤ◌, pos_part}
use hku_utils.Base.Assoc.{modify, erase_key, keys}
use mathlib.Core.List.{lookup}

abbrev pub one_day : ℕ
one_day = 86_400_000_000

-- `Datetime::max()`, 9999-12-31.
abbrev pub max_point : ℕ
max_point = 3_141_084 * one_day

-- `std::numeric_limits<int>::max()`.
abbrev pub max_int : ℕ
max_int = 2_147_483_647

abbrev pub ltb_ℤ : ℤ → ℤ → Bool
ltb_ℤ a b = not (leb_ℤ b a)

abbrev pub start_of_day : ℕ → ℕ
start_of_day t = t / one_day * one_day

-- `t + d`.
unfoldable pub shift : ℕ → ℤ → ℕ
shift t (pos n) = t + n
shift t (negsuc n) = t - suc n

pub record Timer (F : Type 0) : Type 0 where
  pub start_date : ℕ
  pub end_date : ℕ
  pub start_time : ℤ
  pub end_time : ℤ
  pub duration : ℤ
  pub repeat_num : ℤ
  pub func : F

pub record IntervalS : Type 0 where
  pub time_point : ℕ
  pub timer_id : ℕ

-- `submitted` are the functions that the pool got, in their order. `current_timer_id` is `none` for -1.
pub record TimerManager (F : Type 0) : Type 0 where
  pub queue : List IntervalS
  pub stop : Bool
  pub timers : List (ℕ × Timer F)
  pub current_timer_id : Option ℕ
  pub submitted : List F

-- The priority queue, its top first. Of equal times the one that came first stands before.
unfoldable pub push : IntervalS → List IntervalS → List IntervalS
push s [] = s ∷ []
push s (r ∷ queue) =
    let rest = push s queue in if ltb s.time_point r.time_point then s ∷ r ∷ queue else r ∷ rest

-- The time in the allowed part of its day that is a whole number of durations from the start of it.
unfoldable pub in_window : ℤ → ℤ → ℤ → ℕ → ℕ
in_window start_time end_time duration p =
    if leb_ℤ start_time end_time && leb_ℤ end_time start_time
    then p
    else (let point_date = start_of_day p in
        let point = pos (p % one_day) in
        if ltb_ℤ point start_time
        then shift point_date start_time
        else (if ltb_ℤ end_time point
            then shift point_date start_time + one_day
            else (let gap = pos_part (point -ℤ start_time) in
                if gap % pos_part duration == 0
                then p
                else shift point_date start_time
                  + pos_part duration * (gap / pos_part duration + 1))))

unfoldable pub next_id : ℕ → ℕ
next_id id = if leb max_int id then 0 else id + 1

abbrev pub id_after : Option ℕ → ℕ
id_after none = 0
id_after (some id) = next_id id

module _ {F : Type 0} where
  -- The first time of a timer that is added or rescheduled; `none` where that has passed.
  unfoldable pub first_point : Timer F → ℕ → Option ℕ
  first_point timer now =
      if is_negative timer.start_time
      then (let first_start_time = shift timer.start_date timer.end_time in
          if leb now first_start_time
          then some first_start_time
          else (if leb_ℤ timer.repeat_num (pos 1)
              then none
              else (let p = shift (start_of_day now) timer.end_time in
                  some (if ltb p now then p + one_day else p))))
      else some (
          in_window timer.start_time timer.end_time timer.duration (
            if leb (start_of_day now) timer.start_date
            then shift (shift timer.start_date timer.start_time) timer.duration
            else shift now timer.duration))

  -- The search for a free number, by the rounds that it may take.
  unfoldable pub free_id : List (ℕ × Timer F) → ℕ → ℕ → Option ℕ
  free_id timers zero id = none
  free_id timers (suc rounds) id = elim (lookup ℕ_discrete id timers) [
    | none ↦ some id
    | some timer ↦ free_id timers rounds (next_id id)
  ]

  -- `none` is a search without an end, `some none` is -1.
  unfoldable pub get_new_timer_id : TimerManager F → Option (Option ℕ)
  get_new_timer_id m =
      if leb max_int (length m.timers)
      then some none
      else (elim (free_id m.timers (length m.timers + 1) (id_after m.current_timer_id)) [
        | none ↦ none
        | some id ↦ some (some id)
      ])

  -- The timer gets its number and its place in the queue.
  unfoldable pub insert_timer : Timer F → ℕ → ℕ → TimerManager F → TimerManager F
  insert_timer timer p id m = record m {
    queue = push (record { time_point = p; timer_id = id }) m.queue;
    timers = (id, timer) ∷ m.timers;
    current_timer_id = some id;
  }

  -- The checks of `_addFunc`.
  unfoldable pub not_over : ℕ → Timer F → Bool
  not_over now timer =
      leb (start_of_day now) timer.end_date
      && (timer.end_date == max_point || leb now (shift timer.end_date timer.end_time))

  -- `_addFunc`, with the time that it reads; `none` is an exception.
  unfoldable pub add_timer : ℕ → Timer F → TimerManager F → Option ℕ × TimerManager F
  add_timer now timer m =
      if not_over now timer
      then (elim (first_point timer now) [
        | none ↦ (none, m)
        | some p ↦ elim (get_new_timer_id m) [
          | some (some id) ↦ (some id, insert_timer timer p id m)
          | _ ↦ (none, m)
        ]
      ])
      else (none, m)

  unfoldable pub remove_timer : ℕ → TimerManager F → TimerManager F
  remove_timer id m = record m {
    timers = modify ℕ_discrete id (λ timer. record timer { repeat_num = pos 0 }) m.timers;
  }

  -- `_removeTimer`.
  unfoldable pub erase_timer : ℕ → TimerManager F → TimerManager F
  erase_timer id m = record m { timers = erase_key ℕ_discrete id m.timers }
