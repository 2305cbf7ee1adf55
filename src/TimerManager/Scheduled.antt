-- ===== src/TimerManager/Scheduled.antt =====
-- Each timer of hikyuu/utilities/TimerManager.h has one place in the queue while the manager runs.
use hku_utils.Base.{
  ℕ, ◌≡◌, List, [], ◌∷◌, map, none, Bool, true, false, ltb, ℕ_discrete, Bool-cases, Option-cases,
  inl, inr, if◌then◌else◌,
}
use hku_utils.Base.Int.{pos, leb_ℤ}
use hku_utils.Base.Assoc.{keys, keys-modify, keys-erase_key, not-mem_of_lookup}
use mathlib.Core.List.{lookup, Nodup, Nodup-cons, Perm, erase-sublist, cons-perm_iff_perm-erase}
use mathlib.Core.List.Perm
use mathlib.Core.List.Nodup
use hku_utils.TimerManager.{
  Timer, IntervalS, TimerManager, push, first_point, insert_timer, add_timer, remove_timer,
  erase_timer, not_over,
}
use hku_utils.TimerManager.Numbers.{get_new_timer_id-ends}
use hku_utils.TimerManager.Calls.{
  next_point, count_down, is_over, schedule, run_timer, settle, fire,
}

abbrev pub ids : List IntervalS → List ℕ
ids = map (λ s. s.timer_id)

pub push-Perm :
    (s : IntervalS) (queue : List IntervalS) → Perm (ids (push s queue)) (s.timer_id ∷ ids queue)
unfolding push
push-Perm s [] = Perm.rfl
push-Perm s (r ∷ queue) = elim (Bool-cases (ltb s.time_point r.time_point)) [
  | inl e ↦ rw (e) Perm.rfl
  | inr e ↦ rw (e) (
      Perm.trans (Perm.cons r.timer_id (push-Perm s queue))
        (Perm.swap s.timer_id r.timer_id (ids queue)))
]

module _ {F : Type 0} where
  -- No two timers have one number, and while the manager runs the queue holds each timer once.
  pub record Scheduled (m : TimerManager F) : Type 0 where
    pub distinct : Nodup (keys m.timers)
    pub same : m.stop ≡ false → Perm (ids m.queue) (keys m.timers)

  insert_timer-Scheduled :
      (timer : Timer F) (p id : ℕ) (m : TimerManager F)
      → lookup ℕ_discrete id m.timers ≡ none
      → Scheduled m
      → Scheduled (insert_timer timer p id m)
  unfolding insert_timer
  insert_timer-Scheduled timer p id m free v = record {
    distinct = Nodup-cons.1 (not-mem_of_lookup ℕ_discrete id m.timers free, v.distinct);
    same = λ r.
        Perm.trans (push-Perm (record { time_point = p; timer_id = id }) m.queue)
          (Perm.cons id (v.same r));
  }

  add_timer-Scheduled :
      (now : ℕ) (timer : Timer F) (m : TimerManager F)
      → Scheduled m
      → Scheduled (add_timer now timer m).1
  unfolding add_timer
  add_timer-Scheduled now timer m v = elim (Bool-cases (not_over now timer)) [
    | inr e ↦ rw (e) v
    | inl e ↦ elim (Option-cases (first_point timer now)) [
      | inl n ↦ rw (e, n) v
      | inr (p, h) ↦ elim (get_new_timer_id-ends m) [
        | inl (room, id, g, free, le) ↦ rw (e, h, g) (insert_timer-Scheduled timer p id m free v)
        | inr (full, g) ↦ rw (e, h, g) v
      ]
    ]
  ]

  pub checked-Scheduled :
      (b : Bool) (now : ℕ) (timer : Timer F) (m : TimerManager F)
      → Scheduled m
      → Scheduled (if b then add_timer now timer m else (none, m)).1
  checked-Scheduled true now timer m v = add_timer-Scheduled now timer m v
  checked-Scheduled false now timer m v = v

  pub remove_timer-Scheduled :
      (id : ℕ) (m : TimerManager F) → Scheduled m → Scheduled (remove_timer id m)
  unfolding remove_timer
  remove_timer-Scheduled id m v = record {
    distinct =
        rw (keys-modify ℕ_discrete id (λ timer. record timer { repeat_num = pos 0 }) m.timers)
          v.distinct;
    same = λ r.
        rw (keys-modify ℕ_discrete id (λ timer. record timer { repeat_num = pos 0 }) m.timers)
          (v.same r);
  }

  -- The manager while the timer that was on top of the queue is out of it.
  pub record Missing (id : ℕ) (m : TimerManager F) : Type 0 where
    pub distinct : Nodup (keys m.timers)
    pub same : Perm (id ∷ ids m.queue) (keys m.timers)

  schedule-Scheduled : (p id : ℕ) (m : TimerManager F) → Missing id m → Scheduled (schedule p id m)
  unfolding schedule
  schedule-Scheduled p id m v = record {
    distinct = v.distinct;
    same = λ r. Perm.trans (push-Perm (record { time_point = p; timer_id = id }) m.queue) v.same;
  }

  pub erase_timer-Perm :
      (id : ℕ) (l : List ℕ) (m : TimerManager F)
      → Perm (id ∷ l) (keys m.timers)
      → Perm l (keys (erase_timer id m).timers)
  unfolding erase_timer
  erase_timer-Perm id l m p =
      rw (keys-erase_key ℕ_discrete id m.timers) ((cons-perm_iff_perm-erase ℕ_discrete).0 p).1

  pub erase_timer-distinct :
      (id : ℕ) (m : TimerManager F) → Nodup (keys m.timers) → Nodup (keys (erase_timer id m).timers)
  unfolding erase_timer
  erase_timer-distinct id m d =
      rw (keys-erase_key ℕ_discrete id m.timers) (Nodup.sublist (erase-sublist ℕ_discrete id) d)

  erase_timer-Scheduled :
      (id : ℕ) (m : TimerManager F) → Missing id m → Scheduled (erase_timer id m)
  unfolding erase_timer
  erase_timer-Scheduled id m v = record {
    distinct = erase_timer-distinct id m v.distinct;
    same = λ r. erase_timer-Perm id (ids m.queue) m v.same;
  }

  run_timer-Missing :
      (timer : Timer F) (id : ℕ) (m : TimerManager F)
      → Missing id m
      → Missing id (run_timer timer id m)
  unfolding run_timer
  run_timer-Missing timer id m v = record {
    distinct = rw (keys-modify ℕ_discrete id count_down m.timers) v.distinct;
    same = rw (keys-modify ℕ_discrete id count_down m.timers) v.same;
  }

  settle-Scheduled :
      (timer : Timer F) (now s id : ℕ) (m : TimerManager F)
      → Missing id m
      → Scheduled (settle timer now s id m)
  unfolding settle
  settle-Scheduled timer now s id m v = elim (Bool-cases (leb_ℤ timer.repeat_num (pos 0))) [
    | inl e ↦ rw (e) (erase_timer-Scheduled id m v)
    | inr e ↦ elim (Bool-cases (is_over timer (next_point timer now s))) [
      | inl o ↦ rw (e, o) (erase_timer-Scheduled id m v)
      | inr o ↦ rw (e, o) (schedule-Scheduled (next_point timer now s) id m v)
    ]
  ]

  pub fire-Scheduled :
      (now : ℕ) (s : IntervalS) (m : TimerManager F)
      → Missing s.timer_id m
      → Scheduled (fire now s m)
  unfolding fire
  fire-Scheduled now s m v = elim (Option-cases (lookup ℕ_discrete s.timer_id m.timers)) [
    | inl n ↦ absurd (
        not-mem_of_lookup ℕ_discrete s.timer_id m.timers n
          ((cons-perm_iff_perm-erase ℕ_discrete).0 v.same).0)
    | inr (timer, e) ↦
        rw (fire, e)
          (settle-Scheduled (count_down timer) now s.time_point s.timer_id
            (run_timer timer s.timer_id m) (run_timer-Missing timer s.timer_id m v))
  ]
