-- ===== src/TimerManager/Runs.antt =====
-- Every run of a manager of hikyuu/utilities/TimerManager.h, with its starts and stops.
use hku_utils.Base.{
  ℕ, ◌≡◌, refl, sym, subst, List, [], ◌∷◌, ◌++◌, Option, none, some, Bool, true, false, ltb, ◌==◌,
  Bool-cases, Option-cases, inl, inr, if◌then◌else◌, not, append-nil,
}
use hku_utils.Base.Int.{ℤ}
use hku_utils.Base.Assoc.{keys}
use mathlib.Core.List.{Nodup, Nodup-nil, Perm, perm_middle}
use mathlib.Core.List.Perm
use hku_utils.TimerManager.{Timer, IntervalS, TimerManager, push, remove_timer, erase_timer}
use hku_utils.TimerManager.Calls.{
  detect, detect_top, set_stopped, ended, restart_point, rebuild, erase_all, set_running, start,
  stop, init, take_top, add_func, add_duration_func, add_delay_func, add_func_at_time,
  add_func_at_time_every_day,
}
use hku_utils.TimerManager.Scheduled.{
  Scheduled, Missing, ids, push-Perm, checked-Scheduled, remove_timer-Scheduled, erase_timer-Perm,
  erase_timer-distinct, fire-Scheduled,
}

true-false : true ≡ false → ⊥
true-false e = cc

module _ {F : Type 0} where
  rebuild-Perm :
      (clock : ℕ → ℕ) (timers : List (ℕ × Timer F)) (queue : List IntervalS)
      (invalid_timers : List ℕ)
      → let r = rebuild clock timers queue invalid_timers in
        Perm (r.1 ++ ids r.0) (keys timers ++ (invalid_timers ++ ids queue))
  unfolding rebuild
  rebuild-Perm clock [] queue invalid_timers = Perm.rfl
  rebuild-Perm clock ((id, timer) ∷ timers) queue invalid_timers =
      elim (Option-cases (restart_point timer (clock id))) [
        | inl e ↦
            rw (rebuild, e)
              (Perm.trans (rebuild-Perm clock timers queue (id ∷ invalid_timers))
                (perm_middle (keys timers) (invalid_timers ++ ids queue)))
        | inr (p, e) ↦
            let s : IntervalS = record { time_point = p; timer_id = id } in
            rw (rebuild, e)
              (Perm.trans (rebuild-Perm clock timers (push s queue) invalid_timers) (
                Perm.trans
                  (Perm.append_left (keys timers) (
                    Perm.trans (Perm.append_left invalid_timers (push-Perm s queue))
                      (perm_middle invalid_timers (ids queue))))
                  (perm_middle (keys timers) (invalid_timers ++ ids queue))))
      ]

  erased :
      (id : ℕ) (l : List ℕ) (m : TimerManager F)
      → Perm (id ∷ (l ++ ids m.queue)) (keys m.timers)
      → Perm (l ++ ids (erase_timer id m).queue) (keys (erase_timer id m).timers)
  unfolding erase_timer
  erased id l m p = erase_timer-Perm id (l ++ ids m.queue) m p

  erase_all-Scheduled :
      (l : List ℕ) (m : TimerManager F)
      → Nodup (keys m.timers)
      → Perm (l ++ ids m.queue) (keys m.timers)
      → Scheduled (erase_all l m)
  unfolding erase_all
  erase_all-Scheduled [] m d p = record { distinct = d; same = λ r. p }
  erase_all-Scheduled (id ∷ l) m d p =
      erase_all-Scheduled l (erase_timer id m) (erase_timer-distinct id m d) (erased id l m p)

  if-Scheduled :
      (b : Bool) (m n : TimerManager F) → Scheduled m → Scheduled n → Scheduled (if b then m else n)
  if-Scheduled true m n v w = v
  if-Scheduled false m n v w = w

  take_top-Missing :
      (s : IntervalS) (rest : List IntervalS) (m : TimerManager F)
      → m.queue ≡ s ∷ rest
      → m.stop ≡ false
      → Scheduled m
      → Missing s.timer_id (take_top rest m)
  unfolding take_top
  take_top-Missing s rest m q r v = record {
    distinct = v.distinct;
    same = subst (λ queue. Perm (ids queue) (keys m.timers)) q (v.same r);
  }

  start-Scheduled : (clock : ℕ → ℕ) (m : TimerManager F) → Scheduled m → Scheduled (start clock m)
  unfolding start set_running
  start-Scheduled clock m v = elim (Bool-cases (not m.stop)) [
    | inl e ↦ rw (e) v
    | inr e ↦
        let r = rebuild clock m.timers [] [] in
        rw (e) (
          erase_all-Scheduled r.1 (set_running r.0 m) v.distinct (
            Perm.trans (rebuild-Perm clock m.timers [] [])
              (rw (append-nil (keys m.timers)) Perm.rfl)))
  ]

  stop-Scheduled : (m : TimerManager F) → Scheduled m → Scheduled (stop m)
  unfolding stop set_stopped
  stop-Scheduled m v =
      if-Scheduled m.stop m (set_stopped m) v
        (record { distinct = v.distinct; same = λ r. absurd (true-false r) })

  detect_top-Scheduled :
      (now later : ℕ) (queue : List IntervalS) (m : TimerManager F)
      → m.queue ≡ queue
      → m.stop ≡ false
      → Scheduled m
      → Scheduled (detect_top now later queue m).1
  unfolding detect_top
  detect_top-Scheduled now later [] m q r v = v
  detect_top-Scheduled now later (s ∷ rest) m q r v = elim (Bool-cases (s.time_point == 0)) [
    | inl e ↦ rw (e) v
    | inr e ↦ elim (Bool-cases (ltb now s.time_point)) [
      | inl f ↦ rw (e, f) v
      | inr f ↦
          rw (e, f) (fire-Scheduled later s (take_top rest m) (take_top-Missing s rest m q r v))
    ]
  ]

  detect-Scheduled :
      (now later : ℕ) (m : TimerManager F) → Scheduled m → Scheduled (detect now later m).1
  unfolding detect
  detect-Scheduled now later m v = elim (Bool-cases m.stop) [
    | inl e ↦
        subst (λ b. Scheduled (if b then (ended, m) else detect_top now later m.queue m).1) (sym e)
          v
    | inr e ↦
        subst (λ b. Scheduled (if b then (ended, m) else detect_top now later m.queue m).1) (sym e)
          (detect_top-Scheduled now later m.queue m refl e v)
  ]

-- A call of a user or a round of the detecting thread, with the times that it reads.
pub data Step (F : Type 0) : Type 0 where
  add : ℕ → Option ℕ → Option ℕ → ℤ → ℤ → ℤ → ℤ → F → Step F
  add_duration : ℕ → ℤ → ℤ → F → Step F
  add_delay : ℕ → ℤ → F → Step F
  add_at : ℕ → ℕ → ℕ → F → Step F
  add_every_day : ℕ → Option ℕ → Option ℕ → ℤ → F → Step F
  remove : ℕ → Step F
  round : ℕ → ℕ → Step F
  starts : (ℕ → ℕ) → Step F
  stops : Step F

module _ {F : Type 0} where
  unfoldable pub step : Step F → TimerManager F → TimerManager F
  step (add now s e t u n d f) m = (add_func now s e t u n d f m).1
  step (add_duration now n d f) m = (add_duration_func now n d f m).1
  step (add_delay now d f) m = (add_delay_func now d f m).1
  step (add_at now later t f) m = (add_func_at_time now later t f m).1
  step (add_every_day now s e t f) m = (add_func_at_time_every_day now s e t f m).1
  step (remove id) m = remove_timer id m
  step (round now later) m = (detect now later m).1
  step (starts clock) m = start clock m
  step stops m = stop m

  unfoldable pub run : List (Step F) → TimerManager F → TimerManager F
  run [] m = m
  run (s ∷ steps) m = run steps (step s m)

  step-Scheduled : (s : Step F) (m : TimerManager F) → Scheduled m → Scheduled (step s m)
  unfolding step add_func add_duration_func add_delay_func add_func_at_time
      add_func_at_time_every_day
  step-Scheduled (add now none e t u n d f) m v = v
  step-Scheduled (add now (some s) none t u n d f) m v = v
  step-Scheduled (add now (some s) (some e) t u n d f) m v = checked-Scheduled _ now _ m v
  step-Scheduled (add_duration now n d f) m v = checked-Scheduled _ now _ m v
  step-Scheduled (add_delay now d f) m v = checked-Scheduled _ now _ m v
  step-Scheduled (add_at now later t f) m v = checked-Scheduled _ later _ m v
  step-Scheduled (add_every_day now none e t f) m v = v
  step-Scheduled (add_every_day now (some s) none t f) m v = v
  step-Scheduled (add_every_day now (some s) (some e) t f) m v = checked-Scheduled _ now _ m v
  step-Scheduled (remove id) m v = remove_timer-Scheduled id m v
  step-Scheduled (round now later) m v = detect-Scheduled now later m v
  step-Scheduled (starts clock) m v = start-Scheduled clock m v
  step-Scheduled stops m v = stop-Scheduled m v

  run-Scheduled :
      (steps : List (Step F)) (m : TimerManager F) → Scheduled m → Scheduled (run steps m)
  unfolding run
  run-Scheduled [] m v = v
  run-Scheduled (s ∷ steps) m v = run-Scheduled steps (step s m) (step-Scheduled s m v)

  init-Scheduled : Scheduled (init {F = F})
  unfolding init
  init-Scheduled =
      start-Scheduled (λ id. 0)
        (record { queue = []; stop = true; timers = []; current_timer_id = none; submitted = [] })
        (record { distinct = Nodup-nil; same = λ r. Perm.nil })

  -- After any calls and rounds of a new manager no two timers have one number, and if the manager runs, the
  -- queue holds the number of each timer once and no other number.
  pub run-init-Scheduled :
      (steps : List (Step F))
      → (run steps (init {F = F})).stop ≡ false
      → Nodup (keys (run steps (init {F = F})).timers)
        × Perm (ids (run steps (init {F = F})).queue) (keys (run steps (init {F = F})).timers)
  run-init-Scheduled steps running =
      let v = run-Scheduled steps init init-Scheduled in (v.distinct, v.same running)
