-- ===== src/TimerManager/Removal.antt =====
-- What becomes of a timer that removeTimer of hikyuu/utilities/TimerManager.h takes out.
use hku_utils.Base.{
  ℕ, ◌≤◌, ◌<◌, ◌≡◌, refl, ap, subst, ◌∙◌, List, [], ◌∷◌, ◌++◌, none, some, false, ℕ_discrete,
  if◌then◌else◌, arith,
}
use hku_utils.Base.Int.{pos, ◌-ℤ◌}
use hku_utils.Base.Assoc.{
  keys, keys-modify, keys-erase_key, lookup-modify_self, lookup_of_not-mem, modify, erase_key,
}
use mathlib.Core.List.{lookup, Nodup, Nodup-cons, Mem, erase, perm_cons_erase, mem_of_mem-erase}
use mathlib.Core.List.Perm
use hku_utils.TimerManager.{Timer, IntervalS, TimerManager, remove_timer, erase_timer}
use hku_utils.TimerManager.Calls.{
  ended, goes_on, count_down, run_timer, settle, fire, take_top, detect_top, detect,
}

not-mem-erase_self : (l : List ℕ) (n : ℕ) → Nodup l → ¬ Mem n (erase ℕ_discrete l n)
not-mem-erase_self l n d here =
    (Nodup-cons.0
        (Perm.nodup (perm_cons_erase ℕ_discrete (mem_of_mem-erase ℕ_discrete n here)) d)).0
      here

module _ {F : Type 0} where
  lookup-erased :
      (id : ℕ) (timers : List (ℕ × Timer F))
      → Nodup (keys timers)
      → lookup ℕ_discrete id (erase_key ℕ_discrete id timers) ≡ none
  lookup-erased id timers d =
      lookup_of_not-mem ℕ_discrete id (erase_key ℕ_discrete id timers) (λ here.
        not-mem-erase_self (keys timers) id d
          (subst (λ l. Mem id l) (keys-erase_key ℕ_discrete id timers) here))

  fire-removed :
      (now : ℕ) (s : IntervalS) (timer : Timer F) (m : TimerManager F)
      → lookup ℕ_discrete s.timer_id m.timers ≡ some (record timer { repeat_num = pos 0 })
      → fire now s m
        ≡ erase_timer s.timer_id (run_timer (record timer { repeat_num = pos 0 }) s.timer_id m)
  unfolding settle count_down fire ◌-ℤ◌
  fire-removed now s timer m e = rw (fire, e)

  detect-due :
      (now later : ℕ) (s : IntervalS) (rest : List IntervalS) (m : TimerManager F)
      → m.stop ≡ false
      → m.queue ≡ s ∷ rest
      → 0 < s.time_point
      → s.time_point ≤ now
      → detect now later m ≡ (goes_on, fire later s (take_top rest m))
  unfolding detect detect_top
  detect-due now later s rest m r q h₁ h₂ =
      ap (λ b. if b then (ended, m) else detect_top now later m.queue m) r
      ∙ ap (λ queue. detect_top now later queue m) q
      ∙ ground arith

  -- A timer that was removed before it is due is submitted once more when it is, and then it is gone.
  pub remove_timer-detect :
      (now later : ℕ) (s : IntervalS) (rest : List IntervalS) (timer : Timer F) (m : TimerManager F)
      → m.stop ≡ false
      → m.queue ≡ s ∷ rest
      → lookup ℕ_discrete s.timer_id m.timers ≡ some timer
      → Nodup (keys m.timers)
      → 0 < s.time_point
      → s.time_point ≤ now
      → ((detect now later (remove_timer s.timer_id m)).1.submitted
          ≡ m.submitted ++ timer.func ∷ [])
        × (lookup ℕ_discrete s.timer_id (detect now later (remove_timer s.timer_id m)).1.timers
            ≡ none)
  unfolding remove_timer take_top run_timer erase_timer
  remove_timer-detect now later s rest timer m r q e d h₁ h₂ =
      let id = s.timer_id in
      let m₁ = remove_timer id m in
      let e₁ =
        lookup-modify_self ℕ_discrete id (λ timer. record timer { repeat_num = pos 0 }) m.timers
          timer e in
      let e₂ = detect-due now later s rest m₁ r q h₁ h₂ in
      let e₃ = fire-removed later s timer (take_top rest m₁) e₁ in
      rw (e₂, e₃)
        (
          refl,
          lookup-erased id (modify ℕ_discrete id count_down m₁.timers) (
              rw
                (
                  keys-modify ℕ_discrete id count_down m₁.timers,
                  keys-modify ℕ_discrete id (λ timer. record timer { repeat_num = pos 0 }) m.timers,
                )
                d),
        )
