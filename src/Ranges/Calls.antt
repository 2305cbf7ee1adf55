-- ===== src/Ranges/Calls.antt =====
-- What the loops of hikyuu/utilities/thread/algorithm.h of a function without a result call, and how they end.
use Prim.{tt}
use hku_utils.Base.{
  ℕ, ◌-◌, ◌≤◌, ◌<◌, ◌≡◌, refl, sym, subst, ◌∙◌, List, [], ◌∷◌, ◌++◌, map, Option, none, some, Bool,
  true, false, arith, leb, if◌then◌else◌, Bool-cases, upto, ◌⊎◌, inl, inr, append-nil,
}
use mathlib.Core.List.{Mem, Perm}
use mathlib.Core.List.Perm
use hku_utils.Ranges.{parallel_index_range, Outcome, returned, thrown}
use hku_utils.Ranges.Cover.{parallel_index_range-Chain}
use hku_utils.Ranges.Interleaving.{Interleaved, Interleaved-perm, Interleaved-none}
use hku_utils.Ranges.Loops.{
  Tasks, VoidRun, GlobalPool, call_loop, range_calls, single_tasks, get_all, runs_inline, own_loop,
  on_global, global_parallel_for_index_void, global_parallel_for_index_void_single,
}
use hku_utils.Ranges.Covered.{
  all_calls, Quiet, CoveredAll, both, call_loop-Covered, ranges-Covered, singles-Covered,
  get_all-failed,
}

module _ (throws : ℕ → Bool) where
  -- The loop needs no pool, or has one that is not stopped.
  abbrev pub Served : Option GlobalPool → ℕ → ℕ → ℕ → Bool → Bool → Type 0
  Served pool start end threshold enable_nested is_work_thread =
      (end ≤ start)
      ⊎ ((runs_inline start end threshold enable_nested is_work_thread ≡ true)
          ⊎ ((tg : GlobalPool) × (pool ≡ some tg) × (tg.stopped ≡ false)))

  -- How a loop on the global pool ends where its tasks make the calls `l`:
  -- it is served and returns, no call throws, and each index of [start, end) is called exactly once;
  -- or it is served and throws what a call threw, and no index is called twice and none outside;
  -- or it throws and calls nothing, since it needs a pool, and there is none or it is stopped.
  abbrev pub Ended :
      Option GlobalPool → ℕ → ℕ → ℕ → Bool → Bool → Outcome (Unit {0}) → List ℕ → Type 0
  Ended pool start end threshold enable_nested is_work_thread outcome l =
      (Served pool start end threshold enable_nested is_work_thread
        × (outcome ≡ returned tt)
        × Quiet throws (upto start (end - start))
        × Perm (upto start (end - start)) l)
      ⊎ ((Served pool start end threshold enable_nested is_work_thread
            × (outcome ≡ thrown)
            × (i : ℕ) × (skipped : List ℕ) × Mem i l
            × (throws i ≡ true)
            × Perm (l ++ skipped) (upto start (end - start)))
          ⊎ ((outcome ≡ thrown)
              × (start < end)
              × (runs_inline start end threshold enable_nested is_work_thread ≡ false)
              × ((pool ≡ none) ⊎ ((tg : GlobalPool) × (pool ≡ some tg) × (tg.stopped ≡ true)))
              × (l ≡ [])))

  module _ (pool : Option GlobalPool) (start end threshold : ℕ)
      (enable_nested is_work_thread : Bool) where
    abbrev Ends : VoidRun → Type 0
    Ends run =
        (l : List ℕ)
        → Interleaved (all_calls run.1) l
        → Ended pool start end threshold enable_nested is_work_thread run.0 l

    covered-Ends :
        (tasks : Tasks)
        → Served pool start end threshold enable_nested is_work_thread
        → CoveredAll throws tasks (upto start (end - start))
        → Ends (get_all tasks, tasks)
    covered-Ends tasks served (inl (e, c, q)) l i =
        inl (served, get_all-failed tasks ∙ rw (e) refl, q, rw (← c) (Interleaved-perm i))
    covered-Ends tasks served (inr (e, x, s, m, t, p)) l i =
        let same = Interleaved-perm i in
        inr (
          inl (
            served,
            get_all-failed tasks ∙ rw (e) refl,
            x,
            s,
            (Perm.mem_iff same).0 m,
            t,
            Perm.trans (Perm.append_right s (Perm.symm same)) p,
          ))

    refused-Ends :
        start < end
        → runs_inline start end threshold enable_nested is_work_thread ≡ false
        → (pool ≡ none) ⊎ ((tg : GlobalPool) × (pool ≡ some tg) × (tg.stopped ≡ true))
        → Ends (thrown, [])
    refused-Ends h e down l i = inr (inr (refl, h, e, down, Interleaved-none l i))

    nothing-Ends : leb end start ≡ true → Ends (returned tt, [])
    nothing-Ends e l i =
        let z : end - start ≡ 0 = ground arith in
        rw (z) (inl (inl (ground arith), refl, tt, Interleaved-perm i))

    own-Ends :
        Served pool start end threshold enable_nested is_work_thread
        → Ends (own_loop throws start end)
    unfolding own_loop
    own-Ends served = covered-Ends (call_loop throws (end - start) start ∷ []) served (
        subst (λ indices. CoveredAll throws (call_loop throws (end - start) start ∷ []) indices)
          (append-nil (upto start (end - start)))
          (both throws _ false _ [] _ [] (call_loop-Covered throws (end - start) start)
            (inl (refl, refl, tt))))

    on_global-Ends :
        (tasks : ℕ → Tasks)
        → start < end
        → runs_inline start end threshold enable_nested is_work_thread ≡ false
        → ((worker_num : ℕ) → CoveredAll throws (tasks worker_num) (upto start (end - start)))
        → (p : Option GlobalPool) → pool ≡ p
        → Ends (on_global p tasks)
    unfolding on_global
    on_global-Ends tasks h e all none same = refused-Ends h e (inl same)
    on_global-Ends tasks h e all (some tg) same = elim (Bool-cases tg.stopped) [
      | inl d ↦ rw (d, on_global) (refused-Ends h e (inr (tg, same, d)))
      | inr d ↦
          rw (d, on_global)
            (covered-Ends (tasks tg.worker_num) (inr (inr (tg, same, d))) (all tg.worker_num))
    ]

    -- The checks that both loops begin with.
    checked-Ends :
        (tasks : ℕ → Tasks)
        → (start < end
            → (worker_num : ℕ) → CoveredAll throws (tasks worker_num) (upto start (end - start)))
        → Ends (
            if leb end start
            then (returned tt, [])
            else (if runs_inline start end threshold enable_nested is_work_thread
                then own_loop throws start end
                else on_global pool tasks))
    checked-Ends tasks all = elim (Bool-cases (leb end start)) [
      | inl e ↦ rw (e) (nothing-Ends e)
      | inr e ↦ elim (Bool-cases (runs_inline start end threshold enable_nested is_work_thread)) [
        | inl i ↦ rw (e) (
            subst (λ b. Ends (if b then own_loop throws start end else on_global pool tasks))
              (sym i) (own-Ends (inr (inl i))))
        | inr i ↦
            let h : start < end = ground arith in
            rw (e) (
              subst (λ b. Ends (if b then own_loop throws start end else on_global pool tasks))
                (sym i) (on_global-Ends tasks h i (all h) pool refl))
      ]
    ]

    -- However the threads interleave, each of the two loops of a function without a result on the global
    -- pool, where the range is empty, the loop runs inline, or there is a pool that is not stopped, either
    -- returns, and it has called the function on each index of [start, end) exactly once and no call
    -- throws, or it throws, and a call on one of these indices throws and no index is called twice and
    -- none outside. Else it throws and calls nothing. This holds for every threshold, number of workers
    -- and nesting.
    pub global_void_loops-once :
        (hardware : ℕ) (l₁ l₂ : List ℕ)
        → Interleaved
            (all_calls
              (global_parallel_for_index_void hardware pool start end throws threshold enable_nested
                is_work_thread).1)
            l₁
        → Interleaved
            (all_calls
              (global_parallel_for_index_void_single pool start end throws threshold enable_nested
                is_work_thread).1)
            l₂
        → Ended pool start end threshold enable_nested is_work_thread
            (global_parallel_for_index_void hardware pool start end throws threshold enable_nested
              is_work_thread).0
            l₁
          × Ended pool start end threshold enable_nested is_work_thread
              (global_parallel_for_index_void_single pool start end throws threshold enable_nested
                is_work_thread).0
              l₂
    unfolding global_parallel_for_index_void global_parallel_for_index_void_single
    global_void_loops-once hardware l₁ l₂ i₁ i₂ = (
      checked-Ends
          (λ worker_num.
            map (range_calls throws) (parallel_index_range hardware start end worker_num))
          (λ h worker_num.
            ranges-Covered throws start end _
              (parallel_index_range-Chain hardware start end worker_num h))
          l₁ i₁,
      checked-Ends (λ worker_num. single_tasks throws (end - start) start)
          (λ h worker_num. singles-Covered throws (end - start) start) l₂ i₂,
    )
