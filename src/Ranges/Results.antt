-- ===== src/Ranges/Results.antt =====
-- What the loops of hikyuu/utilities/thread/algorithm.h of a function with a result return.
use hku_utils.Base.{
  ℕ, zero, suc, ◌+◌, ◌-◌, ◌≡◌, refl, ap, List, [], map, Option, some, Bool, false, arith, leb, ◌==◌,
  if◌then◌else◌, Bool-cases, upto, inl, inr,
}
use hku_utils.Ranges.{workers_of, prepend_result, Outcome, returned, blocked, outcome_of}
use hku_utils.Ranges.Cover.{
  sequence, index_loop-sequence, collect-Chain, parallel_index_range-Chain,
}
use hku_utils.Ranges.Loops.{
  GlobalPool, runs_inline, single_results, parallel_for_index_single, results_on_global,
  global_parallel_for_index, global_parallel_for_index_single,
}

module _ {ℓ} {A : Type ℓ} where
  single_results-sequence :
      (f : ℕ → Option A) (rounds i : ℕ)
      → single_results f rounds i ≡ sequence (map f (upto i rounds))
  unfolding single_results sequence
  single_results-sequence f zero i = refl
  single_results-sequence f (suc rounds) i =
      ap (prepend_result (f i)) (single_results-sequence f rounds (i + 1))

  -- One task for each index: the results come in the order of the indices, or the loop throws. Without a
  -- worker it waits for ever.
  pub parallel_for_index_single-eq-map :
      (hardware start end : ℕ) (f : ℕ → Option A) (cpu_num : ℕ)
      → parallel_for_index_single hardware start end f cpu_num ≡ (
          if leb end start
          then returned []
          else (if workers_of hardware cpu_num == 0
              then blocked
              else outcome_of (sequence (map f (upto start (end - start))))))
  unfolding parallel_for_index_single
  parallel_for_index_single-eq-map hardware start end f cpu_num =
      rw (single_results-sequence f (end - start) start) refl

  -- On the global pool both loops return the results of `f` on start, ..., end - 1 in this order, or throw
  -- where `f` does, for every threshold and nesting, if a pool that is not stopped is there.
  pub global_loops-eq-map :
      (hardware worker_num start end : ℕ) (f : ℕ → Option A) (threshold : ℕ)
      (enable_nested is_work_thread : Bool)
      → let tg : GlobalPool = record { worker_num = worker_num; stopped = false } in
        let expected : Outcome (List A) =
          if leb end start
          then returned []
          else outcome_of (sequence (map f (upto start (end - start)))) in
        (global_parallel_for_index hardware
            (some tg)
            start
            end
            f
            threshold
            enable_nested
            is_work_thread
          ≡ expected)
        × (global_parallel_for_index_single
              (some tg)
              start
              end
              f
              threshold
              enable_nested
              is_work_thread
            ≡ expected)
  unfolding global_parallel_for_index global_parallel_for_index_single results_on_global
  global_loops-eq-map hardware worker_num start end f threshold enable_nested is_work_thread =
      elim (Bool-cases (leb end start)) [
        | inl e ↦ rw (e) (refl, refl)
        | inr e ↦ elim (Bool-cases (runs_inline start end threshold enable_nested is_work_thread)) [
          | inl i ↦
              let own = ap outcome_of (index_loop-sequence f (end - start) start) in
              rw (e, i) (own, own)
          | inr i ↦
              rw (e, i)
                (
                  ap outcome_of (
                      collect-Chain f start end _
                        (parallel_index_range-Chain hardware start end worker_num (ground arith))),
                  ap outcome_of (single_results-sequence f (end - start) start),
                )
        ]
      ]
