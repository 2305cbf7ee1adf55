-- ===== src/Ranges.antt =====
-- The split of an index range over workers, and the loops that run over it:
-- hikyuu/utilities/thread/algorithm.h. The arithmetic stays inside [start, end], so no `size_t`
-- wraps.
pub mod Cover
pub mod Loops
pub mod Interleaving
pub mod Covered
pub mod Calls
pub mod Results
use hku_utils.Base.{
  ℕ, zero, suc, ◌+◌, ◌-◌, ◌*◌, ◌/◌, List, [], ◌∷◌, ◌++◌, leb, ltb, ◌==◌, if◌then◌else◌, Option,
  none, some,
}

-- The first loop of `parallelIndexRange`: worker `i` takes the next `per_num` indices. The counter
-- is `i`, and the first argument is the number of rounds left.
blocks : ℕ → ℕ → ℕ → ℕ → List (ℕ × ℕ)
blocks zero i per_num start = []
blocks (suc rounds) i per_num start =
    (i * per_num + start, i * per_num + start + per_num) ∷ blocks rounds (i + 1) per_num start

-- The second loop: the indices that are left go one by one. The first argument is the number of
-- rounds left, `end - i`.
singles : ℕ → ℕ → List (ℕ × ℕ)
singles zero i = []
singles (suc rounds) i = (i, i + 1) ∷ singles rounds (i + 1)

-- The two loops, for at least two workers.
split_over : ℕ → ℕ → ℕ → List (ℕ × ℕ)
unfolding blocks singles
split_over workers start end =
    let per_num = (end - start) / workers in
    (if ltb 0 per_num then blocks workers 0 per_num start else [])
    ++ singles (end - (per_num * workers + start)) (per_num * workers + start)

-- `cpu_num` if it is given, else what `std::thread::hardware_concurrency()` answers.
abbrev pub workers_of : ℕ → ℕ → ℕ
workers_of hardware cpu_num = if cpu_num == 0 then hardware else cpu_num

unfoldable pub parallel_index_range : ℕ → ℕ → ℕ → ℕ → List (ℕ × ℕ)
unfolding split_over
parallel_index_range hardware start end cpu_num =
    if leb end start
    then []
    else (if leb (workers_of hardware cpu_num) 1
        then (start, end) ∷ []
        else split_over (workers_of hardware cpu_num) start end)

-- How a loop ends: with a result, with an exception, never, or by an access outside of a vector.
pub data Outcome {ℓ} (A : Type ℓ) : Type ℓ where
  returned : A → Outcome A
  thrown blocked undefined : Outcome A

module _ {ℓ} {A : Type ℓ} where
  -- An exception, which is `none`, leaves at once.
  unfoldable pub prepend_result : Option A → Option (List A) → Option (List A)
  prepend_result none rest = none
  prepend_result (some a) none = none
  prepend_result (some a) (some l) = some (a ∷ l)

  unfoldable pub join_results : Option (List A) → Option (List A) → Option (List A)
  join_results none rest = none
  join_results (some l) none = none
  join_results (some l) (some m) = some (l ++ m)

  abbrev pub outcome_of : Option (List A) → Outcome (List A)
  outcome_of none = thrown
  outcome_of (some l) = returned l

  -- `for (ix = first; ix < second; ix++) one_ret.emplace_back(func(ix))`, by the rounds left.
  unfoldable pub index_loop : (ℕ → Option A) → ℕ → ℕ → Option (List A)
  unfolding prepend_result
  index_loop func zero ix = some []
  index_loop func (suc rounds) ix = prepend_result (func ix) (index_loop func rounds (ix + 1))

  -- The task that `parallel_for_index` submits for one range; its future keeps an exception.
  unfoldable pub index_task : (ℕ → Option A) → ℕ × ℕ → Option (List A)
  unfolding index_loop
  index_task func range = index_loop func (range.1 - range.0) range.0

  -- The results are taken from the futures in the order of the ranges; `get` rethrows.
  unfoldable pub collect : (ℕ × ℕ → Option (List A)) → List (ℕ × ℕ) → Option (List A)
  unfolding join_results
  collect task [] = some []
  collect task (r ∷ ranges) = join_results (task r) (collect task ranges)

  -- The pool of a loop over ranges has `workers` workers. Without one it has no queue, and `submit` takes
  -- the first of them.
  unfoldable pub run_ranges : ℕ → (ℕ × ℕ → Option (List A)) → List (ℕ × ℕ) → Outcome (List A)
  unfolding collect
  run_ranges workers task [] = returned []
  run_ranges workers task (r ∷ ranges) =
      if workers == 0 then undefined else outcome_of (collect task (r ∷ ranges))

  unfoldable pub parallel_for_index : ℕ → ℕ → ℕ → (ℕ → Option A) → ℕ → Outcome (List A)
  unfolding parallel_index_range index_task run_ranges
  parallel_for_index hardware start end f cpu_num =
      run_ranges (workers_of hardware cpu_num) (index_task f)
        (parallel_index_range hardware start end cpu_num)

  unfoldable pub parallel_for_range : ℕ → ℕ → ℕ → (ℕ × ℕ → Option (List A)) → ℕ → Outcome (List A)
  unfolding parallel_index_range run_ranges
  parallel_for_range hardware start end f cpu_num =
      run_ranges (workers_of hardware cpu_num) f (parallel_index_range hardware start end cpu_num)
