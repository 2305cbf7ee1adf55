-- ===== src/Tests/RangesRuns.antt =====
-- Runs of hikyuu/utilities/thread/algorithm.h.
use Prim.{tt}
use hku_utils.Base.{
  ℕ, ◌*◌, ◌==◌, if◌then◌else◌, leb, [], ◌∷◌, map, upto, arith, ◌≡◌, refl, Option, none, some, Bool,
  true, false,
}
use hku_utils.Ranges.{
  parallel_index_range, parallel_for_index, workers_of, returned, thrown, undefined, outcome_of,
}
use hku_utils.Ranges.Cover.{Chain, sequence, parallel_index_range-Chain, parallel_for_index-eq-map}
use hku_utils.Ranges.Loops.{
  Tasks, VoidRun, GlobalPool, global_parallel_for_index_void, global_parallel_for_index_void_single,
}
use hku_utils.Ranges.Interleaving.{Interleaved, call, finished, over}
use hku_utils.Ranges.Calls.{Ended, global_void_loops-once}

three_workers : parallel_index_range 8 0 10 3 ≡ (0, 3) ∷ (3, 6) ∷ (6, 9) ∷ (9, 10) ∷ []
unfolding parallel_index_range
three_workers = refl

parallel_index_range-Chain_example : Chain 2 (parallel_index_range 8 2 13 3) 13
parallel_index_range-Chain_example = parallel_index_range-Chain 8 2 13 3 (omega arith)

-- The squares, with an exception on 9.
abbrev square : ℕ → Option ℕ
square i = if i == 9 then none else some (i * i)

parallel_for_index-eq-map_example : parallel_for_index 8 3 8 square 2 ≡ (
    if leb 8 3
    then returned []
    else (if workers_of 8 2 == 0 then undefined else outcome_of (sequence (map square (upto 3 5)))))
parallel_for_index-eq-map_example = parallel_for_index-eq-map 8 3 8 square 2

squares : parallel_for_index 8 3 8 square 2 ≡ returned (9 ∷ 16 ∷ 25 ∷ 36 ∷ 49 ∷ [])
unfolding parallel_for_index
squares = refl

squares_thrown : parallel_for_index 8 3 11 square 2 ≡ thrown
unfolding parallel_for_index
squares_thrown = refl

squares_unknown_cpus : parallel_for_index 0 3 8 square 0 ≡ undefined
unfolding parallel_for_index
squares_unknown_cpus = refl

-- Two tasks of one call each, the second one first.
second_first : Interleaved {A = ℕ} ((2 ∷ []) ∷ (3 ∷ []) ∷ []) (3 ∷ 2 ∷ [])
second_first =
    call ((2 ∷ []) ∷ []) 3 [] [] ((2 ∷ []) ∷ (3 ∷ []) ∷ []) refl
      (call [] 2 [] ([] ∷ []) ((2 ∷ []) ∷ [] ∷ []) refl (finished (finished over)))

-- No index throws.
abbrev quiet : ℕ → Bool
quiet i = false

abbrev pool : Option GlobalPool
pool = some (record { worker_num = 2; stopped = false })

abbrev global_ranges : VoidRun
global_ranges = global_parallel_for_index_void 8 pool 2 4 quiet 2 false false

abbrev global_singles : VoidRun
global_singles = global_parallel_for_index_void_single pool 2 4 quiet 2 false false

abbrev two_tasks : Tasks
two_tasks =
    record { calls = 2 ∷ []; failed = false } ∷ record { calls = 3 ∷ []; failed = false } ∷ []

global_ranges_tasks : global_ranges ≡ (returned tt, two_tasks)
unfolding global_parallel_for_index_void parallel_index_range
global_ranges_tasks = refl

global_singles_tasks : global_singles ≡ (returned tt, two_tasks)
unfolding global_parallel_for_index_void_single
global_singles_tasks = refl

-- A stopped pool throws.
stopped_pool :
    global_parallel_for_index_void 8
      (some (record { worker_num = 2; stopped = true }))
      2
      4
      quiet
      2
      false
      false
    ≡ (thrown, [])
unfolding global_parallel_for_index_void
stopped_pool = refl

global_void_loops-once_example :
    Ended quiet pool 2 4 2 false false global_ranges.0 (3 ∷ 2 ∷ [])
    × Ended quiet pool 2 4 2 false false global_singles.0 (3 ∷ 2 ∷ [])
global_void_loops-once_example =
    global_void_loops-once quiet pool 2 4 2 false false 8 (3 ∷ 2 ∷ []) (3 ∷ 2 ∷ [])
      (rw global_ranges_tasks second_first) (rw global_singles_tasks second_first)
