-- ===== src/Ranges/Cover.antt =====
-- The ranges cover the index range, in order and without overlap: parallelIndexRange and its users.
use hku_utils.Base.{
  ℕ, zero, suc, ◌+◌, ◌-◌, ◌*◌, ◌/◌, ◌≤◌, ◌<◌, ◌≡◌, refl, sym, ap, subst, ◌∙◌, List, [], ◌∷◌, ◌++◌,
  arith, leb, ltb, ◌==◌, if◌then◌else◌, length, length-append, Bool-cases, upto, upto-append, map,
  inl, inr, Option, none, some,
}
use mathlib.Core.List.{map-append}
use hku_utils.Ranges.{
  blocks, singles, split_over, workers_of, parallel_index_range, index_loop, index_task, collect,
  prepend_result, join_results, returned, undefined, outcome_of, run_ranges, parallel_for_index,
}

-- Each range begins where the one before it ends, none is empty, and the last ends at `b`.
abbrev pub Chain : ℕ → List (ℕ × ℕ) → ℕ → Type 0
Chain a [] b = a ≡ b
Chain a (r ∷ rs) b = (r.0 ≡ a) × (r.0 < r.1) × Chain r.1 rs b

Chain-append :
    (a b c : ℕ) (xs ys : List (ℕ × ℕ)) → Chain a xs b → Chain b ys c → Chain a (xs ++ ys) c
Chain-append a b c [] ys h k = ground arith
Chain-append a b c (r ∷ xs) ys h k = (h.0, h.1, Chain-append r.1 b c xs ys h.2 k)

blocks-Chain :
    (n i p s a b : ℕ) → 0 < p → a ≡ i * p + s → b ≡ (i + n) * p + s → Chain a (blocks n i p s) b
unfolding blocks
blocks-Chain zero i p s a b h e f = omega arith
blocks-Chain (suc n) i p s a b h e f = (
  omega arith,
  omega arith,
  blocks-Chain n (i + 1) p s (i * p + s + p) b h (omega arith) (omega arith),
)

singles-Chain : (n i b : ℕ) → i + n ≡ b → Chain i (singles n i) b
unfolding singles
singles-Chain zero i b e = omega arith
singles-Chain (suc n) i b e = (refl, omega arith, singles-Chain n (i + 1) b (omega arith))

per_num-le : (t w : ℕ) → t / w * w ≤ t
per_num-le t w = grind arith

split_over-Chain : (w start end : ℕ) → start < end → Chain start (split_over w start end) end
unfolding split_over
split_over-Chain w start end h =
    let p : ℕ = (end - start) / w in
    let fits : p * w ≤ end - start = per_num-le (end - start) w in
    let tail = singles-Chain (end - (p * w + start)) (p * w + start) end (omega arith) in
    elim (Bool-cases (ltb 0 p)) [
      | inl e ↦ rw e (
          Chain-append start (p * w + start) end (blocks w 0 p start) _
            (blocks-Chain w 0 p start start (p * w + start) (ground arith) (omega arith)
              (omega arith))
            tail)
      | inr e ↦
          let z : p ≡ 0 = ground arith in
          let q : p * w + start ≡ start = omega (arith, ap (λ (t : ℕ). t * w) z) in
          rw e (subst (λ k. Chain k (singles (end - (p * w + start)) (p * w + start)) end) q tail)
    ]

-- For start < end the ranges tile [start, end): the first begins at `start`, each next one begins
-- where the one before it ends, none is empty, and the last ends at `end`. This holds for every
-- number of workers.
pub parallel_index_range-Chain :
    (hardware start end cpu_num : ℕ)
    → start < end
    → Chain start (parallel_index_range hardware start end cpu_num) end
unfolding parallel_index_range
parallel_index_range-Chain hardware start end cpu_num h =
    ground (arith, split_over-Chain (workers_of hardware cpu_num) start end)

length-blocks : (n i p s : ℕ) → length (blocks n i p s) ≡ n
unfolding blocks
length-blocks zero i p s = refl
length-blocks (suc n) i p s = ap suc (length-blocks n (i + 1) p s)

length-singles : (n i : ℕ) → length (singles n i) ≡ n
unfolding singles
length-singles zero i = refl
length-singles (suc n) i = ap suc (length-singles n (i + 1))

rest-lt : (t w : ℕ) → 0 < w → t - t / w * w < w
rest-lt t w h = grind arith

length-split_over : (w start end : ℕ) → 0 < w → length (split_over w start end) + 1 ≤ 2 * w
unfolding split_over
length-split_over w start end h =
    let p : ℕ = (end - start) / w in
    let rest : end - start - p * w < w = rest-lt (end - start) w h in
    elim (Bool-cases (ltb 0 p)) [
      | inl e ↦ rw e (
          omega (
            arith,
            length-append (blocks w 0 p start) (singles (end - (p * w + start)) (p * w + start)),
            length-blocks w 0 p start,
            length-singles (end - (p * w + start)) (p * w + start),
          ))
      | inr e ↦ rw e (omega (arith, length-singles (end - (p * w + start)) (p * w + start)))
    ]

-- The number of tasks is bounded by the workers alone: at most twice their number, less one.
pub parallel_index_range-length :
    (hardware start end cpu_num : ℕ)
    → 0 < workers_of hardware cpu_num
    → length (parallel_index_range hardware start end cpu_num) + 1 ≤ 2 * workers_of hardware cpu_num
unfolding parallel_index_range
parallel_index_range-length hardware start end cpu_num h =
    ground (arith, length-split_over (workers_of hardware cpu_num) start end h)

pub Chain-le : (a b : ℕ) (rs : List (ℕ × ℕ)) → Chain a rs b → a ≤ b
Chain-le a b [] h = omega arith
Chain-le a b (r ∷ rs) h = omega (arith, Chain-le r.1 b rs h.2)

module _ {ℓ} {A : Type ℓ} where
  -- The results of several calls in their order, or `none` where one of the calls throws.
  unfoldable pub sequence : List (Option A) → Option (List A)
  unfolding prepend_result
  sequence [] = some []
  sequence (a ∷ l) = prepend_result a (sequence l)

  prepend_result-join_results :
      (a : Option A) (l m : Option (List A))
      → prepend_result a (join_results l m) ≡ join_results (prepend_result a l) m
  unfolding prepend_result join_results
  prepend_result-join_results none l m = refl
  prepend_result-join_results (some a) none m = refl
  prepend_result-join_results (some a) (some l) none = refl
  prepend_result-join_results (some a) (some l) (some m) = refl

  join_results-nil : (m : Option (List A)) → join_results (some []) m ≡ m
  unfolding join_results
  join_results-nil none = refl
  join_results-nil (some m) = refl

  sequence-append :
      (l m : List (Option A)) → sequence (l ++ m) ≡ join_results (sequence l) (sequence m)
  unfolding sequence
  sequence-append [] m = sym (join_results-nil (sequence m))
  sequence-append (a ∷ l) m =
      ap (prepend_result a) (sequence-append l m)
      ∙ prepend_result-join_results a (sequence l) (sequence m)

  pub index_loop-sequence :
      (f : ℕ → Option A) (n i : ℕ) → index_loop f n i ≡ sequence (map f (upto i n))
  unfolding index_loop sequence
  index_loop-sequence f zero i = refl
  index_loop-sequence f (suc n) i = ap (prepend_result (f i)) (index_loop-sequence f n (i + 1))

  sequence-split :
      (f : ℕ → Option A) (a r b : ℕ)
      → a ≤ r
      → r ≤ b
      → sequence (map f (upto a (b - a)))
        ≡ join_results (sequence (map f (upto a (r - a)))) (sequence (map f (upto r (b - r))))
  sequence-split f a r b h k =
      ap (λ l. sequence (map f l))
        (upto-append (r - a) (b - r) a r (b - a) (omega arith) (omega arith))
      ∙ ap sequence (map-append f (upto a (r - a)) (upto r (b - r)))
      ∙ sequence-append (map f (upto a (r - a))) (map f (upto r (b - r)))

  pub collect-Chain :
      (f : ℕ → Option A) (a b : ℕ) (rs : List (ℕ × ℕ))
      → Chain a rs b
      → collect (index_task f) rs ≡ sequence (map f (upto a (b - a)))
  unfolding collect index_task sequence
  collect-Chain f a b [] h = let z : b - a ≡ 0 = omega arith in rw (z, collect)
  collect-Chain f a b (r ∷ rs) h =
      let up : r.1 ≤ b = Chain-le r.1 b rs h.2 in
      let start : r.0 ≡ a = h.0 in
      ap (join_results (index_loop f (r.1 - r.0) r.0)) (collect-Chain f r.1 b rs h.2)
      ∙ ap (λ l. join_results l (sequence (map f (upto r.1 (b - r.1)))))
          (index_loop-sequence f (r.1 - r.0) r.0)
      ∙ sym (sequence-split f r.0 r.1 b (omega arith) up)
      ∙ ap (λ k. sequence (map f (upto k (b - k)))) start

  run_ranges-Chain :
      (workers : ℕ) (task : ℕ × ℕ → Option (List A)) (start end : ℕ) (rs : List (ℕ × ℕ))
      → start < end
      → Chain start rs end
      → run_ranges workers task rs
        ≡ (if workers == 0 then undefined else outcome_of (collect task rs))
  unfolding run_ranges
  run_ranges-Chain workers task start end [] h k = absurd (omega arith)
  run_ranges-Chain workers task start end (r ∷ rs) h k = refl

  -- The parallel loop returns nothing if end ≤ start. Else, with one worker at least, it returns the results of
  -- `f` on start, start + 1, ..., end - 1 in this order, each index once, whatever the number of workers, and
  -- throws if `f` throws on one of them. Without a worker, which is where neither `cpu_num` nor
  -- `hardware_concurrency` gives one, it reads a queue that the pool does not have.
  pub parallel_for_index-eq-map :
      (hardware start end : ℕ) (f : ℕ → Option A) (cpu_num : ℕ)
      → parallel_for_index hardware start end f cpu_num ≡ (
          if leb end start
          then returned []
          else (if workers_of hardware cpu_num == 0
              then undefined
              else outcome_of (sequence (map f (upto start (end - start))))))
  unfolding parallel_for_index run_ranges parallel_index_range
  parallel_for_index-eq-map hardware start end f cpu_num = elim (Bool-cases (leb end start)) [
    | inl e ↦ rw (e, parallel_for_index) refl
    | inr e ↦
        let tiles = parallel_index_range-Chain hardware start end cpu_num (ground arith) in
        run_ranges-Chain (workers_of hardware cpu_num) (index_task f) start end _ (ground arith)
          tiles
        ∙ ap (λ o. if workers_of hardware cpu_num == 0 then undefined else outcome_of o)
            (collect-Chain f start end _ tiles)
        ∙ ap
            (λ b.
              if b
              then returned []
              else (if workers_of hardware cpu_num == 0
                  then undefined
                  else outcome_of (sequence (map f (upto start (end - start))))))
            (sym e)
  ]
