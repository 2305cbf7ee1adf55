-- ===== src/Ranges/Covered.antt =====
-- What the tasks of hikyuu/utilities/thread/algorithm.h of a function without a result call of a range.
use Prim.{tt}
use hku_utils.Base.{
  ℕ, zero, suc, ◌+◌, ◌-◌, ◌≤◌, ◌≡◌, refl, ap, List, [], ◌∷◌, ◌++◌, map, Bool, true, false, ◌||◌,
  arith, if◌then◌else◌, Bool-cases, upto, upto-append, All, ◌⊎◌, inl, inr, append-nil, append_assoc,
}
use mathlib.Core.List.{
  Mem, Perm, perm_append_comm, mem-cons_self, mem-cons_of_mem, mem-append_left, mem-append_right,
}
use mathlib.Core.List.Perm
use hku_utils.Ranges.{returned, thrown}
use hku_utils.Ranges.Cover.{Chain, Chain-le}
use hku_utils.Ranges.Interleaving.{concat}
use hku_utils.Ranges.Loops.{Tasks, call_loop, range_calls, single_tasks, get_all}

abbrev pub any_failed : Tasks → Bool
any_failed [] = false
any_failed (task ∷ tasks) = task.failed || any_failed tasks

abbrev pub all_calls : Tasks → List (List ℕ)
all_calls tasks = map (λ task. task.calls) tasks

pub get_all-failed :
    (tasks : Tasks) → get_all tasks ≡ (if any_failed tasks then thrown else returned tt)
unfolding get_all
get_all-failed [] = refl
get_all-failed (task ∷ tasks) = ground (arith, get_all-failed tasks)

module _ (throws : ℕ → Bool) where
  abbrev pub Quiet : List ℕ → Type 0
  Quiet l = All (λ i. throws i ≡ false) l

  -- All indices are called and none throws, or one that is called throws and some are left out.
  abbrev pub Covered : Bool → List ℕ → List ℕ → Type 0
  Covered failed calls indices =
      ((failed ≡ false) × (calls ≡ indices) × Quiet indices)
      ⊎ ((failed ≡ true)
          × (i : ℕ) × (skipped : List ℕ) × Mem i calls
          × (throws i ≡ true)
          × Perm (calls ++ skipped) indices)

  All-append : (l m : List ℕ) → Quiet l → Quiet m → Quiet (l ++ m)
  All-append [] m h k = k
  All-append (x ∷ l) m h k = (h.0, All-append l m h.1 k)

  shuffle :
      (c d s t : List ℕ) {l m : List ℕ}
      → Perm (c ++ s) l
      → Perm (d ++ t) m
      → Perm ((c ++ d) ++ (s ++ t)) (l ++ m)
  shuffle c d s t p q =
      let inner : Perm (d ++ (s ++ t)) (s ++ (d ++ t)) =
        rw (← append_assoc d s t, ← append_assoc s d t)
          (Perm.append_right t (perm_append_comm d s)) in
      rw (append_assoc c d (s ++ t))
        (Perm.trans (Perm.append_left c inner) (rw (← append_assoc c s (d ++ t)) (Perm.append p q)))

  pub both :
      (a b : Bool) (c d l m : List ℕ)
      → Covered a c l
      → Covered b d m
      → Covered (a || b) (c ++ d) (l ++ m)
  both a b c d l m (inl (e, h, q)) (inl (f, k, r)) =
      inl (ground arith, ground arith, All-append l m q r)
  both a b c d l m (inl (e, h, q)) (inr (f, i, t, k, r, p)) = inr (
    ground arith,
    i,
    t,
    mem-append_right c k,
    r,
    shuffle c d [] t (rw (append-nil c, h) Perm.rfl) p,
  )
  both a b c d l m (inr (e, i, s, h, q, o)) (inl (f, k, r)) = inr (
    ground arith,
    i,
    s ++ [],
    mem-append_left d h,
    q,
    shuffle c d s [] o (rw (append-nil d, k) Perm.rfl),
  )
  both a b c d l m (inr (e, i, s, h, q, o)) (inr (f, j, t, k, r, p)) =
      inr (ground arith, i, s ++ t, mem-append_left d h, q, shuffle c d s t o p)

  pub call_loop-Covered :
      (n i : ℕ) → Covered (call_loop throws n i).failed (call_loop throws n i).calls (upto i n)
  unfolding call_loop
  call_loop-Covered zero i = inl (refl, refl, tt)
  call_loop-Covered (suc n) i = elim (Bool-cases (throws i)) [
    | inl e ↦ rw (e, call_loop) (inr (refl, i, upto (i + 1) n, mem-cons_self, e, Perm.rfl))
    | inr e ↦ elim (call_loop-Covered n (i + 1)) [
      | inl (d, c, q) ↦ rw (e, call_loop) (inl (d, ap (◌∷◌ i) c, (refl, q)))
      | inr (d, j, s, m, t, p) ↦
          rw (e, call_loop) (inr (d, j, s, mem-cons_of_mem i m, t, Perm.cons i p))
    ]
  ]

  -- What the tasks of a loop call.
  abbrev pub CoveredAll : Tasks → List ℕ → Type 0
  CoveredAll tasks indices = Covered (any_failed tasks) (concat (all_calls tasks)) indices

  pub ranges-Covered :
      (a b : ℕ) (rs : List (ℕ × ℕ))
      → Chain a rs b
      → CoveredAll (map (range_calls throws) rs) (upto a (b - a))
  unfolding range_calls
  ranges-Covered a b [] h = let z : b - a ≡ 0 = omega arith in rw z (inl (refl, refl, tt))
  ranges-Covered a b (r ∷ rs) h =
      let up : r.1 ≤ b = Chain-le r.1 b rs h.2 in
      let split = upto-append (r.1 - r.0) (b - r.1) r.0 r.1 (b - r.0) (omega arith) (omega arith) in
      rw (← h.0, split)
        (both _ _ _ _ _ _ (call_loop-Covered (r.1 - r.0) r.0) (ranges-Covered r.1 b rs h.2))

  single-Covered : (i : ℕ) → Covered (throws i) (i ∷ []) (i ∷ [])
  single-Covered i = elim (Bool-cases (throws i)) [
    | inl e ↦ inr (e, i, [], mem-cons_self, e, Perm.rfl)
    | inr e ↦ inl (e, refl, (e, tt))
  ]

  pub singles-Covered : (rounds i : ℕ) → CoveredAll (single_tasks throws rounds i) (upto i rounds)
  unfolding single_tasks
  singles-Covered zero i = inl (refl, refl, tt)
  singles-Covered (suc rounds) i =
      both (throws i) _ (i ∷ []) _ (i ∷ []) _ (single-Covered i) (singles-Covered rounds (i + 1))
