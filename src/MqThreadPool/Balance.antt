-- ===== src/MqThreadPool/Balance.antt =====
-- Where submit of hikyuu/utilities/thread/MQThreadPool.h puts a task.
use hku_utils.Base.{
  ℕ, zero, suc, ◌+◌, ◌≤◌, ◌<◌, ◌≡◌, ◌≢◌, refl, sym, ap, subst, ◌∙◌, List, [], ◌∷◌, none, some, Bool,
  true, false, ltb, ◌==◌, if◌then◌else◌, get_elem?, ℕ_discrete, All, arith, Bool-cases, inl, inr,
  ◌⊎◌,
}
use hku_utils.Queue.{FuncWrapper, size}
use hku_utils.MqThreadPool.{Worker, MqThreadPool, max_size, choose, push_to, submit, with_task}

true-false : true ≡ false → ⊥
true-false e = cc

some-injective {ℓ} : {A : Type ℓ} {a b : A} → some a ≡ some b → a ≡ b
some-injective e = cc

-- What the loop does with one worker, by the tests.
abbrev pick : Bool → Bool → Bool → ℕ → ℕ → ℕ → ℕ
pick stops is_empty is_less i same less =
    if stops then same else (if is_empty then i else (if is_less then less else same))

module _ {ℓ} {T : Type ℓ} where
  -- Each worker is to stop or has at least n tasks.
  abbrev pub AtLeast : ℕ → List (Worker T) → Type 0
  AtLeast n = All (λ w. (w.need_stop ≡ true) ⊎ (n ≤ size w.queue))

  AtLeast-weaken :
      (m n : ℕ) (workers : List (Worker T)) → m ≤ n → AtLeast n workers → AtLeast m workers
  AtLeast-weaken m n [] h a = a
  AtLeast-weaken m n (w ∷ workers) h a =
      (elim a.0 [ inl s ↦ inl s | inr le ↦ inr (omega arith) ], AtLeast-weaken m n workers h a.1)

  -- The worker k of the list is not to stop, and has the fewest tasks of those.
  abbrev pub Least : ℕ → List (Worker T) → Type ℓ
  Least k workers =
      (w : Worker T) × (get_elem? workers k ≡ some w)
      × (w.need_stop ≡ false)
      × AtLeast (size w.queue) workers

  AtLeast-zero : (workers : List (Worker T)) → AtLeast 0 workers
  AtLeast-zero [] = tt
  AtLeast-zero (w ∷ workers) = (inr (omega arith), AtLeast-zero workers)

  -- The loop ends with r: its index, as no worker that goes on has fewer than `min_count` tasks, or a worker
  -- with at most so many, the fewest of all.
  abbrev Chosen : ℕ → ℕ → List (Worker T) → ℕ → ℕ → Type ℓ
  Chosen r i workers min_count index =
      ((r ≡ index) × AtLeast min_count workers)
      ⊎ ((k : ℕ) × (w : Worker T) × (r ≡ i + k)
          × (get_elem? workers k ≡ some w)
          × (w.need_stop ≡ false)
          × (size w.queue ≤ min_count)
          × AtLeast (size w.queue) workers)

  Chosen-skip :
      (r i : ℕ) (w : Worker T) (workers : List (Worker T)) (min_count index : ℕ)
      → ((w.need_stop ≡ true) ⊎ (min_count ≤ size w.queue))
      → Chosen r (i + 1) workers min_count index
      → Chosen r i (w ∷ workers) min_count index
  Chosen-skip r i w workers min_count index h c = elim c [
    | inl (e, a) ↦ inl (e, (h, a))
    | inr (k, v, e, g, n, le, a) ↦
        inr (
          suc k,
          v,
          omega arith,
          g,
          n,
          le,
          (elim h [ inl s ↦ inl s | inr l ↦ inr (omega arith) ], a),
        )
  ]

  Chosen-less :
      (r i : ℕ) (w : Worker T) (workers : List (Worker T)) (min_count index : ℕ)
      → w.need_stop ≡ false
      → size w.queue < min_count
      → Chosen r (i + 1) workers (size w.queue) i
      → Chosen r i (w ∷ workers) min_count index
  Chosen-less r i w workers min_count index s l c = elim c [
    | inl (e, a) ↦ inr (0, w, omega arith, refl, s, omega arith, (inr (omega arith), a))
    | inr (k, v, e, g, n, le, a) ↦ inr (suc k, v, omega arith, g, n, omega arith, (inr le, a))
  ]

  Chosen-empty :
      (r i : ℕ) (w : Worker T) (workers : List (Worker T)) (min_count index : ℕ)
      → w.need_stop ≡ false
      → size w.queue ≡ 0
      → r ≡ i
      → Chosen r i (w ∷ workers) min_count index
  Chosen-empty r i w workers min_count index s z e = inr (
    0,
    w,
    omega arith,
    refl,
    s,
    omega arith,
    (
      inr (omega arith),
      AtLeast-weaken (size w.queue) 0 workers (omega arith) (AtLeast-zero workers),
    ),
  )

  choose-Chosen :
      (i : ℕ) (workers : List (Worker T)) (min_count index : ℕ)
      → Chosen (choose i workers min_count index) i workers min_count index
  unfolding choose
  choose-Chosen i [] min_count index = inl (refl, tt)
  choose-Chosen i (w ∷ workers) min_count index =
      let n = size w.queue in
      let same = choose (i + 1) workers min_count index in
      let less = choose (i + 1) workers n i in
      let goal : ℕ → Type ℓ = λ r. Chosen r i (w ∷ workers) min_count index in
      elim (Bool-cases w.need_stop) [
        | inl s ↦ subst goal (ap (λ b. pick b (n == 0) (ltb n min_count) i same less) (sym s)) (
            Chosen-skip same i w workers min_count index (inl s)
              (choose-Chosen (i + 1) workers min_count index))
        | inr s ↦
            subst goal (ap (λ b. pick b (n == 0) (ltb n min_count) i same less) (sym s))
              (elim (Bool-cases (n == 0)) [
                | inl z ↦
                    subst goal (ap (λ b. pick false b (ltb n min_count) i same less) (sym z))
                      (Chosen-empty i i w workers min_count index s (ground arith) refl)
                | inr z ↦
                    subst goal (ap (λ b. pick false b (ltb n min_count) i same less) (sym z))
                      (elim (Bool-cases (ltb n min_count)) [
                        | inl l ↦ subst goal (ap (λ b. pick false false b i same less) (sym l)) (
                            Chosen-less less i w workers min_count index s (ground arith)
                              (choose-Chosen (i + 1) workers n i))
                        | inr l ↦ subst goal (ap (λ b. pick false false b i same less) (sym l)) (
                            Chosen-skip same i w workers min_count index (inr (ground arith))
                              (choose-Chosen (i + 1) workers min_count index))
                      ])
              ])
      ]

  AtLeast-at :
      (n : ℕ) (workers : List (Worker T)) (k : ℕ) (v : Worker T)
      → get_elem? workers k ≡ some v
      → AtLeast n workers
      → (v.need_stop ≡ true) ⊎ (n ≤ size v.queue)
  AtLeast-at n [] k v e a = cc
  AtLeast-at n (w ∷ workers) zero v e a =
      subst (λ x. (x.need_stop ≡ true) ⊎ (n ≤ size x.queue)) (some-injective e) a.0
  AtLeast-at n (w ∷ workers) (suc k) v e a = AtLeast-at n workers k v e a.1

  push_to-here :
      (i : ℕ) (task : FuncWrapper T) (workers : List (Worker T)) (w : Worker T)
      → get_elem? workers i ≡ some w
      → get_elem? (push_to i task workers) i ≡ some (with_task task w)
  unfolding push_to
  push_to-here i task [] w e = cc
  push_to-here zero task (v ∷ workers) w e = ap (λ x. some (with_task task x)) (some-injective e)
  push_to-here (suc i) task (v ∷ workers) w e = push_to-here i task workers w e

  push_to-elsewhere :
      (i j : ℕ) (task : FuncWrapper T) (workers : List (Worker T))
      → i ≢ j
      → get_elem? (push_to i task workers) j ≡ get_elem? workers j
  unfolding push_to
  push_to-elsewhere i j task [] h = refl
  push_to-elsewhere zero zero task (v ∷ workers) h = absurd (h refl)
  push_to-elsewhere zero (suc j) task (v ∷ workers) h = refl
  push_to-elsewhere (suc i) zero task (v ∷ workers) h = refl
  push_to-elsewhere (suc i) (suc j) task (v ∷ workers) h =
      push_to-elsewhere i j task workers (λ e. h (ap suc e))

  submitted :
      (t : T) (p : MqThreadPool T) (i : ℕ)
      → p.done ≡ false
      → choose 0 p.workers max_size 0 ≡ i
      → submit t p ≡ some (record p { workers = push_to i (some t) p.workers })
  unfolding submit
  submitted t p i d e =
      ap
        (λ b.
          if b
          then none
          else some
              (record p { workers = push_to (choose 0 p.workers max_size 0) (some t) p.workers }))
        d
      ∙ ap (λ n. some (record p { workers = push_to n (some t) p.workers })) e

  elsewhere :
      (i : ℕ) (t : T) (workers : List (Worker T)) (j : ℕ)
      → (i ≡ j) ⊎ (get_elem? (push_to i (some t) workers) j ≡ get_elem? workers j)
  elsewhere i t workers j = elim (ℕ_discrete i j) [
    | yes e ↦ inl e
    | no h ↦ inr (push_to-elsewhere i j (some t) workers h)
  ]

  -- While the pool is not done and some worker is not to stop, submit puts the task at the end of the queue of
  -- a worker that is not to stop and has the fewest tasks of those, and leaves the other queues.
  pub submit-balanced :
      (t : T) (p : MqThreadPool T) (k : ℕ) (v : Worker T)
      → p.done ≡ false
      → get_elem? p.workers k ≡ some v
      → v.need_stop ≡ false
      → size v.queue < max_size
      → (i : ℕ) × (w : Worker T) × (after : MqThreadPool T) × (submit t p ≡ some after)
        × (get_elem? p.workers i ≡ some w)
        × (w.need_stop ≡ false)
        × AtLeast (size w.queue) p.workers
        × (get_elem? after.workers i ≡ some (with_task (some t) w))
        × ((j : ℕ) → (i ≡ j) ⊎ (get_elem? after.workers j ≡ get_elem? p.workers j))
  submit-balanced t p k v d g n l = elim (choose-Chosen 0 p.workers max_size 0) [
    | inl (e, a) ↦ elim (AtLeast-at max_size p.workers k v g a) [
      | inl s ↦ absurd (true-false (sym s ∙ n))
      | inr le ↦ absurd (omega arith)
    ]
    | inr (i, w, e, h, s, le, a) ↦ (
      i,
      w,
      record p { workers = push_to i (some t) p.workers },
      submitted t p i d (e ∙ omega arith),
      h,
      s,
      a,
      push_to-here i (some t) p.workers w h,
      elsewhere i t p.workers,
    )
  ]
