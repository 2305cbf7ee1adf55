-- ===== src/ThreadPool/Waits.antt =====
-- What stands in the queue until the workers end: hikyuu/utilities/thread/ThreadPool.h.
use hku_utils.Base.{
  ℕ, zero, suc, List, [], ◌∷◌, ◌++◌, map, Option, none, some, Bool, true, false, get_elem?,
  if◌then◌else◌, ◌≡◌, refl, sym, ap, subst, ◌∙◌, ◌⊎◌, inl, inr, Option-cases, append_assoc,
  append-nil,
}
use hku_utils.Queue.{FuncWrapper, wait_and_pop, push}
use hku_utils.ThreadPool.{
  ThreadPool, Phase, testing, waiting, ended, running, tasks, init, take_task, advance,
  worker_thread, all_ended, send_nulls, enqueue, set_phase,
}
use hku_utils.ThreadPool
use hku_utils.ThreadPool.Order.{some-injective, none-some, submit-accepted}

-- A submission or a step of a worker.
pub data Work {ℓ} (T : Type ℓ) : Type ℓ where
  submit : T → Work T
  work : ℕ → Work T

module _ {ℓ} {T : Type ℓ} where
  unfoldable pub step : Work T → ThreadPool T → Option (ThreadPool T)
  step (submit t) p = ThreadPool.submit t p
  step (work i) p = worker_thread i p

  unfoldable pub run : List (Work T) → ThreadPool T → Option (ThreadPool T)
  unfolding step
  run [] p = some p
  run (w ∷ works) p = elim (step w p) [ none ↦ none | some p' ↦ run works p' ]

  abbrev pub none_ended : List (Phase T) → Bool
  none_ended [] = true
  none_ended (ended ∷ workers) = false
  none_ended (testing ∷ workers) = none_ended workers
  none_ended (waiting ∷ workers) = none_ended workers
  none_ended (running t ∷ workers) = none_ended workers

  alive-cons :
      (w : Phase T) (workers : List (Phase T))
      → none_ended (w ∷ []) ≡ true
      → none_ended workers ≡ true
      → none_ended (w ∷ workers) ≡ true
  alive-cons testing workers h a = a
  alive-cons waiting workers h a = a
  alive-cons (running t) workers h a = a
  alive-cons ended workers h a = h

  alive-head :
      (w : Phase T) (workers : List (Phase T))
      → none_ended (w ∷ workers) ≡ true
      → none_ended (w ∷ []) ≡ true
  alive-head testing workers a = refl
  alive-head waiting workers a = refl
  alive-head (running t) workers a = refl
  alive-head ended workers a = a

  alive-tail :
      (w : Phase T) (workers : List (Phase T))
      → none_ended (w ∷ workers) ≡ true
      → none_ended workers ≡ true
  alive-tail testing workers a = a
  alive-tail waiting workers a = a
  alive-tail (running t) workers a = a
  alive-tail ended workers a = let no : false ≡ true = a in cc

  -- The tasks `before` have all been started, or no worker has ended yet and those that have not been
  -- started stand in front of the queue.
  pub record Pending (before : List T) (p : ThreadPool T) (left : List T)
      (after : List (FuncWrapper T)) : Type ℓ where
    pub queue : p.master_work_queue ≡ map some left ++ after
    pub total : p.started ++ left ≡ before
    pub alive : none_ended p.workers ≡ true

  abbrev pub AllStarted : List T → ThreadPool T → Type ℓ
  AllStarted before p = (rest : List T) × (p.started ≡ before ++ rest)

  abbrev pub Unfinished : List T → ThreadPool T → Type ℓ
  Unfinished before p =
      (left : List T) × ((after : List (FuncWrapper T)) × Pending before p left after)

  pub record Waits (before : List T) (p : ThreadPool T) : Type ℓ where
    pub open_pool : p.done ≡ false
    pub stage : Unfinished before p ⊎ AllStarted before p

  pub set_phase-alive :
      (i : ℕ) (phase : Phase T) (workers : List (Phase T))
      → none_ended (phase ∷ []) ≡ true
      → none_ended workers ≡ true
      → none_ended (set_phase i phase workers) ≡ true
  unfolding set_phase
  set_phase-alive i phase [] h a = refl
  set_phase-alive zero phase (w ∷ workers) h a = alive-cons phase workers h (alive-tail w workers a)
  set_phase-alive (suc i) phase (w ∷ workers) h a =
      alive-cons w (set_phase i phase workers) (alive-head w workers a)
        (set_phase-alive i phase workers h (alive-tail w workers a))

  enqueue-Waits :
      (before : List T) (t : T) (p : ThreadPool T) → Waits before p → Waits before (enqueue t p)
  unfolding enqueue push
  enqueue-Waits before t p w = record {
    open_pool = w.open_pool;
    stage = elim w.stage [
      | inr all ↦ inr all
      | inl (left, (after, s)) ↦ inl (
        left,
        (
          after ++ some t ∷ [],
          record {
            queue = rw s.queue (append_assoc (map some left) after (some t ∷ []));
            total = s.total;
            alive = s.alive;
          },
        ),
      )
    ];
  }

  moved-Waits :
      (before : List T) (i : ℕ) (phase : Phase T) (p : ThreadPool T)
      → none_ended (phase ∷ []) ≡ true
      → Waits before p
      → Waits before (record p { workers = set_phase i phase p.workers })
  moved-Waits before i phase p h w = record {
    open_pool = w.open_pool;
    stage = elim w.stage [
      | inr all ↦ inr all
      | inl (left, (after, s)) ↦ inl (
        left,
        (
          after,
          record {
            queue = s.queue;
            total = s.total;
            alive = set_phase-alive i phase p.workers h s.alive;
          },
        ),
      )
    ];
  }

  started-more :
      (before : List T) (i : ℕ) (task : FuncWrapper T) (queue : List (FuncWrapper T))
      (p : ThreadPool T)
      → AllStarted before p
      → AllStarted before (take_task i task queue p)
  unfolding take_task
  started-more before i none queue p all = all
  started-more before i (some t) queue p (rest, e) =
      (rest ++ t ∷ [], ap (λ l. l ++ t ∷ []) e ∙ append_assoc before rest (t ∷ []))

  pub taken-Pending :
      (before : List T) (i : ℕ) (t : T) (queue : List (FuncWrapper T)) (p : ThreadPool T) (x : T)
      (left : List T) (after : List (FuncWrapper T))
      → p.master_work_queue ≡ some t ∷ queue
      → Pending before p (x ∷ left) after
      → Pending before (take_task i (some t) queue p) left after
  unfolding take_task
  taken-Pending before i t queue p x left after e s =
      let split : some t ∷ queue ≡ some x ∷ (map some left ++ after) = sym e ∙ s.queue in
      let same : t ≡ x = cc in
      record {
        queue = let tail : queue ≡ map some left ++ after = cc in tail;
        total = rw same (append_assoc p.started (x ∷ []) left ∙ s.total);
        alive = set_phase-alive i (running t) p.workers refl s.alive;
      }

  take-stage :
      (before : List T) (i : ℕ) (task : FuncWrapper T) (queue : List (FuncWrapper T))
      (p : ThreadPool T) (left : List T) (after : List (FuncWrapper T))
      → p.master_work_queue ≡ task ∷ queue
      → Pending before p left after
      → Unfinished before (take_task i task queue p) ⊎ AllStarted before (take_task i task queue p)
  take-stage before i task queue p [] after e s =
      inr
        (started-more before i task queue p ([], sym (append-nil _) ∙ s.total ∙ sym (append-nil _)))
  take-stage before i none queue p (x ∷ left) after e s =
      let no : none ∷ queue ≡ some x ∷ (map some left ++ after) = sym e ∙ s.queue in cc
  take-stage before i (some t) queue p (x ∷ left) after e s =
      inl (left, (after, taken-Pending before i t queue p x left after e s))

  take_task-done :
      (i : ℕ) (task : FuncWrapper T) (queue : List (FuncWrapper T)) (p : ThreadPool T)
      → (take_task i task queue p).done ≡ p.done
  unfolding take_task
  take_task-done i none queue p = refl
  take_task-done i (some t) queue p = refl

  take_task-Waits :
      (before : List T) (i : ℕ) (task : FuncWrapper T) (queue : List (FuncWrapper T))
      (p : ThreadPool T)
      → p.master_work_queue ≡ task ∷ queue
      → Waits before p
      → Waits before (take_task i task queue p)
  take_task-Waits before i task queue p e w = record {
    open_pool = take_task-done i task queue p ∙ w.open_pool;
    stage = elim w.stage [
      | inr all ↦ inr (started-more before i task queue p all)
      | inl (left, (after, s)) ↦ take-stage before i task queue p left after e s
    ];
  }

  popped-Waits :
      (before : List T) (i : ℕ) (q : List (FuncWrapper T)) (p p' : ThreadPool T)
      → p.master_work_queue ≡ q
      → advance i waiting p ≡ some p'
      → Waits before p
      → Waits before p'
  unfolding advance wait_and_pop
  popped-Waits before i [] p p' e h w = absurd (none-some (rw (e, advance) at h))
  popped-Waits before i (task ∷ queue) p p' e h w =
      subst (Waits before) (some-injective (rw (e, advance) at h))
        (take_task-Waits before i task queue p e w)

  advance-Waits :
      (before : List T) (i : ℕ) (phase : Phase T) (p p' : ThreadPool T)
      → advance i phase p ≡ some p'
      → Waits before p
      → Waits before p'
  unfolding advance
  advance-Waits before i testing p p' h w = subst (Waits before) (some-injective h) (
      moved-Waits before i (if p.done then ended else waiting) p
        (ap (λ b. none_ended ((if b then ended else waiting) ∷ [])) w.open_pool) w)
  advance-Waits before i waiting p p' h w = popped-Waits before i p.master_work_queue p p' refl h w
  advance-Waits before i (running t) p p' h w =
      subst (Waits before) (some-injective h) (moved-Waits before i testing p refl w)
  advance-Waits before i ended p p' h w = absurd (none-some h)

  work-Waits :
      (before : List T) (i : ℕ) (p p' : ThreadPool T)
      → worker_thread i p ≡ some p'
      → Waits before p
      → Waits before p'
  unfolding worker_thread
  work-Waits before i p p' h w = elim (Option-cases (get_elem? p.workers i)) [
    | inl e ↦ absurd (none-some (rw (e, worker_thread) at h))
    | inr (phase, e) ↦ advance-Waits before i phase p p' (rw (e, worker_thread) at h) w
  ]

  step-Waits :
      (before : List T) (work : Work T) (p p' : ThreadPool T)
      → step work p ≡ some p'
      → Waits before p
      → Waits before p'
  unfolding step
  step-Waits before (submit t) p p' h w =
      subst (Waits before) (submit-accepted t p p' h).1 (enqueue-Waits before t p w)
  step-Waits before (work i) p p' h w = work-Waits before i p p' h w

  pub run-Waits :
      (before : List T) (works : List (Work T)) (p p' : ThreadPool T)
      → run works p ≡ some p'
      → Waits before p
      → Waits before p'
  unfolding run
  run-Waits before [] p p' h w = subst (Waits before) (some-injective h) w
  run-Waits before (x ∷ works) p p' h w = elim (Option-cases (step x p)) [
    | inl e ↦ absurd (none-some (rw (e, run) at h))
    | inr (q, e) ↦ run-Waits before works q p' (rw (e, run) at h) (step-Waits before x p q e w)
  ]
