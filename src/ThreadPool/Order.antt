-- ===== src/ThreadPool/Order.antt =====
-- The order of the tasks of hikyuu/utilities/thread/ThreadPool.h.
use hku_utils.Base.{
  ℕ, zero, suc, ◌*◌, List, [], ◌∷◌, ◌++◌, Option, none, some, Bool, true, false, ◌&&◌, get_elem?,
  replicate, if◌then◌else◌, ◌≡◌, refl, sym, ap, subst, ◌∙◌, ◌⊎◌, inl, inr, arith, Bool-cases,
  Option-cases, append_assoc, append-nil,
}
use hku_utils.Queue.{FuncWrapper, wait_and_pop, clear}
use hku_utils.ThreadPool.{
  ThreadPool, Phase, testing, waiting, ended, running, tasks, init, take_task, advance,
  worker_thread, all_ended, send_nulls, enqueue,
}
use hku_utils.ThreadPool

-- A step of the users or of a worker.
pub data Event {ℓ} (T : Type ℓ) : Type ℓ where
  submit : T → Event T
  work : ℕ → Event T
  stop join finish : Event T

pub some-injective {ℓ} : {A : Type ℓ} {a b : A} → some a ≡ some b → a ≡ b
some-injective e = cc

pub none-some {ℓ} : {A : Type ℓ} {a : A} → none ≡ some a → ⊥
none-some e = cc

module _ {ℓ} {T : Type ℓ} where
  unfoldable pub step : Event T → ThreadPool T → Option (ThreadPool T)
  step (submit t) p = ThreadPool.submit t p
  step (work i) p = worker_thread i p
  step stop p = some (ThreadPool.stop p)
  step join p = some (ThreadPool.join p)
  step finish p = ThreadPool.finish p

  -- `none`: a step of the sequence cannot happen.
  unfoldable pub run : List (Event T) → ThreadPool T → Option (ThreadPool T)
  unfolding step
  run [] p = some p
  run (e ∷ events) p = elim (step e p) [ none ↦ none | some p' ↦ run events p' ]

  -- Nothing is lost or reordered, and what is discarded is discarded at the end.
  pub record Ordered (p : ThreadPool T) : Type ℓ where
    pub kept : p.submitted ≡ p.started ++ (p.dropped ++ tasks p.master_work_queue)
    pub closed : (p.dropped ≡ []) ⊎ ((p.master_work_queue ≡ []) × (p.done ≡ true))

  pub tasks-append : (q r : List (FuncWrapper T)) → tasks (q ++ r) ≡ tasks q ++ tasks r
  tasks-append [] r = refl
  tasks-append (none ∷ q) r = tasks-append q r
  tasks-append (some t ∷ q) r = ap (◌∷◌ t) (tasks-append q r)

  pub tasks-nulls : (n : ℕ) → tasks {T = T} (replicate n none) ≡ []
  tasks-nulls zero = refl
  tasks-nulls (suc n) = tasks-nulls n

  pub tasks-with_nulls :
      (q : List (FuncWrapper T)) (n : ℕ) → tasks (q ++ replicate n none) ≡ tasks q
  tasks-with_nulls q n =
      tasks-append q (replicate n none) ∙ ap (λ l. tasks q ++ l) (tasks-nulls n) ∙ append-nil _

  submitted-Ordered :
      (t : T) (p : ThreadPool T) → p.done ≡ false → Ordered p → Ordered (enqueue t p)
  unfolding enqueue
  submitted-Ordered t p d o = elim o.closed [
    | inl none_dropped ↦ record {
      kept =
          rw (o.kept, none_dropped, tasks-append p.master_work_queue (some t ∷ []))
            (append_assoc p.started (tasks p.master_work_queue) (t ∷ []));
      closed = inl none_dropped;
    }
    | inr (nothing, stopped) ↦ absurd (ground (arith, d, stopped))
  ]

  accepted :
      (t : T) (p p' : ThreadPool T) (b : Bool)
      → p.done ≡ b
      → (if b then none else some (enqueue t p)) ≡ some p'
      → (p.done ≡ false) × (enqueue t p ≡ p')
  accepted t p p' true d h = absurd (none-some h)
  accepted t p p' false d h = (d, some-injective h)

  pub submit-accepted :
      (t : T) (p p' : ThreadPool T)
      → ThreadPool.submit t p ≡ some p'
      → (p.done ≡ false) × (enqueue t p ≡ p')
  unfolding ThreadPool.submit
  submit-accepted t p p' h = accepted t p p' p.done refl h

  submit-Ordered :
      (t : T) (p p' : ThreadPool T) → ThreadPool.submit t p ≡ some p' → Ordered p → Ordered p'
  submit-Ordered t p p' h o =
      let (d, same) = submit-accepted t p p' h in subst Ordered same (submitted-Ordered t p d o)

  taken-kept :
      (i : ℕ) (task : FuncWrapper T) (queue : List (FuncWrapper T)) (p : ThreadPool T)
      → p.master_work_queue ≡ task ∷ queue
      → p.dropped ≡ []
      → Ordered p
      → Ordered (take_task i task queue p)
  unfolding take_task
  taken-kept i none queue p e d o = record {
    kept = o.kept ∙ ap (λ q. p.started ++ (p.dropped ++ tasks q)) e;
    closed = inl d;
  }
  taken-kept i (some t) queue p e d o = record {
    kept =
        o.kept
        ∙ ap (λ q. p.started ++ (p.dropped ++ tasks q)) e
        ∙ (rw d (sym (append_assoc p.started (t ∷ []) (tasks queue))));
    closed = inl d;
  }

  taken-Ordered :
      (i : ℕ) (task : FuncWrapper T) (queue : List (FuncWrapper T)) (p : ThreadPool T)
      → p.master_work_queue ≡ task ∷ queue
      → Ordered p
      → Ordered (take_task i task queue p)
  taken-Ordered i task queue p e o = elim o.closed [
    | inr (nothing, stopped) ↦ let no : task ∷ queue ≡ [] = sym e ∙ nothing in cc
    | inl none_dropped ↦ taken-kept i task queue p e none_dropped o
  ]

  moved-Ordered :
      (workers : List (Phase T)) (p : ThreadPool T)
      → Ordered p
      → Ordered (record p { workers = workers })
  moved-Ordered workers p o = record { kept = o.kept; closed = o.closed }

  popped-Ordered :
      (i : ℕ) (q : List (FuncWrapper T)) (p p' : ThreadPool T)
      → p.master_work_queue ≡ q
      → advance i waiting p ≡ some p'
      → Ordered p
      → Ordered p'
  unfolding advance wait_and_pop
  popped-Ordered i [] p p' e h o = absurd (none-some (rw (e, advance) at h))
  popped-Ordered i (task ∷ queue) p p' e h o =
      subst Ordered (some-injective (rw (e, advance) at h)) (taken-Ordered i task queue p e o)

  advance-Ordered :
      (i : ℕ) (phase : Phase T) (p p' : ThreadPool T)
      → advance i phase p ≡ some p'
      → Ordered p
      → Ordered p'
  unfolding advance
  advance-Ordered i testing p p' h o = subst Ordered (some-injective h) (moved-Ordered _ p o)
  advance-Ordered i waiting p p' h o = popped-Ordered i p.master_work_queue p p' refl h o
  advance-Ordered i (running t) p p' h o = subst Ordered (some-injective h) (moved-Ordered _ p o)
  advance-Ordered i ended p p' h o = absurd (none-some (h))

  work-Ordered :
      (i : ℕ) (p p' : ThreadPool T) → worker_thread i p ≡ some p' → Ordered p → Ordered p'
  unfolding worker_thread
  work-Ordered i p p' h o = elim (Option-cases (get_elem? p.workers i)) [
    | inl e ↦ absurd (none-some (rw (e, worker_thread) at h))
    | inr (phase, e) ↦ advance-Ordered i phase p p' (rw (e, worker_thread) at h) o
  ]

  -- Null tasks at the end of the queue of a pool that is not done.
  ended-Ordered :
      (n : ℕ) (done : Bool) (p : ThreadPool T)
      → p.done ≡ false
      → Ordered p
      → Ordered (send_nulls done n p)
  unfolding send_nulls
  ended-Ordered n done p d o = elim o.closed [
    | inl none_dropped ↦ record {
      kept = rw (tasks-with_nulls p.master_work_queue n) o.kept;
      closed = inl none_dropped;
    }
    | inr (nothing, stopped) ↦ let no : false ≡ true = sym d ∙ stopped in cc
  ]

  stop-Ordered : (p : ThreadPool T) → Ordered p → Ordered (ThreadPool.stop p)
  unfolding ThreadPool.stop
  stop-Ordered p o = elim (Bool-cases p.done) [
    | inl d ↦ subst (λ b. Ordered (if b then p else send_nulls true p.worker_num p)) (sym d) o
    | inr d ↦
        subst (λ b. Ordered (if b then p else send_nulls true p.worker_num p)) (sym d)
          (ended-Ordered p.worker_num true p d o)
  ]

  join-Ordered : (p : ThreadPool T) → Ordered p → Ordered (ThreadPool.join p)
  unfolding ThreadPool.join
  join-Ordered p o =
      let flag = if p.running_until_empty then p.done else true in
      elim (Bool-cases p.done) [
        | inl d ↦
            subst (λ b. Ordered (if b then p else send_nulls flag (2 * p.worker_num) p)) (sym d) o
        | inr d ↦
            subst (λ b. Ordered (if b then p else send_nulls flag (2 * p.worker_num) p)) (sym d)
              (ended-Ordered (2 * p.worker_num) flag p d o)
      ]

  finish-Ordered : (p p' : ThreadPool T) → ThreadPool.finish p ≡ some p' → Ordered p → Ordered p'
  unfolding ThreadPool.finish clear
  finish-Ordered p p' h o = elim (Bool-cases (p.closing && all_ended p.workers)) [
    | inr stays ↦ absurd (none-some (rw (stays, ThreadPool.finish) at h))
    | inl ends ↦ subst Ordered (some-injective (rw (ends, ThreadPool.finish) at h)) (record {
      kept =
          o.kept
          ∙ ap (λ l. p.started ++ l) (sym (append-nil (p.dropped ++ tasks p.master_work_queue)));
      closed = inr (refl, refl);
    })
  ]

  step-Ordered : (e : Event T) (p p' : ThreadPool T) → step e p ≡ some p' → Ordered p → Ordered p'
  unfolding step
  step-Ordered (submit t) p p' h o = submit-Ordered t p p' h o
  step-Ordered (work i) p p' h o = work-Ordered i p p' h o
  step-Ordered stop p p' h o = subst Ordered (some-injective h) (stop-Ordered p o)
  step-Ordered join p p' h o = subst Ordered (some-injective h) (join-Ordered p o)
  step-Ordered finish p p' h o = finish-Ordered p p' h o

  run-Ordered :
      (events : List (Event T)) (p p' : ThreadPool T)
      → run events p ≡ some p'
      → Ordered p
      → Ordered p'
  unfolding run
  run-Ordered [] p p' h o = subst Ordered (some-injective h) o
  run-Ordered (e ∷ events) p p' h o = elim (Option-cases (step e p)) [
    | inl e1 ↦ absurd (none-some (rw (e1, run) at h))
    | inr (q, e1) ↦ run-Ordered events q p' (rw (e1, run) at h) (step-Ordered e p q e1 o)
  ]

  -- In every interleaving of submissions, workers, stops and joins, the tasks that the workers started,
  -- then those that the end of the pool discarded, then those in the queue, are the submitted ones, in
  -- the order of their submission: none is lost, started twice or overtaken.
  pub run-in_order :
      (n : ℕ) (until_empty : Bool) (events : List (Event T)) (p : ThreadPool T)
      → run events (init n until_empty) ≡ some p
      → p.submitted ≡ p.started ++ (p.dropped ++ tasks p.master_work_queue)
  unfolding init
  run-in_order n until_empty events p h =
      (run-Ordered events (init n until_empty) p h (record { kept = refl; closed = inl refl })).kept
