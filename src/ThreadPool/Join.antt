-- ===== src/ThreadPool/Join.antt =====
-- What `join` waits for: hikyuu/utilities/thread/ThreadPool.h.
use hku_utils.Base.{
  ℕ, zero, suc, ◌*◌, ◌<◌, List, [], ◌∷◌, ◌++◌, map, none, some, Bool, true, false, length,
  get_elem?, replicate, if◌then◌else◌, ◌≡◌, refl, sym, ap, subst, ◌∙◌, inl, inr, arith,
  Option-cases, append_assoc, append-nil,
}
use hku_utils.Queue.{FuncWrapper, wait_and_pop, push}
use hku_utils.ThreadPool.{
  ThreadPool, Phase, testing, waiting, ended, running, tasks, init, take_task, advance,
  worker_thread, all_ended, send_nulls, enqueue, set_phase,
}
use hku_utils.ThreadPool
use hku_utils.ThreadPool.Order.{some-injective, none-some, submit-accepted}
use hku_utils.ThreadPool.Waits.{
  Work, submit, work, step, run, none_ended, Pending, AllStarted, Waits, set_phase-alive,
  taken-Pending, run-Waits,
}

testing-alive {ℓ} : (T : Type ℓ) (n : ℕ) → none_ended {T = T} (replicate n testing) ≡ true
testing-alive T zero = refl
testing-alive T (suc n) = testing-alive T n

module _ {ℓ} {T : Type ℓ} where
  -- A pool that nobody stops or joins: its queue has the tasks that are not started, and no null task.
  pub record Open (p : ThreadPool T) : Type ℓ where
    pub open_pool : p.done ≡ false
    pub until_empty : p.running_until_empty ≡ true
    pub left : List T
    pub pending : Pending p.submitted p left []

  map-snoc : (t : T) (l : List T) → map some (l ++ t ∷ []) ≡ map some l ++ some t ∷ []
  map-snoc t [] = refl
  map-snoc t (x ∷ l) = ap (◌∷◌ (some x)) (map-snoc t l)

  enqueue-Open : (t : T) (p : ThreadPool T) → Open p → Open (enqueue t p)
  unfolding enqueue push
  enqueue-Open t p o = record {
    open_pool = o.open_pool;
    until_empty = o.until_empty;
    left = o.left ++ t ∷ [];
    pending = record {
      queue =
          ap (λ q. q ++ some t ∷ []) (o.pending.queue ∙ append-nil _)
          ∙ sym (map-snoc t o.left)
          ∙ sym (append-nil _);
      total = sym (append_assoc p.started o.left (t ∷ [])) ∙ ap (λ l. l ++ t ∷ []) o.pending.total;
      alive = o.pending.alive;
    };
  }

  moved-Open :
      (i : ℕ) (phase : Phase T) (p : ThreadPool T)
      → none_ended (phase ∷ []) ≡ true
      → Open p
      → Open (record p { workers = set_phase i phase p.workers })
  moved-Open i phase p h o = record {
    open_pool = o.open_pool;
    until_empty = o.until_empty;
    left = o.left;
    pending = record {
      queue = o.pending.queue;
      total = o.pending.total;
      alive = set_phase-alive i phase p.workers h o.pending.alive;
    };
  }

  take_task-Open :
      (i : ℕ) (task : FuncWrapper T) (queue : List (FuncWrapper T)) (p : ThreadPool T)
      (left : List T)
      → p.master_work_queue ≡ task ∷ queue
      → p.done ≡ false
      → p.running_until_empty ≡ true
      → Pending p.submitted p left []
      → Open (take_task i task queue p)
  unfolding take_task
  take_task-Open i task queue p [] e d u s = let no : task ∷ queue ≡ [] = sym e ∙ s.queue in cc
  take_task-Open i none queue p (x ∷ left) e d u s =
      let no : none ∷ queue ≡ some x ∷ (map some left ++ []) = sym e ∙ s.queue in cc
  take_task-Open i (some t) queue p (x ∷ left) e d u s = record {
    open_pool = d;
    until_empty = u;
    left = left;
    pending = taken-Pending p.submitted i t queue p x left [] e s;
  }

  popped-Open :
      (i : ℕ) (q : List (FuncWrapper T)) (p p' : ThreadPool T)
      → p.master_work_queue ≡ q
      → advance i waiting p ≡ some p'
      → Open p
      → Open p'
  unfolding advance wait_and_pop
  popped-Open i [] p p' e h o = absurd (none-some (rw (e, advance) at h))
  popped-Open i (task ∷ queue) p p' e h o =
      subst Open (some-injective (rw (e, advance) at h))
        (take_task-Open i task queue p o.left e o.open_pool o.until_empty o.pending)

  advance-Open :
      (i : ℕ) (phase : Phase T) (p p' : ThreadPool T)
      → advance i phase p ≡ some p'
      → Open p
      → Open p'
  unfolding advance
  advance-Open i testing p p' h o = subst Open (some-injective h) (
      moved-Open i (if p.done then ended else waiting) p
        (ap (λ b. none_ended {T = T} ((if b then ended else waiting) ∷ [])) o.open_pool) o)
  advance-Open i waiting p p' h o = popped-Open i p.master_work_queue p p' refl h o
  advance-Open i (running t) p p' h o =
      subst Open (some-injective h) (moved-Open i testing p refl o)
  advance-Open i ended p p' h o = absurd (none-some h)

  step-Open : (work : Work T) (p p' : ThreadPool T) → step work p ≡ some p' → Open p → Open p'
  unfolding step worker_thread
  step-Open (submit t) p p' h o = subst Open (submit-accepted t p p' h).1 (enqueue-Open t p o)
  step-Open (work i) p p' h o = elim (Option-cases (get_elem? p.workers i)) [
    | inl e ↦ absurd (none-some (rw (e, worker_thread) at h))
    | inr (phase, e) ↦ advance-Open i phase p p' (rw (e, worker_thread) at h) o
  ]

  run-Open :
      (works : List (Work T)) (p p' : ThreadPool T) → run works p ≡ some p' → Open p → Open p'
  unfolding run
  run-Open [] p p' h o = subst Open (some-injective h) o
  run-Open (x ∷ works) p p' h o = elim (Option-cases (step x p)) [
    | inl e ↦ absurd (none-some (rw (e, run) at h))
    | inr (q, e) ↦ run-Open works q p' (rw (e, run) at h) (step-Open x p q e o)
  ]

  init-Open : (n : ℕ) → Open (init n true)
  unfolding init
  init-Open n = record {
    open_pool = refl;
    until_empty = refl;
    left = [];
    pending = record { queue = refl; total = refl; alive = testing-alive T n };
  }

  nulls-Waits : (n : ℕ) (p : ThreadPool T) → Open p → Waits p.submitted (send_nulls false n p)
  unfolding send_nulls
  nulls-Waits n p o = record {
    open_pool = refl;
    stage = inl (
      o.left,
      (
        replicate n none,
        record {
          queue = ap (λ q. q ++ replicate n none) (o.pending.queue ∙ append-nil _);
          total = o.pending.total;
          alive = o.pending.alive;
        },
      ),
    );
  }

  join_as :
      (done until_empty : Bool) (p : ThreadPool T)
      → done ≡ false
      → until_empty ≡ true
      → (if done then p else send_nulls (if until_empty then done else true) (2 * p.worker_num) p)
        ≡ send_nulls false (2 * p.worker_num) p
  join_as false true p d u = refl
  join_as true until_empty p d u = let no : true ≡ false = d in cc
  join_as false false p d u = let no : false ≡ true = u in cc

  join-Waits : (p : ThreadPool T) → Open p → Waits p.submitted (ThreadPool.join p)
  unfolding ThreadPool.join
  join-Waits p o =
      subst (Waits p.submitted)
        (sym (join_as p.done p.running_until_empty p o.open_pool o.until_empty))
        (nulls-Waits (2 * p.worker_num) p o)

  ended-conflict :
      (workers : List (Phase T))
      → 0 < length workers
      → all_ended workers ≡ true
      → none_ended workers ≡ true
      → ⊥
  unfolding all_ended
  ended-conflict [] h a b = absurd (omega arith)
  ended-conflict (ended ∷ workers) h a b = let no : false ≡ true = b in cc
  ended-conflict (testing ∷ workers) h a b = let no : false ≡ true = a in cc
  ended-conflict (waiting ∷ workers) h a b = let no : false ≡ true = a in cc
  ended-conflict (running t ∷ workers) h a b = let no : false ≡ true = a in cc

  -- A pool that runs until it is empty is joined, after any work, and the workers, of which there is one
  -- at least, go on until all have ended. Then every task that was submitted before the join has been
  -- run, in the order of submission, also where others submit tasks during the join.
  pub join_runs_all :
      (n : ℕ) (works later : List (Work T)) (p p' : ThreadPool T)
      → run works (init n true) ≡ some p
      → run later (ThreadPool.join p) ≡ some p'
      → 0 < length p'.workers
      → all_ended p'.workers ≡ true
      → AllStarted p.submitted p'
  join_runs_all n works later p p' before after some_worker ends =
      let w =
        run-Waits p.submitted later (ThreadPool.join p) p' after
          (join-Waits p (run-Open works (init n true) p before (init-Open n))) in
      elim w.stage [
        | inr all ↦ all
        | inl (left, (rest, s)) ↦ absurd (ended-conflict p'.workers some_worker ends s.alive)
      ]
