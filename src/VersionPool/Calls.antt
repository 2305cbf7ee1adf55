-- ===== src/VersionPool/Calls.antt =====
-- Every call of class ResourceVersionPool, hikyuu/utilities/ResourcePool.h, and the states that it
-- reaches.
use hku_utils.Base.{
  ℕ, List, [], ◌∷◌, Option, none, some, Bool, true, false, ltb, ◌==◌, ◌≡◌, refl, inl, inr, subst,
  arith, Bool-cases,
}
use mathlib.Core.List.{not-mem-nil, mem-cons_self}
use hku_utils.ResourcePool.{Pool, Reply, got, is_full, null_ptr, create_failed}
use hku_utils.ResourcePool
use hku_utils.ResourcePool.Invariant.{Fresh}
use hku_utils.ResourcePool.Calls.{init-Inv, limits-Inv}
use hku_utils.VersionPool.{VersionPool, create, take_front, finish_wait, init}
use hku_utils.VersionPool
use hku_utils.VersionPool.Current.{
  Current, renewed-Current, released-Current, create-Current, take_front-Current,
  drop_handle-Current,
}

-- `created` is the address that `new` returns, if the call asks for one; `none` is its exception.
pub data Call {ℓ} (P : Type ℓ) : Type ℓ where
  get : Option ℕ → Call P
  get_wait_for : Option ℕ → ℕ → Call P
  wait_over : ℕ → Call P
  drop_handle : ℕ → Call P
  release_idle_resource : Call P
  set_parameter : P → Call P
  set_param : Bool → P → Call P
  inc_version : ℕ → Call P
  set_max_pool_size : ℕ → Call P
  set_max_idle_size : ℕ → Call P

module _ {ℓ} {P : Type ℓ} where
  unfoldable pub step : Call P → VersionPool P → VersionPool P
  step (get created) v = (VersionPool.get created v).0
  step (get_wait_for created ms) v = (VersionPool.get_wait_for created ms v v).0
  step (wait_over ms) v = (finish_wait v ms).0
  step (drop_handle i) v = VersionPool.drop_handle i v
  step release_idle_resource v = VersionPool.release_idle_resource v
  step (set_parameter param) v = VersionPool.set_parameter param v
  step (set_param unchanged param) v = VersionPool.set_param unchanged param v
  step (inc_version version) v = VersionPool.inc_version version v
  step (set_max_pool_size n) v = VersionPool.set_max_pool_size n v
  step (set_max_idle_size n) v = VersionPool.set_max_idle_size n v

  -- What a call asks of `new`.
  abbrev pub Allocates : Call P → VersionPool P → Type 0
  Allocates (get (some r)) v = Fresh r v.pool
  Allocates (get_wait_for (some r) ms) v = Fresh r v.pool
  Allocates _ v = Unit {0}

  pub data Reach (param : P) (max_pool_size max_idle_num : ℕ) : VersionPool P → Type ℓ where
    start : Reach param max_pool_size max_idle_num (init param max_pool_size max_idle_num)
    next :
        {v : VersionPool P} (call : Call P)
        → Reach param max_pool_size max_idle_num v
        → Allocates call v
        → Reach param max_pool_size max_idle_num (step call v)

  abbrev Promise : Option ℕ → VersionPool P → Type 0
  Promise created v = (r : ℕ) → created ≡ some r → Fresh r v.pool

  request-Current :
      (created : Option ℕ) (v : VersionPool P)
      → Promise created v
      → v.pool.resource_list ≡ []
      → Current v
      → Current (create created v).0
  unfolding create
  request-Current none v f e c = c
  request-Current (some r) v f e c = create-Current r v e (f r refl) c

  get-Current :
      (created : Option ℕ) (v : VersionPool P) (l : List ℕ)
      → v.pool.resource_list ≡ l
      → Promise created v
      → Current v
      → Current (VersionPool.get created v).0
  unfolding VersionPool.get
  get-Current created v [] e f c = elim (Bool-cases (is_full v.pool)) [
    | inl full ↦ rw (e, full, VersionPool.get) c
    | inr free ↦ rw (e, free, VersionPool.get) (request-Current created v f e c)
  ]
  get-Current created v (r ∷ rest) e f c = rw (e, VersionPool.get) (take_front-Current r rest v e c)

  finish_wait-Current :
      (v : VersionPool P) (ms : ℕ) (l : List ℕ)
      → v.pool.resource_list ≡ l
      → Current v
      → Current (finish_wait v ms).0
  unfolding finish_wait
  finish_wait-Current v ms [] e c = elim (Bool-cases (ltb 0 ms)) [
    | inl t ↦ rw (e, t, finish_wait) c
    | inr t ↦ rw (e, t, finish_wait) c
  ]
  finish_wait-Current v ms (r ∷ rest) e c = rw (e, finish_wait) (take_front-Current r rest v e c)

  get_wait_for-Current :
      (created : Option ℕ) (ms : ℕ) (v : VersionPool P) (l : List ℕ)
      → v.pool.resource_list ≡ l
      → Promise created v
      → Current v
      → Current (VersionPool.get_wait_for created ms v v).0
  unfolding VersionPool.get_wait_for
  get_wait_for-Current created ms v [] e f c = elim (Bool-cases (is_full v.pool)) [
    | inl full ↦ rw (e, full, VersionPool.get_wait_for) (finish_wait-Current v ms [] e c)
    | inr free ↦ rw (e, free, VersionPool.get_wait_for) (request-Current created v f e c)
  ]
  get_wait_for-Current created ms v (r ∷ rest) e f c =
      rw (e, VersionPool.get_wait_for) (take_front-Current r rest v e c)

  promise : (created : Option ℕ) (v : VersionPool P) → Allocates (get created) v → Promise created v
  promise none v f r e = cc
  promise (some x) v f r e = let i : x ≡ r = cc in subst (λ y. Fresh y v.pool) i f

  limits-Current :
      (m n : ℕ) (v : VersionPool P)
      → Current v
      → Current (record v { pool = record v.pool { max_pool_size = m; max_idle_size = n } })
  limits-Current m n v c = record {
    inv = limits-Inv m n v.pool c.inv;
    older = c.older;
    same = c.same;
    idle = c.idle;
  }

  inc_version-Current :
      (version : ℕ) (v : VersionPool P) → Current v → Current (VersionPool.inc_version version v)
  unfolding VersionPool.inc_version
  inc_version-Current version v c = record {
    inv = c.inv;
    older = λ r m. omega (arith, c.older r m);
    same = λ r m e. absurd (omega (arith, c.older r m));
    idle = c.idle;
  }

  step-Current :
      (call : Call P) (v : VersionPool P) → Allocates call v → Current v → Current (step call v)
  unfolding step VersionPool.set_max_pool_size VersionPool.set_max_idle_size
      VersionPool.set_parameter VersionPool.set_param
  step-Current (get created) v f c =
      get-Current created v v.pool.resource_list refl (promise created v f) c
  step-Current (get_wait_for none ms) v f c =
      get_wait_for-Current none ms v v.pool.resource_list refl (promise none v f) c
  step-Current (get_wait_for (some r) ms) v f c =
      get_wait_for-Current (some r) ms v v.pool.resource_list refl (promise (some r) v f) c
  step-Current (wait_over ms) v f c = finish_wait-Current v ms v.pool.resource_list refl c
  step-Current (drop_handle i) v f c = drop_handle-Current i v c
  step-Current release_idle_resource v f c = released-Current v c
  step-Current (set_parameter param) v f c = renewed-Current v param c
  step-Current (set_param true param) v f c = c
  step-Current (set_param false param) v f c = renewed-Current v param c
  step-Current (inc_version version) v f c = inc_version-Current version v c
  step-Current (set_max_pool_size n) v f c = limits-Current n v.pool.max_idle_size v c
  step-Current (set_max_idle_size n) v f c = limits-Current v.pool.max_pool_size n v c

  init-Current : (param : P) (m n : ℕ) → Current (init param m n)
  unfolding VersionPool.init ResourcePool.init
  init-Current param m n = record {
    inv = init-Inv m n;
    older = λ r h. absurd (not-mem-nil h);
    same = λ r h. absurd (not-mem-nil h);
    idle = λ r h. absurd (not-mem-nil h);
  }

  pub Reach-Current : (param : P) (m n : ℕ) {v : VersionPool P} → Reach param m n v → Current v
  Reach-Current param m n start = init-Current param m n
  Reach-Current param m n (next {v} call r f) = step-Current call v f (Reach-Current param m n r)

  new_param :
      (created : Option ℕ) (v : VersionPool P) (r : ℕ)
      → (create created v).1 ≡ got r
      → (create created v).0.param_of r ≡ v.param
  unfolding create
  new_param none v r h = cc
  new_param (some x) v r h =
      let i : x ≡ r = cc in let t : (r == x) ≡ true = ground arith in rw t refl

  front_param :
      (x : ℕ) (rest : List ℕ) (v : VersionPool P) (r : ℕ)
      → v.pool.resource_list ≡ x ∷ rest
      → Current v
      → (take_front x rest v).1 ≡ got r
      → (take_front x rest v).0.param_of r ≡ v.param
  unfolding take_front
  front_param x rest v r e c h =
      let i : x ≡ r = cc in subst (λ y. v.param_of y ≡ v.param) i (c.idle x (rw e mem-cons_self))

  handed_out :
      (created : Option ℕ) (v : VersionPool P) (l : List ℕ) (r : ℕ)
      → v.pool.resource_list ≡ l
      → Current v
      → (VersionPool.get created v).1 ≡ got r
      → (VersionPool.get created v).0.param_of r ≡ v.param
  unfolding VersionPool.get
  handed_out created v [] r e c h = elim (Bool-cases (is_full v.pool)) [
    | inl full ↦ let no : null_ptr ≡ got r = rw (e, full, VersionPool.get) at h in cc
    | inr free ↦
        rw (e, free, VersionPool.get) (new_param created v r (rw (e, free, VersionPool.get) at h))
  ]
  handed_out created v (x ∷ rest) r e c h =
      rw (e, VersionPool.get) (front_param x rest v r e c (rw (e, VersionPool.get) at h))

  -- In every history, with changes of the parameter and of the version between the calls, a resource
  -- that `get` hands out was made with the present parameter.
  pub get_is_current :
      (param : P) (m n : ℕ) (v : VersionPool P) (created : Option ℕ) (r : ℕ)
      → Reach param m n v
      → (VersionPool.get created v).1 ≡ got r
      → (VersionPool.get created v).0.param_of r ≡ v.param
  get_is_current param m n v created r reach h =
      handed_out created v v.pool.resource_list r refl (Reach-Current param m n reach) h
