-- ===== src/ResourcePool/Calls.antt =====
-- Histories of class ResourcePool, hikyuu/utilities/ResourcePool.h: any interleaving of its
-- operations, each atomic under the mutex.
use hku_utils.Base.{
  ℕ, List, [], ◌∷◌, Option, none, some, ◌≡◌, refl, subst, inl, inr, arith, Bool-cases, ltb,
}
use mathlib.Core.List.{Nodup-nil, not-mem-nil}
use mathlib.Core.List.Perm
use hku_utils.ResourcePool
use hku_utils.ResourcePool.{
  Pool, Handle, Reply, got, null_ptr, create_failed, timed_out, blocked, init, is_full, create,
  take_front, finish_wait,
}
use hku_utils.ResourcePool.Invariant.{Inv, Fresh, take_front-Inv, create-Inv}
use hku_utils.ResourcePool.Returns.{drop_handle-Inv}
use hku_utils.ResourcePool.Idle.{release_idle_resource-Inv}

-- The operations that change a pool. `wait_over` is the end of a wait that `get_wait_for` began.
pub data Call : Type 0 where
  get : Option ℕ → Call
  get_wait_for : Option ℕ → ℕ → Call
  wait_over : ℕ → Call
  drop_handle : ℕ → Call
  release_idle_resource : Call
  set_max_pool_size : ℕ → Call
  set_max_idle_size : ℕ → Call

unfoldable pub step : Call → Pool → Pool
step (get created) p = (ResourcePool.get created p).0
step (get_wait_for created ms) p = (ResourcePool.get_wait_for created ms p p).0
step (wait_over ms) p = (finish_wait p ms).0
step (drop_handle i) p = ResourcePool.drop_handle i p
step release_idle_resource p = ResourcePool.release_idle_resource p
step (set_max_pool_size n) p = ResourcePool.set_max_pool_size n p
step (set_max_idle_size n) p = ResourcePool.set_max_idle_size n p

-- What a call asks of `new`.
abbrev pub Allocates : Call → Pool → Type 0
Allocates (get (some r)) p = Fresh r p
Allocates (get_wait_for (some r) ms) p = Fresh r p
Allocates _ p = Unit {0}

-- The states that a pool can reach.
pub data Reach (max_pool_size max_idle_num : ℕ) : Pool → Type 0 where
  start : Reach max_pool_size max_idle_num (init max_pool_size max_idle_num)
  next :
      {p : Pool} (call : Call)
      → Reach max_pool_size max_idle_num p
      → Allocates call p
      → Reach max_pool_size max_idle_num (step call p)

-- The three ways in which a request ends.
pub request-Inv :
    (created : Option ℕ) (p : Pool)
    → ((r : ℕ) → created ≡ some r → Fresh r p)
    → Inv p
    → p.resource_list ≡ []
    → Inv (create created p).0
unfolding create
request-Inv none p f v e = v
request-Inv (some r) p f v e = create-Inv r p (f r refl) v e

pub get-Inv :
    (created : Option ℕ) (p : Pool) (l : List ℕ)
    → p.resource_list ≡ l
    → ((r : ℕ) → created ≡ some r → Fresh r p)
    → Inv p
    → Inv (ResourcePool.get created p).0
unfolding ResourcePool.get
get-Inv created p [] e f v = elim (Bool-cases (is_full p)) [
  | inl full ↦ rw (e, full, ResourcePool.get) v
  | inr free ↦ rw (e, free, ResourcePool.get) (request-Inv created p f v e)
]
get-Inv created p (r ∷ rest) e f v = rw (e, ResourcePool.get) (take_front-Inv r rest p e v)

finish_wait-Inv :
    (p : Pool) (ms : ℕ) (l : List ℕ) → p.resource_list ≡ l → Inv p → Inv (finish_wait p ms).0
unfolding finish_wait
finish_wait-Inv p ms [] e v = elim (Bool-cases (ltb 0 ms)) [
  | inl t ↦ rw (e, t, finish_wait) v
  | inr t ↦ rw (e, t, finish_wait) v
]
finish_wait-Inv p ms (r ∷ rest) e v = rw (e, finish_wait) (take_front-Inv r rest p e v)

get_wait_for-Inv :
    (created : Option ℕ) (ms : ℕ) (p : Pool) (l : List ℕ)
    → p.resource_list ≡ l
    → ((r : ℕ) → created ≡ some r → Fresh r p)
    → Inv p
    → Inv (ResourcePool.get_wait_for created ms p p).0
unfolding ResourcePool.get_wait_for
get_wait_for-Inv created ms p [] e f v = elim (Bool-cases (is_full p)) [
  | inl full ↦ rw (e, full, ResourcePool.get_wait_for) (finish_wait-Inv p ms [] e v)
  | inr free ↦ rw (e, free, ResourcePool.get_wait_for) (request-Inv created p f v e)
]
get_wait_for-Inv created ms p (r ∷ rest) e f v =
    rw (e, ResourcePool.get_wait_for) (take_front-Inv r rest p e v)

-- The allocator's promise for a call, as the requests use it.
promise :
    (created : Option ℕ) (p : Pool)
    → Allocates (get created) p
    → (r : ℕ) → created ≡ some r
    → Fresh r p
promise none p f r e = cc
promise (some x) p f r e = let i : x ≡ r = cc in subst (λ y. Fresh y p) i f

pub limits-Inv :
    (m n : ℕ) (p : Pool) → Inv p → Inv (record p { max_pool_size = m; max_idle_size = n })
limits-Inv m n p v = record {
  owned = v.owned;
  distinct = v.distinct;
  nonnull = v.nonnull;
  closers = v.closers;
  bound = v.bound;
  counted = v.counted;
  small = v.small;
}

-- Every operation keeps the invariant. It says that each resource object is either idle or in use, and
-- never both or twice, so none is leaked and none is deleted twice; that `count` is their number; and
-- that the closers of the pointers in use are the ones that the pool knows.
pub step-Inv : (call : Call) (p : Pool) → Allocates call p → Inv p → Inv (step call p)
unfolding step ResourcePool.set_max_pool_size ResourcePool.set_max_idle_size
step-Inv (get created) p f v = get-Inv created p p.resource_list refl (promise created p f) v
step-Inv (get_wait_for none ms) p f v =
    get_wait_for-Inv none ms p p.resource_list refl (promise none p f) v
step-Inv (get_wait_for (some r) ms) p f v =
    get_wait_for-Inv (some r) ms p p.resource_list refl (promise (some r) p f) v
step-Inv (wait_over ms) p f v = finish_wait-Inv p ms p.resource_list refl v
step-Inv (drop_handle i) p f v = drop_handle-Inv i p v
step-Inv release_idle_resource p f v = (release_idle_resource-Inv p v).0
step-Inv (set_max_pool_size n) p f v = limits-Inv n p.max_idle_size p v
step-Inv (set_max_idle_size n) p f v = limits-Inv p.max_pool_size n p v

pub init-Inv : (max_pool_size max_idle_num : ℕ) → Inv (init max_pool_size max_idle_num)
unfolding init
init-Inv max_pool_size max_idle_num = record {
  owned = Perm.nil;
  distinct = Nodup-nil;
  nonnull = not-mem-nil;
  closers = Perm.nil;
  bound = tt;
  counted = refl;
  small = omega arith;
}

-- In every history of a pool, from its construction on, every call keeps the invariant: the pool owns
-- what is idle and what its pointers hold, without a double, `count` is the number of these resources,
-- and the set of closers is that of the pointers, each bound to the pool.
pub Reach-Inv : (m n : ℕ) {p : Pool} → Reach m n p → Inv p
Reach-Inv m n start = init-Inv m n
Reach-Inv m n (next {p} call r f) = step-Inv call p f (Reach-Inv m n r)
