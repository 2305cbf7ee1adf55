-- ===== src/VersionPool.antt =====
-- The shared pool of versioned resources: class ResourceVersionPool of hikyuu/utilities/ResourcePool.h,
-- on the members that it has in common with ResourcePool. A resource carries the version that it was
-- given and the parameter that it was made with. The version is an `int`, in whose range it stays.
pub mod Current
pub mod Calls
use hku_utils.Base.{
  ℕ, ◌+◌, List, [], ◌∷◌, ◌++◌, Option, none, some, Bool, true, false, ◌&&◌, get_elem?, erase_idx,
  length, ltb, ◌==◌, if◌then◌else◌, ℕ_discrete,
}
use mathlib.Core.List.{erase}
use hku_utils.ResourcePool.{
  Pool, Handle, Reply, null_ptr, create_failed, timed_out, blocked, got, dec, delete, is_full,
}
use hku_utils.ResourcePool

pub record VersionPool {ℓ} (P : Type ℓ) : Type ℓ where
  pub pool : Pool
  pub param : P
  pub version : ℕ
  pub version_of : ℕ → ℕ
  pub param_of : ℕ → P

module _ {ℓ} {P : Type ℓ} where
  unfoldable pub init : P → ℕ → ℕ → VersionPool P
  init param max_pool_size max_idle_num = record {
    pool = ResourcePool.init max_pool_size max_idle_num;
    param = param;
    version = 0;
    version_of = λ r. 0;
    param_of = λ r. param;
  }

  -- `new ResourceType(m_param)` and `p->setVersion(m_version)`.
  unfoldable pub create : Option ℕ → VersionPool P → VersionPool P × Reply
  create none v = (v, create_failed)
  create (some r) v = (
    record v {
      pool = (ResourcePool.create (some r) v.pool).0;
      version_of = λ q. if q == r then v.version else v.version_of q;
      param_of = λ q. if q == r then v.param else v.param_of q;
    },
    got r,
  )

  unfoldable pub take_front : ℕ → List ℕ → VersionPool P → VersionPool P × Reply
  take_front r rest v = (record v { pool = (ResourcePool.take_front r rest v.pool).0 }, got r)

  unfoldable pub get : Option ℕ → VersionPool P → VersionPool P × Reply
  get created v = elim v.pool.resource_list [
    | [] ↦ if is_full v.pool then (v, null_ptr) else create created v
    | r ∷ rest ↦ take_front r rest v
  ]

  -- The end of a wait in the state `after`.
  unfoldable pub finish_wait : VersionPool P → ℕ → VersionPool P × Reply
  finish_wait after ms_timeout = elim after.pool.resource_list [
    | [] ↦ if ltb 0 ms_timeout then (after, timed_out) else (after, blocked)
    | r ∷ rest ↦ take_front r rest after
  ]

  -- `after` is the state when the wait ends, if there is one.
  unfoldable pub get_wait_for : Option ℕ → ℕ → VersionPool P → VersionPool P → VersionPool P × Reply
  get_wait_for created ms_timeout after v = elim v.pool.resource_list [
    | [] ↦ if is_full v.pool then finish_wait after ms_timeout else create created v
    | r ∷ rest ↦ take_front r rest v
  ]

  unfoldable pub release_idle_resource : VersionPool P → VersionPool P
  release_idle_resource v = record v { pool = ResourcePool.release_idle_resource v.pool }

  unfoldable pub set_parameter : P → VersionPool P → VersionPool P
  set_parameter param v =
      release_idle_resource (record v { param = param; version = v.version + 1 })

  -- `setParam`: `unchanged` is that the parameter has that value already, and `param` the parameter with
  -- the value set.
  unfoldable pub set_param : Bool → P → VersionPool P → VersionPool P
  set_param unchanged param v =
      if unchanged
      then v
      else release_idle_resource (record v { param = param; version = v.version + 1 })

  -- The argument of `incVersion` is not used.
  unfoldable pub inc_version : ℕ → VersionPool P → VersionPool P
  inc_version version v = record v { version = v.version + 1 }

  unfoldable pub return_resource : ℕ → ℕ → VersionPool P → VersionPool P
  return_resource r closer v =
      let p = v.pool in
      let kept =
        if r == 0
        then record p { count = dec p.count }
        else (if v.version_of r == v.version && ltb (length p.resource_list) p.max_idle_size
            then record p { resource_list = p.resource_list ++ r ∷ [] }
            else record (delete r p) { count = dec p.count }) in
      record v { pool = record kept { closer_set = erase ℕ_discrete kept.closer_set closer } }

  unfoldable pub close : Handle → VersionPool P → VersionPool P
  close h v =
      if h.resource == 0
      then v
      else (if h.bound
          then return_resource h.resource h.resource v
          else record v { pool = delete h.resource v.pool })

  unfoldable pub drop_handle : ℕ → VersionPool P → VersionPool P
  drop_handle i v = elim (get_elem? v.pool.handles i) [
    | none ↦ v
    | some h ↦ close h (record v { pool = record v.pool { handles = erase_idx v.pool.handles i } })
  ]

  unfoldable pub set_max_pool_size : ℕ → VersionPool P → VersionPool P
  set_max_pool_size n v = record v { pool = record v.pool { max_pool_size = n } }

  unfoldable pub set_max_idle_size : ℕ → VersionPool P → VersionPool P
  set_max_idle_size n v = record v { pool = record v.pool { max_idle_size = n } }
