-- ===== src/ResourcePool.antt =====
-- The shared pool of resources: class ResourcePool of hikyuu/utilities/ResourcePool.h. Every operation
-- runs under the pool's mutex, so a history of several threads is a sequence of these operations; a
-- wait ends with the state that it finds then. A `ResourceType *` is its address, 0 being the null
-- pointer.
pub mod Invariant
pub mod Returns
pub mod Idle
pub mod Calls
pub mod Destroy
pub mod Limits
use hku_utils.Base.{
  ℕ, zero, suc, ◌+◌, ◌-◌, ◌%◌, List, [], ◌∷◌, ◌++◌, Option, none, some, Bool, true, false, ◌&&◌,
  ◌||◌, get_elem?, erase_idx, length, map, leb, ltb, ◌==◌, if◌then◌else◌, u64_mod, ℕ_discrete,
}
use mathlib.Core.List.{erase}

-- A `ResourcePtr` in use, with its `ResourceCloser`: `bound` is that the closer's `m_pool` is not null.
pub record Handle : Type 0 where
  pub resource : ℕ
  pub bound : Bool

-- The members of the pool, and around them the resource objects that exist (`heap`) and the pointers
-- in use (`handles`). The closer of a pointer is named by its resource in `closer_set`.
pub record Pool : Type 0 where
  pub max_pool_size : ℕ
  pub max_idle_size : ℕ
  pub count : ℕ
  pub resource_list : List ℕ
  pub closer_set : List ℕ
  pub heap : List ℕ
  pub handles : List Handle

unfoldable pub init : ℕ → ℕ → Pool
init max_pool_size max_idle_num = record {
  max_pool_size = max_pool_size;
  max_idle_size = max_idle_num;
  count = 0;
  resource_list = [];
  closer_set = [];
  heap = [];
  handles = [];
}

-- What a request answers. `blocked`: the wait without a timeout has not ended.
pub data Reply : Type 0 where
  got : ℕ → Reply
  null_ptr create_failed timed_out blocked : Reply

-- `m_count++` and `m_count--` on a `size_t`.
abbrev pub inc : ℕ → ℕ
inc n = (n + 1) % u64_mod

abbrev pub dec : ℕ → ℕ
dec n = (n + u64_mod - 1) % u64_mod

-- `delete p`.
abbrev pub delete : ℕ → Pool → Pool
delete r p = record p { heap = erase ℕ_discrete p.heap r }

-- `result = ResourcePtr(p, ResourceCloser(this)); m_closer_set.insert(...)`.
unfoldable pub hand_out : ℕ → Pool → Pool
hand_out r p = record p {
  closer_set = r ∷ p.closer_set;
  handles = record { resource = r; bound = true } ∷ p.handles;
}

-- `new ResourceType(m_param)` throws, or returns the address `r`.
unfoldable pub create : Option ℕ → Pool → Pool × Reply
unfolding hand_out
create none p = (p, create_failed)
create (some r) p = (hand_out r (record p { heap = r ∷ p.heap; count = inc p.count }), got r)

-- `p = m_resourceList.front(); m_resourceList.pop(); ...`, the list being `r ∷ rest`.
unfoldable pub take_front : ℕ → List ℕ → Pool → Pool × Reply
unfolding hand_out
take_front r rest p = (hand_out r (record p { resource_list = rest }), got r)

abbrev pub is_full : Pool → Bool
is_full p = ltb 0 p.max_pool_size && leb p.max_pool_size p.count

unfoldable pub get : Option ℕ → Pool → Pool × Reply
get created p = elim p.resource_list [
  | [] ↦ if is_full p then (p, null_ptr) else create created p
  | r ∷ rest ↦ take_front r rest p
]

-- The end of a wait in the state `after`: `wait_for` answers whether the list has a resource then, and
-- `wait` goes on until it has one.
unfoldable pub finish_wait : Pool → ℕ → Pool × Reply
unfolding take_front
finish_wait after ms_timeout = elim after.resource_list [
  | [] ↦ if ltb 0 ms_timeout then (after, timed_out) else (after, blocked)
  | r ∷ rest ↦ take_front r rest after
]

-- `after` is the state when the wait ends, if there is one.
unfoldable pub get_wait_for : Option ℕ → ℕ → Pool → Pool → Pool × Reply
get_wait_for created ms_timeout after p = elim p.resource_list [
  | [] ↦ if is_full p then finish_wait after ms_timeout else create created p
  | r ∷ rest ↦ take_front r rest p
]

unfoldable pub get_and_wait : Option ℕ → Pool → Pool → Pool × Reply
unfolding get_wait_for
get_and_wait created after p = get_wait_for created 0 after p

-- The loop of `_releaseIdleResourceNoLock`, over the list that it empties.
unfoldable pub release_loop : List ℕ → Pool → Pool
release_loop [] p = record p { resource_list = [] }
release_loop (r ∷ rest) p =
    let p' = record p { resource_list = rest; count = dec p.count } in
    release_loop rest (if r == 0 then p' else delete r p')

unfoldable pub release_idle_resource : Pool → Pool
unfolding release_loop
release_idle_resource p = release_loop p.resource_list p

-- `returnResource`: the resource, or a null pointer, comes back from the closer of `closer`.
unfoldable pub return_resource : ℕ → ℕ → Pool → Pool
return_resource r closer p =
    let kept =
      if r == 0
      then record p { count = dec p.count }
      else (if ltb (length p.resource_list) p.max_idle_size
          then record p { resource_list = p.resource_list ++ r ∷ [] }
          else record (delete r p) { count = dec p.count }) in
    record kept { closer_set = erase ℕ_discrete kept.closer_set closer }

-- `ResourceCloser::operator()`, on a pointer that is no longer in use.
unfoldable pub close : Handle → Pool → Pool
close h p =
    if h.resource == 0
    then p
    else (if h.bound then return_resource h.resource h.resource p else delete h.resource p)

-- The last `ResourcePtr` of the `i`-th pointer in use goes out of scope.
unfoldable pub drop_handle : ℕ → Pool → Pool
drop_handle i p = elim (get_elem? p.handles i) [
  | none ↦ p
  | some h ↦ close h (record p { handles = erase_idx p.handles i })
]

pub is_member : ℕ → List ℕ → Bool
is_member r [] = false
is_member r (x ∷ xs) = x == r || is_member r xs

-- `(*iter)->unbind()` for the closers of the set.
pub unbind : List ℕ → Handle → Handle
unfolding is_member
unbind closers h = if is_member h.resource closers then record h { bound = false } else h

-- The second loop of the destructor, over the list that it empties.
pub destroy_loop : List ℕ → Pool → Pool
destroy_loop [] p = record p { resource_list = [] }
destroy_loop (r ∷ rest) p =
    let p' = record p { resource_list = rest } in
    destroy_loop rest (if r == 0 then p' else delete r p')

-- The destructor. What is left of the pool is the heap and the pointers that are still in use.
unfoldable pub destroy : Pool → Pool
unfolding unbind destroy_loop
destroy p =
    destroy_loop p.resource_list (record p { handles = map (unbind p.closer_set) p.handles })

unfoldable pub set_max_pool_size : ℕ → Pool → Pool
set_max_pool_size n p = record p { max_pool_size = n }

unfoldable pub set_max_idle_size : ℕ → Pool → Pool
set_max_idle_size n p = record p { max_idle_size = n }

-- The getter `maxPoolSize()`.
unfoldable pub max_pool_size_getter : Pool → ℕ
max_pool_size_getter p = p.max_idle_size

-- What a run of the pool computes with.
unfoldable pub program : Unit {0}
unfolding init get get_wait_for create take_front finish_wait drop_handle close return_resource
program = tt
