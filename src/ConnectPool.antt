-- ===== src/ConnectPool.antt =====
-- hikyuu/utilities/ConnectPool.h. Every operation runs under the pool's mutex, so a history of several
-- threads is a sequence of these operations. A `ConnectType *` is its address.
pub mod Limits
pub mod Waits
use hku_utils.Base.{
  ℕ, zero, suc, ◌+◌, ◌-◌, ◌/◌, ◌%◌, List, [], ◌∷◌, ◌++◌, Option, none, some, Bool, true, false,
  ◌&&◌, get_elem?, erase_idx, length, leb, ltb, if◌then◌else◌, u64_mod, not,
}
use hku_utils.Base.Int.{ℤ, pos, negsuc}

-- The members, and around them the connections that users hold.
pub record ConnectPool : Type 0 where
  pub max_connect_size : ℕ
  pub max_idle_size : ℕ
  pub count : ℕ
  pub connect_list : List ℕ
  pub held : List ℕ

-- `terminated`: the `new` of a request throws, and getConnect is noexcept. `waiting`: no end so far.
pub data Outcome : Type 0 where
  got : ℕ → Outcome
  null_ptr terminated timed_out waiting : Outcome

unfoldable pub init : ℕ → ℕ → ConnectPool
init max_connect max_idle_connect = record {
  max_connect_size = max_connect;
  max_idle_size = max_idle_connect;
  count = 0;
  connect_list = [];
  held = [];
}

-- `m_count++` and `m_count--` on a `size_t`.
abbrev pub one_more : ℕ → ℕ
one_more n = (n + 1) % u64_mod

abbrev pub one_less : ℕ → ℕ
one_less n = (n + u64_mod - 1) % u64_mod

-- `new ConnectType(m_param)`, at an address or with an exception.
unfoldable pub create : Option ℕ → ConnectPool → Outcome × ConnectPool
create none p = (terminated, record p { count = one_more p.count })
create (some c) p = (got c, record p { count = one_more p.count; held = c ∷ p.held })

unfoldable pub hand_out : ℕ → List ℕ → ConnectPool → ConnectPool
hand_out c rest p = record p { connect_list = rest; held = c ∷ p.held }

unfoldable pub get_from : Option ℕ → List ℕ → ConnectPool → Outcome × ConnectPool
get_from fresh [] p =
    if ltb 0 p.max_connect_size && leb p.max_connect_size p.count
    then (null_ptr, p)
    else create fresh p
get_from fresh (c ∷ rest) p = (got c, hand_out c rest p)

unfoldable pub get_connect : Option ℕ → ConnectPool → Outcome × ConnectPool
get_connect fresh p = get_from fresh p.connect_list p

-- The connection is kept idle or deleted.
unfoldable pub return_driver : ℕ → ConnectPool → ConnectPool
return_driver c p =
    if ltb (length p.connect_list) p.max_idle_size
    then record p { connect_list = p.connect_list ++ c ∷ [] }
    else record p { count = one_less p.count }

-- The i-th pointer in use ends, and its closer gives the connection back.
unfoldable pub close : ℕ → ConnectPool → ConnectPool
close i p = elim (get_elem? p.held i) [
  | none ↦ p
  | some c ↦ return_driver c (record p { held = erase_idx p.held i })
]

unfoldable pub release_list : List ℕ → ConnectPool → ConnectPool
release_list [] p = p
release_list (c ∷ rest) p =
    release_list rest (record p { connect_list = rest; count = one_less p.count })

unfoldable pub release_idle_connect : ConnectPool → ConnectPool
release_idle_connect p = release_list p.connect_list p

unfoldable pub destroy_list : List ℕ → ConnectPool → ConnectPool
destroy_list [] p = p
destroy_list (c ∷ rest) p = destroy_list rest (record p { connect_list = rest })

unfoldable pub destroy : ConnectPool → ConnectPool
destroy p = destroy_list p.connect_list p

-- `timeout / sleep`.
abbrev pub max_rounds : ℤ → ℕ
max_rounds (pos n) = n / 100
max_rounds (negsuc n) = 0

abbrev pub has_timeout : ℤ → Bool
has_timeout (pos n) = ltb 0 n
has_timeout (negsuc n) = false

-- The exception of the check, where a pointer that the last request gave ends.
unfoldable pub time_out : Outcome × ConnectPool → Outcome × ConnectPool
time_out (got c, p) = (timed_out, close 0 p)
time_out (null_ptr, p) = (timed_out, p)
time_out (terminated, p) = (terminated, p)
time_out (timed_out, p) = (timed_out, p)
time_out (waiting, p) = (timed_out, p)

-- The loop, by the rounds that it is watched for. Before the round k the other threads do `others k`, and
-- `fresh k` is what a `new` does in it.
unfoldable pub wait_rounds :
    (ℕ → ConnectPool → ConnectPool)
    → (ℕ → Option ℕ)
    → ℤ
    → ℕ
    → ℕ
    → ConnectPool
    → Outcome × ConnectPool
wait_rounds others fresh timeout zero k p = (waiting, p)
wait_rounds others fresh timeout (suc rounds) k p =
    let r = get_connect (fresh k) (others k p) in
    let rest = wait_rounds others fresh timeout rounds (k + 1) r.1 in
    if has_timeout timeout && not (ltb k (max_rounds timeout))
    then time_out r
    else (elim r.0 [ got c ↦ r | null_ptr ↦ rest | terminated ↦ r | timed_out ↦ r | waiting ↦ r ])

-- The first request is made at once.
unfoldable pub get_and_wait :
    (ℕ → ConnectPool → ConnectPool)
    → (ℕ → Option ℕ)
    → Option ℕ
    → ℤ
    → ℕ
    → ConnectPool
    → Outcome × ConnectPool
get_and_wait others fresh first timeout rounds p =
    let r = get_connect first p in
    elim r.0 [
      | got c ↦ r
      | null_ptr ↦ wait_rounds others fresh timeout rounds 0 r.1
      | terminated ↦ r
      | timed_out ↦ r
      | waiting ↦ r
    ]
