-- ===== src/ResourcePool/Limits.antt =====
-- The limits of class ResourcePool, hikyuu/utilities/ResourcePool.h, and the answers of its requests.
use hku_utils.Base.{
  ℕ, ◌+◌, ◌≤◌, ◌<◌, List, [], ◌∷◌, Option, none, some, ◌≡◌, refl, ◌⊎◌, inl, inr, arith, Bool-cases,
  Option-cases, u64_mod,
}
use hku_utils.ResourcePool.{
  Pool, hand_out, got, null_ptr, create_failed, is_full, create, take_front, get,
}

-- An answer of `get`, by what the pool holds.
abbrev pub Taken : Option ℕ → Pool → Type 0
Taken created p =
    (r : ℕ) × (rest : List ℕ) × (p.resource_list ≡ r ∷ rest)
    × ((get created p).1 ≡ got r)
    × ((get created p).0.resource_list ≡ rest)
    × ((get created p).0.count ≡ p.count)

abbrev pub Refused : Option ℕ → Pool → Type 0
Refused created p =
    (p.resource_list ≡ [])
    × (0 < p.max_pool_size)
    × (p.max_pool_size ≤ p.count)
    × (get created p ≡ (p, null_ptr))

abbrev pub Created : Option ℕ → Pool → Type 0
Created created p =
    (r : ℕ) × (p.resource_list ≡ [])
    × (created ≡ some r)
    × ((get created p).1 ≡ got r)
    × ((get created p).0.count ≡ p.count + 1)
    × ((p.max_pool_size ≡ 0) ⊎ (p.count + 1 ≤ p.max_pool_size))

abbrev pub Failed : Option ℕ → Pool → Type 0
Failed created p = (p.resource_list ≡ []) × (created ≡ none) × (get created p ≡ (p, create_failed))

answers_by :
    (created : Option ℕ) (p : Pool) (l : List ℕ)
    → p.resource_list ≡ l
    → p.count + 1 < u64_mod
    → Taken created p ⊎ Refused created p ⊎ Created created p ⊎ Failed created p
unfolding get create take_front hand_out
answers_by created p (r ∷ rest) e room = inl (r, rest, e, rw e refl, rw e refl, rw e refl)
answers_by created p [] e room = elim (Bool-cases (is_full p)) [
  | inl full ↦ inr (inl (e, ground arith, ground arith, rw (e, full) refl))
  | inr free ↦ elim (Option-cases created) [
    | inl c ↦ inr (inr (inr (e, c, rw (e, free, c) refl)))
    | inr (r, c) ↦
        inr (inr (inl (r, e, c, rw (e, free, c) refl, rw (e, free, c) (omega arith), ground arith)))
  ]
]

-- `get`, on all its branches. An idle resource is handed out, the oldest first, and `count` stays. With
-- none idle, the answer of a full pool is the null pointer, and the pool is unchanged; that of any
-- other is the new resource, and `count` grows by one within the limit, or the exception of `new`, and
-- the pool is unchanged.
pub get_answers :
    (created : Option ℕ) (p : Pool)
    → p.count + 1 < u64_mod
    → Taken created p ⊎ Refused created p ⊎ Created created p ⊎ Failed created p
get_answers created p room = answers_by created p p.resource_list refl room
