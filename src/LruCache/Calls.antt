-- ===== src/LruCache/Calls.antt =====
-- A history of calls of the cache of hikyuu/utilities/LruCache.h: no call fails, and the invariant
-- and the limit hold after each.
use hku_utils.Base.{
  ℕ, List, [], ◌∷◌, Option, none, some, false, ◌≡◌, refl, inl, inr, arith, Option-cases,
}
use mathlib.Core.List.{
  lookup, reverse, erase, Mem, perm_cons_erase, erase-sublist, Nodup-nil, Nodup-cons,
}
use mathlib.Core.List.Nodup
use mathlib.Core.List.Perm
use hku_utils.Base.Assoc.{
  modify, erase_key, keys-modify, keys-erase_key, mem_of_lookup, not-mem_of_lookup, length-modify,
  length-erase_key,
}
use hku_utils.LruCache
use hku_utils.LruCache.{
  LruCache, Entry, init, prune, find_dirty, set_dirty, batch_update_dirty_nodes, insert_entry,
  splice_front,
}
use hku_utils.LruCache.Invariant.{Inv, IsBounded}
use hku_utils.LruCache.Prune.{prune-Inv}

pub record IsValid {ℓ} {K V : Type ℓ} (c : LruCache K V) : Type ℓ where
  pub inv : Inv c
  pub bounded : IsBounded c

-- The calls that change the state of a cache.
pub data Call {ℓ} (K V : Type ℓ) : Type ℓ where
  insert : K → V → Call K V
  get : K → Call K V
  try_get : K → V → Call K V
  remove : K → Call K V
  clear : Call K V
  resize : ℕ → Call K V
  set_overflow : ℕ → Call K V

module _ {ℓ} {K V : Type ℓ} (dec : Discrete K) (default : V) where
  unfoldable pub step : LruCache K V → Call K V → Option (LruCache K V)
  step c (insert k v) = LruCache.insert dec c k v
  step c (get k) = some (LruCache.get dec default c k).0
  step c (try_get k v) = some (LruCache.try_get dec c k v).0
  step c (remove k) = some (LruCache.remove dec c k).0
  step c clear = some (LruCache.clear c)
  step c (resize n) = LruCache.resize dec c n
  step c (set_overflow n) = LruCache.set_overflow dec c n

  unfoldable pub run : LruCache K V → List (Call K V) → Option (LruCache K V)
  unfolding step
  run c [] = some c
  run c (call ∷ calls) = elim (step c call) [ none ↦ none | some c' ↦ run c' calls ]

module _ {ℓ} {K V : Type ℓ} (dec : Discrete K) where
  mem-lru :
      (c : LruCache K V) (k : K) (e : Entry V)
      → lookup dec k c.cache ≡ some e
      → Inv c
      → Mem k c.lru_list
  mem-lru c k e h v = (Perm.mem_iff v.same).0 (mem_of_lookup dec k c.cache e h)

  -- To move a stored key to the front and to write to its entry.
  pub touch-Inv :
      (c : LruCache K V) (k : K) (e : Entry V) (f : Entry V → Entry V)
      → lookup dec k c.cache ≡ some e
      → Inv c
      → Inv (record c { cache = modify dec k f c.cache; lru_list = splice_front dec k c.lru_list })
  touch-Inv c k e f h v =
      let p = perm_cons_erase dec (mem-lru c k e h v) in
      record {
        same = rw (keys-modify dec k f c.cache) (Perm.trans v.same p);
        distinct = Perm.nodup p v.distinct;
      }

  mark-Inv :
      (c : LruCache K V) (k : K) (f : Entry V → Entry V)
      → Inv c
      → Inv (record c { cache = modify dec k f c.cache })
  mark-Inv c k f v = record {
    same = rw (keys-modify dec k f c.cache) v.same;
    distinct = v.distinct;
  }

  remove-Inv :
      (c : LruCache K V) (k : K)
      → Inv c
      → Inv (record c { lru_list = erase dec c.lru_list k; cache = erase_key dec k c.cache })
  remove-Inv c k v = record {
    same = rw (keys-erase_key dec k c.cache) (Perm.erase dec k v.same);
    distinct = Nodup.sublist (erase-sublist dec k) v.distinct;
  }

  pub push-Inv :
      (c : LruCache K V) (k : K) (e : Entry V)
      → lookup dec k c.cache ≡ none
      → Inv c
      → Inv (record c { cache = (k, e) ∷ c.cache; lru_list = k ∷ c.lru_list })
  push-Inv c k e h v = record {
    same = Perm.cons k v.same;
    distinct =
        Nodup-cons.1
          (λ m. not-mem_of_lookup dec k c.cache h ((Perm.mem_iff v.same).1 m), v.distinct);
  }

  pub batch-IsValid : (c : LruCache K V) → IsValid c → IsValid (batch_update_dirty_nodes dec c)
  unfolding batch_update_dirty_nodes set_dirty
  batch-IsValid c v = elim (Option-cases (find_dirty dec c.cache (reverse c.lru_list))) [
    | inl e ↦ rw (e, batch_update_dirty_nodes) v
    | inr (k, e) ↦ elim (Option-cases (lookup dec k c.cache)) [
      | inl l ↦ rw (e, l, batch_update_dirty_nodes) v
      | inr (x, l) ↦
          rw (e, l, batch_update_dirty_nodes)
            (record {
              inv = touch-Inv c k x _ l v.inv;
              bounded =
                  ground (arith, length-modify dec k (λ y. record y { dirty = false }) c.cache);
            })
    ]
  ]

  insert_entry-IsValid :
      (c : LruCache K V) (k : K) (x : V)
      → IsValid c
      → (c' : LruCache K V) × (insert_entry dec c k x ≡ some c')
        × IsValid c'
        × (c'.capacity ≡ c.capacity)
        × (c'.overflow ≡ c.overflow)
  unfolding insert_entry
  insert_entry-IsValid c k x v = elim (Option-cases (lookup dec k c.cache)) [
    | inl l ↦
        let (c', r, i, b, same_cap, same_over) =
          prune-Inv dec
            (record c {
              cache = (k, record { value = x; dirty = false }) ∷ c.cache;
              lru_list = k ∷ c.lru_list;
            })
            (push-Inv c k _ l v.inv) in
        (c', rw (l, insert_entry) r, record { inv = i; bounded = b }, same_cap, same_over)
    | inr (e, l) ↦ (
      _,
      rw (l, insert_entry) refl,
      record {
        inv = touch-Inv c k e (λ _. record { value = x; dirty = false }) l v.inv;
        bounded = ground (
          arith,
          length-modify dec k (λ (_ : Entry V). record { value = x; dirty = false }) c.cache,
        );
      },
      refl,
      refl,
    )
  ]

  mark-IsValid :
      (c : LruCache K V) (k : K) (f : Entry V → Entry V)
      → IsValid c
      → IsValid (record c { cache = modify dec k f c.cache })
  mark-IsValid c k f v = record {
    inv = mark-Inv c k f v.inv;
    bounded = ground (arith, length-modify dec k f c.cache);
  }

  get-IsValid :
      (default : V) (c : LruCache K V) (k : K)
      → IsValid c
      → IsValid (LruCache.get dec default c k).0
  unfolding LruCache.get set_dirty
  get-IsValid default c k v = elim (Option-cases (lookup dec k c.cache)) [
    | inl l ↦ rw (l, LruCache.get) v
    | inr (e, l) ↦ rw (l, LruCache.get) (mark-IsValid c k _ v)
  ]

  try_get-IsValid :
      (c : LruCache K V) (k : K) (x : V) → IsValid c → IsValid (LruCache.try_get dec c k x).0
  unfolding LruCache.try_get set_dirty
  try_get-IsValid c k x v = elim (Option-cases (lookup dec k c.cache)) [
    | inl l ↦ rw (l, LruCache.try_get) v
    | inr (e, l) ↦ rw (l, LruCache.try_get) (mark-IsValid c k _ v)
  ]

  remove-IsValid : (c : LruCache K V) (k : K) → IsValid c → IsValid (LruCache.remove dec c k).0
  unfolding LruCache.remove
  remove-IsValid c k v = elim (Option-cases (lookup dec k c.cache)) [
    | inl l ↦ rw (l, LruCache.remove) v
    | inr (e, l) ↦
        rw (l, LruCache.remove)
          (record {
            inv = remove-Inv c k v.inv;
            bounded = ground (arith, length-erase_key dec k c.cache e l);
          })
  ]

  prune-IsValid :
      (c : LruCache K V) → Inv c → (c' : LruCache K V) × (prune dec c ≡ some c') × IsValid c'
  prune-IsValid c v =
      let (c', r, i, b, same_cap, same_over) = prune-Inv dec c v in
      (c', r, record { inv = i; bounded = b })

  module _ (default : V) where
    -- On a valid cache every call ends and returns a valid cache: the map and the list hold the same
    -- keys, none twice, and the number of entries is at most capacity + overflow unless the capacity
    -- is 0.
    pub step-IsValid :
        (c : LruCache K V) (call : Call K V)
        → IsValid c
        → (c' : LruCache K V) × (step dec default c call ≡ some c') × IsValid c'
    unfolding step LruCache.insert LruCache.resize LruCache.set_overflow LruCache.clear
    step-IsValid c (insert k x) v =
        let (c', r, w, same_cap, same_over) =
          insert_entry-IsValid (batch_update_dirty_nodes dec c) k x (batch-IsValid c v) in
        (c', r, w)
    step-IsValid c (get k) v = (_, refl, get-IsValid default c k v)
    step-IsValid c (try_get k x) v = (_, refl, try_get-IsValid c k x v)
    step-IsValid c (remove k) v = (_, refl, remove-IsValid c k v)
    step-IsValid c clear v = (
      _,
      refl,
      record { inv = record { same = Perm.nil; distinct = Nodup-nil }; bounded = omega arith },
    )
    step-IsValid c (resize n) v =
        prune-IsValid (record c { capacity = n })
          (record { same = v.inv.same; distinct = v.inv.distinct })
    step-IsValid c (set_overflow n) v =
        prune-IsValid (record c { overflow = n })
          (record { same = v.inv.same; distinct = v.inv.distinct })

    run-IsValid :
        (c : LruCache K V) (calls : List (Call K V))
        → IsValid c
        → (c' : LruCache K V) × (run dec default c calls ≡ some c') × IsValid c'
    unfolding run
    run-IsValid c [] v = (c, refl, v)
    run-IsValid c (call ∷ calls) v =
        let (c1, e, w) = step-IsValid c call v in
        let (c2, r, u) = run-IsValid c1 calls w in (c2, rw (e, run) r, u)

    -- From a fresh cache any history of calls runs to its end, and the cache is valid after it.
    pub run-init-IsValid :
        (capacity overflow : ℕ) (calls : List (Call K V))
        → (c : LruCache K V) × (run dec default (init capacity overflow) calls ≡ some c) × IsValid c
    unfolding init
    run-init-IsValid capacity overflow calls =
        run-IsValid _ calls
          (record { inv = record { same = Perm.nil; distinct = Nodup-nil }; bounded = omega arith })
