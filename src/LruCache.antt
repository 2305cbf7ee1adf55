-- ===== src/LruCache.antt =====
-- The bounded cache: hikyuu/utilities/LruCache.h. Every operation runs under the cache's lock, so a
-- cache with several users is a sequence of these operations. The keys of `lru_list` are distinct
-- (LruCache/Invariant), so the list iterator that an entry of the source keeps is named by its key.
pub mod Invariant
pub mod Prune
pub mod Calls
pub mod Dirty
pub mod Reads
use hku_utils.Base.{
  ℕ, zero, suc, ◌+◌, ◌%◌, List, [], ◌∷◌, Option, none, some, Bool, true, false, ◌||◌, length, leb,
  ltb, ◌==◌, if◌then◌else◌, u64_mod,
}
use mathlib.Core.List.{reverse, lookup, erase, get_last?, drop_last}
use hku_utils.Base.Assoc.{modify, erase_key}

-- `CacheValue`: the value with its dirty flag.
pub record Entry {ℓ} (V : Type ℓ) : Type ℓ where
  pub value : V
  pub dirty : Bool

-- `m_cache`; the order of the entries of an unordered map means nothing.
abbrev pub CacheMap {ℓ} : Type ℓ → Type ℓ → Type ℓ
CacheMap K V = List (K × Entry V)

pub record LruCache {ℓ} (K V : Type ℓ) : Type ℓ where
  pub capacity : ℕ
  pub overflow : ℕ
  pub lru_list : List K
  pub cache : CacheMap K V

unfoldable pub init {ℓ} : {K V : Type ℓ} → ℕ → ℕ → LruCache K V
init capacity overflow = record {
  capacity = capacity;
  overflow = overflow;
  lru_list = [];
  cache = [];
}

-- `m_lru_list.splice(m_lru_list.begin(), m_lru_list, it)`.
abbrev splice_front {ℓ} : {K : Type ℓ} → Discrete K → K → List K → List K
splice_front dec key l = key ∷ erase dec l key

module _ {ℓ} {K V : Type ℓ} (dec : Discrete K) where
  -- `m_cache.erase(m_lru_list.back()); m_lru_list.pop_back();`
  pub drop_back : LruCache K V → K → LruCache K V
  drop_back c back = record c {
    cache = erase_key dec back c.cache;
    lru_list = drop_last c.lru_list;
  }

  -- The loop of `_prune_if_needed`. `none`: `back()` of an empty list, or no fuel left.
  pub prune_loop : ℕ → LruCache K V → ℕ → Option (LruCache K V × ℕ)
  unfolding drop_back
  prune_loop zero c count = none
  prune_loop (suc fuel) c count = elim (ltb c.capacity (length c.cache)) [
    | false ↦ some (c, count)
    | true ↦ elim (get_last? c.lru_list) [
      | none ↦ none
      | some back ↦ prune_loop fuel (drop_back c back) (count + 1)
    ]
  ]

  -- Each round removes an entry, so as many rounds as there are entries, and one to stop, are enough.
  pub prune_if_needed : LruCache K V → Option (LruCache K V × ℕ)
  unfolding prune_loop
  prune_if_needed c =
      let max_allowed = (c.capacity + c.overflow) % u64_mod in
      let pruned = prune_loop (suc (length c.cache)) c 0 in
      if c.capacity == 0 || leb (length c.cache) max_allowed then some (c, 0) else pruned

  -- The operations that prune do not use the count.
  pub prune : LruCache K V → Option (LruCache K V)
  prune c = elim (prune_if_needed c) [ none ↦ none | some (c', _) ↦ some c' ]

  -- The first loop of `_batch_update_dirty_nodes`, over the list from its back.
  pub find_dirty : CacheMap K V → List K → Option K
  find_dirty cache [] = none
  find_dirty cache (key ∷ keys) = elim (lookup dec key cache) [
    | none ↦ find_dirty cache keys
    | some e ↦ if e.dirty then some key else find_dirty cache keys
  ]

  pub set_dirty : K → Bool → CacheMap K V → CacheMap K V
  set_dirty key b = modify dec key (λ e. record e { dirty = b })

  pub batch_update_dirty_nodes : LruCache K V → LruCache K V
  unfolding find_dirty set_dirty
  batch_update_dirty_nodes c = elim (find_dirty c.cache (reverse c.lru_list)) [
    | none ↦ c
    | some key ↦ elim (lookup dec key c.cache) [
      | none ↦ c
      | some _ ↦ record c {
        cache = set_dirty key false c.cache;
        lru_list = splice_front dec key c.lru_list;
      }
    ]
  ]

  -- The part of `insert` after the dirty nodes are done.
  pub insert_entry : LruCache K V → K → V → Option (LruCache K V)
  unfolding prune
  insert_entry c key value = elim (lookup dec key c.cache) [
    | some _ ↦ some (record c {
      cache = modify dec key (λ _. record { value = value; dirty = false }) c.cache;
      lru_list = splice_front dec key c.lru_list;
    })
    | none ↦ prune (record c {
      cache = (key, record { value = value; dirty = false }) ∷ c.cache;
      lru_list = key ∷ c.lru_list;
    })
  ]

  unfoldable pub insert : LruCache K V → K → V → Option (LruCache K V)
  unfolding batch_update_dirty_nodes insert_entry
  insert c key value = insert_entry (batch_update_dirty_nodes c) key value

  -- `value_type{}` is `default`.
  unfoldable pub get : V → LruCache K V → K → LruCache K V × V
  unfolding set_dirty
  get default c key = elim (lookup dec key c.cache) [
    | none ↦ (c, default)
    | some e ↦ (record c { cache = set_dirty key true c.cache }, e.value)
  ]

  -- `value` is the reference argument before the call, and the third part of the result after it.
  unfoldable pub try_get : LruCache K V → K → V → LruCache K V × Bool × V
  unfolding set_dirty
  try_get c key value = elim (lookup dec key c.cache) [
    | none ↦ (c, false, value)
    | some e ↦ (record c { cache = set_dirty key true c.cache }, true, e.value)
  ]

  unfoldable pub contains : LruCache K V → K → Bool
  contains c key = elim (lookup dec key c.cache) [ none ↦ false | some _ ↦ true ]

  unfoldable pub remove : LruCache K V → K → LruCache K V × Bool
  remove c key = elim (lookup dec key c.cache) [
    | none ↦ (c, false)
    | some _ ↦
        (record c { lru_list = erase dec c.lru_list key; cache = erase_key dec key c.cache }, true)
  ]

  unfoldable pub resize : LruCache K V → ℕ → Option (LruCache K V)
  unfolding prune
  resize c capacity = prune (record c { capacity = capacity })

  unfoldable pub set_overflow : LruCache K V → ℕ → Option (LruCache K V)
  unfolding prune
  set_overflow c overflow = prune (record c { overflow = overflow })

unfoldable pub clear {ℓ} : {K V : Type ℓ} → LruCache K V → LruCache K V
clear c = record c { cache = []; lru_list = [] }

unfoldable pub size {ℓ} : {K V : Type ℓ} → LruCache K V → ℕ
size c = length c.cache

-- What a run of the cache computes with.
unfoldable pub program : Unit {0}
unfolding lookup modify erase_key init prune_if_needed prune insert get try_get remove resize
program = tt
