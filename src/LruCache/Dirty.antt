-- ===== src/LruCache/Dirty.antt =====
-- The deferred moves of hikyuu/utilities/LruCache.h: a read sets the dirty flag of its entry, and an
-- insertion moves one flagged key to the front first.
use hku_utils.Base.{
  ℕ, suc, ◌+◌, ◌%◌, ◌<◌, List, [], ◌∷◌, ◌++◌, some, none, true, false, ◌≡◌, ◌≢◌, refl, sym, ap,
  subst, ◌∙◌, ◌⊎◌, inl, inr, Option-cases, append_assoc, if_pos, if_neg, length, take, arith,
  u64_mod,
}
use mathlib.Core.List.{
  lookup, reverse, reverse-append, reverse-cons, erase, Mem, Nodup, mem-cons_self, mem-cons_of_mem,
  mem-reverse, Nodup-cons, mem-append_right, erase_of_not-mem,
}
use mathlib.Core.List.Perm
use hku_utils.LruCache
use hku_utils.Base.Assoc.{
  modify, not-mem_of_lookup, lookup-modify_self, lookup-modify_ne, lookup-cons_ne,
}
use hku_utils.LruCache.{
  LruCache, Entry, CacheMap, find_dirty, set_dirty, batch_update_dirty_nodes, prune, insert_entry,
}
use hku_utils.LruCache.Invariant.{Inv, Inv-length}
use hku_utils.LruCache.Calls.{IsValid, batch-IsValid, push-Inv}
use hku_utils.LruCache.Prune.{prune_if_needed-Cut}

erase-middle {ℓ} :
    {K : Type ℓ} (dec : Discrete K) (xs : List K) (k : K) (ys : List K)
    → Nodup (xs ++ k ∷ ys)
    → erase dec (xs ++ k ∷ ys) k ≡ xs ++ ys
erase-middle dec [] k ys d = if_pos (dec k k) refl _ _
erase-middle dec (x ∷ xs) k ys d =
    let (fresh, d') = Nodup-cons.0 d in
    if_neg (dec x k) (λ e. fresh (rw e (mem-append_right xs mem-cons_self))) _ _
    ∙ ap (◌∷◌ x) (erase-middle dec xs k ys d')

reverse-middle {ℓ} :
    {K : Type ℓ} (xs : List K) (k : K) (ys : List K)
    → reverse (xs ++ k ∷ ys) ≡ reverse ys ++ k ∷ reverse xs
reverse-middle xs k ys =
    reverse-append xs (k ∷ ys)
    ∙ (ap (λ l. l ++ reverse xs) (reverse-cons k ys)
        ∙ append_assoc (reverse ys) (k ∷ []) (reverse xs))

-- The list of a cache with these limits, after an insertion that left `order`.
abbrev pub Kept {ℓ} : {K : Type ℓ} → ℕ → ℕ → List K → List K → Type ℓ
Kept capacity overflow order l =
    (l ≡ order)
    ⊎ ((0 < capacity)
        × ((capacity + overflow) % u64_mod < length order)
        × (l ≡ take capacity order))

Kept-eq {ℓ} :
    {K : Type ℓ} {a a' b b' : ℕ} {o o' : List K} (l : List K)
    → a ≡ a'
    → b ≡ b'
    → o ≡ o'
    → Kept a b o l
    → Kept a' b' o' l
Kept-eq {a' = a'} {b = b} {b' = b'} {o = o} l e₁ e₂ e₃ t =
    subst (λ x. Kept a' b' x l) e₃ (subst (λ x. Kept a' x o l) e₂ (subst (λ x. Kept x b o l) e₁ t))

module _ {ℓ} {K V : Type ℓ} (dec : Discrete K) where
  find_dirty-middle :
      (m : CacheMap K V) (xs : List K) (k : K) (ys : List K) (e : Entry V)
      → ((q : K) (e' : Entry V) → Mem q xs → lookup dec q m ≡ some e' → e'.dirty ≡ false)
      → lookup dec k m ≡ some e
      → e.dirty ≡ true
      → find_dirty dec m (xs ++ k ∷ ys) ≡ some k
  unfolding find_dirty
  find_dirty-middle m [] k ys e clean h d = rw (h, find_dirty) (rw d refl)
  find_dirty-middle m (x ∷ xs) k ys e clean h d =
      let ih = find_dirty-middle m xs k ys e (λ q e' i. clean q e' (mem-cons_of_mem x i)) h d in
      elim (Option-cases (lookup dec x m)) [
        | inl l ↦ rw (l, find_dirty) ih
        | inr (e', l) ↦ rw (l, find_dirty) (rw (clean x e' mem-cons_self l) ih)
      ]

  -- The flagged key nearest to the back goes to the front without its flag, and all else stays.
  batch-moves :
      (c : LruCache K V) (pre : List K) (k : K) (post : List K) (e : Entry V)
      → Inv c
      → c.lru_list ≡ pre ++ k ∷ post
      → lookup dec k c.cache ≡ some e
      → e.dirty ≡ true
      → ((q : K) (e' : Entry V) → Mem q post → lookup dec q c.cache ≡ some e' → e'.dirty ≡ false)
      → ((batch_update_dirty_nodes dec c).lru_list ≡ k ∷ (pre ++ post))
        × (lookup dec k (batch_update_dirty_nodes dec c).cache
            ≡ some (record { value = e.value; dirty = false }))
        × ((q : K)
            → q ≢ k
            → lookup dec q (batch_update_dirty_nodes dec c).cache ≡ lookup dec q c.cache)
        × ((batch_update_dirty_nodes dec c).capacity ≡ c.capacity)
        × ((batch_update_dirty_nodes dec c).overflow ≡ c.overflow)
  unfolding batch_update_dirty_nodes set_dirty
  batch-moves c pre k post e v split l d clean =
      let found : find_dirty dec c.cache (reverse c.lru_list) ≡ some k =
        rw (split, reverse-middle pre k post)
          (find_dirty-middle c.cache (reverse post) k (reverse pre) e
            (λ q e' i. clean q e' (mem-reverse.0 i)) l d) in
      rw (found, l, batch_update_dirty_nodes)
        (
          ap (◌∷◌ k) (
              ap (λ l. erase dec l k) split ∙ erase-middle dec pre k post (rw split at v.distinct)),
          lookup-modify_self dec k _ c.cache e l,
          (λ q ne. lookup-modify_ne dec k q _ c.cache ne),
          refl,
          refl,
        )

  -- An insertion into a cache whose dirty nodes are done.
  abbrev Put : LruCache K V → K → LruCache K V → Type ℓ
  Put c k c' =
      Kept c.capacity c.overflow (k ∷ erase dec c.lru_list k) c'.lru_list
      × ((q : K) → q ≢ k → Mem q c'.lru_list → lookup dec q c'.cache ≡ lookup dec q c.cache)

  abbrev pushed : LruCache K V → K → V → LruCache K V
  pushed c k x = record c {
    cache = (k, record { value = x; dirty = false }) ∷ c.cache;
    lru_list = k ∷ c.lru_list;
  }

  pushed-Put :
      (c : LruCache K V) (k : K) (x : V)
      → IsValid c
      → lookup dec k c.cache ≡ none
      → (c' : LruCache K V) × (prune dec (pushed c k x) ≡ some c') × Put c k c'
  unfolding prune
  pushed-Put c k x v l =
      let new : ¬ Mem k c.lru_list =
        λ m. not-mem_of_lookup dec k c.cache l ((Perm.mem_iff v.inv.same).1 m) in
      let same : erase dec c.lru_list k ≡ c.lru_list = erase_of_not-mem dec new in
      let pv = push-Inv dec c k _ l v.inv in
      let longer : length (pushed c k x).cache ≡ suc (length c.lru_list) = Inv-length pv in
      elim (prune_if_needed-Cut dec (pushed c k x) pv) [
        | inl (e, low) ↦ (
          pushed c k x,
          rw (e, prune) refl,
          (inl (ap (◌∷◌ k) (sym same)), λ q ne m. lookup-cons_ne dec k q _ c.cache ne),
        )
        | inr (c', e, room, high, t) ↦ (
          c',
          rw (e, prune) refl,
          (
            inr (
              room,
              rw (same) (omega arith),
              t.front ∙ ap (λ r. take c.capacity (k ∷ r)) (sym same),
            ),
            λ q ne m. t.values q m ∙ lookup-cons_ne dec k q _ c.cache ne,
          ),
        )
      ]

  insert_entry-Put :
      (c : LruCache K V) (k : K) (x : V)
      → IsValid c
      → (c' : LruCache K V) × (insert_entry dec c k x ≡ some c') × Put c k c'
  unfolding insert_entry
  insert_entry-Put c k x v = elim (Option-cases (lookup dec k c.cache)) [
    | inl l ↦ let (c', r, t) = pushed-Put c k x v l in (c', rw (l, insert_entry) r, t)
    | inr (e, l) ↦ (
      record c {
        cache = modify dec k (λ _. record { value = x; dirty = false }) c.cache;
        lru_list = k ∷ erase dec c.lru_list k;
      },
      rw (l, insert_entry) refl,
      (inl refl, λ q ne m. lookup-modify_ne dec k q _ c.cache ne),
    )
  ]

  -- Of the keys that were read since their last move, an insertion moves the one nearest to the back of the list
  -- to the front and clears its flag, then it puts the inserted key in front; the other keys keep their order.
  -- The list is this one, or with a limit that it exceeds its first `capacity` keys. The entries of the other
  -- keys that are still in the list, flagged ones included, stay as they are.
  pub insert-moves :
      (c : LruCache K V) (pre : List K) (k : K) (post : List K) (e : Entry V) (key : K) (x : V)
      → IsValid c
      → c.lru_list ≡ pre ++ k ∷ post
      → lookup dec k c.cache ≡ some e
      → e.dirty ≡ true
      → ((q : K) (e' : Entry V) → Mem q post → lookup dec q c.cache ≡ some e' → e'.dirty ≡ false)
      → (c' : LruCache K V) × (LruCache.insert dec c key x ≡ some c')
        × Kept c.capacity c.overflow (key ∷ erase dec (k ∷ (pre ++ post)) key) c'.lru_list
        × (k ≢ key
            → Mem k c'.lru_list
            → lookup dec k c'.cache ≡ some (record { value = e.value; dirty = false }))
        × ((q : K)
            → q ≢ k
            → q ≢ key
            → Mem q c'.lru_list
            → lookup dec q c'.cache ≡ lookup dec q c.cache)
  unfolding LruCache.insert
  insert-moves c pre k post e key x v split l d clean =
      let (order, own, others, same, same') = batch-moves c pre k post e v.inv split l d clean in
      let (c', r, t) =
        insert_entry-Put (batch_update_dirty_nodes dec c) key x (batch-IsValid dec c v) in
      (
        c',
        r,
        Kept-eq c'.lru_list same same' (ap (λ o. key ∷ erase dec o key) order) t.0,
        (λ ne m. t.1 k ne m ∙ own),
        λ q ne ne' m. t.1 q ne' m ∙ others q ne,
      )
