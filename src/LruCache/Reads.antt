-- ===== src/LruCache/Reads.antt =====
-- What can be read from the cache of hikyuu/utilities/LruCache.h after a call.
use hku_utils.Base.{
  ◌-◌, List, [], ◌∷◌, Option, none, some, false, ◌≡◌, ◌≢◌, refl, sym, ap, subst, ◌∙◌, inl, inr,
  arith, take, take-cons, Option-cases,
}
use mathlib.Core.Option
use mathlib.Core.List.{lookup, reverse, erase, Mem, mem-cons_self}
use hku_utils.Base.Assoc.{
  modify, lookup-modify_self, lookup-modify_ne, lookup-cons_self, lookup-cons_ne,
}
use hku_utils.LruCache
use hku_utils.LruCache.{
  LruCache, Entry, prune_if_needed, prune, find_dirty, set_dirty, batch_update_dirty_nodes,
  insert_entry,
}
use hku_utils.LruCache.Calls.{IsValid, batch-IsValid, push-Inv}
use hku_utils.LruCache.Prune.{prune_if_needed-Cut}

module _ {ℓ} {K V : Type ℓ} (dec : Discrete K) where
  -- The value that a reader of the cache finds under a key.
  abbrev pub stored : LruCache K V → K → Option V
  stored c q = Option.map (λ e. e.value) (lookup dec q c.cache)

  -- A write that keeps the value of an entry changes no value.
  stored-modify :
      (m : List (K × Entry V)) (k q : K) (f : Entry V → Entry V)
      → ((e : Entry V) → (f e).value ≡ e.value)
      → Option.map (λ e. e.value) (lookup dec q (modify dec k f m))
        ≡ Option.map (λ e. e.value) (lookup dec q m)
  unfolding lookup modify
  stored-modify [] k q f same = refl
  stored-modify (x ∷ m) k q f same = ground (arith, stored-modify m k q f same, same x.1)

  -- `get` returns the stored value, or the default where there is none. It changes no value, and not
  -- the order of the keys.
  pub get-stored :
      (default : V) (c : LruCache K V) (k : K)
      → ((LruCache.get dec default c k).1 ≡ Option.get_or (stored c k) default)
        × ((q : K) → stored (LruCache.get dec default c k).0 q ≡ stored c q)
        × ((LruCache.get dec default c k).0.lru_list ≡ c.lru_list)
  unfolding LruCache.get set_dirty
  get-stored default c k = elim (Option-cases (lookup dec k c.cache)) [
    | inl l ↦ rw (l, LruCache.get) (refl, (λ q. refl), refl)
    | inr (e, l) ↦ rw (l, LruCache.get) (refl, (λ q. stored-modify c.cache k q _ (λ x. refl)), refl)
  ]

  batch-stored : (c : LruCache K V) (q : K) → stored (batch_update_dirty_nodes dec c) q ≡ stored c q
  unfolding batch_update_dirty_nodes set_dirty
  batch-stored c q = elim (Option-cases (find_dirty dec c.cache (reverse c.lru_list))) [
    | inl e ↦ rw (e, batch_update_dirty_nodes)
    | inr (k, e) ↦ elim (Option-cases (lookup dec k c.cache)) [
      | inl l ↦ rw (e, l, batch_update_dirty_nodes)
      | inr (x, l) ↦ rw (e, l, batch_update_dirty_nodes) (stored-modify c.cache k q _ (λ y. refl))
    ]
  ]

  -- The cache with a new entry in front.
  abbrev pushed : LruCache K V → K → V → LruCache K V
  pushed c k x = record c {
    cache = (k, record { value = x; dirty = false }) ∷ c.cache;
    lru_list = k ∷ c.lru_list;
  }

  -- What an insertion does, to a cache whose dirty nodes are done.
  record Inserted (c c' : LruCache K V) (k : K) (x : V) : Type ℓ where
    front : (l : List K) × (c'.lru_list ≡ k ∷ l)
    own : stored c' k ≡ some x
    others : (q : K) → q ≢ k → Mem q c'.lru_list → stored c' q ≡ stored c q

  prune-pushed :
      (c : LruCache K V) (k : K) (x : V)
      → IsValid c
      → lookup dec k c.cache ≡ none
      → (c' : LruCache K V) × (prune dec (pushed c k x) ≡ some c') × Inserted c c' k x
  unfolding prune
  prune-pushed c k x v l =
      elim (prune_if_needed-Cut dec (pushed c k x) (push-Inv dec c k _ l v.inv)) [
        | inl (e, low) ↦ (
          pushed c k x,
          rw (e, prune) refl,
          record {
            front = (c.lru_list, refl);
            own = ap (Option.map (λ y. y.value)) (lookup-cons_self dec k _ c.cache);
            others = λ q ne m. ap (Option.map (λ y. y.value)) (lookup-cons_ne dec k q _ c.cache ne);
          },
        )
        | inr (c', e, room, high, t) ↦
            let top = t.front ∙ take-cons c.capacity k c.lru_list room in
            (
              c',
              rw (e, prune) refl,
              record {
                front = (take (c.capacity - 1) c.lru_list, top);
                own = ap (Option.map (λ y. y.value)) (
                    t.values k (subst (Mem k) (sym top) mem-cons_self)
                    ∙ lookup-cons_self dec k _ c.cache);
                others = λ q ne m.
                    ap (Option.map (λ y. y.value))
                      (t.values q m ∙ lookup-cons_ne dec k q _ c.cache ne);
              },
            )
      ]

  insert_entry-Inserted :
      (c : LruCache K V) (k : K) (x : V)
      → IsValid c
      → (c' : LruCache K V) × (insert_entry dec c k x ≡ some c') × Inserted c c' k x
  unfolding insert_entry
  insert_entry-Inserted c k x v = elim (Option-cases (lookup dec k c.cache)) [
    | inl l ↦ let (c', r, t) = prune-pushed c k x v l in (c', rw (l, insert_entry) r, t)
    | inr (e, l) ↦ (
      record c {
        cache = modify dec k (λ _. record { value = x; dirty = false }) c.cache;
        lru_list = k ∷ erase dec c.lru_list k;
      },
      rw (l, insert_entry) refl,
      record {
        front = (erase dec c.lru_list k, refl);
        own = ap (Option.map (λ y. y.value)) (lookup-modify_self dec k _ c.cache e l);
        others = λ q ne m. ap (Option.map (λ y. y.value)) (lookup-modify_ne dec k q _ c.cache ne);
      },
    )
  ]

  -- An insertion into a valid cache ends. Then the key is the first of the list and holds the value,
  -- and every other key that is still in the list holds the value that it held before.
  pub insert-stored :
      (c : LruCache K V) (k : K) (x : V)
      → IsValid c
      → (c' : LruCache K V) × (LruCache.insert dec c k x ≡ some c')
        × ((l : List K) × (c'.lru_list ≡ k ∷ l))
        × (stored c' k ≡ some x)
        × ((q : K) → q ≢ k → Mem q c'.lru_list → stored c' q ≡ stored c q)
  unfolding LruCache.insert
  insert-stored c k x v =
      let (c', r, t) =
        insert_entry-Inserted (batch_update_dirty_nodes dec c) k x (batch-IsValid dec c v) in
      (c', r, t.front, t.own, λ q ne m. t.others q ne m ∙ batch-stored c q)
