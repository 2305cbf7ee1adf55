-- ===== src/LruCache/Prune.antt =====
-- What `_prune_if_needed` of hikyuu/utilities/LruCache.h does to a cache that meets the invariant.
use hku_utils.Base.{
  ℕ, zero, suc, ◌+◌, ◌-◌, ◌%◌, ◌≤◌, ◌<◌, [], ◌∷◌, some, ◌≡◌, refl, sym, ap, subst, ◌∙◌, ◌⊎◌, inl,
  inr, arith, length, take, length-append, take-all, length-take-le, take-append_left,
  mem_of_mem-take, last_split, last_exists, Bool-cases, ltb, ltb→lt, leb, ◌==◌, ◌||◌, u64_mod,
}
use mathlib.Core.List.{lookup, Mem, get_last?, drop_last}
use mathlib.Core.List.Perm
use hku_utils.Base.Assoc.{keys-erase_key, lookup-erase_key_ne}
use hku_utils.LruCache.{LruCache, drop_back, prune_loop, prune_if_needed, prune}
use hku_utils.LruCache.Invariant.{Inv, IsBounded, Inv-length, erase-back}

-- `c'` is `c` with all but the first `capacity` keys of its list gone.
pub record Cut {ℓ} {K V : Type ℓ} (dec : Discrete K) (c c' : LruCache K V) : Type ℓ where
  pub inv : Inv c'
  pub capacity : c'.capacity ≡ c.capacity
  pub overflow : c'.overflow ≡ c.overflow
  pub front : c'.lru_list ≡ take c.capacity c.lru_list
  pub values : (q : K) → Mem q c'.lru_list → lookup dec q c'.cache ≡ lookup dec q c.cache

module _ {ℓ} {K V : Type ℓ} (dec : Discrete K) where
  module _ (c : LruCache K V) (b : K) (h : get_last? c.lru_list ≡ some b) (v : Inv c) where
    drop_back-Inv : Inv (drop_back dec c b)
    unfolding drop_back
    drop_back-Inv =
        let (p, d, n) = erase-back dec c.lru_list b h v.distinct in
        record {
          same = rw (keys-erase_key dec b c.cache) (Perm.trans (Perm.erase dec b v.same) p);
          distinct = d;
        }

    length-drop_back : length (drop_back dec c b).cache + 1 ≡ length c.cache
    unfolding drop_back
    length-drop_back = omega (
      arith,
      Inv-length v,
      Inv-length drop_back-Inv,
      ap length (last_split c.lru_list b h),
      length-append (drop_last c.lru_list) (b ∷ []),
    )

    take-drop_back :
        (n : ℕ) → n < length c.cache → take n (drop_back dec c b).lru_list ≡ take n c.lru_list
    unfolding drop_back
    take-drop_back n small =
        let e = last_split c.lru_list b h in
        sym (
          take-append_left n (drop_last c.lru_list) (b ∷ []) (
            omega
              (arith, Inv-length v, ap length e, length-append (drop_last c.lru_list) (b ∷ []))))
        ∙ ap (take n) (sym e)

    lookup-drop_back :
        (q : K)
        → Mem q (drop_back dec c b).lru_list
        → lookup dec q (drop_back dec c b).cache ≡ lookup dec q c.cache
    unfolding drop_back
    lookup-drop_back q m = lookup-erase_key_ne dec b q c.cache λ e.
        (erase-back dec c.lru_list b h v.distinct).2 (subst (λ k. Mem k (drop_last c.lru_list)) e m)

  Cut-step :
      (c : LruCache K V) (b : K) (c' : LruCache K V)
      → get_last? c.lru_list ≡ some b
      → Inv c
      → c.capacity < length c.cache
      → Cut dec (drop_back dec c b) c'
      → Cut dec c c'
  unfolding drop_back
  Cut-step c b c' h v big t = record {
    inv = t.inv;
    capacity = t.capacity;
    overflow = t.overflow;
    front = t.front ∙ take-drop_back c b h v c.capacity big;
    values = λ q m.
        t.values q m
        ∙ lookup-drop_back c b h v q (mem_of_mem-take c.capacity _ (subst (Mem q) t.front m));
  }

  loop_step :
      (fuel : ℕ) (c : LruCache K V) (b : K) (count : ℕ)
      → c.capacity < length c.cache
      → get_last? c.lru_list ≡ some b
      → prune_loop dec (suc fuel) c count ≡ prune_loop dec fuel (drop_back dec c b) (count + 1)
  unfolding prune_loop
  loop_step fuel c b count big e = ground arith

  -- With fuel above the number of entries the loop ends; it counts what it removes.
  pub prune_loop-Cut :
      (fuel : ℕ) (c : LruCache K V) (count : ℕ)
      → length c.cache < fuel
      → Inv c
      → (c' : LruCache K V) × (prune_loop dec fuel c count
          ≡ some (c', count + (length c.cache - c.capacity)))
        × Cut dec c c'
  unfolding prune_loop drop_back
  prune_loop-Cut zero c count h v = absurd (omega arith)
  prune_loop-Cut (suc fuel) c count h v = elim (Bool-cases (ltb c.capacity (length c.cache))) [
    | inl big ↦
        let (b, e) = last_exists c.lru_list (ground (arith, Inv-length v)) in
        let (c', r, t) =
          prune_loop-Cut fuel (drop_back dec c b) (count + 1)
            (omega (arith, length-drop_back c b e v)) (drop_back-Inv c b e v) in
        (
          c',
          loop_step fuel c b count (ltb→lt _ _ big) e
              ∙ (r ∙ ap (λ n. some (c', n)) (ground (arith, length-drop_back c b e v))),
          Cut-step c b c' e v (ground arith) t,
        )
    | inr small ↦ (
      c,
      rw (small, prune_loop) (ap (λ n. some (c, n)) (ground arith)),
      record {
        inv = v;
        capacity = refl;
        overflow = refl;
        front = sym (take-all c.lru_list c.capacity (ground (arith, Inv-length v)));
        values = λ q m. refl;
      },
    )
  ]

  -- A cache without a limit, or with no more entries than `capacity + overflow` (as a `size_t`), is left
  -- alone. Any other is cut to its first `capacity` keys, whose values stay, and the number of the
  -- removed entries is returned.
  pub prune_if_needed-Cut :
      (c : LruCache K V)
      → Inv c
      → (prune_if_needed dec c ≡ some (c, 0))
          × ((c.capacity ≡ 0) ⊎ (length c.cache ≤ (c.capacity + c.overflow) % u64_mod))
        ⊎ ((c' : LruCache K V) × (prune_if_needed dec c ≡ some (c', length c.cache - c.capacity))
            × (0 < c.capacity)
            × ((c.capacity + c.overflow) % u64_mod < length c.cache)
            × Cut dec c c')
  unfolding prune_if_needed
  prune_if_needed-Cut c v =
      let max_allowed = (c.capacity + c.overflow) % u64_mod in
      elim (Bool-cases (c.capacity == 0 || leb (length c.cache) max_allowed)) [
        | inl low ↦ inl (rw low refl, ground arith)
        | inr high ↦
            let (c', r, t) = prune_loop-Cut (suc (length c.cache)) c 0 (omega arith) v in
            inr (
              c',
              rw high (r ∙ ap (λ n. some (c', n)) (omega arith)),
              ground arith,
              ground arith,
              t,
            )
      ]

  -- After pruning, which always ends, the invariant and the limit hold, and no limit has changed.
  pub prune-Inv :
      (c : LruCache K V)
      → Inv c
      → (c' : LruCache K V) × (prune dec c ≡ some c')
        × Inv c'
        × IsBounded c'
        × (c'.capacity ≡ c.capacity)
        × (c'.overflow ≡ c.overflow)
  unfolding prune
  prune-Inv c v = elim (prune_if_needed-Cut c v) [
    | inl (e, low) ↦ (c, rw (e, prune) refl, v, ground arith, refl, refl)
    | inr (c', e, some_room, high, t) ↦ (
      c',
      rw (e, prune) refl,
      t.inv,
      inr (
          omega (
            arith,
            Inv-length t.inv,
            ap length t.front,
            length-take-le c.capacity c.lru_list,
            t.capacity,
          )),
      t.capacity,
      t.overflow,
    )
  ]
