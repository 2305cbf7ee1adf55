-- ===== src/LruCache/Invariant.antt =====
-- The invariant of the cache of hikyuu/utilities/LruCache.h: the map and the list hold the same keys,
-- and no key stands twice in the list.
use hku_utils.Base.{
  ◌+◌, ◌≤◌, List, [], ◌∷◌, ◌++◌, some, ◌≡◌, sym, subst, ◌∙◌, ◌⊎◌, length, last_split, Perm-length,
  length-map,
}
use mathlib.Core.List.{
  erase, Mem, Nodup, Perm, get_last?, drop_last, Nodup-cons, erase-cons-head, perm_append_singleton,
}
use mathlib.Core.List.Perm
use hku_utils.Base.Assoc.{keys}
use hku_utils.LruCache.{LruCache}

pub record Inv {ℓ} {K V : Type ℓ} (c : LruCache K V) : Type ℓ where
  pub same : Perm (keys c.cache) c.lru_list
  pub distinct : Nodup c.lru_list

-- The limit, which a capacity of 0 lifts. It holds also where `capacity + overflow` wraps.
abbrev pub IsBounded {ℓ} : {K V : Type ℓ} → LruCache K V → Type 0
IsBounded c = (c.capacity ≡ 0) ⊎ (length c.cache ≤ c.capacity + c.overflow)

pub Inv-length {ℓ} : {K V : Type ℓ} {c : LruCache K V} → Inv c → length c.cache ≡ length c.lru_list
Inv-length {c} v = sym (length-map (λ e. e.0) c.cache) ∙ Perm-length v.same

-- What is left after the back of the list has gone.
pub erase-back {ℓ} :
    {K : Type ℓ} (dec : Discrete K) (l : List K) (b : K)
    → get_last? l ≡ some b
    → Nodup l
    → Perm (erase dec l b) (drop_last l) × Nodup (drop_last l) × (¬ Mem b (drop_last l))
erase-back dec l b h d =
    let e : l ≡ drop_last l ++ b ∷ [] = last_split l b h in
    let p : Perm l (b ∷ drop_last l) =
      subst (λ k. Perm k (b ∷ drop_last l)) (sym e) (perm_append_singleton b (drop_last l)) in
    let q : Perm (erase dec l b) (erase dec (b ∷ drop_last l) b) = Perm.erase dec b p in
    let n : (¬ Mem b (drop_last l)) × Nodup (drop_last l) = Nodup-cons.0 (Perm.nodup p d) in
    (subst (λ k. Perm (erase dec l b) k) (erase-cons-head dec b (drop_last l)) q, n.1, n.0)
