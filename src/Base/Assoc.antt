-- ===== src/Base/Assoc.antt =====
-- Maps as association lists with a decidable equality of keys: the calls of `std::unordered_map`
-- in hikyuu/utilities/LruCache.h, and their laws.
use hku_utils.Base.{◌+◌, List, [], ◌∷◌, map, none, some, ◌≡◌, refl, ◌≢◌, ite, arith, length}
use mathlib.Core.HLevel.{⊥_prop}
use mathlib.Core.List.{
  lookup, erase, Mem, mem-cons_self, mem-cons_of_mem, eq-or-mem_of_mem-cons, not-mem-nil,
}
use mathlib.Core.Logic.Or

module _ {ℓ} {K E : Type ℓ} where
  abbrev pub keys : List (K × E) → List K
  keys = map (λ e. e.0)

module _ {ℓ} {K E : Type ℓ} (dec : Discrete K) where
  -- Writes to the entry that `find` returns.
  unfoldable pub modify : K → (E → E) → List (K × E) → List (K × E)
  modify k f [] = []
  modify k f (x ∷ m) = ite (dec x.0 k) ((x.0, f x.1) ∷ m) (x ∷ modify k f m)

  unfoldable pub erase_key : K → List (K × E) → List (K × E)
  erase_key k [] = []
  erase_key k (x ∷ m) = ite (dec x.0 k) m (x ∷ erase_key k m)

  pub keys-modify : (k : K) (f : E → E) (m : List (K × E)) → keys (modify k f m) ≡ keys m
  unfolding modify
  keys-modify k f [] = refl
  keys-modify k f (x ∷ m) = ground (arith, keys-modify k f m)

  pub keys-erase_key : (k : K) (m : List (K × E)) → keys (erase_key k m) ≡ erase dec (keys m) k
  unfolding erase_key
  keys-erase_key k [] = refl
  keys-erase_key k (x ∷ m) = ground (arith, keys-erase_key k m)

  pub mem_of_lookup : (k : K) (m : List (K × E)) (e : E) → lookup dec k m ≡ some e → Mem k (keys m)
  unfolding lookup
  mem_of_lookup k [] e h = cc
  mem_of_lookup k (x ∷ m) e h = elim (dec k x.0) [
    | yes p ↦ rw p mem-cons_self
    | no p ↦ mem-cons_of_mem x.0 (mem_of_lookup k m e (ground arith))
  ]

  pub not-mem_of_lookup : (k : K) (m : List (K × E)) → lookup dec k m ≡ none → ¬ Mem k (keys m)
  unfolding lookup
  not-mem_of_lookup k [] h at_nil = not-mem-nil at_nil
  not-mem_of_lookup k (x ∷ m) h found =
      Or.elim ⊥_prop (eq-or-mem_of_mem-cons found) (λ here. ground arith)
        (not-mem_of_lookup k m (ground arith))

  pub lookup_of_not-mem : (k : K) (m : List (K × E)) → ¬ Mem k (keys m) → lookup dec k m ≡ none
  unfolding lookup
  lookup_of_not-mem k [] h = refl
  lookup_of_not-mem k (x ∷ m) h = elim (dec k x.0) [
    | yes p ↦ absurd (h (rw p mem-cons_self))
    | no p ↦ ground (arith, lookup_of_not-mem k m (λ found. h (mem-cons_of_mem x.0 found)))
  ]

  pub lookup-modify_self :
      (k : K) (f : E → E) (m : List (K × E)) (e : E)
      → lookup dec k m ≡ some e
      → lookup dec k (modify k f m) ≡ some (f e)
  unfolding lookup modify
  lookup-modify_self k f [] e h = cc
  lookup-modify_self k f (x ∷ m) e h = ground (arith, lookup-modify_self k f m e)

  pub lookup-modify_ne :
      (k q : K) (f : E → E) (m : List (K × E))
      → q ≢ k
      → lookup dec q (modify k f m) ≡ lookup dec q m
  unfolding lookup modify
  lookup-modify_ne k q f [] h = refl
  lookup-modify_ne k q f (x ∷ m) h = ground (arith, lookup-modify_ne k q f m h)

  pub lookup-erase_key_ne :
      (k q : K) (m : List (K × E)) → q ≢ k → lookup dec q (erase_key k m) ≡ lookup dec q m
  unfolding lookup erase_key
  lookup-erase_key_ne k q [] h = refl
  lookup-erase_key_ne k q (x ∷ m) h = ground (arith, lookup-erase_key_ne k q m h)

  pub length-modify : (k : K) (f : E → E) (m : List (K × E)) → length (modify k f m) ≡ length m
  unfolding modify
  length-modify k f [] = refl
  length-modify k f (x ∷ m) = ground (arith, length-modify k f m)

  pub length-erase_key :
      (k : K) (m : List (K × E)) (e : E)
      → lookup dec k m ≡ some e
      → length (erase_key k m) + 1 ≡ length m
  unfolding lookup erase_key
  length-erase_key k [] e h = cc
  length-erase_key k (x ∷ m) e h = ground (arith, length-erase_key k m e)

  pub lookup-cons_self : (k : K) (e : E) (m : List (K × E)) → lookup dec k ((k, e) ∷ m) ≡ some e
  unfolding lookup
  lookup-cons_self k e m = ground arith

  pub lookup-cons_ne :
      (k q : K) (e : E) (m : List (K × E)) → q ≢ k → lookup dec q ((k, e) ∷ m) ≡ lookup dec q m
  unfolding lookup
  lookup-cons_ne k q e m h = ground arith
