-- ===== src/ResourcePool/Invariant.antt =====
-- The invariant of class ResourcePool, hikyuu/utilities/ResourcePool.h: every resource object is idle
-- or in use, and not twice; `count` is their number; the closers are those of the pointers in use.
use hku_utils.Base.{
  ℕ, ◌+◌, ◌<◌, List, [], ◌∷◌, ◌++◌, some, true, false, ◌≡◌, ◌≢◌, refl, sym, ap, subst, arith,
  length, map, length-append, length-map, Perm-length, ◌==◌, u64_mod, ℕ_discrete,
}
use mathlib.Core.List.{
  Mem, Nodup, Perm, perm_middle, erase, erase-cons-head, erase-sublist, Nodup-cons,
  eq-or-mem_of_mem-cons,
}
use mathlib.Core.HLevel.{⊥_prop}
use mathlib.Core.Logic.Or
use mathlib.Core.List.Nodup
use mathlib.Core.List.Perm
use hku_utils.ResourcePool.{Pool, Handle, create, take_front}

-- The resources of the pointers in use.
abbrev pub lent : Pool → List ℕ
lent p = map (λ h. h.resource) p.handles

abbrev pub AllBound : List Handle → Type 0
AllBound [] = Unit {0}
AllBound (h ∷ hs) = (h.bound ≡ true) × AllBound hs

-- `out` are resources that the pool has let go of in the middle of an operation.
pub record Holds (out : List ℕ) (p : Pool) : Type 0 where
  pub owned : Perm p.heap (out ++ (p.resource_list ++ lent p))
  pub distinct : Nodup p.heap
  pub nonnull : ¬ Mem 0 p.heap
  pub closers : Perm p.closer_set (out ++ lent p)
  pub bound : AllBound p.handles
  pub counted : p.count ≡ length out + (length p.resource_list + length p.handles)
  pub small : p.count < u64_mod

abbrev pub Inv : Pool → Type 0
Inv = Holds []

-- What `new` promises of the address that it returns: not null, not in use, and there was room for it.
pub record Fresh (r : ℕ) (p : Pool) : Type 0 where
  pub nonnull : r ≢ 0
  pub new : ¬ Mem r p.heap
  pub room : length p.heap + 1 < u64_mod

pub length-lent : (p : Pool) → length (lent p) ≡ length p.handles
length-lent p = length-map (λ h. h.resource) p.handles

pub heap-count : {p : Pool} → Inv p → length p.heap ≡ p.count
heap-count {p} v =
    omega
      (arith, Perm-length v.owned, length-append p.resource_list (lent p), length-lent p, v.counted)

pub take_front-Inv :
    (r : ℕ) (rest : List ℕ) (p : Pool)
    → p.resource_list ≡ r ∷ rest
    → Inv p
    → Inv (take_front r rest p).0
unfolding take_front
take_front-Inv r rest p e v = record {
  owned = Perm.trans (rw e at v.owned) (Perm.symm (perm_middle rest (lent p)));
  distinct = v.distinct;
  nonnull = v.nonnull;
  closers = Perm.cons r v.closers;
  bound = (refl, v.bound);
  counted = omega (arith, v.counted, ap length e);
  small = v.small;
}

pub create-Inv :
    (r : ℕ) (p : Pool) → Fresh r p → Inv p → p.resource_list ≡ [] → Inv (create (some r) p).0
unfolding create
create-Inv r p f v e = record {
  owned = Perm.trans (Perm.cons r v.owned) (Perm.symm (perm_middle p.resource_list (lent p)));
  distinct = Nodup-cons.1 (f.new, v.distinct);
  nonnull = λ m. Or.elim ⊥_prop (eq-or-mem_of_mem-cons m) (λ z. f.nonnull (sym z)) v.nonnull;
  closers = Perm.cons r v.closers;
  bound = (refl, v.bound);
  counted = omega (arith, heap-count v, f.room, v.counted);
  small = omega arith;
}

-- `delete` of a resource that the pool has let go of.
pub delete-owned :
    (r : ℕ) (heap rest : List ℕ) → Perm heap (r ∷ rest) → Perm (erase ℕ_discrete heap r) rest
delete-owned r heap rest p =
    subst (λ l. Perm (erase ℕ_discrete heap r) l) (erase-cons-head ℕ_discrete r rest)
      (Perm.erase ℕ_discrete r p)

pub Nodup-delete : (r : ℕ) (heap : List ℕ) → Nodup heap → Nodup (erase ℕ_discrete heap r)
Nodup-delete r heap d = Nodup.sublist (erase-sublist ℕ_discrete r) d

pub nonnull_of_mem : (r : ℕ) (heap : List ℕ) → ¬ Mem 0 heap → Mem r heap → (r == 0) ≡ false
nonnull_of_mem r heap h m = elim (ℕ_discrete r 0) [
  | yes z ↦ absurd (h (subst (λ k. Mem k heap) z m))
  | no n ↦ ground arith
]
