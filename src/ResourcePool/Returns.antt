-- ===== src/ResourcePool/Returns.antt =====
-- A pointer of class ResourcePool, hikyuu/utilities/ResourcePool.h, that goes out of use: its closer
-- gives the resource back.
use hku_utils.Base.{
  ℕ, zero, suc, List, [], ◌∷◌, ◌++◌, some, true, false, ◌≡◌, refl, sym, ap, subst, inl, inr, arith,
  length, length-append, Bool-cases, Option-cases, get_elem?, erase_idx, erase_idx-perm,
  Perm-length, ltb, ◌==◌, ℕ_discrete, append_assoc,
}
use mathlib.Core.List.{Perm, perm_middle, erase, mem_of_mem-erase, mem-cons_self}
use mathlib.Core.List.Perm
use hku_utils.ResourcePool.{Pool, Handle, dec, return_resource, close, drop_handle}
use hku_utils.ResourcePool.Invariant.{
  lent, AllBound, Holds, Inv, delete-owned, Nodup-delete, nonnull_of_mem,
}

module _ (r : ℕ) (p : Pool) (v : Holds (r ∷ []) p) where
  pub returned_nonnull : (r == 0) ≡ false
  returned_nonnull = nonnull_of_mem r p.heap v.nonnull ((Perm.mem_iff v.owned).1 mem-cons_self)

  -- The closer of `r` leaves the set.
  closers-returned : Perm (erase ℕ_discrete p.closer_set r) (lent p)
  closers-returned = delete-owned r p.closer_set (lent p) v.closers

  pub keep-Inv : Inv (record p {
    resource_list = p.resource_list ++ r ∷ [];
    closer_set = erase ℕ_discrete p.closer_set r;
  })
  keep-Inv = record {
    owned =
        rw (append_assoc p.resource_list (r ∷ []) (lent p))
          (Perm.trans v.owned (Perm.symm (perm_middle p.resource_list (lent p))));
    distinct = v.distinct;
    nonnull = v.nonnull;
    closers = closers-returned;
    bound = v.bound;
    counted = omega (arith, v.counted, length-append p.resource_list (r ∷ []));
    small = v.small;
  }

  pub discard-Inv : Inv (record p {
    heap = erase ℕ_discrete p.heap r;
    count = dec p.count;
    closer_set = erase ℕ_discrete p.closer_set r;
  })
  discard-Inv = record {
    owned = delete-owned r p.heap _ v.owned;
    distinct = Nodup-delete r p.heap v.distinct;
    nonnull = λ m. v.nonnull (mem_of_mem-erase ℕ_discrete r m);
    closers = closers-returned;
    bound = v.bound;
    counted = omega (arith, v.counted, v.small);
    small = omega arith;
  }

  -- A resource that comes back goes to the idle list or is deleted.
  pub return_resource-Inv : Inv (return_resource r r p)
  unfolding return_resource
  return_resource-Inv = elim (Bool-cases (ltb (length p.resource_list) p.max_idle_size)) [
    | inl e ↦ rw (returned_nonnull, e, return_resource) keep-Inv
    | inr e ↦ rw (returned_nonnull, e, return_resource) discard-Inv
  ]

  close-bound : close (record { resource = r; bound = true }) p ≡ return_resource r r p
  unfolding close
  close-bound = rw (returned_nonnull, close) refl

pub AllBound-at :
    (hs : List Handle) (i : ℕ) (h : Handle)
    → get_elem? hs i ≡ some h
    → AllBound hs
    → (h.bound ≡ true) × AllBound (erase_idx hs i)
AllBound-at [] i h e b = cc
AllBound-at (x ∷ hs) zero h e b = ground arith
AllBound-at (x ∷ hs) (suc i) h e b =
    let (own, rest) = AllBound-at hs i h e b.1 in (own, (b.0, rest))

-- A pointer in use that is dropped.
module _ (i : ℕ) (p : Pool) (h : Handle) (e : get_elem? p.handles i ≡ some h) (v : Inv p) where
  abbrev pub dropped : Pool
  dropped = record p { handles = erase_idx p.handles i }

  lent-dropped : Perm (lent p) (h.resource ∷ lent dropped)
  lent-dropped = Perm.map (λ x. x.resource) (erase_idx-perm p.handles i h e)

  pub dropped-Holds : Holds (h.resource ∷ []) dropped
  dropped-Holds = record {
    owned = Perm.trans v.owned (
        Perm.trans (Perm.append_left p.resource_list lent-dropped)
          (perm_middle p.resource_list (lent dropped)));
    distinct = v.distinct;
    nonnull = v.nonnull;
    closers = Perm.trans v.closers lent-dropped;
    bound = (AllBound-at p.handles i h e v.bound).1;
    counted = omega (arith, v.counted, Perm-length (erase_idx-perm p.handles i h e));
    small = v.small;
  }

  close-dropped : Inv (close h dropped)
  close-dropped =
      let own : h ≡ record { resource = h.resource; bound = true } =
        ap (λ b. record { resource = h.resource; bound = b })
          (AllBound-at p.handles i h e v.bound).0 in
      subst (λ x. Inv (close x dropped)) (sym own)
        (subst Inv (sym (close-bound h.resource dropped dropped-Holds))
          (return_resource-Inv h.resource dropped dropped-Holds))

pub drop_handle-Inv : (i : ℕ) (p : Pool) → Inv p → Inv (drop_handle i p)
unfolding drop_handle
drop_handle-Inv i p v = elim (Option-cases (get_elem? p.handles i)) [
  | inl e ↦ rw (e, drop_handle) v
  | inr (h, e) ↦ rw (e, drop_handle) (close-dropped i p h e v)
]
