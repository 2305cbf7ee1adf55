-- ===== src/ResourcePool/Idle.antt =====
-- The release of the idle resources of class ResourcePool, hikyuu/utilities/ResourcePool.h.
use hku_utils.Base.{ℕ, List, [], ◌∷◌, false, ◌≡◌, refl, ap, subst, arith, length, ◌==◌, ℕ_discrete}
use mathlib.Core.List.{Mem, mem_of_mem-erase, mem-cons_self}
use mathlib.Core.List.Perm
use hku_utils.ResourcePool.{Pool, dec, delete, release_idle_resource, release_loop}
use hku_utils.ResourcePool.Invariant.{Inv, delete-owned, Nodup-delete, nonnull_of_mem}

released : ℕ → List ℕ → Pool → Pool
released r rs p = delete r (record p { resource_list = rs; count = dec p.count })

released-Inv :
    (r : ℕ) (rs : List ℕ) (p : Pool) → p.resource_list ≡ r ∷ rs → Inv p → Inv (released r rs p)
unfolding released
released-Inv r rs p e v = record {
  owned = delete-owned r p.heap _ (rw e at v.owned);
  distinct = Nodup-delete r p.heap v.distinct;
  nonnull = λ m. v.nonnull (mem_of_mem-erase ℕ_discrete r m);
  closers = v.closers;
  bound = v.bound;
  counted = omega (arith, v.counted, v.small, ap length e);
  small = omega arith;
}

release_step :
    (r : ℕ) (rs : List ℕ) (p : Pool)
    → (r == 0) ≡ false
    → release_loop rs (released r rs p) ≡ release_loop (r ∷ rs) p
unfolding release_loop released
release_step r rs p h = rw h refl

release_loop-Inv :
    (rs : List ℕ) (p : Pool)
    → p.resource_list ≡ rs
    → Inv p
    → Inv (release_loop rs p)
      × ((release_loop rs p).resource_list ≡ [])
      × ((release_loop rs p).handles ≡ p.handles)
unfolding release_loop released
release_loop-Inv [] p e v = (
  record {
    owned = rw e at v.owned;
    distinct = v.distinct;
    nonnull = v.nonnull;
    closers = v.closers;
    bound = v.bound;
    counted = omega (arith, v.counted, ap length e);
    small = v.small;
  },
  refl,
  refl,
)
release_loop-Inv (r ∷ rs) p e v =
    let m : Mem r p.heap = (Perm.mem_iff v.owned).1 (rw e mem-cons_self) in
    let step = release_step r rs p (nonnull_of_mem r p.heap v.nonnull m) in
    subst (λ q. Inv q × (q.resource_list ≡ []) × (q.handles ≡ p.handles)) step
      (release_loop-Inv rs (released r rs p) refl (released-Inv r rs p e v))

-- To release the idle resources keeps the invariant, leaves none idle, and does not touch the pointers
-- in use: `count` is their number afterwards.
pub release_idle_resource-Inv :
    (p : Pool)
    → Inv p
    → Inv (release_idle_resource p)
      × ((release_idle_resource p).resource_list ≡ [])
      × ((release_idle_resource p).count ≡ length p.handles)
unfolding release_idle_resource
release_idle_resource-Inv p v =
    let (w, idle, same) = release_loop-Inv p.resource_list p refl v in
    (w, idle, omega (arith, w.counted, ap length idle, ap length same))
