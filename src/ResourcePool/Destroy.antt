-- ===== src/ResourcePool/Destroy.antt =====
-- The destructor of class ResourcePool, hikyuu/utilities/ResourcePool.h, and the pointers that outlive
-- the pool.
use hku_utils.Base.{
  ℕ, zero, suc, List, [], ◌∷◌, ◌++◌, Bool, true, false, ◌≡◌, refl, ap, subst, ◌∙◌, arith, length,
  map, length-map, ◌==◌, ℕ_discrete,
}
use mathlib.Core.List.{
  Mem, Nodup, Perm, mem-cons_self, mem-cons_of_mem, eq-or-mem_of_mem-cons, not-mem-nil,
  mem_of_mem-erase,
}
use mathlib.Core.List.Perm
use mathlib.Core.Logic.Or
use hku_utils.ResourcePool.{
  Pool, Handle, delete, close, drop_handle, is_member, unbind, destroy_loop, destroy,
}
use hku_utils.ResourcePool.Invariant.{Inv, lent, delete-owned, Nodup-delete, nonnull_of_mem}

Bool-set : IsSet Bool
Bool-set = hlevel

is_member_of_mem : (r : ℕ) (xs : List ℕ) → Mem r xs → is_member r xs ≡ true
unfolding is_member
is_member_of_mem r [] m = absurd (not-mem-nil m)
is_member_of_mem r (x ∷ xs) m =
    Or.elim (Bool-set (is_member r (x ∷ xs)) true) (eq-or-mem_of_mem-cons m) (λ e. ground arith)
      (λ i. ground (arith, is_member_of_mem r xs i))

abbrev AllUnbound : List Handle → Type 0
AllUnbound [] = Unit {0}
AllUnbound (h ∷ hs) = (h.bound ≡ false) × AllUnbound hs

resources-unbind :
    (cs : List ℕ) (hs : List Handle)
    → map (λ h. h.resource) (map (unbind cs) hs) ≡ map (λ h. h.resource) hs
unfolding unbind
resources-unbind cs [] = refl
resources-unbind cs (h ∷ hs) = ground (arith, resources-unbind cs hs)

unbind-AllUnbound :
    (cs : List ℕ) (hs : List Handle)
    → ((r : ℕ) → Mem r (map (λ h. h.resource) hs) → Mem r cs)
    → AllUnbound (map (unbind cs) hs)
unfolding unbind
unbind-AllUnbound cs [] f = tt
unbind-AllUnbound cs (h ∷ hs) f = (
  rw (is_member_of_mem h.resource cs (f h.resource mem-cons_self)) refl,
  unbind-AllUnbound cs hs (λ r m. f r (mem-cons_of_mem h.resource m)),
)

-- Resources that are left to their pointers alone.
record Orphaned (p : Pool) : Type 0 where
  owned : Perm p.heap (lent p)
  distinct : Nodup p.heap
  nonnull : ¬ Mem 0 p.heap
  unbound : AllUnbound p.handles
  none_idle : p.resource_list ≡ []

destroy_step :
    (r : ℕ) (rs : List ℕ) (p : Pool)
    → (r == 0) ≡ false
    → destroy_loop rs (delete r (record p { resource_list = rs })) ≡ destroy_loop (r ∷ rs) p
unfolding destroy_loop
destroy_step r rs p h = rw h refl

destroy_loop-Orphaned :
    (rs : List ℕ) (p : Pool)
    → Perm p.heap (rs ++ lent p)
    → Nodup p.heap
    → ¬ Mem 0 p.heap
    → AllUnbound p.handles
    → Orphaned (destroy_loop rs p) × ((destroy_loop rs p).handles ≡ p.handles)
unfolding destroy_loop
destroy_loop-Orphaned [] p o d n u =
    (record { owned = o; distinct = d; nonnull = n; unbound = u; none_idle = refl }, refl)
destroy_loop-Orphaned (r ∷ rs) p o d n u =
    let e : (r == 0) ≡ false = nonnull_of_mem r p.heap n ((Perm.mem_iff o).1 mem-cons_self) in
    let ih =
      destroy_loop-Orphaned rs (delete r (record p { resource_list = rs }))
        (delete-owned r p.heap _ o) (Nodup-delete r p.heap d)
        (λ m. n (mem_of_mem-erase ℕ_discrete r m)) u in
    subst (λ q. Orphaned q × (q.handles ≡ p.handles)) (destroy_step r rs p e) ih

destroy-Orphaned :
    (p : Pool) → Inv p → Orphaned (destroy p) × (length (destroy p).handles ≡ length p.handles)
unfolding destroy
destroy-Orphaned p v =
    let same = resources-unbind p.closer_set p.handles in
    let (o, hs) =
      destroy_loop-Orphaned p.resource_list
        (record p { handles = map (unbind p.closer_set) p.handles }) (rw same v.owned) v.distinct
        v.nonnull
        (unbind-AllUnbound p.closer_set p.handles (λ r m. (Perm.mem_iff v.closers).1 m)) in
    (o, ap length hs ∙ length-map (unbind p.closer_set) p.handles)

-- The pointers that are left go out of use, one after the other.
pub drop_all : ℕ → Pool → Pool
drop_all zero p = p
drop_all (suc n) p = drop_all n (drop_handle 0 p)

drop_first-Orphaned :
    (p : Pool) (h : Handle) (hs : List Handle)
    → p.handles ≡ h ∷ hs
    → Orphaned p
    → Orphaned (drop_handle 0 p) × ((drop_handle 0 p).handles ≡ hs)
unfolding drop_handle close
drop_first-Orphaned p h hs e o =
    let owned : Perm p.heap (h.resource ∷ map (λ x. x.resource) hs) = rw e at o.owned in
    let free : AllUnbound (h ∷ hs) = rw e at o.unbound in
    let z : (h.resource == 0) ≡ false =
      nonnull_of_mem h.resource p.heap o.nonnull ((Perm.mem_iff owned).1 mem-cons_self) in
    rw (e, z, free.0)
      (
        record {
          owned = delete-owned h.resource p.heap _ owned;
          distinct = Nodup-delete h.resource p.heap o.distinct;
          nonnull = λ m. o.nonnull (mem_of_mem-erase ℕ_discrete h.resource m);
          unbound = free.1;
          none_idle = o.none_idle;
        },
        refl,
      )

drop_all-Orphaned :
    (hs : List Handle) (p : Pool) → p.handles ≡ hs → Orphaned p → (drop_all (length hs) p).heap ≡ []
unfolding drop_all
drop_all-Orphaned [] p e o = Perm.eq-nil (rw e at o.owned)
drop_all-Orphaned (h ∷ hs) p e o =
    let (o', e') = drop_first-Orphaned p h hs e o in drop_all-Orphaned hs (drop_handle 0 p) e' o'

-- The destructor deletes the idle resources, and each pointer that outlives the pool deletes its own
-- resource when it is dropped, without a call of the pool: once all are dropped no resource object is
-- left.
pub destroy_no_leak : (p : Pool) → Inv p → (drop_all (length p.handles) (destroy p)).heap ≡ []
destroy_no_leak p v =
    let (o, n) = destroy-Orphaned p v in
    subst (λ k. (drop_all k (destroy p)).heap ≡ []) n
      (drop_all-Orphaned (destroy p).handles (destroy p) refl o)
