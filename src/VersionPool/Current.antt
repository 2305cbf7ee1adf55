-- ===== src/VersionPool/Current.antt =====
-- The parameters of the resources that class ResourceVersionPool hands out,
-- hikyuu/utilities/ResourcePool.h.
use hku_utils.Base.{
  ℕ, ◌+◌, ◌≤◌, List, [], ◌∷◌, ◌++◌, some, true, false, get_elem?, erase_idx, length, ltb, ◌==◌,
  ==_iff, ℕ_discrete, ◌≡◌, refl, sym, ap, subst, inl, inr, arith, Bool-cases, Option-cases,
}
use mathlib.Core.List.{
  erase, Mem, Mem-prop, mem-append, mem_of_mem-erase, not-mem-nil, mem-cons_self, mem-cons_of_mem,
  eq-or-mem_of_mem-cons,
}
use mathlib.Core.List.Perm
use mathlib.Core.Logic.Or
use hku_utils.ResourcePool.{Pool, Handle, dec, delete, is_full, release_loop}
use hku_utils.ResourcePool
use hku_utils.ResourcePool.Invariant.{Inv, Fresh, Holds, take_front-Inv, create-Inv}
use hku_utils.ResourcePool.Returns.{
  keep-Inv, discard-Inv, returned_nonnull, dropped-Holds, AllBound-at,
}
use hku_utils.ResourcePool.Idle.{release_idle_resource-Inv}
use hku_utils.VersionPool.{
  VersionPool, create, take_front, get, release_idle_resource, return_resource, close,
}
use hku_utils.VersionPool

-- The pool is sound, no resource is newer than the pool, one of the pool's version was made with the
-- pool's parameter, and so was every idle one.
pub record Current {ℓ} {P : Type ℓ} (v : VersionPool P) : Type ℓ where
  pub inv : Inv v.pool
  pub older : (r : ℕ) → Mem r v.pool.heap → v.version_of r ≤ v.version
  pub same : (r : ℕ) → Mem r v.pool.heap → v.version_of r ≡ v.version → v.param_of r ≡ v.param
  pub idle : (r : ℕ) → Mem r v.pool.resource_list → v.param_of r ≡ v.param

release_loop-subset : (l : List ℕ) (p : Pool) (q : ℕ) → Mem q (release_loop l p).heap → Mem q p.heap
unfolding release_loop
release_loop-subset [] p q m = m
release_loop-subset (r ∷ rest) p q m = elim (Bool-cases (r == 0)) [
  | inl e ↦ release_loop-subset rest _ q (rw (e, release_loop) at m)
  | inr e ↦ mem_of_mem-erase ℕ_discrete r (
      release_loop-subset rest (delete r (record p { resource_list = rest; count = dec p.count })) q
        (rw (e, release_loop) at m))
]

release-subset :
    (p : Pool) (q : ℕ) → Mem q (ResourcePool.release_idle_resource p).heap → Mem q p.heap
unfolding ResourcePool.release_idle_resource
release-subset p q m = release_loop-subset p.resource_list p q m

mem-other : (q r : ℕ) (l : List ℕ) → (q == r) ≡ false → Mem q (r ∷ l) → Mem q l
mem-other q r l ne m =
    Or.elim Mem-prop (eq-or-mem_of_mem-cons m) (λ here. absurd (ground arith)) (λ there. there)

mem-front : (q r : ℕ) (l : List ℕ) → (q == r) ≡ false → Mem q (l ++ r ∷ []) → Mem q l
mem-front q r l ne m =
    Or.elim Mem-prop ((mem-append {a = q} {s = l} {t = r ∷ []}).0 m) (λ left. left)
      (λ right. absurd (not-mem-nil (mem-other q r [] ne right)))

module _ {ℓ} {P : Type ℓ} where
  -- A release after the version has grown: no resource that is left has the new version.
  pub renewed-Current :
      (v : VersionPool P) (param : P)
      → Current v
      → Current (release_idle_resource (record v { param = param; version = v.version + 1 }))
  unfolding release_idle_resource
  renewed-Current v param c =
      let (inv, empty, counted) = release_idle_resource-Inv v.pool c.inv in
      record {
        inv = inv;
        older = λ r m. let h = c.older r (release-subset v.pool r m) in omega arith;
        same = λ r m e. let h = c.older r (release-subset v.pool r m) in absurd (omega arith);
        idle = λ r m. absurd (not-mem-nil (subst (λ l. Mem r l) empty m));
      }

  pub released-Current : (v : VersionPool P) → Current v → Current (release_idle_resource v)
  unfolding release_idle_resource
  released-Current v c =
      let (inv, empty, counted) = release_idle_resource-Inv v.pool c.inv in
      record {
        inv = inv;
        older = λ r m. c.older r (release-subset v.pool r m);
        same = λ r m e. c.same r (release-subset v.pool r m) e;
        idle = λ r m. absurd (not-mem-nil (subst (λ l. Mem r l) empty m));
      }

  pub create-Current :
      (r : ℕ) (v : VersionPool P)
      → v.pool.resource_list ≡ []
      → Fresh r v.pool
      → Current v
      → Current (create (some r) v).0
  unfolding create ResourcePool.create ResourcePool.hand_out
  create-Current r v e f c = record {
    inv = create-Inv r v.pool f c.inv e;
    older = λ q m. elim (Bool-cases (q == r)) [
      | inl t ↦ rw t (omega arith)
      | inr t ↦ rw t (c.older q (mem-other q r v.pool.heap t m))
    ];
    same = λ q m h. elim (Bool-cases (q == r)) [
      | inl t ↦ rw t refl
      | inr t ↦ rw t (c.same q (mem-other q r v.pool.heap t m) (rw t at h))
    ];
    idle = λ q m. absurd (not-mem-nil (subst (λ l. Mem q l) e m));
  }

  pub take_front-Current :
      (r : ℕ) (rest : List ℕ) (v : VersionPool P)
      → v.pool.resource_list ≡ r ∷ rest
      → Current v
      → Current (take_front r rest v).0
  unfolding take_front ResourcePool.take_front ResourcePool.hand_out
  take_front-Current r rest v e c = record {
    inv = take_front-Inv r rest v.pool e c.inv;
    older = c.older;
    same = c.same;
    idle = λ q m. c.idle q (rw e (mem-cons_of_mem r m));
  }

  -- A resource that a pointer gave up comes back.
  module _ (r : ℕ) (v : VersionPool P) (h : Holds (r ∷ []) v.pool)
      (older : (q : ℕ) → Mem q v.pool.heap → v.version_of q ≤ v.version)
      (same : (q : ℕ) → Mem q v.pool.heap → v.version_of q ≡ v.version → v.param_of q ≡ v.param)
      (idle : (q : ℕ) → Mem q v.pool.resource_list → v.param_of q ≡ v.param) where
    there : Mem r v.pool.heap
    there = (Perm.mem_iff h.owned).1 mem-cons_self

    kept-Current :
        v.version_of r ≡ v.version
        → Current (record v {
          pool = record v.pool {
            resource_list = v.pool.resource_list ++ r ∷ [];
            closer_set = erase ℕ_discrete v.pool.closer_set r;
          };
        })
    kept-Current e = record {
      inv = keep-Inv r v.pool h;
      older = older;
      same = same;
      idle = λ q m. elim (Bool-cases (q == r)) [
        | inl t ↦
            let i : r ≡ q = sym ((==_iff q r).0 t) in
            subst (λ x. v.param_of x ≡ v.param) i (same r there e)
        | inr t ↦ idle q (mem-front q r v.pool.resource_list t m)
      ];
    }

    discarded-Current : Current (record v {
      pool = record v.pool {
        heap = erase ℕ_discrete v.pool.heap r;
        count = dec v.pool.count;
        closer_set = erase ℕ_discrete v.pool.closer_set r;
      };
    })
    discarded-Current = record {
      inv = discard-Inv r v.pool h;
      older = λ q m. older q (mem_of_mem-erase ℕ_discrete r m);
      same = λ q m e. same q (mem_of_mem-erase ℕ_discrete r m) e;
      idle = idle;
    }

    pub return_resource-Current : Current (return_resource r r v)
    unfolding return_resource
    return_resource-Current = elim (Bool-cases (v.version_of r == v.version)) [
      | inr old ↦ rw (returned_nonnull r v.pool h, old, return_resource) discarded-Current
      | inl new ↦ elim (Bool-cases (ltb (length v.pool.resource_list) v.pool.max_idle_size)) [
        | inl room ↦
            rw (returned_nonnull r v.pool h, new, room, return_resource)
              (kept-Current ((==_iff _ _).0 new))
        | inr full ↦ rw (returned_nonnull r v.pool h, new, full, return_resource) discarded-Current
      ]
    ]

    close-Current : Current (close (record { resource = r; bound = true }) v)
    unfolding close
    close-Current = rw (returned_nonnull r v.pool h, close) return_resource-Current

  pub drop_handle-Current :
      (i : ℕ) (v : VersionPool P) → Current v → Current (VersionPool.drop_handle i v)
  unfolding VersionPool.drop_handle
  drop_handle-Current i v c = elim (Option-cases (get_elem? v.pool.handles i)) [
    | inl e ↦ rw (e, VersionPool.drop_handle) c
    | inr (h, e) ↦
        let own : h ≡ record { resource = h.resource; bound = true } =
          ap (λ b. record { resource = h.resource; bound = b })
            (AllBound-at v.pool.handles i h e c.inv.bound).0 in
        let v' = record v { pool = record v.pool { handles = erase_idx v.pool.handles i } } in
        rw (e, VersionPool.drop_handle)
          (subst (λ x. Current (close x v')) (sym own)
            (close-Current h.resource v' (dropped-Holds i v.pool h e c.inv) c.older c.same c.idle))
  ]
