-- ===== src/Tests/PoolRuns.antt =====
-- Runs of hikyuu/utilities/ResourcePool.h.
use hku_utils.Base.{[], some, length, arith, ◌≡◌, refl, ℕ_discrete}
use mathlib.Core.List.{not-mem-nil}
use hku_utils.ResourcePool
use hku_utils.ResourcePool.{Pool, init, get, got, null_ptr, destroy, release_idle_resource}
use hku_utils.ResourcePool.Invariant.{Inv}
use hku_utils.ResourcePool.Calls.{Reach, start, next, Reach-Inv, step}
use hku_utils.ResourcePool.Calls
use hku_utils.ResourcePool.Destroy.{drop_all, destroy_no_leak}

-- At most one resource, at most one idle.
abbrev one : Pool
one = init 1 1

-- A thread takes a resource at address 8 and gives it back; a second request finds the pool full.
abbrev lent_one : Pool
lent_one = step (Calls.get (some 8)) one

abbrev returned : Pool
returned = step (Calls.drop_handle 0) lent_one

full_answers : (get (some 9) lent_one).1 ≡ null_ptr
unfolding ResourcePool.program step
full_answers = refl

again_answers : (get (some 9) returned).1 ≡ got 8
unfolding ResourcePool.program step ℕ_discrete
again_answers = refl

lent_one-Reach : Reach 1 1 lent_one
unfolding init
lent_one-Reach =
    next (Calls.get (some 8)) start
      (record { nonnull = omega arith; new = not-mem-nil; room = omega arith })

returned-Reach : Reach 1 1 returned
returned-Reach = next (Calls.drop_handle 0) lent_one-Reach tt

Reach-Inv_example : Inv returned
Reach-Inv_example = Reach-Inv 1 1 returned-Reach

destroy_no_leak_example : (drop_all (length lent_one.handles) (destroy lent_one)).heap ≡ []
destroy_no_leak_example = destroy_no_leak lent_one (Reach-Inv 1 1 lent_one-Reach)
