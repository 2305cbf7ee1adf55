-- ===== src/Tests/VersionRuns.antt =====
-- The theorems on versions, of hikyuu/utilities/ResourcePool.h and db_connect/DBUpgrade.cpp, at
-- concrete values.
use hku_utils.Base.{ℕ, List, [], ◌∷◌, none, some, arith, ◌≡◌, refl, ℕ_discrete, if◌then◌else◌}
use hku_utils.Base.Int.{pos, leb_ℤ, ◌-ℤ◌, ◌+ℤ◌}
use mathlib.Core.List.{not-mem-nil}
use hku_utils.DbUpgrade.{upgrade, run, update_version, start_index}
use hku_utils.DbUpgrade.Pending.{migration, upgrade-eq-migration}
use hku_utils.ResourcePool
use hku_utils.ResourcePool.{got, null_ptr}
use hku_utils.VersionPool
use hku_utils.VersionPool.{VersionPool, init}
use hku_utils.VersionPool.Calls.{Reach, start, next, step, get_is_current}
use hku_utils.VersionPool.Calls

-- Scripts to the versions 2, 3 and 4.
abbrev scripts : List ℕ
scripts = 22 ∷ 33 ∷ 44 ∷ []

from_three : upgrade scripts (pos 2) (pos 3) ≡ run 44 ∷ update_version (pos 4) ∷ []
unfolding upgrade start_index ◌-ℤ◌ ◌+ℤ◌
from_three = refl

upgrade-eq-migration_example :
    upgrade scripts (pos 2) (pos 3)
    ≡ (if leb_ℤ (pos 2 -ℤ pos 1) (pos 3) then migration (pos 3) (pos 2) scripts else [])
upgrade-eq-migration_example = upgrade-eq-migration scripts (pos 2) (pos 3)

-- A thread takes the resource at address 8 and gives it back.
abbrev lent : VersionPool ℕ
lent = step (Calls.get (some 8)) (init 5 1 1)

abbrev returned : VersionPool ℕ
returned = step (Calls.drop_handle 0) lent

again_got : (VersionPool.get none returned).1 ≡ got 8
unfolding VersionPool.get VersionPool.take_front VersionPool.drop_handle VersionPool.close
    VersionPool.return_resource VersionPool.init VersionPool.create ResourcePool.init
    ResourcePool.create ResourcePool.hand_out step ℕ_discrete
again_got = refl

-- After a change of the parameter the next request needs a new resource.
changed_fails :
    (VersionPool.get none (step (Calls.set_parameter 6) returned)).1 ≡ ResourcePool.create_failed
unfolding VersionPool.get VersionPool.set_parameter VersionPool.release_idle_resource
    ResourcePool.release_idle_resource ResourcePool.release_loop VersionPool.take_front
    VersionPool.drop_handle VersionPool.close VersionPool.return_resource VersionPool.init
    VersionPool.create ResourcePool.init ResourcePool.create ResourcePool.hand_out step ℕ_discrete
changed_fails = refl

returned-Reach : Reach 5 1 1 returned
unfolding init ResourcePool.init
returned-Reach =
    next (Calls.drop_handle 0)
      (next (Calls.get (some 8)) start
        (record { nonnull = omega arith; new = not-mem-nil; room = omega arith }))
      tt

get_is_current_example : (VersionPool.get none returned).0.param_of 8 ≡ returned.param
get_is_current_example = get_is_current 5 1 1 returned none 8 returned-Reach again_got
