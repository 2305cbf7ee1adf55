-- ===== src/Tests/LruRuns.antt =====
-- Runs of hikyuu/utilities/LruCache.h.
use hku_utils.Base.{
  ℕ, ◌+◌, ◌-◌, ◌%◌, ◌≤◌, ◌<◌, List, [], ◌∷◌, some, Bool, true, false, length, arith, ◌≡◌, ◌≢◌, refl,
  subst, ◌⊎◌, u64_mod, ℕ_discrete as eq,
}
use mathlib.Core.List.{
  Mem, lookup, Nodup-nil, Nodup-cons, not-mem-nil, Nodup, eq-or-mem_of_mem-cons,
}
use mathlib.Core.HLevel.{⊥_prop}
use mathlib.Core.Logic.Or
use mathlib.Core.List.Perm
use hku_utils.LruCache
use hku_utils.LruCache.{
  LruCache, Entry, init, prune_if_needed, prune, prune_loop, find_dirty, set_dirty,
  batch_update_dirty_nodes, insert_entry,
}
use hku_utils.LruCache.Invariant.{Inv}
use hku_utils.LruCache.Calls.{IsValid, Call, insert, get, run, run-init-IsValid}
use hku_utils.LruCache.Prune.{Cut, prune_if_needed-Cut}
use hku_utils.LruCache.Reads.{stored, insert-stored}
use hku_utils.LruCache.Dirty.{Kept, insert-moves}

abbrev history : List (Call ℕ ℕ)
history = insert 1 10 ∷ insert 2 20 ∷ get 1 ∷ insert 3 30 ∷ insert 4 40 ∷ []

-- Capacity 1, overflow 1: the third entry makes the cache shed all but the newest.
history_runs :
    run eq 0 (init 1 1) history
    ≡ some (record {
      capacity = 1;
      overflow = 1;
      lru_list = 4 ∷ 3 ∷ [];
      cache =
          (4, record { value = 40; dirty = false })
          ∷ (3, record { value = 30; dirty = false })
          ∷ [];
    })
unfolding LruCache.program run eq
history_runs = refl

run-init-IsValid_example : (c : LruCache ℕ ℕ) × (run eq 0 (init 1 1) history ≡ some c) × IsValid c
run-init-IsValid_example = run-init-IsValid eq 0 1 1 history

abbrev entry : ℕ → Bool → Entry ℕ
entry v d = record { value = v; dirty = d }

-- Three keys, of which 2 and 3 were read since they were moved.
abbrev three : LruCache ℕ ℕ
three = record {
  capacity = 2;
  overflow = 0;
  lru_list = 3 ∷ 2 ∷ 1 ∷ [];
  cache = (3, entry 30 true) ∷ (2, entry 20 true) ∷ (1, entry 10 false) ∷ [];
}

new-cons : (x y : ℕ) (l : List ℕ) → x ≢ y → ¬ Mem x l → ¬ Mem x (y ∷ l)
new-cons x y l ne new m = Or.elim ⊥_prop (eq-or-mem_of_mem-cons m) ne new

Nodup-two : Nodup {A = ℕ} (2 ∷ 1 ∷ [])
Nodup-two =
    Nodup-cons.1 (new-cons 2 1 [] (omega arith) not-mem-nil, Nodup-cons.1 (not-mem-nil, Nodup-nil))

three-Inv : Inv three
three-Inv = record {
  same = Perm.rfl;
  distinct =
      Nodup-cons.1 (
        new-cons 3 2 (1 ∷ []) (omega arith) (new-cons 3 1 [] (omega arith) not-mem-nil),
        Nodup-two,
      );
}

prune_if_needed-Cut_example :
    (prune_if_needed eq three ≡ some (three, 0))
      × ((three.capacity ≡ 0) ⊎ (length three.cache ≤ (three.capacity + three.overflow) % u64_mod))
    ⊎ ((c' : LruCache ℕ ℕ) × (prune_if_needed eq three
          ≡ some (c', length three.cache - three.capacity))
        × (0 < three.capacity)
        × ((three.capacity + three.overflow) % u64_mod < length three.cache)
        × Cut eq three c')
prune_if_needed-Cut_example = prune_if_needed-Cut eq three three-Inv

abbrev two : LruCache ℕ ℕ
two = record three { lru_list = 2 ∷ 1 ∷ []; cache = (2, entry 20 true) ∷ (1, entry 10 false) ∷ [] }

two-IsValid : IsValid two
two-IsValid = record {
  inv = record { same = Perm.rfl; distinct = Nodup-two };
  bounded = omega arith;
}

insert-stored_example :
    (c' : LruCache ℕ ℕ) × (LruCache.insert eq two 5 50 ≡ some c')
    × ((l : List ℕ) × (c'.lru_list ≡ 5 ∷ l))
    × (stored eq c' 5 ≡ some 50)
    × ((q : ℕ) → q ≢ 5 → Mem q c'.lru_list → stored eq c' q ≡ stored eq two q)
insert-stored_example = insert-stored eq two 5 50 two-IsValid

clean-1 : (e : Entry ℕ) → lookup eq 1 three.cache ≡ some e → e.dirty ≡ false
unfolding LruCache.program eq
clean-1 e h = ground arith

Bool-set : IsSet Bool
Bool-set = hlevel

clean-after-2 :
    (q : ℕ) (e : Entry ℕ) → Mem q (1 ∷ []) → lookup eq q three.cache ≡ some e → e.dirty ≡ false
clean-after-2 q e m h =
    Or.elim (Bool-set e.dirty false) (eq-or-mem_of_mem-cons m)
      (λ here. clean-1 e (subst (λ k. lookup eq k three.cache ≡ some e) here h))
      (λ there. absurd (not-mem-nil there))

-- With room for one more before the cache is cut.
abbrev roomy : LruCache ℕ ℕ
roomy = record three { capacity = 3; overflow = 1 }

insert-moves_example :
    (c' : LruCache ℕ ℕ) × (LruCache.insert eq roomy 5 50 ≡ some c')
    × Kept 3 1 (5 ∷ 2 ∷ 3 ∷ 1 ∷ []) c'.lru_list
    × (◌≢◌ {A = ℕ} 2 5 → Mem 2 c'.lru_list → lookup eq 2 c'.cache ≡ some (entry 20 false))
    × ((q : ℕ) → q ≢ 2 → q ≢ 5 → Mem q c'.lru_list → lookup eq q c'.cache ≡ lookup eq q roomy.cache)
unfolding LruCache.program eq
insert-moves_example =
    insert-moves eq roomy (3 ∷ []) 2 (1 ∷ []) (entry 20 true) 5 50
      (record {
        inv = record { same = three-Inv.same; distinct = three-Inv.distinct };
        bounded = omega arith;
      })
      refl refl refl clean-after-2
