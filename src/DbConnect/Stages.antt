-- ===== src/DbConnect/Stages.antt =====
-- The calls of hikyuu/utilities/db_connect/DBConnectBase.h that make several transactions.
use hku_utils.Base.{List, ◌∷◌, true, false, not, ◌≡◌, refl, ap, ◌∙◌, ◌⊎◌, inl, inr, Bool-cases}
use hku_utils.DbConnect.Sql.{Driver, delete, Reply, succeeds, throws}
use hku_utils.DbConnect.{
  Item, Outcome, done, thrown, valid, try_body, after_body, after_start, in_transaction, go_on,
  each, batch_save, save_list, update_list, then_update, batch_save_or_update, exec_statement,
  cleared, remove, after_remove, remove_item, batch_remove, roll_back,
}
use hku_utils.DbConnect.Atomic.{Atomic, effects, insertion, change, batches-Atomic}

module _ {A C : Type 0} (d : Driver A C) where
  -- The two transactions of a call that first does f and then g.
  abbrev pub Staged : (C → C) → (C → C) → d.State → Outcome × d.State → Type 0
  Staged f g s r =
      ((r.0 ≡ done) × (d.stored r.1 ≡ g (f (d.stored s))))
      ⊎ ((r.0 ≡ thrown) × ((d.stored r.1 ≡ d.stored s) ⊎ (d.stored r.1 ≡ f (d.stored s))))

  then_update-Staged :
      (f : C → C) (items : List (Item A)) (s : d.State) (r : Outcome × List (Item A) × d.State)
      → Atomic d f s r
      → Staged f (effects d (change d) (update_list d items)) s (then_update d items true r)
  unfolding then_update
  then_update-Staged f items s (thrown, saved, t) a = elim a [
    | inl (e, k, o) ↦ cc
    | inr (e, k) ↦ inr (refl, inl k)
  ]
  then_update-Staged f items s (done, saved, t) a = elim a [
    | inr (e, k) ↦ cc
    | inl (e, k, o) ↦ elim (batches-Atomic d (update_list d items) t o).1 [
      | inl (e₁, k₁, o₁) ↦ inl (e₁, k₁ ∙ ap (effects d (change d) (update_list d items)) k)
      | inr (e₁, k₁) ↦ inr (e₁, inr (k₁ ∙ k))
    ]
  ]

  -- batchSaveOrUpdate inserts the items that are not stored yet and then updates the others, each of the two
  -- as a whole. Where it throws, either nothing has changed or the inserts are stored.
  pub batch_save_or_update-Staged :
      (items : List (Item A)) (s : d.State)
      → d.open_ s ≡ false
      → Staged
          (effects d (insertion d) (save_list d items))
          (effects d (change d) (update_list d items))
          s
          (batch_save_or_update d items true s)
  unfolding batch_save_or_update
  batch_save_or_update-Staged items s o =
      then_update-Staged (effects d (insertion d) (save_list d items)) items s
        (batch_save d (save_list d items) true s) (batches-Atomic d (save_list d items) s o).0

  -- A driver that starts no transaction within another one, as SQLite.
  abbrev pub IsFlat : Type 0
  IsFlat = (s : d.State) → d.open_ s ≡ true → d.transaction s ≡ (throws, s)

  remove-nested :
      (item : Item A) (s : d.State)
      → d.transaction s ≡ (throws, s)
      → (i : Item A) × (remove d item true s ≡ (thrown, i, s))
  unfolding remove in_transaction cleared after_start
  remove-nested item s e = elim (Bool-cases (not (valid d item))) [
    | inl v ↦ (item, rw (v))
    | inr v ↦ elim (Bool-cases (not (d.get_statement s))) [
      | inl g ↦ (item, rw (v, g))
      | inr g ↦ (
        item,
        rw (v, g)
            (ap (λ r. cleared d (after_start d item (exec_statement d (delete item.rowid) item) r))
              e),
      )
    ]
  ]

  each-nested :
      (item : Item A) (items : List (Item A)) (s : d.State)
      → d.transaction s ≡ (throws, s)
      → (rest : List (Item A)) × (each d (remove_item d) (item ∷ items) s ≡ (false, rest, s))
  unfolding each remove_item after_remove go_on
  each-nested item items s e =
      let r = remove-nested item s e in
      (r.0 ∷ items, ap (λ q. go_on d (each d (remove_item d) items) items (after_remove d q)) r.1)

  -- What a call that has thrown leaves.
  abbrev Refused : {X : Type 0} → d.State → Outcome × X × d.State → Type 0
  Refused s r = (r.0 ≡ thrown) × (d.stored r.2 ≡ d.stored s)

  rolled_back :
      (rest : List (Item A)) (s t : d.State)
      → d.stored t ≡ d.stored s
      → Refused s (after_body d true (false, rest, t))
  unfolding after_body roll_back
  rolled_back rest s t k = (refl, (d.rollback_ends t).1 ∙ k)

  after_start-Refused :
      (item : Item A) (items : List (Item A)) (s : d.State) (r : Reply × d.State)
      → IsFlat
      → d.open_ s ≡ false
      → d.transaction s ≡ r
      → Refused s (after_start d (item ∷ items) (each d (remove_item d) (item ∷ items)) r)
  unfolding after_start try_body
  after_start-Refused item items s (succeeds n, t) flat o e =
      let b = d.transaction_starts s t n o e in
      let c = each-nested item items t (flat t b.0) in rw (c.1) (rolled_back c.0 s t b.1)
  after_start-Refused item items s (throws, t) flat o e =
      (refl, ap (λ u. d.stored u) (d.transaction_throws s t e))

  -- With a driver that starts no transaction within another one, batchRemove with its own transaction throws
  -- for every container that is not empty, and removes nothing.
  pub batch_remove-Refused :
      (item : Item A) (items : List (Item A)) (s : d.State)
      → IsFlat
      → d.open_ s ≡ false
      → let r = batch_remove d (item ∷ items) true s in (r.0 ≡ thrown) × (d.stored r.2 ≡ d.stored s)
  unfolding batch_remove in_transaction
  batch_remove-Refused item items s flat o =
      after_start-Refused item items s (d.transaction s) flat o refl
