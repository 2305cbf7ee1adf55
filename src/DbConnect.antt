-- ===== src/DbConnect.antt =====
-- The changes of a database: hikyuu/utilities/db_connect/DBConnectBase.h, over a driver. An item is a row
-- that is bound to a table, with its id, which is 0 for a row that is not stored.
pub mod Sql
pub mod Atomic
pub mod Stages
pub mod TransAction
use hku_utils.Base.{ℕ, List, [], ◌∷◌, ◌++◌, Bool, true, false, not, ◌==◌, if◌then◌else◌}
use hku_utils.DbConnect.Sql.{
  Driver, Statement, insert, update, delete, delete_where, Reply, succeeds, throws,
}

pub record Item (A : Type 0) : Type 0 where
  pub rowid : ℕ
  pub fields : A

-- How a call ends.
pub data Outcome : Type 0 where
  done : Outcome
  thrown : Outcome

module _ {A C : Type 0} (d : Driver A C) where
  -- `item.valid()`.
  unfoldable pub valid : Item A → Bool
  valid item = not (item.rowid == 0)

  -- A body ends with whether it ran through, the items then, and the connection.
  abbrev pub Body : Type 0 → Type 0
  Body X = d.State → Bool × X × d.State

  -- `if (autotrans) rollback()`, on the way out of the call.
  unfoldable pub roll_back : Bool → d.State → d.State
  roll_back autotrans s = if autotrans then d.rollback s else s

  unfoldable pub after_commit : {X : Type 0} → X → Reply × d.State → Outcome × X × d.State
  after_commit x (succeeds n, t) = (done, x, t)
  after_commit x (throws, t) = (thrown, x, d.rollback t)

  unfoldable pub end_transaction : {X : Type 0} → Bool → X → d.State → Outcome × X × d.State
  end_transaction autotrans x s =
      if not autotrans then (done, x, s) else after_commit x (d.commit s)

  unfoldable pub after_body : {X : Type 0} → Bool → Bool × X × d.State → Outcome × X × d.State
  after_body autotrans (true, x, t) = end_transaction autotrans x t
  after_body autotrans (false, x, t) = (thrown, x, roll_back autotrans t)

  -- The block that is tried, with its handlers, which all roll back and throw.
  unfoldable pub try_body : {X : Type 0} → Bool → Body X → d.State → Outcome × X × d.State
  try_body autotrans body s = after_body autotrans (body s)

  unfoldable pub after_start : {X : Type 0} → X → Body X → Reply × d.State → Outcome × X × d.State
  after_start x body (succeeds n, t) = try_body true body t
  after_start x body (throws, t) = (thrown, x, t)

  -- The start of the transaction stands before the block.
  unfoldable pub in_transaction : {X : Type 0} → Bool → X → Body X → d.State → Outcome × X × d.State
  in_transaction autotrans x body s =
      if not autotrans then try_body autotrans body s else after_start x body (d.transaction s)

  unfoldable pub with_rowid : ℕ → Item A → Item A
  with_rowid rowid item = record item { rowid = rowid }

  -- What `exec` leaves: with its row id, or the same with an exception.
  unfoldable pub after_exec : {X : Type 0} → (ℕ → X) → X → Reply × d.State → Bool × X × d.State
  after_exec changed x (succeeds rowid, t) = (true, changed rowid, t)
  after_exec changed x (throws, t) = (false, x, t)

  -- `item.save(st); st->exec(); item.rowid(st->getLastRowid())`.
  unfoldable pub insert_item : Item A → Body (Item A)
  insert_item item s =
      after_exec (λ rowid. with_rowid rowid item) item (d.exec (insert item.fields) s)

  -- `item.update(st); st->exec()`.
  unfoldable pub update_item : Item A → Body (Item A)
  update_item item s = after_exec (λ rowid. item) item (d.exec (update item.rowid item.fields) s)

  unfoldable pub save : Item A → Bool → d.State → Outcome × Item A × d.State
  save item autotrans s =
      if not (d.get_statement s)
      then (thrown, item, s)
      else (if valid item
          then in_transaction autotrans item (update_item item) s
          else in_transaction autotrans item (insert_item item) s)

  unfoldable pub with_first :
      Item A → Bool × List (Item A) × d.State → Bool × List (Item A) × d.State
  with_first item (ok, rest, s) = (ok, item ∷ rest, s)

  unfoldable pub go_on :
      Body (List (Item A))
      → List (Item A)
      → Bool × Item A × d.State
      → Bool × List (Item A) × d.State
  go_on rest items (false, changed, t) = (false, changed ∷ items, t)
  go_on rest items (true, changed, t) = with_first changed (rest t)

  -- The loops over a container, which stop where a statement throws.
  unfoldable pub each : (Item A → Body (Item A)) → List (Item A) → Body (List (Item A))
  each one [] s = (true, [], s)
  each one (item ∷ items) s = go_on (each one items) items (one item s)

  unfoldable pub batch :
      (Item A → Body (Item A)) → List (Item A) → Bool → d.State → Outcome × List (Item A) × d.State
  batch one [] autotrans s = (done, [], s)
  batch one (item ∷ items) autotrans s =
      if not (d.get_statement s)
      then (thrown, item ∷ items, s)
      else in_transaction autotrans (item ∷ items) (each one (item ∷ items)) s

  unfoldable pub batch_save : List (Item A) → Bool → d.State → Outcome × List (Item A) × d.State
  batch_save = batch insert_item

  unfoldable pub batch_update : List (Item A) → Bool → d.State → Outcome × List (Item A) × d.State
  batch_update = batch update_item

  unfoldable pub save_list : List (Item A) → List (Item A)
  save_list [] = []
  save_list (item ∷ items) = let rest = save_list items in if valid item then rest else item ∷ rest

  unfoldable pub update_list : List (Item A) → List (Item A)
  update_list [] = []
  update_list (item ∷ items) =
      let rest = update_list items in if valid item then item ∷ rest else rest

  unfoldable pub then_update :
      List (Item A) → Bool → Outcome × List (Item A) × d.State → Outcome × d.State
  then_update items autotrans (thrown, saved, t) = (thrown, t)
  then_update items autotrans (done, saved, t) =
      let r = batch_update (update_list items) autotrans t in (r.0, r.2)

  -- The two lists hold copies, so the container stays as it is.
  unfoldable pub batch_save_or_update : List (Item A) → Bool → d.State → Outcome × d.State
  batch_save_or_update items autotrans s =
      then_update items autotrans (batch_save (save_list items) autotrans s)

  unfoldable pub exec_statement : {X : Type 0} → Statement A → X → Body X
  exec_statement q x s = after_exec (λ rowid. x) x (d.exec q s)

  -- The id of the item is set to 0 after the commit.
  unfoldable pub cleared : Outcome × Item A × d.State → Outcome × Item A × d.State
  cleared (done, item, s) = (done, with_rowid 0 item, s)
  cleared (thrown, item, s) = (thrown, item, s)

  unfoldable pub remove : Item A → Bool → d.State → Outcome × Item A × d.State
  remove item autotrans s =
      if not (valid item)
      then (thrown, item, s)
      else (if not (d.get_statement s)
          then (thrown, item, s)
          else cleared (in_transaction autotrans item (exec_statement (delete item.rowid) item) s))

  unfoldable pub after_remove : Outcome × Item A × d.State → Bool × Item A × d.State
  after_remove (done, item, s) = (true, item, s)
  after_remove (thrown, item, s) = (false, item, s)

  -- `remove(*iter)`, whose own autotrans is true.
  unfoldable pub remove_item : Item A → Body (Item A)
  remove_item item s = after_remove (remove item true s)

  unfoldable pub batch_remove : List (Item A) → Bool → d.State → Outcome × List (Item A) × d.State
  batch_remove [] autotrans s = (done, [], s)
  batch_remove (item ∷ items) autotrans s =
      in_transaction autotrans (item ∷ items) (each remove_item (item ∷ items)) s

  -- `remove(tablename, where)`, with the condition as the rows that it is true of.
  unfoldable pub remove_where : (ℕ → A → Bool) → Bool → d.State → Outcome × Unit {0} × d.State
  remove_where where_ autotrans s =
      in_transaction autotrans tt (exec_statement (delete_where where_) tt) s
