-- ===== src/Tests/DbRuns.antt =====
-- Runs of hikyuu/utilities/db_connect/DBConnectBase.h on a table of numbers, over a driver that starts no
-- transaction within another one.
use hku_utils.Base.{
  ℕ, ◌+◌, List, [], ◌∷◌, ◌++◌, map, length, Bool, true, false, ◌==◌, if◌then◌else◌, ◌≡◌, refl, sym,
  ap,
}
use hku_utils.DbConnect.Sql.{
  Driver, Statement, insert, update, delete, delete_where, Reply, succeeds, throws,
}
use hku_utils.DbConnect.{
  Item, thrown, valid, batch, batch_save, batch_update, batch_save_or_update, batch_remove, save,
  remove, remove_where, save_list, update_list, in_transaction, after_start, try_body, each,
  insert_item, after_exec, after_body, end_transaction, after_commit, go_on, with_first, with_rowid,
  roll_back,
}
use hku_utils.DbConnect.Atomic.{
  Atomic, effects, insertion, change, deletion, batches-Atomic, calls-Atomic,
}
use hku_utils.DbConnect.Stages.{Staged, IsFlat, batch_save_or_update-Staged, batch_remove-Refused}
use hku_utils.DbConnect.TransAction.{
  Use, begins, ends, execs, life, Stores, constructed, block, after_use, use_once, executed, end,
  ended, begin, begun, destroy,
}
use hku_utils.DbConnect.TransAction.Ended.{life-Stores}

abbrev Rows : Type 0
Rows = List (ℕ × ℕ)

-- Whether a transaction is open, what is stored, and what the connection sees.
abbrev Db : Type 0
Db = Bool × Rows × Rows

abbrev change_row : ℕ → ℕ → ℕ × ℕ → ℕ × ℕ
change_row k x row = if row.0 == k then (k, x) else row

abbrev drop_rows : (ℕ → ℕ → Bool) → Rows → Rows
drop_rows where_ [] = []
drop_rows where_ (row ∷ rows) =
    let rest = drop_rows where_ rows in if where_ row.0 row.1 then rest else row ∷ rest

abbrev row_effect : Statement ℕ → Rows → Rows
row_effect (insert x) rows = rows ++ ((length rows + 1, x) ∷ [])
row_effect (update k x) rows = map (change_row k x) rows
row_effect (delete k) rows = drop_rows (λ j x. j == k) rows
row_effect (delete_where where_) rows = drop_rows where_ rows

abbrev db_transaction : Db → Reply × Db
db_transaction (true, k, w) = (throws, (true, k, w))
db_transaction (false, k, w) = (succeeds 0, (true, k, k))

abbrev db_commit : Db → Reply × Db
db_commit (true, k, w) = (succeeds 0, (false, w, w))
db_commit (false, k, w) = (throws, (false, k, w))

abbrev db_apply : Statement ℕ → Db → Reply × Db
db_apply q (true, k, w) = (succeeds (length w + 1), (true, k, row_effect q w))
db_apply q (false, k, w) = (succeeds (length k + 1), (false, row_effect q k, row_effect q k))

-- The constraint of the table: no row is made with 13.
abbrev refused : Statement ℕ → Bool
refused (insert x) = x == 13
refused (update k x) = false
refused (delete k) = false
refused (delete_where where_) = false

abbrev db_exec : Bool → Statement ℕ → Db → Reply × Db
db_exec true q s = (throws, s)
db_exec false q s = db_apply q s

exec_works :
    (b : Bool) (q : Statement ℕ) (s t : Db) (n : ℕ)
    → s.0 ≡ true
    → db_exec b q s ≡ (succeeds n, t)
    → (t.0 ≡ true) × (t.1 ≡ s.1) × (t.2 ≡ row_effect q s.2)
exec_works true q s t n o e = cc
exec_works false q (false, k, w) t n o e = cc
exec_works false q (true, k, w) t n o e =
    (ap (λ r. r.1.0) (sym e), ap (λ r. r.1.1) (sym e), ap (λ r. r.1.2) (sym e))

exec_throws : (b : Bool) (q : Statement ℕ) (s t : Db) → db_exec b q s ≡ (throws, t) → t.1 ≡ s.1
exec_throws true q s t e = ap (λ r. r.1.1) (sym e)
exec_throws false q (false, k, w) t e = cc
exec_throws false q (true, k, w) t e = cc

exec_alone :
    (b : Bool) (q : Statement ℕ) (s t : Db) (n : ℕ)
    → s.0 ≡ false
    → db_exec b q s ≡ (succeeds n, t)
    → (t.0 ≡ false) × (t.1 ≡ row_effect q s.1)
exec_alone true q s t n o e = cc
exec_alone false q (true, k, w) t n o e = cc
exec_alone false q (false, k, w) t n o e = (ap (λ r. r.1.0) (sym e), ap (λ r. r.1.1) (sym e))

starts :
    (s t : Db) (n : ℕ)
    → s.0 ≡ false
    → db_transaction s ≡ (succeeds n, t)
    → (t.0 ≡ true) × (t.1 ≡ s.1) × (t.2 ≡ s.1)
starts (true, k, w) t n o e = cc
starts (false, k, w) t n o e =
    (ap (λ r. r.1.0) (sym e), ap (λ r. r.1.1) (sym e), ap (λ r. r.1.2) (sym e))

starts_not : (s t : Db) → db_transaction s ≡ (throws, t) → t ≡ s
starts_not (true, k, w) t e = ap (λ r. r.1) (sym e)
starts_not (false, k, w) t e = cc

stores :
    (s t : Db) (n : ℕ) → s.0 ≡ true → db_commit s ≡ (succeeds n, t) → (t.0 ≡ false) × (t.1 ≡ s.2)
stores (false, k, w) t n o e = cc
stores (true, k, w) t n o e = (ap (λ r. r.1.0) (sym e), ap (λ r. r.1.1) (sym e))

stores_not : (s t : Db) → db_commit s ≡ (throws, t) → t.1 ≡ s.1
stores_not (true, k, w) t e = cc
stores_not (false, k, w) t e = ap (λ r. r.1.1) (sym e)

abbrev db : Driver ℕ Rows
db = record {
  State = Db;
  stored = λ s. s.1;
  working = λ s. s.2;
  open_ = λ s. s.0;
  effect = row_effect;
  get_statement = λ s. true;
  transaction = db_transaction;
  commit = db_commit;
  rollback = λ s. (false, s.1, s.1);
  exec = λ q s. db_exec (refused q) q s;
  transaction_starts = starts;
  transaction_throws = starts_not;
  commit_stores = stores;
  commit_throws = stores_not;
  rollback_ends = λ s. (refl, refl);
  exec_works = λ q. exec_works (refused q) q;
  exec_throws = λ q. exec_throws (refused q) q;
  exec_alone = λ q. exec_alone (refused q) q;
}

db-IsFlat : IsFlat db
db-IsFlat (true, k, w) o = refl
db-IsFlat (false, k, w) o = cc

abbrev idle : Db
idle = (false, (1, 10) ∷ [], (1, 10) ∷ [])

abbrev item : ℕ → ℕ → Item ℕ
item id x = record { rowid = id; fields = x }

abbrev two_items : List (Item ℕ)
two_items = item 0 7 ∷ item 1 8 ∷ []

-- The second item is refused, so the first one is not stored either.
abbrev bad_items : List (Item ℕ)
bad_items = item 0 7 ∷ item 0 13 ∷ []

two_saved : (batch_save db two_items true idle).2.1 ≡ ((1, 10) ∷ (2, 7) ∷ (3, 8) ∷ [])
unfolding batch_save batch in_transaction after_start try_body each insert_item after_exec
    after_body end_transaction after_commit go_on with_first with_rowid
two_saved = refl

bad_refused : (batch_save db bad_items true idle).2.1 ≡ ((1, 10) ∷ [])
unfolding batch_save batch in_transaction after_start try_body each insert_item after_exec
    after_body end_transaction after_commit go_on with_first with_rowid roll_back
bad_refused = refl

batches-Atomic_example :
    Atomic db (effects db (insertion db) two_items) idle (batch_save db two_items true idle)
    × Atomic db (effects db (change db) two_items) idle (batch_update db two_items true idle)
batches-Atomic_example = batches-Atomic db two_items idle refl

calls-Atomic_example :
    Atomic db
      (db.effect (if valid db (item 1 8) then change db (item 1 8) else insertion db (item 1 8)))
      idle
      (save db (item 1 8) true idle)
    × Atomic db (db.effect (deletion db (item 1 8))) idle (remove db (item 1 8) true idle)
    × Atomic db
        (db.effect (delete_where (λ id x. x == 10)))
        idle
        (remove_where db (λ id x. x == 10) true idle)
calls-Atomic_example = calls-Atomic db (item 1 8) (λ id x. x == 10) idle refl

batch_save_or_update-Staged_example :
    Staged db
      (effects db (insertion db) (save_list db two_items))
      (effects db (change db) (update_list db two_items))
      idle
      (batch_save_or_update db two_items true idle)
batch_save_or_update-Staged_example = batch_save_or_update-Staged db two_items idle refl

batch_remove-Refused_example :
    ((batch_remove db two_items true idle).0 ≡ thrown)
    × ((batch_remove db two_items true idle).2.1 ≡ idle.1)
batch_remove-Refused_example =
    batch_remove-Refused db (item 0 7) (item 1 8 ∷ []) idle db-IsFlat refl

-- The block inserts 7, ends its transaction, begins another one, inserts 8 and leaves it.
abbrev uses : List (Use ℕ)
uses = execs (insert 7) ∷ ends ∷ begins ∷ execs (insert 8) ∷ []

seven_stored : (life db uses idle).1.1 ≡ ((1, 10) ∷ (2, 7) ∷ [])
unfolding life constructed block after_use use_once executed end ended begin begun destroy
seven_stored = refl

life-Stores_example :
    Stores db uses idle.1 idle.1 true (life db uses idle).0 (life db uses idle).1.1
life-Stores_example = life-Stores db uses idle refl
