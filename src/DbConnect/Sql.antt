-- ===== src/DbConnect/Sql.antt =====
-- A database driver, the subclass interface of hikyuu/utilities/db_connect/DBConnectBase.h, with what SQL
-- databases document of transactions. Contents are the rows of the table; `stored` is what is durable, and
-- `working` what the connection itself sees.
use hku_utils.Base.{ℕ, ◌≡◌, Bool, true, false}

-- The statements that the calls send, with what is bound to them.
pub data Statement (A : Type 0) : Type 0 where
  insert : A → Statement A
  update : ℕ → A → Statement A
  delete : ℕ → Statement A
  delete_where : (ℕ → A → Bool) → Statement A

-- A success with the last row id, or an exception.
pub data Reply : Type 0 where
  succeeds : ℕ → Reply
  throws : Reply

pub record Driver (A C : Type 0) : Type 1 where
  pub State : Type 0
  pub stored : State → C
  pub working : State → C
  -- A transaction is open.
  pub open_ : State → Bool
  pub effect : Statement A → C → C
  -- Whether getStatement succeeds.
  pub get_statement : State → Bool
  pub transaction : State → Reply × State
  pub commit : State → Reply × State
  pub rollback : State → State
  pub exec : Statement A → State → Reply × State
  -- A transaction starts from what is stored.
  pub transaction_starts :
      (s t : State) (n : ℕ)
      → open_ s ≡ false
      → transaction s ≡ (succeeds n, t)
      → (open_ t ≡ true) × (stored t ≡ stored s) × (working t ≡ stored s)
  pub transaction_throws : (s t : State) → transaction s ≡ (throws, t) → t ≡ s
  pub commit_stores :
      (s t : State) (n : ℕ)
      → open_ s ≡ true
      → commit s ≡ (succeeds n, t)
      → (open_ t ≡ false) × (stored t ≡ working s)
  pub commit_throws : (s t : State) → commit s ≡ (throws, t) → stored t ≡ stored s
  pub rollback_ends : (s : State) → (open_ (rollback s) ≡ false) × (stored (rollback s) ≡ stored s)
  pub exec_works :
      (q : Statement A) (s t : State) (n : ℕ)
      → open_ s ≡ true
      → exec q s ≡ (succeeds n, t)
      → (open_ t ≡ true) × (stored t ≡ stored s) × (working t ≡ effect q (working s))
  pub exec_throws : (q : Statement A) (s t : State) → exec q s ≡ (throws, t) → stored t ≡ stored s
  -- Without a transaction a statement is stored at once.
  pub exec_alone :
      (q : Statement A) (s t : State) (n : ℕ)
      → open_ s ≡ false
      → exec q s ≡ (succeeds n, t)
      → (open_ t ≡ false) × (stored t ≡ effect q (stored s))
