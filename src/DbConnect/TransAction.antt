-- ===== src/DbConnect/TransAction.antt =====
-- The class TransAction of hikyuu/utilities/db_connect/AutoTransAction.h: a transaction that is rolled back
-- at the end of its block unless it was ended.
pub mod Ended
use hku_utils.Base.{List, [], ◌∷◌, Bool, true, false, not, ◌&&◌, if◌then◌else◌}
use hku_utils.DbConnect.Sql.{Driver, Statement, Reply, succeeds, throws}
use hku_utils.DbConnect.{Outcome, done, thrown}

-- What the block does with it.
pub data Use (A : Type 0) : Type 0 where
  begins : Use A
  ends : Use A
  execs : Statement A → Use A

module _ {A C : Type 0} (d : Driver A C) where
  pub record TransAction : Type 0 where
    pub driver : d.State
    pub committed : Bool
    pub started : Bool

  -- A call throws or not, and leaves the object.
  abbrev pub Called : Type 0
  Called = Outcome × TransAction

  unfoldable pub begun : TransAction → Reply × d.State → Called
  begun t (succeeds n, s) = (done, record { driver = s; committed = false; started = true })
  begun t (throws, s) = (thrown, record t { driver = s })

  unfoldable pub begin : TransAction → Called
  begin t = if not t.started then begun t (d.transaction t.driver) else (done, t)

  unfoldable pub ended : TransAction → Reply × d.State → Called
  ended t (succeeds n, s) = (done, record { driver = s; committed = true; started = false })
  ended t (throws, s) = (thrown, record t { driver = s })

  unfoldable pub end : TransAction → Called
  end t =
      if not t.started
      then (thrown, t)
      else (if not t.committed then ended t (d.commit t.driver) else (done, t))

  unfoldable pub executed : TransAction → Reply × d.State → Called
  executed t (succeeds n, s) = (done, record t { driver = s })
  executed t (throws, s) = (thrown, record t { driver = s })

  -- The destructor.
  unfoldable pub destroy : TransAction → d.State
  destroy t = if t.started && not t.committed then d.rollback t.driver else t.driver

  unfoldable pub use_once : Use A → TransAction → Called
  use_once begins t = begin t
  use_once ends t = end t
  use_once (execs q) t = executed t (d.exec q t.driver)

  -- The rest of the block, which an exception leaves, and then the destructor.
  unfoldable pub after_use : (TransAction → Outcome × d.State) → Called → Outcome × d.State
  after_use rest (done, t) = rest t
  after_use rest (thrown, t) = (thrown, destroy t)

  unfoldable pub block : List (Use A) → TransAction → Outcome × d.State
  block [] t = (done, destroy t)
  block (u ∷ uses) t = after_use (block uses) (use_once u t)

  unfoldable pub constructed : List (Use A) → Reply × d.State → Outcome × d.State
  constructed uses (succeeds n, s) =
      block uses (record { driver = s; committed = false; started = true })
  constructed uses (throws, s) = (thrown, s)

  unfoldable pub life : List (Use A) → d.State → Outcome × d.State
  life uses s = constructed uses (d.transaction s)

  -- What a block should store: `durable` are the contents at the last end, or at the start; `pending` are
  -- those that the block sees while a transaction is active. An exception may leave the block at any use.
  pub data Stores : List (Use A) → C → C → Bool → Outcome → C → Type 0 where
    over : (durable pending : C) (active : Bool) → Stores [] durable pending active done durable
    left :
        (uses : List (Use A)) (durable pending : C) (active : Bool)
        → Stores uses durable pending active thrown durable
    again :
        (uses : List (Use A)) (durable pending : C) (o : Outcome) (c : C)
        → Stores uses durable pending true o c
        → Stores (begins ∷ uses) durable pending true o c
    start :
        (uses : List (Use A)) (durable pending : C) (o : Outcome) (c : C)
        → Stores uses durable durable true o c
        → Stores (begins ∷ uses) durable pending false o c
    stop :
        (uses : List (Use A)) (durable pending : C) (o : Outcome) (c : C)
        → Stores uses pending pending false o c
        → Stores (ends ∷ uses) durable pending true o c
    exec_in :
        (q : Statement A) (uses : List (Use A)) (durable pending : C) (o : Outcome) (c : C)
        → Stores uses durable (d.effect q pending) true o c
        → Stores (execs q ∷ uses) durable pending true o c
    exec_out :
        (q : Statement A) (uses : List (Use A)) (durable pending : C) (o : Outcome) (c : C)
        → Stores uses (d.effect q durable) pending false o c
        → Stores (execs q ∷ uses) durable pending false o c
