-- ===== src/DbConnect/Atomic.antt =====
-- The transactions of hikyuu/utilities/db_connect/DBConnectBase.h: a call with its own transaction changes
-- everything or nothing.
use hku_utils.Base.{
  ℕ, List, [], ◌∷◌, Bool, true, false, not, ◌≡◌, refl, ap, ◌∙◌, ◌⊎◌, inl, inr, if◌then◌else◌,
  Bool-cases,
}
use hku_utils.DbConnect.Sql.{
  Driver, Statement, insert, update, delete, delete_where, Reply, succeeds, throws,
}
use hku_utils.DbConnect.{
  Item, Outcome, done, thrown, valid, Body, roll_back, after_commit, end_transaction, after_body,
  try_body, after_start, in_transaction, after_exec, insert_item, update_item, save, with_first,
  go_on, each, batch, batch_save, batch_update, exec_statement, cleared, remove, remove_where,
}

module _ {A C : Type 0} (d : Driver A C) where
  -- A call that started at s has changed the stored contents by f, or has thrown and changed nothing.
  abbrev pub Atomic : {X : Type 0} → (C → C) → d.State → Outcome × X × d.State → Type 0
  Atomic f s r =
      ((r.0 ≡ done) × (d.stored r.2 ≡ f (d.stored s)) × (d.open_ r.2 ≡ false))
      ⊎ ((r.0 ≡ thrown) × (d.stored r.2 ≡ d.stored s))

  -- A body has changed what the connection sees by f, or has failed; what is stored is as before.
  abbrev pub Works : {X : Type 0} → (C → C) → d.State → Bool × X × d.State → Type 0
  Works f s r =
      ((r.0 ≡ true)
        × (d.open_ r.2 ≡ true)
        × (d.stored r.2 ≡ d.stored s)
        × (d.working r.2 ≡ f (d.working s)))
      ⊎ ((r.0 ≡ false) × (d.stored r.2 ≡ d.stored s))

  after_exec-Works :
      {X : Type 0} (q : Statement A) (s : d.State) (changed : ℕ → X) (x : X) (r : Reply × d.State)
      → d.open_ s ≡ true
      → d.exec q s ≡ r
      → Works (d.effect q) s (after_exec d changed x r)
  unfolding after_exec
  after_exec-Works q s changed x (succeeds n, t) o e =
      let w = d.exec_works q s t n o e in inl (refl, w.0, w.1, w.2)
  after_exec-Works q s changed x (throws, t) o e = inr (refl, d.exec_throws q s t e)

  -- What the statements of several items do.
  abbrev pub effects : (Item A → Statement A) → List (Item A) → C → C
  effects q [] c = c
  effects q (item ∷ items) c = effects q items (d.effect (q item) c)

  go_on-Works :
      (f g : C → C) (s : d.State) (rest : Body d (List (Item A))) (items : List (Item A))
      (r : Bool × Item A × d.State)
      → Works f s r
      → ((t : d.State) → d.open_ t ≡ true → Works g t (rest t))
      → Works (λ c. g (f c)) s (go_on d rest items r)
  unfolding go_on with_first
  go_on-Works f g s rest items (false, changed, t) w next = elim w [
    | inl (e, o, k, v) ↦ cc
    | inr (e, k) ↦ inr (refl, k)
  ]
  go_on-Works f g s rest items (true, changed, t) w next = elim w [
    | inr (e, k) ↦ cc
    | inl (e, o, k, v) ↦ elim (next t o) [
      | inl (e₁, o₁, k₁, v₁) ↦ inl (e₁, o₁, k₁ ∙ k, v₁ ∙ ap g v)
      | inr (e₁, k₁) ↦ inr (e₁, k₁ ∙ k)
    ]
  ]

  each-Works :
      (one : Item A → Body d (Item A)) (q : Item A → Statement A)
      → ((item : Item A) (s : d.State)
          → d.open_ s ≡ true
          → Works (d.effect (q item)) s (one item s))
      → (items : List (Item A)) (s : d.State) → d.open_ s ≡ true
      → Works (effects q items) s (each d one items s)
  unfolding each
  each-Works one q works [] s o = inl (refl, o, refl, refl)
  each-Works one q works (item ∷ items) s o =
      go_on-Works (d.effect (q item)) (effects q items) s (each d one items) items (one item s)
        (works item s o) (each-Works one q works items)

  after_commit-Atomic :
      {X : Type 0} (f : C → C) (s t : d.State) (x : X) (r : Reply × d.State)
      → d.open_ t ≡ true
      → d.stored t ≡ d.stored s
      → d.working t ≡ f (d.stored s)
      → d.commit t ≡ r
      → Atomic f s (after_commit d x r)
  unfolding after_commit
  after_commit-Atomic f s t x (succeeds n, u) o k w e =
      let c = d.commit_stores t u n o e in inl (refl, c.1 ∙ w, c.0)
  after_commit-Atomic f s t x (throws, u) o k w e =
      inr (refl, (d.rollback_ends u).1 ∙ d.commit_throws t u e ∙ k)

  after_body-Atomic :
      {X : Type 0} (f : C → C) (s t : d.State) (r : Bool × X × d.State)
      → d.stored t ≡ d.stored s
      → d.working t ≡ d.stored s
      → Works f t r
      → Atomic f s (after_body d true r)
  unfolding after_body end_transaction roll_back
  after_body-Atomic f s t (true, x, u) k w h = elim h [
    | inl (e, o, k₁, v) ↦ after_commit-Atomic f s u x (d.commit u) o (k₁ ∙ k) (v ∙ ap f w) refl
    | inr (e, k₁) ↦ cc
  ]
  after_body-Atomic f s t (false, x, u) k w h = elim h [
    | inl (e, o, k₁, v) ↦ cc
    | inr (e, k₁) ↦ inr (refl, (d.rollback_ends u).1 ∙ k₁ ∙ k)
  ]

  after_start-Atomic :
      {X : Type 0} (f : C → C) (s : d.State) (x : X) (body : Body d X) (r : Reply × d.State)
      → d.open_ s ≡ false
      → d.transaction s ≡ r
      → ((t : d.State) → d.open_ t ≡ true → Works f t (body t))
      → Atomic f s (after_start d x body r)
  unfolding after_start try_body
  after_start-Atomic f s x body (succeeds n, t) o e works =
      let b = d.transaction_starts s t n o e in
      after_body-Atomic f s t (body t) b.1 b.2 (works t b.0)
  after_start-Atomic f s x body (throws, t) o e works =
      inr (refl, ap (λ u. d.stored u) (d.transaction_throws s t e))

  in_transaction-Atomic :
      {X : Type 0} (f : C → C) (s : d.State) (x : X) (body : Body d X)
      → d.open_ s ≡ false
      → ((t : d.State) → d.open_ t ≡ true → Works f t (body t))
      → Atomic f s (in_transaction d true x body s)
  unfolding in_transaction
  in_transaction-Atomic f s x body o works =
      after_start-Atomic f s x body (d.transaction s) o refl works

  abbrev pub insertion : Item A → Statement A
  insertion item = insert item.fields

  abbrev pub change : Item A → Statement A
  change item = update item.rowid item.fields

  abbrev pub deletion : Item A → Statement A
  deletion item = delete item.rowid

  insert_item-Works :
      (item : Item A) (s : d.State)
      → d.open_ s ≡ true
      → Works (d.effect (insertion item)) s (insert_item d item s)
  unfolding insert_item
  insert_item-Works item s o =
      after_exec-Works (insertion item) s _ item (d.exec (insertion item) s) o refl

  update_item-Works :
      (item : Item A) (s : d.State)
      → d.open_ s ≡ true
      → Works (d.effect (change item)) s (update_item d item s)
  unfolding update_item
  update_item-Works item s o =
      after_exec-Works (change item) s _ item (d.exec (change item) s) o refl

  exec_statement-Works :
      {X : Type 0} (q : Statement A) (x : X) (s : d.State)
      → d.open_ s ≡ true
      → Works (d.effect q) s (exec_statement d q x s)
  unfolding exec_statement
  exec_statement-Works q x s o = after_exec-Works q s _ x (d.exec q s) o refl

  batch-Atomic :
      (one : Item A → Body d (Item A)) (q : Item A → Statement A)
      → ((item : Item A) (s : d.State)
          → d.open_ s ≡ true
          → Works (d.effect (q item)) s (one item s))
      → (items : List (Item A)) (s : d.State) → d.open_ s ≡ false
      → Atomic (effects q items) s (batch d one items true s)
  unfolding batch
  batch-Atomic one q works [] s o = inl (refl, refl, o)
  batch-Atomic one q works (item ∷ items) s o = elim (Bool-cases (not (d.get_statement s))) [
    | inl e ↦ rw (e) (inr (refl, refl))
    | inr e ↦ rw (e) (
        in_transaction-Atomic (effects q (item ∷ items)) s (item ∷ items)
          (each d one (item ∷ items)) o (each-Works one q works (item ∷ items)))
  ]

  -- batchSave and batchUpdate with their own transaction store every item, in the order of the container, or
  -- throw and leave what is stored as it was.
  pub batches-Atomic :
      (items : List (Item A)) (s : d.State)
      → d.open_ s ≡ false
      → Atomic (effects insertion items) s (batch_save d items true s)
        × Atomic (effects change items) s (batch_update d items true s)
  unfolding batch_save batch_update
  batches-Atomic items s o = (
    batch-Atomic (insert_item d) insertion (insert_item-Works) items s o,
    batch-Atomic (update_item d) change (update_item-Works) items s o,
  )

  cleared-Atomic :
      (f : C → C) (s : d.State) (r : Outcome × Item A × d.State)
      → Atomic f s r
      → Atomic f s (cleared d r)
  unfolding cleared
  cleared-Atomic f s (done, item, t) a = a
  cleared-Atomic f s (thrown, item, t) a = a

  save-Atomic :
      (item : Item A) (s : d.State)
      → d.open_ s ≡ false
      → Atomic
          (d.effect (if valid d item then change item else insertion item))
          s
          (save d item true s)
  unfolding save
  save-Atomic item s o = elim (Bool-cases (not (d.get_statement s))) [
    | inl e ↦ rw (e) (inr (refl, refl))
    | inr e ↦ elim (Bool-cases (valid d item)) [
      | inl v ↦
          rw (e, v)
            (in_transaction-Atomic (d.effect (change item)) s item (update_item d item) o
              (update_item-Works item))
      | inr v ↦
          rw (e, v)
            (in_transaction-Atomic (d.effect (insertion item)) s item (insert_item d item) o
              (insert_item-Works item))
    ]
  ]

  remove-Atomic :
      (item : Item A) (s : d.State)
      → d.open_ s ≡ false
      → Atomic (d.effect (deletion item)) s (remove d item true s)
  unfolding remove
  remove-Atomic item s o = elim (Bool-cases (not (valid d item))) [
    | inl v ↦ rw (v) (inr (refl, refl))
    | inr v ↦ elim (Bool-cases (not (d.get_statement s))) [
      | inl e ↦ rw (v, e) (inr (refl, refl))
      | inr e ↦
          rw (v, e)
            (cleared-Atomic (d.effect (deletion item)) s
              (in_transaction d true item (exec_statement d (deletion item) item) s)
              (in_transaction-Atomic (d.effect (deletion item)) s item
                (exec_statement d (deletion item) item) o
                (exec_statement-Works (deletion item) item)))
    ]
  ]

  -- save and the two remove with their own transaction make their change or throw and change nothing. A save
  -- inserts an item that is not stored yet and updates one that is.
  pub calls-Atomic :
      (item : Item A) (where_ : ℕ → A → Bool) (s : d.State)
      → d.open_ s ≡ false
      → Atomic
          (d.effect (if valid d item then change item else insertion item))
          s
          (save d item true s)
        × Atomic (d.effect (deletion item)) s (remove d item true s)
        × Atomic (d.effect (delete_where where_)) s (remove_where d where_ true s)
  unfolding remove_where
  calls-Atomic item where_ s o = (
    save-Atomic item s o,
    remove-Atomic item s o,
    in_transaction-Atomic (d.effect (delete_where where_)) s tt
        (exec_statement d (delete_where where_) tt) o
        (exec_statement-Works (delete_where where_) tt),
  )
