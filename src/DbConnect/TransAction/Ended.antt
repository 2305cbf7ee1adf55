-- ===== src/DbConnect/TransAction/Ended.antt =====
-- What a block that uses a TransAction of hikyuu/utilities/db_connect/AutoTransAction.h stores.
use hku_utils.Base.{
  List, [], ◌∷◌, Bool, true, false, not, ◌&&◌, ◌≡◌, refl, sym, ap, subst, ◌∙◌, ◌⊎◌, inl, inr,
  Bool-cases,
}
use hku_utils.DbConnect.Sql.{Driver, Statement, Reply, succeeds, throws}
use hku_utils.DbConnect.{Outcome, done, thrown}
use hku_utils.DbConnect.TransAction.{
  TransAction, Called, Use, begins, ends, execs, begun, begin, ended, end, executed, destroy,
  use_once, after_use, block, constructed, life, Stores, over, left, again, start, stop, exec_in,
  exec_out,
}

module _ {A C : Type 0} (d : Driver A C) where
  -- The object in a transaction, and out of one.
  abbrev In : Bool → C → C → TransAction d → Type 0
  In true durable pending t =
      (t.started ≡ true)
      × (t.committed ≡ false)
      × (d.open_ t.driver ≡ true)
      × (d.stored t.driver ≡ durable)
      × (d.working t.driver ≡ pending)
  In false durable pending t =
      (t.started ≡ false) × (d.open_ t.driver ≡ false) × (d.stored t.driver ≡ durable)

  -- What one use makes: an exception that has stored nothing, or contents that the rest goes on from.
  abbrev Step : Use A → List (Use A) → Bool → C → C → Called d → Type 0
  Step u uses active durable pending r =
      ((r.0 ≡ thrown) × (d.stored r.1.driver ≡ durable))
      ⊎ ((r.0 ≡ done)
          × (a : Bool) × (k : C) × (p : C) × In a k p r.1
          × ((o : Outcome) (c : C)
              → Stores d uses k p a o c
              → Stores d (u ∷ uses) durable pending active o c))

  destroy-stored : (t : TransAction d) → d.stored (destroy d t) ≡ d.stored t.driver
  unfolding destroy
  destroy-stored t = elim (Bool-cases (t.started && not t.committed)) [
    | inl e ↦ rw (e) ((d.rollback_ends t.driver).1)
    | inr e ↦ rw (e)
  ]

  In-stored :
      (active : Bool) (k p : C) (t : TransAction d) → In active k p t → d.stored t.driver ≡ k
  In-stored true k p t h = h.3
  In-stored false k p t h = h.2

  begun-Step :
      (uses : List (Use A)) (k p : C) (t : TransAction d) (r : Reply × d.State)
      → In false k p t
      → d.transaction t.driver ≡ r
      → Step begins uses false k p (begun d t r)
  unfolding begun
  begun-Step uses k p t (succeeds n, s) h e =
      let w = d.transaction_starts t.driver s n h.1 e in
      inr (refl, true, k, k, (refl, refl, w.0, w.1 ∙ h.2, w.2 ∙ h.2), λ o c. start uses k p o c)
  begun-Step uses k p t (throws, s) h e =
      inl (refl, ap (λ u. d.stored u) (d.transaction_throws t.driver s e) ∙ h.2)

  begin-Step :
      (uses : List (Use A)) (active : Bool) (k p : C) (t : TransAction d)
      → In active k p t
      → Step begins uses active k p (begin d t)
  unfolding begin
  begin-Step uses true k p t h = simp (h.0) (inr (refl, true, k, p, h, λ o c. again uses k p o c))
  begin-Step uses false k p t h = simp (h.0) (begun-Step uses k p t (d.transaction t.driver) h refl)

  ended-Step :
      (uses : List (Use A)) (k p : C) (t : TransAction d) (r : Reply × d.State)
      → In true k p t
      → d.commit t.driver ≡ r
      → Step ends uses true k p (ended d t r)
  unfolding ended
  ended-Step uses k p t (succeeds n, s) h e =
      let w = d.commit_stores t.driver s n h.2 e in
      inr (refl, false, p, p, (refl, w.0, w.1 ∙ h.4), λ o c. stop uses k p o c)
  ended-Step uses k p t (throws, s) h e = inl (refl, d.commit_throws t.driver s e ∙ h.3)

  end-Step :
      (uses : List (Use A)) (active : Bool) (k p : C) (t : TransAction d)
      → In active k p t
      → Step ends uses active k p (end d t)
  unfolding end
  end-Step uses true k p t h = simp (h.0, h.1) (ended-Step uses k p t (d.commit t.driver) h refl)
  end-Step uses false k p t h = simp (h.0) (inl (refl, h.2))

  executed-Step :
      (q : Statement A) (uses : List (Use A)) (active : Bool) (k p : C) (t : TransAction d)
      (r : Reply × d.State)
      → In active k p t
      → d.exec q t.driver ≡ r
      → Step (execs q) uses active k p (executed d t r)
  unfolding executed
  executed-Step q uses true k p t (succeeds n, s) h e =
      let w = d.exec_works q t.driver s n h.2 e in
      inr (
        refl,
        true,
        k,
        d.effect q p,
        (h.0, h.1, w.0, w.1 ∙ h.3, w.2 ∙ ap (d.effect q) h.4),
        λ o c. exec_in q uses k p o c,
      )
  executed-Step q uses false k p t (succeeds n, s) h e =
      let w = d.exec_alone q t.driver s n h.1 e in
      inr (
        refl,
        false,
        d.effect q k,
        p,
        (h.0, w.0, w.1 ∙ ap (d.effect q) h.2),
        λ o c. exec_out q uses k p o c,
      )
  executed-Step q uses active k p t (throws, s) h e =
      inl (refl, d.exec_throws q t.driver s e ∙ In-stored active k p t h)

  use_once-Step :
      (u : Use A) (uses : List (Use A)) (active : Bool) (k p : C) (t : TransAction d)
      → In active k p t
      → Step u uses active k p (use_once d u t)
  unfolding use_once
  use_once-Step begins uses active k p t h = begin-Step uses active k p t h
  use_once-Step ends uses active k p t h = end-Step uses active k p t h
  use_once-Step (execs q) uses active k p t h =
      executed-Step q uses active k p t (d.exec q t.driver) h refl

  after_use-Stores :
      (u : Use A) (uses : List (Use A)) (active : Bool) (k p : C)
      (rest : TransAction d → Outcome × d.State) (r : Called d)
      → ((a : Bool) (k₁ p₁ : C) (t : TransAction d)
          → In a k₁ p₁ t
          → Stores d uses k₁ p₁ a (rest t).0 (d.stored (rest t).1))
      → Step u uses active k p r
      → Stores d (u ∷ uses) k p active (after_use d rest r).0 (d.stored (after_use d rest r).1)
  unfolding after_use
  after_use-Stores u uses active k p rest (done, t) go h = elim h [
    | inl (e, w) ↦ cc
    | inr (e, a, k₁, p₁, i, up) ↦ up _ _ (go a k₁ p₁ t i)
  ]
  after_use-Stores u uses active k p rest (thrown, t) go h = elim h [
    | inr (e, a, k₁, p₁, i, up) ↦ cc
    | inl (e, w) ↦
        subst (Stores d (u ∷ uses) k p active thrown) (sym (destroy-stored t ∙ w))
          (left (u ∷ uses) k p active)
  ]

  block-Stores :
      (uses : List (Use A)) (active : Bool) (k p : C) (t : TransAction d)
      → In active k p t
      → Stores d uses k p active (block d uses t).0 (d.stored (block d uses t).1)
  unfolding block
  block-Stores [] active k p t h =
      subst (Stores d [] k p active done) (sym (destroy-stored t ∙ In-stored active k p t h))
        (over k p active)
  block-Stores (u ∷ uses) active k p t h =
      after_use-Stores u uses active k p (block d uses) (use_once d u t) (block-Stores uses)
        (use_once-Step u uses active k p t h)

  constructed-Stores :
      (uses : List (Use A)) (s : d.State) (r : Reply × d.State)
      → d.open_ s ≡ false
      → d.transaction s ≡ r
      → Stores d uses
          (d.stored s)
          (d.stored s)
          true
          (constructed d uses r).0
          (d.stored (constructed d uses r).1)
  unfolding constructed
  constructed-Stores uses s (succeeds n, t) o e =
      let w = d.transaction_starts s t n o e in
      block-Stores uses true (d.stored s) (d.stored s) _ (refl, refl, w.0, w.1, w.2)
  constructed-Stores uses s (throws, t) o e =
      subst (Stores d uses (d.stored s) (d.stored s) true thrown)
        (sym (ap (λ u. d.stored u) (d.transaction_throws s t e)))
        (left uses (d.stored s) (d.stored s) true)

  -- A block that uses a TransAction stores what it had executed at its last end, and what it executed outside
  -- of a transaction; what was not ended is not stored, whether the block runs through or an exception leaves it.
  pub life-Stores :
      (uses : List (Use A)) (s : d.State)
      → d.open_ s ≡ false
      → Stores d uses (d.stored s) (d.stored s) true (life d uses s).0 (d.stored (life d uses s).1)
  unfolding life
  life-Stores uses s o = constructed-Stores uses s (d.transaction s) o refl
