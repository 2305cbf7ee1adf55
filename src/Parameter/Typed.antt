-- ===== src/Parameter/Typed.antt =====
-- The types of the values in hikyuu/utilities/Parameter.h.
use hku_utils.Base.{
  List, [], ◌∷◌, none, some, Bool, true, false, not, if◌then◌else◌, ◌≡◌, ◌≢◌, refl, sym, ap, subst,
  ◌∙◌, ◌⊎◌, inl, inr, Bool-cases, Option-cases, arith,
}
use hku_utils.Base.Assoc.{lookup-modify_self, lookup-modify_ne, lookup-cons_self, lookup-cons_ne}
use hku_utils.Parameter.{
  Name, name-discrete, Ty, int, int64, bool, double, float, string, datetime, time_delta,
  unsupported, Ty-discrete, Types, Answer, answered, out_of_range, logic_error, Value, Any, Params,
  find, have, put, support, same_type, matches, set_stored, set_generic, set, set_any,
}

-- The type that a value is stored with.
abbrev pub stored_type : Ty → Ty
stored_type int = int64
stored_type float = double
stored_type int64 = int64
stored_type bool = bool
stored_type double = double
stored_type string = string
stored_type datetime = datetime
stored_type time_delta = time_delta
stored_type unsupported = unsupported

module _ (T : Types) where
  abbrev pub stored : (t : Ty) → Value T t → Value T (stored_type t)
  stored int x = x
  stored float x = T.widen x
  stored int64 x = x
  stored bool x = x
  stored double x = x
  stored string x = x
  stored datetime x = x
  stored time_delta x = x
  stored unsupported x = x

  pub found→have :
      (name : Name) (p : Params T) (a : Any T) → find T name p ≡ some a → have T name p ≡ true
  unfolding have
  found→have name p a e = rw (have, e)

  pub missing→have : (name : Name) (p : Params T) → find T name p ≡ none → have T name p ≡ false
  unfolding have
  missing→have name p e = rw (have, e)

  pub find-put_self :
      (name : Name) (a : Any T) (p : Params T) → find T name (put T name a p) ≡ some a
  unfolding put find
  find-put_self name a p = elim (Option-cases (find T name p)) [
    | inl e ↦ rw (missing→have name p e) (lookup-cons_self name-discrete name a p)
    | inr (b, e) ↦ rw (found→have name p b e) (lookup-modify_self name-discrete name (λ b. a) p b e)
  ]

  pub find-put_ne :
      (name other : Name) (a : Any T) (p : Params T)
      → other ≢ name
      → find T other (put T name a p) ≡ find T other p
  unfolding put find
  find-put_ne name other a p n = elim (Bool-cases (have T name p)) [
    | inl e ↦ rw (e) (lookup-modify_ne name-discrete name other (λ b. a) p n)
    | inr e ↦ rw (e) (lookup-cons_ne name-discrete name other a p n)
  ]

  same_type→eq : (s t : Ty) → same_type T s t ≡ true → s ≡ t
  unfolding same_type
  same_type→eq s t e = elim (Ty-discrete s t) [ yes q ↦ q | no n ↦ ground arith ]

  eq→same_type : (s t : Ty) → s ≡ t → same_type T s t ≡ true
  unfolding same_type
  eq→same_type s t e = elim (Ty-discrete s t) [ yes q ↦ ground arith | no n ↦ absurd (n e) ]

  -- A set makes an error or the same as a set that asks for the stored type alone.
  pub set-cases :
      (t : Ty) (name : Name) (x : Value T t) (p : Params T)
      → (set T t name x p ≡ logic_error)
        ⊎ (set T t name x p ≡ set_stored T name (stored_type t) (stored t x) p)
  unfolding set set_generic set_stored support
  set-cases int name x p = inr refl
  set-cases float name x p = inr refl
  set-cases int64 name x p = inr refl
  set-cases bool name x p = inr refl
  set-cases double name x p = inr refl
  set-cases string name x p = inr refl
  set-cases datetime name x p = inr refl
  set-cases time_delta name x p = inr refl
  set-cases unsupported name x p = elim (Bool-cases (have T name p)) [
    | inl e ↦ inr (rw (e))
    | inr e ↦ inl (rw (e))
  ]

  -- What a set that succeeds has met and made.
  abbrev pub Put : Name → (t : Ty) → Value T t → Params T → Params T → Type 0
  Put name t x p q = (q ≡ put T name (t, x) p) × ((a : Any T) → find T name p ≡ some a → a.0 ≡ t)

  matches→eq :
      (name : Name) (t : Ty) (p : Params T)
      → matches T name t p ≡ true
      → (a : Any T) → find T name p ≡ some a
      → a.0 ≡ t
  unfolding matches
  matches→eq name t p m a e =
      same_type→eq a.0 t
        (subst (λ o. elim o [ none ↦ false | some b ↦ same_type T b.0 t ] ≡ true) e m)

  eq→matches :
      (name : Name) (t : Ty) (p : Params T) (a : Any T)
      → find T name p ≡ some a
      → a.0 ≡ t
      → matches T name t p ≡ true
  unfolding matches
  eq→matches name t p a e h = rw (matches, e) (eq→same_type a.0 t h)

  put_if :
      (h m : Bool) (q r : Params T)
      → (if not h then answered r else (if not m then logic_error else answered r)) ≡ answered q
      → (q ≡ r) × (h ≡ true → m ≡ true)
  put_if false m q r e = (cc, λ h. cc)
  put_if true true q r e = (cc, λ h. refl)
  put_if true false q r e = cc

  pub set_stored-Put :
      (name : Name) (t : Ty) (x : Value T t) (p q : Params T)
      → set_stored T name t x p ≡ answered q
      → Put name t x p q
  unfolding set_stored
  set_stored-Put name t x p q e =
      let w = put_if (have T name p) (matches T name t p) q (put T name (t, x) p) e in
      (w.0, λ a f. matches→eq name t p (w.1 (found→have name p a f)) a f)

  -- Every entry is there still, with a value of the same type.
  abbrev pub Kept : Params T → Params T → Type 0
  Kept p q =
      (name : Name) (a : Any T)
      → find T name p ≡ some a
      → (b : Any T) × (find T name q ≡ some b) × (b.0 ≡ a.0)

  set_stored-Kept :
      (name : Name) (t : Ty) (x : Value T t) (p q : Params T)
      → set_stored T name t x p ≡ answered q
      → Kept p q
  set_stored-Kept name t x p q e other a f =
      let w = set_stored-Put name t x p q e in
      elim (name-discrete other name) [
        | yes same ↦ (
          (t, x),
          ap (λ r. find T other r) w.0
              ∙ ap (λ n. find T n (put T name (t, x) p)) same
              ∙ find-put_self name (t, x) p,
          sym (w.1 a (sym (ap (λ n. find T n p) same) ∙ f)),
        )
        | no ne ↦ (a, ap (λ r. find T other r) w.0 ∙ find-put_ne name other (t, x) p ne ∙ f, refl)
      ]

  set-Kept :
      (t : Ty) (name : Name) (x : Value T t) (p q : Params T)
      → set T t name x p ≡ answered q
      → Kept p q
  set-Kept t name x p q e = elim (set-cases t name x p) [
    | inl f ↦ cc
    | inr f ↦ set_stored-Kept name (stored_type t) (stored t x) p q (sym f ∙ e)
  ]

  -- The calls that change the map.
  pub data Call : Type 0 where
    set_call : (t : Ty) → Name → Value T t → Call
    set_any_call : Name → Any T → Call

  pub keep : Answer (Params T) → Params T → Params T
  keep (answered q) p = q
  keep out_of_range p = p
  keep logic_error p = p

  -- A call that throws leaves the map as it is.
  unfoldable pub step : Call → Params T → Params T
  step (set_call t name x) p = keep (set T t name x p) p
  step (set_any_call name a) p = keep (set_any T name a p) p

  unfoldable pub run : List Call → Params T → Params T
  run [] p = p
  run (c ∷ calls) p = run calls (step c p)

  keep-Kept :
      (r : Answer (Params T)) (p : Params T)
      → ((q : Params T) → r ≡ answered q → Kept p q)
      → Kept p (keep r p)
  unfolding keep
  keep-Kept (answered q) p kept = kept q refl
  keep-Kept out_of_range p kept = λ name a f. (a, f, refl)
  keep-Kept logic_error p kept = λ name a f. (a, f, refl)

  step-Kept : (c : Call) (p : Params T) → Kept p (step c p)
  unfolding step set_any
  step-Kept (set_call t name x) p = keep-Kept (set T t name x p) p (set-Kept t name x p)
  step-Kept (set_any_call name a) p =
      keep-Kept (set_stored T name a.0 a.1 p) p (set_stored-Kept name a.0 a.1 p)

  -- A parameter keeps the type that it was first set with, whatever is set later, under its own name or
  -- another, with a static type or as a boost::any.
  pub run-Kept :
      (calls : List Call) (p : Params T) (name : Name) (a : Any T)
      → find T name p ≡ some a
      → (b : Any T) × (find T name (run calls p) ≡ some b) × (b.0 ≡ a.0)
  unfolding run
  run-Kept [] p name a f = (a, f, refl)
  run-Kept (c ∷ calls) p name a f =
      let b = step-Kept c p name a f in
      let k = run-Kept calls (step c p) name b.0 b.1 in (k.0, k.1, k.2 ∙ b.2)
