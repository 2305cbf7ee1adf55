-- ===== src/Parameter/Values.antt =====
-- What a parameter of hikyuu/utilities/Parameter.h gives back.
use hku_utils.Base.{
  none, some, Bool, true, false, not, if◌then◌else◌, ◌≡◌, ◌≢◌, refl, sym, ap, subst, ◌∙◌, inl, inr,
}
use mathlib.Core.Path.{subst_refl}
use hku_utils.Base.Int.{leb_ℤ}
use hku_utils.Parameter.{
  Name, Ty, int, int64, bool, double, float, string, datetime, time_delta, unsupported, Ty-discrete,
  Types, Answer, answered, out_of_range, logic_error, min_int, max_int, Value, Any, Params, find,
  have, matches, set_stored, set, any_cast, cast_if, or_throw, cast_or_throw, get_stored, to_int,
  to_float, get,
}
use hku_utils.Parameter.Typed.{
  stored_type, stored, Put, find-put_self, find-put_ne, set-cases, set_stored-Put,
}

Ty-set : IsSet Ty
Ty-set = hlevel

module _ (T : Types) where
  cast_if-yes : (t : Ty) (x : Value T t) (d : Dec (t ≡ t)) → cast_if T t (t, x) d ≡ some x
  unfolding cast_if
  cast_if-yes t x (yes e) =
      ap (λ q. some (subst (Value T) q x)) (Ty-set t t e refl)
      ∙ ap (λ y. some y) (subst_refl (Value T) x)
  cast_if-yes t x (no n) = absurd (n refl)

  cast_if-no : (t : Ty) (a : Any T) (d : Dec (a.0 ≡ t)) → a.0 ≢ t → cast_if T t a d ≡ none
  unfolding cast_if
  cast_if-no t a (yes e) n = absurd (n e)
  cast_if-no t a (no m) n = refl

  pub any_cast_self : (t : Ty) (x : Value T t) → any_cast T t (t, x) ≡ some x
  unfolding any_cast
  any_cast_self t x = cast_if-yes t x (Ty-discrete t t)

  found_stored :
      (t : Ty) (name : Name) (x : Value T t) (p : Params T)
      → find T name p ≡ some (t, x)
      → get_stored T t name p ≡ answered x
  unfolding get_stored cast_or_throw any_cast or_throw
  found_stored t name x p e =
      ap (λ o. cast_or_throw T t o) e ∙ ap (λ o. or_throw T t o) (any_cast_self t x)

  found_other :
      (t : Ty) (name : Name) (a : Any T) (p : Params T)
      → find T name p ≡ some a
      → a.0 ≢ t
      → get_stored T t name p ≡ logic_error
  unfolding get_stored cast_or_throw any_cast or_throw
  found_other t name a p e n =
      ap (λ o. cast_or_throw T t o) e
      ∙ ap (λ o. or_throw T t o) (cast_if-no t a (Ty-discrete a.0 t) n)

  -- The values that a get of their type can give: an int within the limits, and a float between the limits
  -- that the code compares with.
  abbrev pub Fits : (t : Ty) → Value T t → Type 0
  Fits int x = (leb_ℤ min_int x ≡ true) × (leb_ℤ x max_int ≡ true)
  Fits float x = (T.less T.float_max (T.widen x) ≡ false) × (T.less (T.widen x) T.float_min ≡ false)
  Fits int64 x = Unit
  Fits bool x = Unit
  Fits double x = Unit
  Fits string x = Unit
  Fits datetime x = Unit
  Fits time_delta x = Unit
  Fits unsupported x = Unit

  to_int-answered :
      (x : Value T int) (r : Answer (Value T int64))
      → Fits int x
      → r ≡ answered x
      → to_int T r ≡ answered x
  unfolding to_int
  to_int-answered x r f e = rw (e, f.0, f.1) refl

  to_float-answered :
      (x : Value T float) (r : Answer (Value T double))
      → Fits float x
      → r ≡ answered (T.widen x)
      → to_float T r ≡ answered x
  unfolding to_float
  to_float-answered x r f e = rw (e, f.0, f.1) (ap (λ y. answered y) (T.narrow-widen x))

  get_of_stored :
      (t : Ty) (name : Name) (x : Value T t) (p : Params T)
      → Fits t x
      → find T name p ≡ some (stored_type t, stored T t x)
      → get T t name p ≡ answered x
  unfolding get
  get_of_stored int name x p f e = to_int-answered x _ f (found_stored int64 name x p e)
  get_of_stored float name x p f e =
      to_float-answered x _ f (found_stored double name (T.widen x) p e)
  get_of_stored int64 name x p f e = found_stored int64 name x p e
  get_of_stored bool name x p f e = found_stored bool name x p e
  get_of_stored double name x p f e = found_stored double name x p e
  get_of_stored string name x p f e = found_stored string name x p e
  get_of_stored datetime name x p f e = found_stored datetime name x p e
  get_of_stored time_delta name x p f e = found_stored time_delta name x p e
  get_of_stored unsupported name x p f e = found_stored unsupported name x p e

  set-stored :
      (t : Ty) (name : Name) (x : Value T t) (p q : Params T)
      → set T t name x p ≡ answered q
      → Put T name (stored_type t) (stored T t x) p q
  set-stored t name x p q e = elim (set-cases T t name x p) [
    | inl f ↦ cc
    | inr f ↦ set_stored-Put T name (stored_type t) (stored T t x) p q (sym f ∙ e)
  ]

  -- After a set that has not thrown, a get of the same type answers the value, where a float and an int lie
  -- within the limits that the code asks for; the entries under the other names are as before.
  pub get-set :
      (t : Ty) (name : Name) (x : Value T t) (p q : Params T)
      → set T t name x p ≡ answered q
      → Fits t x
      → (get T t name q ≡ answered x)
        × ((other : Name) → other ≢ name → find T other q ≡ find T other p)
  get-set t name x p q e f =
      let w = (set-stored t name x p q e).0 in
      (
        get_of_stored t name x q f (ap (λ r. find T name r) w ∙ find-put_self T name _ p),
        λ other n. ap (λ r. find T other r) w ∙ find-put_ne T name other _ p n,
      )

  to_int-logic_error : (r : Answer (Value T int64)) → r ≡ logic_error → to_int T r ≡ logic_error
  unfolding to_int
  to_int-logic_error r e = rw (e) refl

  to_float-logic_error :
      (r : Answer (Value T double)) → r ≡ logic_error → to_float T r ≡ logic_error
  unfolding to_float
  to_float-logic_error r e = rw (e) refl

  get_of_other :
      (t : Ty) (name : Name) (a : Any T) (p : Params T)
      → find T name p ≡ some a
      → a.0 ≢ stored_type t
      → get T t name p ≡ logic_error
  unfolding get
  get_of_other int name a p e n = to_int-logic_error _ (found_other int64 name a p e n)
  get_of_other float name a p e n = to_float-logic_error _ (found_other double name a p e n)
  get_of_other int64 name a p e n = found_other int64 name a p e n
  get_of_other bool name a p e n = found_other bool name a p e n
  get_of_other double name a p e n = found_other double name a p e n
  get_of_other string name a p e n = found_other string name a p e n
  get_of_other datetime name a p e n = found_other datetime name a p e n
  get_of_other time_delta name a p e n = found_other time_delta name a p e n
  get_of_other unsupported name a p e n = found_other unsupported name a p e n

  never_range :
      (h m : Bool) (r : Params T)
      → (if not h then answered r else (if not m then logic_error else answered r)) ≢ out_of_range
  never_range false m r e = cc
  never_range true true r e = cc
  never_range true false r e = cc

  set-never_range :
      (t : Ty) (name : Name) (x : Value T t) (p : Params T) → set T t name x p ≢ out_of_range
  unfolding set_stored
  set-never_range t name x p e = elim (set-cases T t name x p) [
    | inl f ↦ cc
    | inr f ↦ never_range (have T name p) (matches T name (stored_type t) p) _ (sym f ∙ e)
  ]

  set_of_other :
      (t : Ty) (name : Name) (x : Value T t) (p : Params T) (a : Any T)
      → find T name p ≡ some a
      → a.0 ≢ stored_type t
      → (r : Answer (Params T)) → set T t name x p ≡ r
      → r ≡ logic_error
  set_of_other t name x p a e n (answered q) s = absurd (n ((set-stored t name x p q s).1 a e))
  set_of_other t name x p a e n out_of_range s = absurd (set-never_range t name x p s)
  set_of_other t name x p a e n logic_error s = refl

  -- Under a name that holds a value of another type, set and get throw std::logic_error.
  pub other_type-logic_error :
      (t : Ty) (name : Name) (x : Value T t) (p : Params T) (a : Any T)
      → find T name p ≡ some a
      → a.0 ≢ stored_type t
      → (set T t name x p ≡ logic_error) × (get T t name p ≡ logic_error)
  other_type-logic_error t name x p a e n =
      (set_of_other t name x p a e n _ refl, get_of_other t name a p e n)
