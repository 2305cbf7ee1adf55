-- ===== src/Parameter.antt =====
-- The map of typed values of hikyuu/utilities/Parameter.h and Parameter.cpp. A `boost::any` is a value with
-- its type. Floating-point numbers, Datetime and TimeDelta are parameters; a name is the list of its bytes,
-- and the map an association list with one entry for each name.
pub mod Typed
pub mod Values
pub mod Stream
use hku_utils.Base.{
  ℕ, ◌^◌, List, [], ◌∷◌, Option, none, some, Bool, true, false, not, ◌&&◌, ◌||◌, if◌then◌else◌, ◌≡◌,
  subst, ℕ_discrete,
}
use hku_utils.Base.Int.{ℤ, pos, negsuc, leb_ℤ}
use hku_utils.Base.Assoc.{modify}
use mathlib.Core.List.{lookup}

abbrev pub Name : Type 0
Name = List ℕ

unfoldable pub name-discrete : Discrete Name
name-discrete = hlevel (ℕ_discrete)

-- What `typeid` may give; `unsupported` is any type that the class does not know.
pub data Ty : Type 0 where
  int : Ty
  int64 : Ty
  bool : Ty
  double : Ty
  float : Ty
  string : Ty
  datetime : Ty
  time_delta : Ty
  unsupported : Ty

unfoldable pub Ty-discrete : Discrete Ty
Ty-discrete = hlevel

-- The types that the source does not define, with the conversions between the two floating-point types.
pub record Types : Type 1 where
  pub Double : Type 0
  pub Float : Type 0
  pub Datetime : Type 0
  pub TimeDelta : Type 0
  pub Other : Type 0
  pub less : Double → Double → Bool
  -- `static_cast<double>` and `static_cast<float>`, and the limits of float as double.
  pub widen : Float → Double
  pub narrow : Double → Float
  pub float_max : Double
  pub float_min : Double
  pub narrow-widen : (x : Float) → narrow (widen x) ≡ x

-- What the calls answer: `std::out_of_range` and `std::logic_error` are the two exceptions.
pub data Answer {ℓ} (A : Type ℓ) : Type ℓ where
  answered : A → Answer A
  out_of_range : Answer A
  logic_error : Answer A

-- The texts that name a type.
pub data TypeName : Type 0 where
  int_name : TypeName
  bool_name : TypeName
  datetime_name : TypeName
  time_delta_name : TypeName
  double_name : TypeName
  string_name : TypeName
  unknown_name : TypeName

abbrev pub max_int : ℤ
max_int = pos 2147483647

abbrev pub min_int : ℤ
min_int = negsuc 2147483647

module _ (T : Types) where
  abbrev pub Value : Ty → Type 0
  Value int = ℤ
  Value int64 = ℤ
  Value bool = Bool
  Value double = T.Double
  Value float = T.Float
  Value string = List ℕ
  Value datetime = T.Datetime
  Value time_delta = T.TimeDelta
  Value unsupported = T.Other

  abbrev pub Any : Type 0
  Any = (t : Ty) × Value t

  abbrev pub Params : Type 0
  Params = List (Name × Any)

  unfoldable pub find : Name → Params → Option Any
  find name p = lookup name-discrete name p

  unfoldable pub have : Name → Params → Bool
  have name p = elim (find name p) [ none ↦ false | some a ↦ true ]

  -- `m_params[name] = value`.
  unfoldable pub put : Name → Any → Params → Params
  put name a p = if have name p then modify name-discrete name (λ b. a) p else (name, a) ∷ p

  -- The static types that `support` accepts.
  unfoldable pub support : Ty → Bool
  support unsupported = false
  support int = true
  support int64 = true
  support bool = true
  support double = true
  support float = true
  support string = true
  support datetime = true
  support time_delta = true

  unfoldable pub name_of : Ty → TypeName
  name_of int = int_name
  name_of int64 = int_name
  name_of bool = bool_name
  name_of datetime = datetime_name
  name_of time_delta = time_delta_name
  name_of double = double_name
  name_of float = double_name
  name_of string = string_name
  name_of unsupported = unknown_name

  unfoldable pub type : Name → Params → Answer TypeName
  type name p = elim (find name p) [ none ↦ out_of_range | some a ↦ answered (name_of a.0) ]

  unfoldable pub same_type : Ty → Ty → Bool
  same_type s t = elim (Ty-discrete s t) [ yes e ↦ true | no n ↦ false ]

  -- The type of the entry is that of the value.
  unfoldable pub matches : Name → Ty → Params → Bool
  matches name t p = elim (find name p) [ none ↦ false | some a ↦ same_type a.0 t ]

  -- The three specializations, which store a value of the type t without asking `support`.
  unfoldable pub set_stored : Name → (t : Ty) → Value t → Params → Answer Params
  set_stored name t x p =
      if not (have name p)
      then answered (put name (t, x) p)
      else (if not (matches name t p) then logic_error else answered (put name (t, x) p))

  unfoldable pub set_generic : (t : Ty) → Name → Value t → Params → Answer Params
  set_generic t name x p =
      if not (have name p)
      then (if not (support t) then logic_error else answered (put name (t, x) p))
      else (if not (matches name t p) then logic_error else answered (put name (t, x) p))

  -- `set<ValueType>`: an int is stored as an int64_t and a float as a double.
  unfoldable pub set : (t : Ty) → Name → Value t → Params → Answer Params
  set int name x p = set_stored name int64 x p
  set float name x p = set_stored name double (T.widen x) p
  set int64 name x p = set_generic int64 name x p
  set bool name x p = set_generic bool name x p
  set double name x p = set_generic double name x p
  set string name x p = set_generic string name x p
  set datetime name x p = set_generic datetime name x p
  set time_delta name x p = set_generic time_delta name x p
  set unsupported name x p = set_generic unsupported name x p

  unfoldable pub set_any : Name → Any → Params → Answer Params
  set_any name a p = set_stored name a.0 a.1 p

  unfoldable pub cast_if : (t : Ty) (a : Any) → Dec (a.0 ≡ t) → Option (Value t)
  cast_if t a (yes e) = some (subst Value e a.1)
  cast_if t a (no n) = none

  -- `boost::any_cast`, which throws on another type.
  unfoldable pub any_cast : (t : Ty) → Any → Option (Value t)
  any_cast t a = cast_if t a (Ty-discrete a.0 t)

  unfoldable pub or_throw : (t : Ty) → Option (Value t) → Answer (Value t)
  or_throw t none = logic_error
  or_throw t (some x) = answered x

  unfoldable pub cast_or_throw : (t : Ty) → Option Any → Answer (Value t)
  cast_or_throw t none = out_of_range
  cast_or_throw t (some a) = or_throw t (any_cast t a)

  unfoldable pub get_stored : (t : Ty) → Name → Params → Answer (Value t)
  get_stored t name p = cast_or_throw t (find name p)

  unfoldable pub to_int : Answer ℤ → Answer ℤ
  to_int out_of_range = out_of_range
  to_int logic_error = logic_error
  to_int (answered x) =
      if not (leb_ℤ x max_int) || not (leb_ℤ min_int x) then out_of_range else answered x

  unfoldable pub to_float : Answer T.Double → Answer T.Float
  to_float out_of_range = out_of_range
  to_float logic_error = logic_error
  to_float (answered x) =
      if T.less T.float_max x || T.less x T.float_min then out_of_range else answered (T.narrow x)

  unfoldable pub get : (t : Ty) → Name → Params → Answer (Value t)
  get int name p = to_int (get_stored int64 name p)
  get float name p = to_float (get_stored double name p)
  get int64 name p = get_stored int64 name p
  get bool name p = get_stored bool name p
  get double name p = get_stored double name p
  get string name p = get_stored string name p
  get datetime name p = get_stored datetime name p
  get time_delta name p = get_stored time_delta name p
  get unsupported name p = get_stored unsupported name p

  unfoldable pub get_any : Name → Params → Answer Any
  get_any name p = elim (find name p) [ none ↦ out_of_range | some a ↦ answered a ]

  -- `tryGetParam` of PARAMETER_SUPPORT.
  unfoldable pub try_get_param : (t : Ty) → Name → Value t → Params → Value t
  try_get_param t name default_val p = elim (get t name p) [
    | answered x ↦ x
    | out_of_range ↦ default_val
    | logic_error ↦ default_val
  ]

  unfoldable pub set_answer : (t : Ty) → Name → Answer (Value t) → Params → Answer Params
  set_answer t name (answered x) p = set t name x p
  set_answer t name out_of_range p = out_of_range
  set_answer t name logic_error p = logic_error

  unfoldable pub init_single_param : (t : Ty) → Params → Name → Value t → Params → Answer Params
  init_single_param t param name default_value p =
      if have name param then set_answer t name (get t name param) p else set t name default_value p

  unfoldable pub get_again : (t : Ty) → Name → Params → Answer Params → Params × Answer (Value t)
  get_again t name p (answered q) = (q, get t name q)
  get_again t name p out_of_range = (p, out_of_range)
  get_again t name p logic_error = (p, logic_error)

  unfoldable pub get_param_from_other :
      (t : Ty) → Params → Name → Value t → Params → Params × Answer (Value t)
  get_param_from_other t other name default_value p =
      get_again t name p (init_single_param t other name default_value p)
