-- ===== src/Tests/ParamRuns.antt =====
-- Runs of hikyuu/utilities/Parameter.h with floating-point numbers that are whole multiples of the smallest
-- positive float, and with an archive that is a list.
use hku_utils.Base.{
  ℕ, ℕ_discrete, List, [], ◌∷◌, ◌++◌, Option, none, some, Bool, true, false, not, ◌≡◌, ◌≢◌, refl,
  sym, ap, ◌∙◌,
}
use hku_utils.Base.Int.{ℤ, pos, leb_ℤ}
use hku_utils.Parameter.{
  Name, name-discrete, Ty, int, int64, bool, double, float, Ty-discrete, Types, answered,
  out_of_range, logic_error, TypeName, Value, Any, Params, find, have, put, same_type, matches,
  set_stored, set, any_cast, cast_if, or_throw, cast_or_throw, get_stored, to_float, get,
}
use hku_utils.Parameter.Typed.{set_call, run, run-Kept}
use hku_utils.Parameter.Values.{any_cast_self, get-set, other_type-logic_error}
use hku_utils.Parameter.Stream.{Object, count, key, typ, val, Archive, deserialize, serialize}
use hku_utils.Parameter.Stream.RoundTrip.{first, deserialize-serialize}
use mathlib.Core.List.{lookup}

abbrev types : Types
types = record {
  Double = ℤ;
  Float = ℤ;
  Datetime = ℕ;
  TimeDelta = ℤ;
  Other = Unit;
  less = λ x y. not (leb_ℤ y x);
  widen = λ x. x;
  narrow = λ x. x;
  float_max = pos 1000000;
  float_min = pos 1;
  narrow-widen = λ x. refl;
}

abbrev n_name : Name
n_name = 110 ∷ []

abbrev f_name : Name
f_name = 102 ∷ []

-- n is 10.
abbrev ten : Params types
ten = (n_name, (int64, pos 10)) ∷ []

-- A float that is 0 can be set, and its get throws.
zero_float : get types float f_name ((f_name, (double, pos 0)) ∷ ten) ≡ out_of_range
unfolding get to_float get_stored cast_or_throw or_throw any_cast cast_if find lookup name-discrete
    Ty-discrete ℕ_discrete
zero_float = refl

n_found : find types n_name ten ≡ some (int64, pos 10)
unfolding find lookup name-discrete ℕ_discrete
n_found = refl

run-Kept_example :
    (b : Any types) × (find types n_name
        (run types (set_call bool n_name true ∷ set_call int n_name (pos 3) ∷ []) ten)
      ≡ some b)
    × (b.0 ≡ int64)
run-Kept_example =
    run-Kept types (set_call bool n_name true ∷ set_call int n_name (pos 3) ∷ []) ten n_name
      (int64, pos 10) n_found

three_set : set types int n_name (pos 3) ten ≡ answered ((n_name, (int64, pos 3)) ∷ [])
unfolding set set_stored have matches same_type put find lookup name-discrete Ty-discrete
    hku_utils.Base.Assoc.modify ℕ_discrete
three_set = refl

get-set_example :
    (get types int n_name ((n_name, (int64, pos 3)) ∷ []) ≡ answered (pos 3))
    × ((other : Name)
        → other ≢ n_name
        → find types other ((n_name, (int64, pos 3)) ∷ []) ≡ find types other ten)
get-set_example =
    get-set types int n_name (pos 3) ten ((n_name, (int64, pos 3)) ∷ []) three_set (refl, refl)

int64-ne-bool : int64 ≢ bool
int64-ne-bool e = cc

other_type-logic_error_example :
    (set types bool n_name true ten ≡ logic_error) × (get types bool n_name ten ≡ logic_error)
other_type-logic_error_example =
    other_type-logic_error types bool n_name true ten (int64, pos 10) n_found int64-ne-bool

abbrev Objects : Type 0
Objects = List (Object types)

abbrev read_count : Objects → Option (ℕ × Objects)
read_count (count n ∷ rest) = some (n, rest)
read_count s = none

abbrev read_key : Objects → Option (Name × Objects)
read_key (key name ∷ rest) = some (name, rest)
read_key s = none

abbrev read_typ : Objects → Option (TypeName × Objects)
read_typ (typ name ∷ rest) = some (name, rest)
read_typ s = none

abbrev cast_val : (t : Ty) → Option (Value types t) → Objects → Option (Value types t × Objects)
cast_val t none rest = none
cast_val t (some x) rest = some (x, rest)

abbrev read_val : (t : Ty) → Objects → Option (Value types t × Objects)
read_val t (val s x ∷ rest) = cast_val t (any_cast types t (s, x)) rest
read_val t s = none

abbrev archive : Archive types
archive = record {
  Stream = Objects;
  objects = λ s. s;
  write = λ o s. s ++ (o ∷ []);
  read_count = read_count;
  read_key = read_key;
  read_typ = read_typ;
  read_val = read_val;
  written = λ o s. refl;
  count_read = λ n rest s e. (rest, ap read_count e, refl);
  key_read = λ name rest s e. (rest, ap read_key e, refl);
  typ_read = λ name rest s e. (rest, ap read_typ e, refl);
  val_read = λ t x rest s e.
      (rest, ap (read_val t) e ∙ ap (λ o. cast_val t o rest) (any_cast_self types t x), refl);
}

none_found : find types n_name [] ≡ none
unfolding find lookup
none_found = refl

deserialize-serialize_example :
    (q : Params types) × (t : Objects) × (deserialize archive [] (serialize archive ten [])
      ≡ some (q, t))
    × (t ≡ [])
    × ((name : Name) → find types name q ≡ first archive (find types name ten) (find types name []))
deserialize-serialize_example = deserialize-serialize archive ten [] [] (none_found, refl, tt) refl
