-- ===== src/Parameter/Stream.antt =====
-- The two `serialize` of hikyuu/utilities/Parameter.h, over an archive of the YAS library.
pub mod RoundTrip
use hku_utils.Base.{
  ℕ, zero, suc, List, [], ◌∷◌, ◌++◌, length, Option, none, some, Bool, true, false, ◌≡◌,
}
use hku_utils.Parameter.{
  Name, Ty, int, int64, bool, double, float, string, datetime, time_delta, unsupported, Types,
  TypeName, int_name, bool_name, datetime_name, time_delta_name, double_name, string_name,
  unknown_name, Value, Any, Params, find, put, name_of,
}

-- The objects that an archive holds, with the names that YAS_OBJECT gives them.
pub data Object (T : Types) : Type 0 where
  count : ℕ → Object T
  key : Name → Object T
  typ : TypeName → Object T
  val : (t : Ty) → Value T t → Object T

-- An archive gives back what was written, in the order of the writes. A read that throws is `none`.
pub record Archive (T : Types) : Type 1 where
  pub Stream : Type 0
  pub objects : Stream → List (Object T)
  pub write : Object T → Stream → Stream
  pub read_count : Stream → Option (ℕ × Stream)
  pub read_key : Stream → Option (Name × Stream)
  pub read_typ : Stream → Option (TypeName × Stream)
  pub read_val : (t : Ty) → Stream → Option (Value T t × Stream)
  pub written : (o : Object T) (s : Stream) → objects (write o s) ≡ objects s ++ (o ∷ [])
  pub count_read :
      (n : ℕ) (rest : List (Object T)) (s : Stream)
      → objects s ≡ count n ∷ rest
      → (t : Stream) × (read_count s ≡ some (n, t)) × (objects t ≡ rest)
  pub key_read :
      (name : Name) (rest : List (Object T)) (s : Stream)
      → objects s ≡ key name ∷ rest
      → (t : Stream) × (read_key s ≡ some (name, t)) × (objects t ≡ rest)
  pub typ_read :
      (name : TypeName) (rest : List (Object T)) (s : Stream)
      → objects s ≡ typ name ∷ rest
      → (t : Stream) × (read_typ s ≡ some (name, t)) × (objects t ≡ rest)
  pub val_read :
      (ty : Ty) (x : Value T ty) (rest : List (Object T)) (s : Stream)
      → objects s ≡ val ty x ∷ rest
      → (t : Stream) × (read_val ty s ≡ some (x, t)) × (objects t ≡ rest)

module _ {T : Types} (a : Archive T) where
  unfoldable pub save_item : TypeName → (t : Ty) → Value T t → a.Stream → a.Stream
  save_item name t x s = a.write (val t x) (a.write (typ name) s)

  -- The types without a branch write their key only.
  unfoldable pub save_value : (t : Ty) → Value T t → a.Stream → a.Stream
  save_value int64 x s = save_item int_name int64 x s
  save_value bool x s = save_item bool_name bool x s
  save_value double x s = save_item double_name double x s
  save_value string x s = save_item string_name string x s
  save_value int x s = s
  save_value float x s = s
  save_value datetime x s = s
  save_value time_delta x s = s
  save_value unsupported x s = s

  unfoldable pub save_items : Params T → a.Stream → a.Stream
  save_items [] s = s
  save_items (e ∷ p) s = save_items p (save_value e.1.0 e.1.1 (a.write (key e.0) s))

  unfoldable pub serialize : Params T → a.Stream → a.Stream
  serialize p s = save_items p (a.write (count (length p)) s)

  -- What a load leaves, or `none` where the archive throws.
  abbrev pub Loaded : Type 0
  Loaded = Option (Params T × a.Stream)

  unfoldable pub put_val : (t : Ty) → Name → Params T → Option (Value T t × a.Stream) → Loaded
  put_val t name p none = none
  put_val t name p (some (x, s)) = some (put T name (t, x) p, s)

  unfoldable pub load_item : (t : Ty) → Name → Params T → a.Stream → Loaded
  load_item t name p s = put_val t name p (a.read_val t s)

  unfoldable pub load_value : Name → Params T → Option (TypeName × a.Stream) → Loaded
  load_value name p none = none
  load_value name p (some (int_name, s)) = load_item int64 name p s
  load_value name p (some (bool_name, s)) = load_item bool name p s
  load_value name p (some (double_name, s)) = load_item double name p s
  load_value name p (some (string_name, s)) = load_item string name p s
  load_value name p (some (datetime_name, s)) = some (p, s)
  load_value name p (some (time_delta_name, s)) = some (p, s)
  load_value name p (some (unknown_name, s)) = some (p, s)

  unfoldable pub load_named : Params T → Option (Name × a.Stream) → Loaded
  load_named p none = none
  load_named p (some (name, s)) = load_value name p (a.read_typ s)

  unfoldable pub and_then : (Params T → a.Stream → Loaded) → Loaded → Loaded
  and_then rest none = none
  and_then rest (some (p, s)) = rest p s

  unfoldable pub load_items : ℕ → Params T → a.Stream → Loaded
  load_items zero p s = some (p, s)
  load_items (suc n) p s = and_then (load_items n) (load_named p (a.read_key s))

  unfoldable pub load_counted : Params T → Option (ℕ × a.Stream) → Loaded
  load_counted p none = none
  load_counted p (some (total, s)) = load_items total p s

  unfoldable pub deserialize : Params T → a.Stream → Loaded
  deserialize p s = load_counted p (a.read_count s)
