-- ===== src/IniParser.antt =====
-- The INI parser: hikyuu/utilities/ini_parser/IniParser.cpp, with `trim` and `to_upper` of
-- hikyuu/utilities/arithmetic.h. A text is the list of its bytes, a map an association list with one
-- entry for each key. A file is the list of its lines, as `std::getline` reads them.
pub mod Lines
pub mod Lookups
pub mod Trims
pub mod Options
use hku_utils.Base.{
  ℕ, ◌+◌, ◌-◌, List, [], ◌∷◌, ◌++◌, map, Option, none, some, Bool, true, false, ◌&&◌, ◌||◌, not,
  ltb, leb, ◌==◌, if◌then◌else◌, drop,
}
use mathlib.Core.List.{get_last?, drop_last}

abbrev pub Text : Type 0
Text = List ℕ

abbrev pub is_empty : Text → Bool
is_empty [] = true
is_empty (c ∷ s) = false

abbrev pub eq_text : Text → Text → Bool
eq_text [] [] = true
eq_text [] (c ∷ s) = false
eq_text (c ∷ s) [] = false
eq_text (c ∷ s) (d ∷ t) = c == d && eq_text s t

-- `s.erase(0, s.find_first_not_of(" "))`.
unfoldable pub strip_front : Text → Text
strip_front [] = []
strip_front (c ∷ s) = let rest = strip_front s in if c == b' ' then rest else c ∷ s

-- `s.erase(s.find_last_not_of(x) + 1)`.
unfoldable pub strip_back : ℕ → Text → Text
strip_back x [] = []
strip_back x (c ∷ s) = let rest = strip_back x s in if is_empty rest && c == x then [] else c ∷ rest

unfoldable pub trim : Text → Text
trim s = strip_back b'\n' (strip_back b'\r' (strip_back b' ' (strip_front s)))

-- In the "C" locale.
unfoldable pub to_upper : Text → Text
to_upper s = map (λ c. if leb b'a' c && leb c b'z' then c - 32 else c) s

-- `find(c)`: what stands before the first `c`, and after it.
unfoldable pub find : ℕ → Text → Option (Text × Text)
find x [] = none
find x (c ∷ s) = elim (find x s) [
  | none ↦ if c == x then some ([], s) else none
  | some (pre, post) ↦ if c == x then some ([], s) else some (c ∷ pre, post)
]

module _ {ℓ} {A : Type ℓ} where
  unfoldable pub lookup : Text → List (Text × A) → Option A
  lookup key [] = none
  lookup key (e ∷ m) = let rest = lookup key m in if eq_text e.0 key then some e.1 else rest

  -- `m[key] = value`.
  unfoldable pub assign : Text → A → List (Text × A) → List (Text × A)
  assign key value [] = (key, value) ∷ []
  assign key value (e ∷ m) =
      let rest = assign key value m in if eq_text e.0 key then (e.0, value) ∷ m else e ∷ rest

abbrev pub Items : Type 0
Items = List (Text × Text)

-- `m_sections`, and the variables of `read`: the section and the errors so far.
pub record Reader : Type 0 where
  pub sections : List (Text × Items)
  pub section : Text
  pub errors : List (ℕ × Text)

-- After a line. `out_of_range` is the exception of `line_str.at(0)` on an empty text.
pub data Outcome : Type 0 where
  next stop : Reader → Outcome
  out_of_range : Outcome

unfoldable pub fail : ℕ → Text → Reader → Reader
fail line_no line r = record r { errors = r.errors ++ (line_no, line) ∷ [] }

-- `m_sections[name]`: an empty section where there is none.
unfoldable pub open_section : Text → List (Text × Items) → List (Text × Items)
open_section name sections = elim (lookup name sections) [
  | none ↦ assign name [] sections
  | some items ↦ sections
]

-- `m_sections[section][key] = value`.
unfoldable pub set_option : Text → Text → Text → List (Text × Items) → List (Text × Items)
set_option section key value sections = elim (lookup section sections) [
  | none ↦ assign section ((key, value) ∷ []) sections
  | some items ↦ assign section (assign key value items) sections
]

-- A line that begins with `[`: `line` is what follows.
unfoldable pub read_section : ℕ → Text → Reader → Reader
unfolding fail
read_section line_no line r = elim (get_last? (b'[' ∷ line)) [
  | none ↦ r
  | some c ↦
      let name = trim (drop_last line) in
      if not (c == b']')
      then fail line_no (b'[' ∷ line) r
      else (if is_empty name
          then fail line_no (b'[' ∷ line) (record r { section = name })
          else record r { section = name; sections = open_section name r.sections })
]

-- The text that an error in a line without a section reports.
abbrev pub missing_header : Text
missing_header =
    b'M' ∷ b'i' ∷ b's' ∷ b's' ∷ b'i' ∷ b'n' ∷ b'g' ∷ b' ' ∷ b's' ∷ b'e' ∷ b'c' ∷ b't' ∷ b'i' ∷ b'o'
    ∷ b'n' ∷ b' ' ∷ b'h' ∷ b'e' ∷ b'a' ∷ b'd' ∷ b'e' ∷ b'r' ∷ b'!' ∷ []

unfoldable pub read_option : ℕ → Text → Reader → Outcome
unfolding fail
read_option line_no line r =
    if is_empty r.section then stop (fail line_no missing_header r) else (elim (find b'=' line) [
      | none ↦ next (fail line_no line r)
      | some (before, after) ↦
          let key = trim before in
          let value = trim after in
          next (
            if is_empty after || (is_empty key || is_empty value)
            then fail line_no line r
            else record r { sections = set_option r.section key value r.sections })
    ])

-- A line without its comment.
unfoldable pub read_content : ℕ → Text → Reader → Outcome
read_content line_no [] r = out_of_range
read_content line_no (c ∷ line) r =
    if c == b'[' then next (read_section line_no line r) else read_option line_no (c ∷ line) r

-- The comment of a trimmed line goes, and what is left is trimmed.
unfoldable pub without_comment : Text → Text
without_comment line = elim (find b';' line) [ none ↦ line | some (before, after) ↦ trim before ]

unfoldable pub read_trimmed : ℕ → Text → Reader → Outcome
read_trimmed line_no [] r = next r
read_trimmed line_no (c ∷ line) r =
    if c == b';' then next r else read_content line_no (without_comment (c ∷ line)) r

unfoldable pub read_line : ℕ → Text → Reader → Outcome
read_line line_no line r = read_trimmed line_no (trim line) r

unfoldable pub read_lines : ℕ → List Text → Reader → Outcome
unfolding read_line
read_lines line_no [] r = next r
read_lines line_no (line ∷ lines) r = elim (read_line line_no line r) [
  | next r' ↦ read_lines (line_no + 1) lines r'
  | stop r' ↦ stop r'
  | out_of_range ↦ out_of_range
]

-- The exceptions of the look-ups.
pub data Result {ℓ} (A : Type ℓ) : Type ℓ where
  ok : A → Result A
  invalid_argument domain_error : Result A

unfoldable pub has_section : List (Text × Items) → Text → Bool
has_section sections section = elim (lookup section sections) [ none ↦ false | some items ↦ true ]

unfoldable pub has_option : List (Text × Items) → Text → Text → Bool
has_option sections section option = elim (lookup section sections) [
  | none ↦ false
  | some items ↦ elim (lookup option items) [ none ↦ false | some value ↦ true ]
]

-- `get`, where the section and the option are there or not.
unfoldable pub get : List (Text × Items) → Text → Text → Text → Result Text
get sections section option default_str = elim (lookup section sections) [
  | none ↦ invalid_argument
  | some items ↦ elim (lookup option items) [
    | none ↦ if is_empty default_str then invalid_argument else ok (trim default_str)
    | some value ↦ ok value
  ]
]

abbrev pub says_true : Text → Bool
says_true s =
    eq_text s (b'T' ∷ b'R' ∷ b'U' ∷ b'E' ∷ [])
    || (eq_text s (b'Y' ∷ b'E' ∷ b'S' ∷ []) || eq_text s (b'O' ∷ b'N' ∷ []))

abbrev pub says_false : Text → Bool
says_false s =
    eq_text s (b'F' ∷ b'A' ∷ b'L' ∷ b'S' ∷ b'E' ∷ [])
    || (eq_text s (b'N' ∷ b'O' ∷ []) || eq_text s (b'O' ∷ b'F' ∷ b'F' ∷ []))

-- The check of the default of `getBool`.
unfoldable pub bool_default : Text → Result Text
bool_default s =
    if is_empty s || (eq_text s (b'1' ∷ []) || eq_text s (b'0' ∷ []))
    then ok s
    else (if says_true (to_upper s)
        then ok (b'1' ∷ [])
        else (if says_false (to_upper s) then ok (b'0' ∷ []) else invalid_argument))

unfoldable pub bool_value : Text → Result Bool
bool_value s =
    if eq_text s (b'1' ∷ [])
    then ok true
    else (if eq_text s (b'0' ∷ [])
        then ok false
        else (if says_true (to_upper s)
            then ok true
            else (if says_false (to_upper s) then ok false else domain_error)))

unfoldable pub get_bool : List (Text × Items) → Text → Text → Text → Result Bool
get_bool sections section option default_str = elim (bool_default default_str) [
  | invalid_argument ↦ invalid_argument
  | domain_error ↦ domain_error
  | ok new_default_str ↦ elim (get sections section option new_default_str) [
    | invalid_argument ↦ invalid_argument
    | domain_error ↦ domain_error
    | ok value_str ↦ bool_value value_str
  ]
]

-- What a run of the parser computes with.
unfoldable pub program : Unit {0}
unfolding strip_front strip_back trim to_upper find lookup assign fail open_section set_option
    read_section read_option read_content without_comment read_trimmed read_line read_lines get
program = tt
