-- ===== src/Tests/IniRuns.antt =====
-- The reader of hikyuu/utilities/ini_parser/IniParser.cpp on small lines.
use hku_utils.Base.{[], ◌∷◌, ◌≡◌, ◌≢◌, refl, false, arith}
use Prim.{tt}
use hku_utils.IniParser
use hku_utils.IniParser.{Text, Items, Reader, out_of_range, read_line, next, get, ok, eq_text}
use hku_utils.IniParser.Lines.{read_line_safe}
use hku_utils.IniParser.Options.{option_line, read_line-get}

abbrev fresh : Reader
fresh = record { sections = []; section = []; errors = [] }

-- `[a] ; x`
abbrev header : Text
header = b'[' ∷ b'a' ∷ b']' ∷ b' ' ∷ b';' ∷ b'x' ∷ []

-- A carriage return in front of a comment.
return_throws : read_line 1 (b'\r' ∷ b';' ∷ b'x' ∷ []) fresh ≡ out_of_range
unfolding IniParser.program
return_throws = refl

header_opens :
    read_line 1 header fresh
    ≡ next (record fresh { sections = (b'a' ∷ [], []) ∷ []; section = b'a' ∷ [] })
unfolding IniParser.program
header_opens = refl

read_line_safe_example : read_line 1 header fresh ≢ out_of_range
read_line_safe_example = read_line_safe 1 header fresh (
  (omega arith, omega arith),
  (
    (omega arith, omega arith),
    (
      (omega arith, omega arith),
      ((omega arith, omega arith), ((omega arith, omega arith), ((omega arith, omega arith), tt))),
    ),
  ),
)

-- ` k = 1` in the section `a`.
abbrev in_a : Reader
in_a = record { sections = (b'a' ∷ [], []) ∷ []; section = b'a' ∷ []; errors = [] }

key_line :
    option_line 1 (b'k' ∷ []) 1 1 (b'1' ∷ []) 0 ≡ b' ' ∷ b'k' ∷ b' ' ∷ b'=' ∷ b' ' ∷ b'1' ∷ []
key_line = refl

read_line-get_example :
    (r' : Reader) × (read_line 2 (option_line 1 (b'k' ∷ []) 1 1 (b'1' ∷ []) 0) in_a ≡ next r')
    × (r'.section ≡ b'a' ∷ [])
    × (r'.errors ≡ [])
    × (get r'.sections (b'a' ∷ []) (b'k' ∷ []) [] ≡ ok (b'1' ∷ []))
    × ((other option : Text)
        → eq_text (b'a' ∷ []) other ≡ false
        → get r'.sections other option [] ≡ get ((b'a' ∷ [], []) ∷ []) other option [])
read_line-get_example =
    read_line-get b'k' [] b'1' [] 2 1 1 1 0 in_a []
      ((((omega arith, omega arith, omega arith), omega arith), omega arith), tt)
      (((omega arith, omega arith, omega arith), omega arith), tt) (omega arith) refl
