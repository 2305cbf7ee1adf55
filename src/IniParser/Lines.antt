-- ===== src/IniParser/Lines.antt =====
-- The access to the first character of a line: hikyuu/utilities/ini_parser/IniParser.cpp.
use hku_utils.Base.{
  ℕ, [], ◌∷◌, Option, none, some, false, ◌&&◌, ◌==◌, All, ◌≡◌, ◌≢◌, refl, sym, ap, subst, ◌∙◌, inl,
  inr, arith, Bool-cases, Option-cases,
}
use hku_utils.IniParser.{
  Text, is_empty, strip_front, strip_back, trim, find, Reader, out_of_range, read_option,
  read_content, without_comment, read_trimmed, read_line,
}

-- A character that `trim` keeps.
abbrev pub Solid : ℕ → Type 0
Solid c = (c ≢ b' ') × (c ≢ b'\r') × (c ≢ b'\n')

strip_back_solid : (x c : ℕ) (s : Text) → c ≢ x → strip_back x (c ∷ s) ≡ c ∷ strip_back x s
unfolding strip_back
strip_back_solid x c s h = ground arith

pub strip_front_solid : (c : ℕ) (s : Text) → c ≢ b' ' → strip_front (c ∷ s) ≡ c ∷ s
unfolding strip_front
strip_front_solid c s h = ground arith

-- A text keeps a solid first character.
trim-Solid : (c : ℕ) (s : Text) → Solid c → (t : Text) × (trim (c ∷ s) ≡ c ∷ t)
unfolding trim
trim-Solid c s (sp, cr, nl) = (
  strip_back b'\n' (strip_back b'\r' (strip_back b' ' s)),
  ap (λ t. strip_back b'\n' (strip_back b'\r' (strip_back b' ' t))) (strip_front_solid c s sp)
      ∙ ap (λ t. strip_back b'\n' (strip_back b'\r' t)) (strip_back_solid b' ' c s sp)
      ∙ ap (λ t. strip_back b'\n' t) (strip_back_solid b'\r' c (strip_back b' ' s) cr)
      ∙ strip_back_solid b'\n' c (strip_back b'\r' (strip_back b' ' s)) nl,
)

-- No line break, as in a line that `std::getline` took from a text without carriage returns.
abbrev pub Unbroken : ℕ → Type 0
Unbroken c = (c ≢ b'\r') × (c ≢ b'\n')

strip_front-first : (s : Text) (c : ℕ) (m : Text) → All Unbroken s → strip_front s ≡ c ∷ m → Solid c
unfolding strip_front
strip_front-first [] c m a h = cc
strip_front-first (d ∷ s) c m a h = elim (Bool-cases (d == b' ')) [
  | inl e ↦ strip_front-first s c m a.1 (rw (e, strip_front) at h)
  | inr e ↦
      let kept : d ∷ s ≡ c ∷ m = rw (e, strip_front) at h in
      let same : d ≡ c = cc in subst Solid same (ground arith, a.0.0, a.0.1)
]

strip_back-first :
    (x : ℕ) (s : Text) (c : ℕ) (m : Text) → strip_back x s ≡ c ∷ m → (t : Text) × (s ≡ c ∷ t)
unfolding strip_back
strip_back-first x [] c m h = cc
strip_back-first x (d ∷ s) c m h = elim (Bool-cases (is_empty (strip_back x s) && d == x)) [
  | inl e ↦ let no : [] ≡ c ∷ m = rw (e, strip_back) at h in cc
  | inr e ↦
      let kept : d ∷ strip_back x s ≡ c ∷ m = rw (e, strip_back) at h in
      let same : d ≡ c = cc in (s, ap (λ y. y ∷ s) same)
]

trim-first : (s : Text) (c : ℕ) (m : Text) → All Unbroken s → trim s ≡ c ∷ m → Solid c
unfolding trim
trim-first s c m a h =
    let (m1, e1) =
      strip_back-first b'\n' (strip_back b'\r' (strip_back b' ' (strip_front s))) c m h in
    let (m2, e2) = strip_back-first b'\r' (strip_back b' ' (strip_front s)) c m1 e1 in
    let (m3, e3) = strip_back-first b' ' (strip_front s) c m2 e2 in strip_front-first s c m3 a e3

none-some {ℓ} : {A : Type ℓ} {a : A} → none ≡ some a → ⊥
none-some e = cc

before_of : Option (Text × Text) → Text
before_of none = []
before_of (some p) = p.0

find-first :
    (x c : ℕ) (s pre post : Text)
    → (c == x) ≡ false
    → find x (c ∷ s) ≡ some (pre, post)
    → (t : Text) × (pre ≡ c ∷ t)
unfolding find before_of
find-first x c s pre post ne h = elim (Option-cases (find x s)) [
  | inl e ↦ absurd (none-some (rw (e, ne, find) at h))
  | inr ((a, b), e) ↦ (a, sym (ap before_of (rw (e, ne, find) at h)))
]

-- What is left of a line without its comment still has its first character.
without_comment-first :
    (c : ℕ) (line : Text)
    → Solid c
    → (c == b';') ≡ false
    → (t : Text) × (without_comment (c ∷ line) ≡ c ∷ t)
unfolding without_comment
without_comment-first c line solid plain = elim (Option-cases (find b';' (c ∷ line))) [
  | inl e ↦ (line, rw (e, without_comment) refl)
  | inr ((pre, post), e) ↦
      let (t, same) = find-first b';' c line pre post plain e in
      let (u, kept) = trim-Solid c t solid in (u, rw (e, without_comment) (ap trim same ∙ kept))
]

option-safe : (n : ℕ) (line : Text) (r : Reader) → read_option n line r ≢ out_of_range
unfolding read_option
option-safe n line r = elim (Bool-cases (is_empty r.section)) [
  | inl e ↦ rw (e, read_option) (λ h. cc)
  | inr e ↦ elim (Option-cases (find b'=' line)) [
    | inl f ↦ rw (e, f, read_option) (λ h. cc)
    | inr (p, f) ↦ rw (e, f, read_option) (λ h. cc)
  ]
]

content-safe : (n c : ℕ) (line : Text) (r : Reader) → read_content n (c ∷ line) r ≢ out_of_range
unfolding read_content
content-safe n c line r = elim (Bool-cases (c == b'[')) [
  | inl e ↦ rw (e, read_content) (λ h. cc)
  | inr e ↦ rw (e, read_content) (option-safe n (c ∷ line) r)
]

trimmed-safe :
    (n : ℕ) (line t : Text) (r : Reader)
    → All Unbroken line
    → trim line ≡ t
    → read_trimmed n t r ≢ out_of_range
unfolding read_trimmed
trimmed-safe n line [] r a e = λ h. cc
trimmed-safe n line (c ∷ t) r a e = elim (Bool-cases (c == b';')) [
  | inl comment ↦ rw (comment, read_trimmed) (λ h. cc)
  | inr plain ↦
      let (u, kept) = without_comment-first c t (trim-first line c t a e) plain in
      rw (plain, read_trimmed)
        (subst (λ y. read_content n y r ≢ out_of_range) (sym kept) (content-safe n c u r))
]

-- No line without a line break in it makes the reader look at the first character of an empty text,
-- whatever blanks, comments and sections it has.
pub read_line_safe :
    (n : ℕ) (line : Text) (r : Reader) → All Unbroken line → read_line n line r ≢ out_of_range
unfolding read_line
read_line_safe n line r a = trimmed-safe n line (trim line) r a refl
