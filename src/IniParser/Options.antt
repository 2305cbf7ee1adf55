-- ===== src/IniParser/Options.antt =====
-- The line of an option in hikyuu/utilities/ini_parser/IniParser.cpp, read and looked up.
use hku_utils.Base.{
  ℕ, [], ◌∷◌, ◌++◌, none, some, false, All, ◌≡◌, ◌≢◌, refl, sym, ap, ◌∙◌, arith, append_assoc,
  append-nil,
}
use hku_utils.IniParser.{
  Text, is_empty, eq_text, trim, find, Reader, next, ok, get, set_option, read_option, read_content,
  without_comment, read_trimmed, read_line,
}
use hku_utils.IniParser.Lookups.{get-set_option}
use hku_utils.IniParser.Trims.{
  blanks, InValue, InKey, Without-append, Without-blanks, value-parts, key-parts, not-empty,
  trim-kept, find-Without, ==-ne, find-split,
}

-- The line of an option without what stands around it: a key, an equals sign and a value.
abbrev option_body : Text → ℕ → ℕ → Text → Text
option_body key b c value = key ++ (blanks b ++ b'=' ∷ (blanks c ++ value))

-- `a`, `b`, `c` and `d` blanks stand around the key and the value.
abbrev pub option_line : ℕ → Text → ℕ → ℕ → Text → ℕ → Text
option_line a key b c value d =
    blanks a ++ ((key ++ (blanks b ++ b'=' ∷ (blanks c ++ value))) ++ blanks d)

module _ (k : ℕ) (ks : Text) (v : ℕ) (vs : Text) (is_key : All InKey (k ∷ ks))
    (is_value : All InValue (v ∷ vs)) where
  body-split :
      (b c : ℕ)
      → ((k ∷ ks) ++ (blanks b ++ b'=' ∷ blanks c)) ++ v ∷ vs ≡ option_body (k ∷ ks) b c (v ∷ vs)
  body-split b c = simp (append_assoc)

  trim-line :
      (a b c d : ℕ)
      → trim (option_line a (k ∷ ks) b c (v ∷ vs) d) ≡ option_body (k ∷ ks) b c (v ∷ vs)
  trim-line a b c d =
      ap (λ s. trim (blanks a ++ (s ++ blanks d))) (sym (body-split b c))
      ∙ trim-kept a d ((k ∷ ks) ++ (blanks b ++ b'=' ∷ blanks c)) v vs k _ is_value refl
          is_key.0.0.0.0
      ∙ body-split b c

  trim-key : (b : ℕ) → trim ((k ∷ ks) ++ blanks b) ≡ k ∷ ks
  trim-key b = trim-kept 0 b [] k ks k ks (key-parts (k ∷ ks) is_key).0 refl is_key.0.0.0.0

  trim-value : (c : ℕ) → trim (blanks c ++ v ∷ vs) ≡ v ∷ vs
  trim-value c =
      ap (λ s. trim (blanks c ++ s)) (sym (append-nil (v ∷ vs)))
      ∙ trim-kept c 0 [] v vs v vs is_value refl is_value.0.0.0

  no_comment : (b c : ℕ) → find b';' (option_body (k ∷ ks) b c (v ∷ vs)) ≡ none
  no_comment b c = find-Without b';' _ (
      Without-append b';' (k ∷ ks) _ (value-parts (k ∷ ks) (key-parts (k ∷ ks) is_key).0).3 (
        Without-append b';' (blanks b) _ (Without-blanks b';' b (omega arith)) (
          omega arith,
          Without-append b';' (blanks c) (v ∷ vs) (Without-blanks b';' c (omega arith))
              (value-parts (v ∷ vs) is_value).3,
        )))

  first_equals :
      (b c : ℕ)
      → find b'=' (option_body (k ∷ ks) b c (v ∷ vs))
        ≡ some ((k ∷ ks) ++ blanks b, blanks c ++ v ∷ vs)
  first_equals b c =
      ap (find b'=') (sym (append_assoc (k ∷ ks) (blanks b) (b'=' ∷ (blanks c ++ v ∷ vs))))
      ∙ find-split b'=' ((k ∷ ks) ++ blanks b) (blanks c ++ v ∷ vs) (
          Without-append b'=' (k ∷ ks) (blanks b) (key-parts (k ∷ ks) is_key).1
            (Without-blanks b'=' b (omega arith)))

  stored_reader : Reader → Reader
  stored_reader r = record r { sections = set_option r.section (k ∷ ks) (v ∷ vs) r.sections }

  read_option-stored :
      (n b c : ℕ) (r : Reader)
      → is_empty r.section ≡ false
      → read_option n (option_body (k ∷ ks) b c (v ∷ vs)) r ≡ next (stored_reader r)
  unfolding read_option stored_reader
  read_option-stored n b c r open_ =
      rw (open_, first_equals b c, read_option)
        (rw (trim-key b, trim-value c, not-empty (blanks c) v vs) refl)

  without_comment-body :
      (b c : ℕ)
      → without_comment (option_body (k ∷ ks) b c (v ∷ vs)) ≡ option_body (k ∷ ks) b c (v ∷ vs)
  unfolding without_comment
  without_comment-body b c = rw (no_comment b c, without_comment) refl

  read_content-stored :
      (n b c : ℕ) (r : Reader)
      → k ≢ b'['
      → is_empty r.section ≡ false
      → read_content n (option_body (k ∷ ks) b c (v ∷ vs)) r ≡ next (stored_reader r)
  unfolding read_content
  read_content-stored n b c r plain open_ =
      rw (==-ne k b'[' plain, read_content) (read_option-stored n b c r open_)

  read_line-stored :
      (n a b c d : ℕ) (r : Reader)
      → k ≢ b'['
      → is_empty r.section ≡ false
      → read_line n (option_line a (k ∷ ks) b c (v ∷ vs) d) r ≡ next (stored_reader r)
  unfolding read_line read_trimmed
  read_line-stored n a b c d r plain open_ =
      ap (λ s. read_trimmed n s r) (trim-line a b c d)
      ∙ rw (==-ne k b';' is_key.0.0.1, read_trimmed)
          (ap (λ s. read_content n s r) (without_comment-body b c)
            ∙ read_content-stored n b c r plain open_)

-- In a section, reading the line of an option, with any blanks around its key and its value, succeeds without a
-- new error and stays in the section. Then the key is found there with its value, whatever the default, and
-- the look-ups in other sections are as before. A key and a value have no blanks, line breaks or semicolons in
-- them, a key no equals sign, and it does not begin with a bracket.
pub read_line-get :
    (k : ℕ) (ks : Text) (v : ℕ) (vs : Text) (n a b c d : ℕ) (r : Reader) (default_str : Text)
    → All InKey (k ∷ ks)
    → All InValue (v ∷ vs)
    → k ≢ b'['
    → is_empty r.section ≡ false
    → (r' : Reader) × (read_line n (option_line a (k ∷ ks) b c (v ∷ vs) d) r ≡ next r')
      × (r'.section ≡ r.section)
      × (r'.errors ≡ r.errors)
      × (get r'.sections r.section (k ∷ ks) default_str ≡ ok (v ∷ vs))
      × ((other option : Text)
          → eq_text r.section other ≡ false
          → get r'.sections other option default_str ≡ get r.sections other option default_str)
unfolding stored_reader
read_line-get k ks v vs n a b c d r default_str is_key is_value plain open_ =
    let found = get-set_option r.section (k ∷ ks) (v ∷ vs) r.sections default_str in
    (
      stored_reader k ks v vs is_key is_value r,
      read_line-stored k ks v vs is_key is_value n a b c d r plain open_,
      refl,
      refl,
      found.0,
      found.1,
    )
