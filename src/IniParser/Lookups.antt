-- ===== src/IniParser/Lookups.antt =====
-- What a look-up finds: hikyuu/utilities/ini_parser/IniParser.cpp.
use hku_utils.Base.{
  List, [], ◌∷◌, some, true, false, ◌==◌, ==_iff, if◌then◌else◌, ◌≡◌, refl, ap, ◌∙◌, inl, inr,
  arith, Bool-cases, Option-cases,
}
use hku_utils.IniParser.{Text, eq_text, lookup, assign, Items, set_option, ok, get}

eq_text_refl : (s : Text) → eq_text s s ≡ true
eq_text_refl [] = refl
eq_text_refl (c ∷ s) = ground (arith, eq_text_refl s)

eq_text_sound : (s t : Text) → eq_text s t ≡ true → s ≡ t
eq_text_sound [] [] h = refl
eq_text_sound [] (d ∷ t) h = cc
eq_text_sound (c ∷ s) [] h = cc
eq_text_sound (c ∷ s) (d ∷ t) h = elim (Bool-cases (c == d)) [
  | inl e ↦
      let head : c ≡ d = (==_iff c d).0 e in
      let rest : eq_text s t ≡ true = rw e at h in
      ap (λ x. x ∷ s) head ∙ ap (◌∷◌ d) (eq_text_sound s t rest)
  | inr e ↦ let no : false ≡ true = rw e at h in cc
]

module _ {ℓ} {A : Type ℓ} where
  lookup-assign_self :
      (key : Text) (value : A) (m : List (Text × A)) → lookup key (assign key value m) ≡ some value
  unfolding lookup assign
  lookup-assign_self key value [] = rw (eq_text_refl key) refl
  lookup-assign_self key value (e ∷ m) = elim (Bool-cases (eq_text e.0 key)) [
    | inl t ↦ rw (t, assign, lookup) (rw t refl)
    | inr t ↦ rw (t, assign, lookup) (rw t (lookup-assign_self key value m))
  ]

  lookup-assign_other :
      (other key : Text) (value : A) (m : List (Text × A))
      → eq_text key other ≡ false
      → lookup other (assign key value m) ≡ lookup other m
  unfolding lookup assign
  lookup-assign_other other key value [] h = rw h refl
  lookup-assign_other other key value (e ∷ m) h = elim (Bool-cases (eq_text e.0 key)) [
    | inl t ↦
        let ne : eq_text e.0 other ≡ false = rw (eq_text_sound e.0 key t) h in
        rw (t, assign, lookup) (rw ne refl)
    | inr t ↦
        rw (t, assign, lookup)
          (ap (λ r. if eq_text e.0 other then some e.1 else r)
            (lookup-assign_other other key value m h))
  ]

set_option-assign :
    (section key value : Text) (sections : List (Text × Items))
    → (items : Items) × (set_option section key value sections ≡ assign section items sections)
      × (lookup key items ≡ some value)
unfolding set_option assign
set_option-assign section key value sections = elim (Option-cases (lookup section sections)) [
  | inl e ↦ (assign key value [], rw (e, set_option) refl, lookup-assign_self key value [])
  | inr (items, e) ↦
      (assign key value items, rw (e, set_option) refl, lookup-assign_self key value items)
]

get_own :
    (section key value default_str : Text) (items : Items) (sections : List (Text × Items))
    → lookup key items ≡ some value
    → get (assign section items sections) section key default_str ≡ ok value
unfolding get
get_own section key value default_str items sections l =
    rw (lookup-assign_self section items sections, l, get) refl

get_other :
    (section other option default_str : Text) (items : Items) (sections : List (Text × Items))
    → eq_text section other ≡ false
    → get (assign section items sections) other option default_str
      ≡ get sections other option default_str
unfolding get
get_other section other option default_str items sections h =
    rw (lookup-assign_other other section items sections h, get) refl

-- An option that was set is found, with its value, whatever the default. The look-ups in other sections
-- are as before.
pub get-set_option :
    (section key value : Text) (sections : List (Text × Items)) (default_str : Text)
    → (get (set_option section key value sections) section key default_str ≡ ok value)
      × ((other option : Text)
          → eq_text section other ≡ false
          → get (set_option section key value sections) other option default_str
            ≡ get sections other option default_str)
get-set_option section key value sections default_str =
    let (items, e, l) = set_option-assign section key value sections in
    rw e (
      get_own section key value default_str items sections l,
      λ other option h. get_other section other option default_str items sections h,
    )
