-- ===== src/Url/RoundTrip.antt =====
-- What is left of a text that is escaped and unescaped: hikyuu/utilities/http_client/url.cpp.
use hku_utils.Base.{
  ℕ, ◌<◌, List, [], ◌∷◌, ◌++◌, map, Bool, not, true, false, ◌&&◌, ◌≡◌, refl, ap, ◌∙◌, ltb, ◌==◌,
  if◌then◌else◌, ==_iff, All, holds_below, holds_below-lem,
}
use hku_utils.Url.{is_hex, escape_byte, url_escape, decoded, url_unescape}

-- The byte that the round trip gives back.
abbrev pub survivor : ℕ → ℕ
survivor c = if ltb c 128 then c else 255

-- An escaped byte is the byte itself, not `%`, or `%` with two hexadecimal digits that stand for what
-- comes back.
fine : ℕ → List ℕ → Bool
fine c [] = false
fine c (x ∷ []) = x == survivor c && not (x == b'%')
fine c (x ∷ a ∷ []) = false
fine c (x ∷ a ∷ b ∷ []) = (x == b'%' && (is_hex a && is_hex b)) && decoded a b == survivor c
fine c (x ∷ a ∷ b ∷ d ∷ l) = false

-- Checked for every byte.
fine_table : holds_below (λ c. fine c (escape_byte c)) 256 ≡ true
unfolding holds_below fine escape_byte decoded
fine_table = refl

not-true : (b : Bool) → not b ≡ true → b ≡ false
not-true true h = cc
not-true false h = refl

and-true : (a b : Bool) → a && b ≡ true → (a ≡ true) × (b ≡ true)
and-true true true h = (refl, refl)
and-true true false h = cc
and-true false b h = cc

-- A character that is not `%` is copied.
copy_plain :
    (c : ℕ) (rest : List ℕ) → (c == b'%') ≡ false → url_unescape (c ∷ rest) ≡ c ∷ url_unescape rest
unfolding url_unescape
copy_plain c [] h = refl
copy_plain c (a ∷ []) h = refl
copy_plain c (a ∷ b ∷ rest) h = rw (h, url_unescape) refl

decode_hex :
    (c a b : ℕ) (rest : List ℕ)
    → c == b'%' && (is_hex a && is_hex b) ≡ true
    → url_unescape (c ∷ a ∷ b ∷ rest) ≡ decoded a b ∷ url_unescape rest
unfolding url_unescape
decode_hex c a b rest h = rw (h, url_unescape) refl

unescape_fine :
    (c : ℕ) (l rest : List ℕ)
    → fine c l ≡ true
    → url_unescape (l ++ rest) ≡ survivor c ∷ url_unescape rest
unfolding fine
unescape_fine c [] rest h = cc
unescape_fine c (x ∷ []) rest h =
    let (same, plain) = and-true (x == survivor c) (not (x == b'%')) h in
    copy_plain x rest (not-true (x == b'%') plain)
    ∙ ap (λ y. y ∷ url_unescape rest) ((==_iff x (survivor c)).0 same)
unescape_fine c (x ∷ a ∷ []) rest h = cc
unescape_fine c (x ∷ a ∷ b ∷ []) rest h =
    let (hex, same) =
      and-true (x == b'%' && (is_hex a && is_hex b)) (decoded a b == survivor c) h in
    decode_hex x a b rest hex
    ∙ ap (λ y. y ∷ url_unescape rest) ((==_iff (decoded a b) (survivor c)).0 same)
unescape_fine c (x ∷ a ∷ b ∷ d ∷ l) rest h = cc

-- Escaping and then unescaping gives every ASCII byte back. A byte from 128 on comes back as 255: the
-- escape writes it as `%FF`, whatever it is.
pub unescape-escape :
    (s : List ℕ) → All (λ c. c < 256) s → url_unescape (url_escape s) ≡ map survivor s
unfolding url_escape url_unescape
unescape-escape [] h = refl
unescape-escape (c ∷ s) h =
    unescape_fine c (escape_byte c) (url_escape s)
      (holds_below-lem (λ x. fine x (escape_byte x)) 256 c h.0 fine_table)
    ∙ ap (◌∷◌ (survivor c)) (unescape-escape s h.1)
