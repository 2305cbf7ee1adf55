-- ===== src/IniParser/Trims.antt =====
-- Blanks around a text, and the first of a character in it: the texts of hikyuu/utilities/ini_parser/IniParser.cpp.
use Prim.{tt}
use hku_utils.Base.{
  ℕ, zero, suc, [], ◌∷◌, ◌++◌, none, some, false, true, ◌==◌, All, replicate, ◌≡◌, ◌≢◌, refl, sym,
  ap, ◌∙◌, arith,
}
use hku_utils.IniParser.{Text, is_empty, strip_front, strip_back, trim, find}
use hku_utils.IniParser.Lines.{Solid, strip_front_solid}

abbrev pub blanks : ℕ → Text
blanks n = replicate n b' '

-- A character of a value: no blank, no line break, and no start of a comment.
abbrev pub InValue : ℕ → Type 0
InValue c = Solid c × (c ≢ b';')

-- A character of a key, which is no equals sign either.
abbrev pub InKey : ℕ → Type 0
InKey c = InValue c × (c ≢ b'=')

abbrev pub Without : ℕ → Text → Type 0
Without x s = All (λ c. c ≢ x) s

pub Without-append : (x : ℕ) (s t : Text) → Without x s → Without x t → Without x (s ++ t)
Without-append x [] t h k = k
Without-append x (c ∷ s) t h k = (h.0, Without-append x s t h.1 k)

pub Without-blanks : (x n : ℕ) → b' ' ≢ x → Without x (blanks n)
Without-blanks x zero h = tt
Without-blanks x (suc n) h = (h, Without-blanks x n h)

pub value-parts :
    (s : Text) → All InValue s → Without b' ' s × Without b'\r' s × Without b'\n' s × Without b';' s
value-parts [] h = (tt, tt, tt, tt)
value-parts (c ∷ s) h =
    let rest = value-parts s h.1 in
    ((h.0.0.0, rest.0), (h.0.0.1, rest.1), (h.0.0.2, rest.2), (h.0.1, rest.3))

pub key-parts : (s : Text) → All InKey s → All InValue s × Without b'=' s
key-parts [] h = (tt, tt)
key-parts (c ∷ s) h = let rest = key-parts s h.1 in ((h.0.0, rest.0), (h.0.1, rest.1))

strip_front-blanks : (n : ℕ) (s : Text) → strip_front (blanks n ++ s) ≡ strip_front s
unfolding strip_front
strip_front-blanks zero s = refl
strip_front-blanks (suc n) s = strip_front-blanks n s

strip_back-blanks : (n : ℕ) → strip_back b' ' (blanks n) ≡ []
unfolding strip_back
strip_back-blanks zero = refl
strip_back-blanks (suc n) = rw (strip_back-blanks n) refl

strip_back-append :
    (x : ℕ) (s t : Text) → strip_back x t ≡ [] → strip_back x (s ++ t) ≡ strip_back x s
unfolding strip_back
strip_back-append x [] t h = h
strip_back-append x (c ∷ s) t h = rw (strip_back-append x s t h) refl

strip_back-Without : (x : ℕ) (s : Text) → Without x s → strip_back x s ≡ s
unfolding strip_back
strip_back-Without x [] h = refl
strip_back-Without x (c ∷ s) h = ground (arith, strip_back-Without x s h.1)

pub not-empty : (s : Text) (c : ℕ) (t : Text) → is_empty (s ++ c ∷ t) ≡ false
not-empty [] c t = refl
not-empty (d ∷ s) c t = refl

-- What ends in another character keeps all that stands before.
strip_back-kept :
    (x : ℕ) (s : Text) (c : ℕ) (t : Text)
    → Without x (c ∷ t)
    → strip_back x (s ++ c ∷ t) ≡ s ++ c ∷ t
unfolding strip_back
strip_back-kept x [] c t h = strip_back-Without x (c ∷ t) h
strip_back-kept x (d ∷ s) c t h = rw (strip_back-kept x s c t h, not-empty s c t) refl

pub trim-kept :
    (a d : ℕ) (pre : Text) (c : ℕ) (t : Text) (h : ℕ) (rest : Text)
    → All InValue (c ∷ t)
    → pre ++ c ∷ t ≡ h ∷ rest
    → h ≢ b' '
    → trim (blanks a ++ ((pre ++ c ∷ t) ++ blanks d)) ≡ pre ++ c ∷ t
unfolding trim
trim-kept a d pre c t h rest v e solid =
    let (sp, cr, nl, _) = value-parts (c ∷ t) v in
    let front : strip_front (blanks a ++ ((pre ++ c ∷ t) ++ blanks d))
        ≡ (pre ++ c ∷ t) ++ blanks d =
      strip_front-blanks a _
      ∙ ap (λ s. strip_front (s ++ blanks d)) e
      ∙ strip_front_solid h (rest ++ blanks d) solid
      ∙ ap (λ s. s ++ blanks d) (sym e) in
    ap (λ s. strip_back b'\n' (strip_back b'\r' (strip_back b' ' s))) front
    ∙ ap (λ s. strip_back b'\n' (strip_back b'\r' s))
        (strip_back-append b' ' (pre ++ c ∷ t) (blanks d) (strip_back-blanks d)
          ∙ strip_back-kept b' ' pre c t sp)
    ∙ ap (strip_back b'\n') (strip_back-kept b'\r' pre c t cr)
    ∙ strip_back-kept b'\n' pre c t nl

pub find-Without : (x : ℕ) (s : Text) → Without x s → find x s ≡ none
unfolding find
find-Without x [] h = refl
find-Without x (c ∷ s) h = ground (arith, find-Without x s h.1)

==-refl : (x : ℕ) → (x == x) ≡ true
==-refl x = ground arith

pub ==-ne : (c x : ℕ) → c ≢ x → (c == x) ≡ false
==-ne c x h = ground arith

find-first_of : (x : ℕ) (post : Text) → find x (x ∷ post) ≡ some ([], post)
unfolding find
find-first_of x post = ground (arith, ==-refl x)

pub find-split :
    (x : ℕ) (pre post : Text) → Without x pre → find x (pre ++ x ∷ post) ≡ some (pre, post)
unfolding find
find-split x [] post h = find-first_of x post
find-split x (c ∷ pre) post h = rw (find-split x pre post h.1, find) (rw (==-ne c x h.0) refl)
