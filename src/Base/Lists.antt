-- ===== src/Base/Lists.antt =====
-- Lists measured and indexed by native numbers, under the library's names.
use Prim.Native.Nat.{ℕ, zero, suc, ◌+◌, ◌-◌, ◌≤◌, ◌<◌}
use mathlib.Core.Path.{◌≡◌, refl, ap, sym, ◌∙◌}
use mathlib.Core.List
use mathlib.Core.List.Perm
use mathlib.Core.List.{
  List, [], ◌∷◌, ◌++◌, map, Mem, Mem-prop, Perm, get_last?, drop_last, not-mem-nil, mem-cons_self,
  mem-cons_of_mem, eq-or-mem_of_mem-cons,
}
use mathlib.Core.Logic.Or
use native.Mathlib.Bridge.{from_ℕ}
use mathlib.Core.Option.{Option, none, some}
use mathlib.Core.Bool.{Bool, true, ◌&&◌}
use native.Mathlib.Omega.{arith}

module _ {ℓ} {A : Type ℓ} where
  abbrev pub length : List A → ℕ
  length [] = 0
  length (x ∷ xs) = suc (length xs)

  abbrev pub get_elem? : List A → ℕ → Option A
  get_elem? [] i = none
  get_elem? (x ∷ xs) zero = some x
  get_elem? (x ∷ xs) (suc i) = get_elem? xs i

  -- Out of range nothing is removed.
  abbrev pub erase_idx : List A → ℕ → List A
  erase_idx [] i = []
  erase_idx (x ∷ xs) zero = xs
  erase_idx (x ∷ xs) (suc i) = x ∷ erase_idx xs i

  abbrev pub take : ℕ → List A → List A
  take zero xs = []
  take (suc n) [] = []
  take (suc n) (x ∷ xs) = x ∷ take n xs

  abbrev pub drop : ℕ → List A → List A
  drop zero xs = xs
  drop (suc n) [] = []
  drop (suc n) (x ∷ xs) = drop n xs

  abbrev pub replicate : ℕ → A → List A
  replicate zero a = []
  replicate (suc n) a = a ∷ replicate n a

  pub length-append : (xs ys : List A) → length (xs ++ ys) ≡ length xs + length ys
  length-append [] ys = omega arith
  length-append (x ∷ xs) ys = omega (arith, length-append xs ys)

  pub length-replicate : (n : ℕ) (a : A) → length (replicate n a) ≡ n
  length-replicate zero a = refl
  length-replicate (suc n) a = ap suc (length-replicate n a)

  -- A list is its own front when that is long enough.
  pub take-all : (l : List A) (count : ℕ) → length l ≤ count → take count l ≡ l
  take-all [] zero fits = refl
  take-all [] (suc count) fits = refl
  take-all (a ∷ l) zero fits = absurd (omega arith)
  take-all (a ∷ l) (suc count) fits = ap (λ t. a ∷ t) (take-all l count (omega arith))

module _ {ℓ} {A : Type ℓ} where
  pub length-take-le : (n : ℕ) (xs : List A) → length (take n xs) ≤ n
  length-take-le zero xs = omega arith
  length-take-le (suc n) [] = omega arith
  length-take-le (suc n) (x ∷ xs) = omega (arith, length-take-le n xs)

  pub take-cons : (n : ℕ) (x : A) (xs : List A) → 0 < n → take n (x ∷ xs) ≡ x ∷ take (n - 1) xs
  take-cons zero x xs h = absurd (omega arith)
  take-cons (suc n) x xs h = ap (λ k. x ∷ take k xs) (omega arith)

  pub take-append_left : (n : ℕ) (xs ys : List A) → n ≤ length xs → take n (xs ++ ys) ≡ take n xs
  take-append_left zero xs ys h = refl
  take-append_left (suc n) [] ys h = absurd (omega arith)
  take-append_left (suc n) (x ∷ xs) ys h = ap (◌∷◌ x) (take-append_left n xs ys (omega arith))

  pub mem_of_mem-take : (n : ℕ) (xs : List A) {a : A} → Mem a (take n xs) → Mem a xs
  mem_of_mem-take zero xs m = absurd (not-mem-nil m)
  mem_of_mem-take (suc n) [] m = m
  mem_of_mem-take (suc n) (x ∷ xs) {a} m =
      Or.elim Mem-prop (eq-or-mem_of_mem-cons m) (λ e. rw e mem-cons_self)
        (λ r. mem-cons_of_mem x (mem_of_mem-take n xs r))

  -- The library's length, carried over to the native numbers.
  from_ℕ-length : (xs : List A) → from_ℕ (List.length xs) ≡ length xs
  from_ℕ-length [] = refl
  from_ℕ-length (x ∷ xs) = ap suc (from_ℕ-length xs)

  pub Perm-length : {xs ys : List A} → Perm xs ys → length xs ≡ length ys
  Perm-length {xs} {ys} p =
      sym (from_ℕ-length xs) ∙ (ap from_ℕ (Perm.length-eq p) ∙ from_ℕ-length ys)

  pub erase_idx-perm :
      (xs : List A) (i : ℕ) (x : A) → get_elem? xs i ≡ some x → Perm xs (x ∷ erase_idx xs i)
  erase_idx-perm [] i x h = cc
  erase_idx-perm (y ∷ xs) zero x h = Perm.cons' (ground arith) Perm.rfl
  erase_idx-perm (y ∷ xs) (suc i) x h =
      Perm.trans (Perm.cons y (erase_idx-perm xs i x h)) (Perm.swap x y (erase_idx xs i))

  -- A list that has a last element ends in it.
  pub last_split : (l : List A) (x : A) → get_last? l ≡ some x → l ≡ drop_last l ++ x ∷ []
  last_split [] x h = cc
  last_split (y ∷ []) x h = cc
  last_split (y ∷ z ∷ l) x h = ap (◌∷◌ y) (last_split (z ∷ l) x h)

  pub last_exists : (l : List A) → 0 < length l → (x : A) × (get_last? l ≡ some x)
  last_exists [] h = absurd (omega arith)
  last_exists (y ∷ []) h = (y, refl)
  last_exists (y ∷ z ∷ l) h = last_exists (z ∷ l) (omega arith)

-- The `n` numbers from `i` on.
abbrev pub upto : ℕ → ℕ → List ℕ
upto i zero = []
upto i (suc n) = i ∷ upto (i + 1) n

pub length-map {ℓ κ} :
    {A : Type ℓ} {B : Type κ} (f : A → B) (xs : List A) → length (map f xs) ≡ length xs
length-map f [] = refl
length-map f (x ∷ xs) = ap suc (length-map f xs)

pub upto-append : (m n i j k : ℕ) → i + m ≡ j → m + n ≡ k → upto i k ≡ upto i m ++ upto j n
upto-append zero n i j k e d = ground arith
upto-append (suc m) n i j k e d =
    let whole : suc (m + n) ≡ k = omega arith in
    rw (← whole) (ap (◌∷◌ i) (upto-append m n (i + 1) j (m + n) (omega arith) refl))

abbrev pub All {ℓ κ} : {A : Type ℓ} → (A → Type κ) → List A → Type κ
All P [] = Unit
All P (x ∷ xs) = P x × All P xs

-- A test of every number below a bound, by evaluation.
unfoldable pub holds_below : (ℕ → Bool) → ℕ → Bool
holds_below test zero = true
holds_below test (suc bound) = test bound && holds_below test bound

pub holds_below-lem :
    (test : ℕ → Bool) (bound i : ℕ) → i < bound → holds_below test bound ≡ true → test i ≡ true
unfolding holds_below
holds_below-lem test zero i low all = absurd (omega arith)
holds_below-lem test (suc bound) i low all = ground (arith, holds_below-lem test bound i)
