-- ===== src/Parameter/Stream/RoundTrip.antt =====
-- What hikyuu/utilities/Parameter.h loads is what it has saved.
use hku_utils.Base.{
  List, [], ◌∷◌, ◌++◌, length, Option, none, some, Bool, true, false, ◌≡◌, ◌≢◌, refl, sym, ap, ◌∙◌,
  append-nil, append_assoc,
}
use mathlib.Core.List.{lookup}
use hku_utils.Base.Assoc.{lookup-cons_self, lookup-cons_ne}
use hku_utils.Parameter.{
  Name, name-discrete, Ty, int, int64, bool, double, float, string, datetime, time_delta,
  unsupported, Types, int_name, bool_name, double_name, string_name, Value, Any, Params, find, put,
  name_of,
}
use hku_utils.Parameter.Typed.{find-put_self, find-put_ne}
use hku_utils.Parameter.Stream.{
  Object, count, key, typ, val, Archive, save_item, save_value, save_items, serialize, put_val,
  load_item, load_value, load_named, and_then, load_items, load_counted, deserialize,
}

-- The types that are saved with their value.
abbrev pub plain : Ty → Bool
plain int64 = true
plain bool = true
plain double = true
plain string = true
plain int = false
plain float = false
plain datetime = false
plain time_delta = false
plain unsupported = false

module _ {T : Types} (a : Archive T) where
  -- The names differ and the types are those that are saved.
  abbrev pub IsPlain : Params T → Type 0
  IsPlain [] = Unit
  IsPlain (e ∷ p) = (find T e.0 p ≡ none) × (plain e.1.0 ≡ true) × IsPlain p

  abbrev pub first : Option (Any T) → Option (Any T) → Option (Any T)
  first none o = o
  first (some x) o = some x

  -- What one entry, and what all of them, are written as.
  abbrev entry_objects : Name → (t : Ty) → Value T t → List (Object T)
  entry_objects name t x = key name ∷ typ (name_of T t) ∷ val t x ∷ []

  abbrev all_objects : Params T → List (Object T)
  all_objects [] = []
  all_objects (e ∷ p) = entry_objects e.0 e.1.0 e.1.1 ++ all_objects p

  three_written :
      (o₁ o₂ o₃ : Object T) (s : a.Stream)
      → a.objects (a.write o₃ (a.write o₂ (a.write o₁ s))) ≡ a.objects s ++ (o₁ ∷ o₂ ∷ o₃ ∷ [])
  three_written o₁ o₂ o₃ s =
      rw
        (
          a.written o₃ (a.write o₂ (a.write o₁ s)),
          a.written o₂ (a.write o₁ s),
          a.written o₁ s,
          append_assoc (a.objects s) (o₁ ∷ []) (o₂ ∷ []),
          append_assoc (a.objects s) (o₁ ∷ o₂ ∷ []) (o₃ ∷ []),
        )
        refl

  objects-save_value :
      (name : Name) (t : Ty) (x : Value T t) (s : a.Stream)
      → plain t ≡ true
      → a.objects (save_value a t x (a.write (key name) s)) ≡ a.objects s ++ entry_objects name t x
  unfolding save_value save_item name_of
  objects-save_value name int64 x s h = three_written (key name) (typ int_name) (val int64 x) s
  objects-save_value name bool x s h = three_written (key name) (typ bool_name) (val bool x) s
  objects-save_value name double x s h = three_written (key name) (typ double_name) (val double x) s
  objects-save_value name string x s h = three_written (key name) (typ string_name) (val string x) s
  objects-save_value name int x s h = cc
  objects-save_value name float x s h = cc
  objects-save_value name datetime x s h = cc
  objects-save_value name time_delta x s h = cc
  objects-save_value name unsupported x s h = cc

  objects-save_items :
      (p : Params T) (s : a.Stream)
      → IsPlain p
      → a.objects (save_items a p s) ≡ a.objects s ++ all_objects p
  unfolding save_items
  objects-save_items [] s h = sym (append-nil (a.objects s))
  objects-save_items (e ∷ p) s h =
      objects-save_items p (save_value a e.1.0 e.1.1 (a.write (key e.0) s)) h.2
      ∙ ap (λ l. l ++ all_objects p) (objects-save_value e.0 e.1.0 e.1.1 s h.1)
      ∙ append_assoc (a.objects s) (entry_objects e.0 e.1.0 e.1.1) (all_objects p)

  load_value-plain :
      (name : Name) (t : Ty) (p : Params T) (s : a.Stream)
      → plain t ≡ true
      → load_value a name p (some (name_of T t, s)) ≡ load_item a t name p s
  unfolding load_value name_of
  load_value-plain name int64 p s h = refl
  load_value-plain name bool p s h = refl
  load_value-plain name double p s h = refl
  load_value-plain name string p s h = refl
  load_value-plain name int p s h = cc
  load_value-plain name float p s h = cc
  load_value-plain name datetime p s h = cc
  load_value-plain name time_delta p s h = cc
  load_value-plain name unsupported p s h = cc

  load_one :
      (name : Name) (t : Ty) (x : Value T t) (p : Params T) (s : a.Stream) (rest : List (Object T))
      → plain t ≡ true
      → a.objects s ≡ entry_objects name t x ++ rest
      → (u : a.Stream) × (load_named a p (a.read_key s) ≡ some (put T name (t, x) p, u))
        × (a.objects u ≡ rest)
  unfolding load_named load_item put_val
  load_one name t x p s rest h e =
      let k = a.key_read name _ s e in
      let n = a.typ_read (name_of T t) _ k.0 k.2 in
      let v = a.val_read t x rest n.0 n.2 in
      (
        v.0,
        ap (λ o. load_named a p o) k.1
            ∙ ap (λ o. load_value a name p o) n.1
            ∙ load_value-plain name t p n.0 h
            ∙ ap (λ o. put_val a t name p o) v.1,
        v.2,
      )

  -- The entries of p over those of p₀.
  abbrev Over : Params T → Params T → Params T → Type 0
  Over p p₀ q = (name : Name) → find T name q ≡ first (find T name p) (find T name p₀)

  find-cons_self : (e : Name × Any T) (p : Params T) → find T e.0 (e ∷ p) ≡ some e.1
  unfolding find
  find-cons_self e p = lookup-cons_self name-discrete e.0 e.1 p

  find-cons_ne :
      (e : Name × Any T) (p : Params T) (name : Name)
      → name ≢ e.0
      → find T name (e ∷ p) ≡ find T name p
  unfolding find
  find-cons_ne e p name n = lookup-cons_ne name-discrete e.0 name e.1 p n

  Over-cons :
      (e : Name × Any T) (p p₀ q : Params T)
      → find T e.0 p ≡ none
      → Over p (put T e.0 e.1 p₀) q
      → Over (e ∷ p) p₀ q
  Over-cons e p p₀ q new over name = elim (name-discrete name e.0) [
    | yes same ↦
        over name
        ∙ ap (λ n. first (find T n p) (find T n (put T e.0 e.1 p₀))) same
        ∙ ap (λ o. first o (find T e.0 (put T e.0 e.1 p₀))) new
        ∙ find-put_self T e.0 e.1 p₀
        ∙ sym (
            ap (λ o. first o (find T name p₀))
              (ap (λ n. find T n (e ∷ p)) same ∙ find-cons_self e p))
    | no ne ↦
        over name
        ∙ ap (λ o. first (find T name p) o) (find-put_ne T e.0 name e.1 p₀ ne)
        ∙ sym (ap (λ o. first o (find T name p₀)) (find-cons_ne e p name ne))
  ]

  load_all :
      (p p₀ : Params T) (s : a.Stream) (rest : List (Object T))
      → IsPlain p
      → a.objects s ≡ all_objects p ++ rest
      → (q : Params T) × (t : a.Stream) × (load_items a (length p) p₀ s ≡ some (q, t))
        × (a.objects t ≡ rest)
        × Over p p₀ q
  unfolding load_items and_then find lookup
  load_all [] p₀ s rest h e = (p₀, s, refl, e, λ name. refl)
  load_all (x ∷ p) p₀ s rest h e =
      let u =
        load_one x.0 x.1.0 x.1.1 p₀ s (all_objects p ++ rest) h.1
          (e ∙ append_assoc (entry_objects x.0 x.1.0 x.1.1) (all_objects p) rest) in
      let r = load_all p (put T x.0 x.1 p₀) u.0 rest h.2 u.2 in
      (
        r.0,
        r.1,
        ap (λ o. and_then a (load_items a (length p)) o) u.1 ∙ r.2,
        r.3,
        Over-cons x p p₀ r.0 h.0 r.4,
      )

  -- Loading what was saved succeeds, takes every object that was written, and gives each name the value that
  -- it was saved with; the names that were not saved keep theirs. The saved types are int64_t, bool, double
  -- and std::string, and the names in a map differ.
  pub deserialize-serialize :
      (p p₀ : Params T) (s : a.Stream)
      → IsPlain p
      → a.objects s ≡ []
      → (q : Params T) × (t : a.Stream) × (deserialize a p₀ (serialize a p s) ≡ some (q, t))
        × (a.objects t ≡ [])
        × ((name : Name) → find T name q ≡ first (find T name p) (find T name p₀))
  unfolding deserialize serialize load_counted
  deserialize-serialize p p₀ s h e =
      let o =
        objects-save_items p (a.write (count (length p)) s) h
        ∙ ap (λ l. l ++ all_objects p)
            (a.written (count (length p)) s ∙ ap (λ l. l ++ (count (length p) ∷ [])) e) in
      let c = a.count_read (length p) (all_objects p) _ o in
      let r = load_all p p₀ c.0 [] h (c.2 ∙ sym (append-nil (all_objects p))) in
      (r.0, r.1, ap (λ b. load_counted a p₀ b) c.1 ∙ r.2, r.3, r.4)
