-- ===== src/DbUpgrade/Pending.antt =====
-- Which scripts an upgrade runs: hikyuu/utilities/db_connect/DBUpgrade.cpp.
use hku_utils.Base.{
  ℕ, zero, suc, ◌+◌, ◌≤◌, ◌<◌, List, [], ◌∷◌, ◌++◌, map, length, Bool, true, false, ◌≡◌, refl, ap,
  inl, inr, arith, if◌then◌else◌, drop, Bool-cases,
}
use hku_utils.Base.Int.{ℤ, pos, ◌+ℤ◌, ◌-ℤ◌, leb_ℤ, pos_part, neg_part, +ℤ_parts, -ℤ_parts}
use hku_utils.DbUpgrade.{Statement, start_index, upgrade, run, update_version}

-- Of the scripts that lead to the versions `next`, `next` + 1, ..., those that lead above `version`.
abbrev pub pending {ℓ} : {S : Type ℓ} → ℤ → ℤ → List S → List S
pending version next [] = []
pending version next (s ∷ scripts) =
    if leb_ℤ next version
    then pending version (next +ℤ pos 1) scripts
    else s ∷ pending version (next +ℤ pos 1) scripts

index_bound :
    (start_version version : ℤ)
    → leb_ℤ (start_version -ℤ pos 1) version ≡ true
    → pos_part version + neg_part start_version + 1
      ≡ pos_part start_version + neg_part version + pos_part (start_index start_version version)
unfolding start_index
index_bound start_version version h =
    let a = -ℤ_parts start_version (pos 1) in
    let b = -ℤ_parts version start_version in
    let c = +ℤ_parts (version -ℤ start_version) (pos 1) in
    elim (Bool-cases (leb_ℤ start_version version)) [
      | inl low ↦ rw low (ground arith)
      | inr high ↦ rw high (ground arith)
    ]

module _ {ℓ} {S : Type ℓ} where
  pending-all :
      (version next : ℤ) (scripts : List S)
      → leb_ℤ next version ≡ false
      → pending version next scripts ≡ scripts
  pending-all version next [] h = refl
  pending-all version next (s ∷ scripts) h =
      let step = +ℤ_parts next (pos 1) in
      rw h (ap (◌∷◌ s) (pending-all version (next +ℤ pos 1) scripts (ground arith)))

  pending-drop :
      (version next : ℤ) (scripts : List S) (k : ℕ)
      → pos_part version + neg_part next + 1 ≡ pos_part next + neg_part version + k
      → pending version next scripts ≡ drop k scripts
  pending-drop version next [] zero h = refl
  pending-drop version next [] (suc k) h = refl
  pending-drop version next (s ∷ scripts) zero h =
      pending-all version next (s ∷ scripts) (ground arith)
  pending-drop version next (s ∷ scripts) (suc k) h =
      let step = +ℤ_parts next (pos 1) in
      let low : leb_ℤ next version ≡ true = ground arith in
      rw low (pending-drop version (next +ℤ pos 1) scripts k (omega arith))

  pending-none :
      (version next : ℤ) (scripts : List S)
      → pos_part next + neg_part version + length scripts ≤ pos_part version + neg_part next + 1
      → pending version next scripts ≡ []
  pending-none version next [] h = refl
  pending-none version next (s ∷ scripts) h =
      let step = +ℤ_parts next (pos 1) in
      let low : leb_ℤ next version ≡ true = ground arith in
      rw low (pending-none version (next +ℤ pos 1) scripts (omega arith))

  abbrev pub is_nil : List S → Bool
  is_nil [] = true
  is_nil (s ∷ scripts) = false

  is_nil-drop : (k : ℕ) (scripts : List S) → k < length scripts → is_nil (drop k scripts) ≡ false
  is_nil-drop k [] h = absurd (omega arith)
  is_nil-drop zero (s ∷ scripts) h = refl
  is_nil-drop (suc k) (s ∷ scripts) h = is_nil-drop k scripts (omega arith)

  -- The statements that lead from `version` to the version of the last script.
  abbrev pub migration : ℤ → ℤ → List S → List (Statement S)
  migration version start_version scripts =
      if is_nil (pending version start_version scripts)
      then []
      else map run (pending version start_version scripts)
        ++ update_version (start_version +ℤ pos (length scripts) -ℤ pos 1) ∷ []

  migration-last :
      (start_version version : ℤ) (scripts : List S)
      → leb_ℤ (start_version -ℤ pos 1) version ≡ true
      → leb_ℤ (start_version +ℤ pos (length scripts) -ℤ pos 1) version ≡ false
      → map run (drop (pos_part (start_index start_version version)) scripts)
          ++ update_version (start_version +ℤ pos (length scripts) -ℤ pos 1) ∷ []
        ≡ migration version start_version scripts
  migration-last start_version version scripts near high =
      let k = pos_part (start_index start_version version) in
      let bound = index_bound start_version version near in
      let e = pending-drop version start_version scripts k bound in
      let a = +ℤ_parts start_version (pos (length scripts)) in
      let b = -ℤ_parts (start_version +ℤ pos (length scripts)) (pos 1) in
      let short : k < length scripts = ground arith in rw (e, is_nil-drop k scripts short) refl

  upgrade-done :
      (scripts : List S) (start_version version : ℤ)
      → leb_ℤ (start_version -ℤ pos 1) version ≡ true
      → leb_ℤ (start_version +ℤ pos (length scripts) -ℤ pos 1) version ≡ true
      → upgrade scripts start_version version ≡ (
          if leb_ℤ (start_version -ℤ pos 1) version
          then migration version start_version scripts
          else [])
  unfolding upgrade
  upgrade-done scripts start_version version near done =
      let a = +ℤ_parts start_version (pos (length scripts)) in
      let b = -ℤ_parts (start_version +ℤ pos (length scripts)) (pos 1) in
      let nothing = pending-none version start_version scripts (ground arith) in
      rw (near, done, upgrade, nothing) (ground arith)

  upgrade-behind :
      (scripts : List S) (start_version version : ℤ)
      → leb_ℤ (start_version -ℤ pos 1) version ≡ true
      → leb_ℤ (start_version +ℤ pos (length scripts) -ℤ pos 1) version ≡ false
      → upgrade scripts start_version version ≡ (
          if leb_ℤ (start_version -ℤ pos 1) version
          then migration version start_version scripts
          else [])
  unfolding upgrade
  upgrade-behind [] start_version version near behind =
      let a = +ℤ_parts start_version (pos 0) in
      let b = -ℤ_parts (start_version +ℤ pos 0) (pos 1) in
      let c = -ℤ_parts start_version (pos 1) in absurd (ground arith)
  upgrade-behind (s ∷ scripts) start_version version near behind =
      rw (near, behind, upgrade) (migration-last start_version version (s ∷ scripts) near behind)

  -- The upgrade refuses a database whose version is more than one below that of the first script. On
  -- any other it runs the scripts that lead above the present version, in their order, and then writes
  -- the version of the last one; where there is no such script it does nothing.
  pub upgrade-eq-migration :
      (scripts : List S) (start_version version : ℤ)
      → upgrade scripts start_version version ≡ (
          if leb_ℤ (start_version -ℤ pos 1) version
          then migration version start_version scripts
          else [])
  unfolding upgrade
  upgrade-eq-migration scripts start_version version =
      let to_version = start_version +ℤ pos (length scripts) -ℤ pos 1 in
      elim (Bool-cases (leb_ℤ (start_version -ℤ pos 1) version)) [
        | inr old ↦ rw (old, upgrade) refl
        | inl near ↦ elim (Bool-cases (leb_ℤ to_version version)) [
          | inl done ↦ upgrade-done scripts start_version version near done
          | inr behind ↦ upgrade-behind scripts start_version version near behind
        ]
      ]
