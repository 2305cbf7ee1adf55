-- ===== src/DbUpgrade.antt =====
-- The upgrade of a module's tables: hikyuu/utilities/db_connect/DBUpgrade.cpp. The database is seen
-- through the statements that it is sent, and through its answer to the query for the version.
pub mod Pending
use hku_utils.Base.{
  ℕ, zero, suc, ◌+◌, List, [], ◌∷◌, ◌++◌, map, length, Option, none, some, Bool, true, false, ◌&&◌,
  not, if◌then◌else◌, drop,
}
use hku_utils.Base.Int.{ℤ, pos, ◌+ℤ◌, ◌-ℤ◌, leb_ℤ, is_zero, pos_part}

-- The driver behind the connection, as `isSQLite` and `isMySQL` tell it.
pub data Engine : Type 0 where
  sqlite mysql other : Engine

-- What `driver` is told to do. `query_version` reads the row of the module.
pub data Statement {ℓ} (S : Type ℓ) : Type ℓ where
  create_table : Engine → Statement S
  query_version insert_version : Statement S
  run : S → Statement S
  update_version : ℤ → Statement S

-- The index of the first script to run.
unfoldable pub start_index : ℤ → ℤ → ℤ
start_index start_version version =
    if not (leb_ℤ start_version version) then pos 0 else version -ℤ start_version +ℤ pos 1

module _ {ℓ} {S : Type ℓ} where
  -- The table of versions, where it is missing and the engine is known.
  unfoldable pub create_version_table : Bool → Engine → List (Statement S)
  create_version_table true engine = []
  create_version_table false sqlite = create_table sqlite ∷ []
  create_version_table false mysql = create_table mysql ∷ []
  create_version_table false other = []

  -- The upgrade from `version`. The versions are an `int`, in whose range the sums stay.
  unfoldable pub upgrade : List S → ℤ → ℤ → List (Statement S)
  upgrade scripts start_version version =
      let count = pos (length scripts) in
      let to_version = start_version +ℤ count -ℤ pos 1 in
      if not (leb_ℤ (start_version -ℤ pos 1) version)
      then []
      else (if is_zero count
          then []
          else (if leb_ℤ to_version version
              then []
              else map run (drop (pos_part (start_index start_version version)) scripts)
                ++ update_version to_version ∷ []))

  -- After the query, with its answer; a failed query leaves 0.
  unfoldable pub create_and_upgrade : List S → ℤ → Option S → ℤ → List (Statement S)
  unfolding upgrade
  create_and_upgrade scripts start_version create_script version =
      if is_zero version
      then (elim create_script [
        | none ↦ []
        | some s ↦ run s ∷ insert_version ∷ upgrade scripts start_version (pos 1)
      ])
      else upgrade scripts start_version version

  unfoldable pub db_upgrade : Bool → Engine → Option ℤ → List S → ℤ → Option S → List (Statement S)
  unfolding create_version_table create_and_upgrade
  db_upgrade table_exists engine answer scripts start_version create_script =
      let version : ℤ = elim answer [ none ↦ pos 0 | some v ↦ v ] in
      let rest = query_version ∷ create_and_upgrade scripts start_version create_script version in
      create_version_table table_exists engine
      ++ (elim create_script [ some _ ↦ rest | none ↦ elim scripts [ [] ↦ [] | _ ∷ _ ↦ rest ] ])
