-- ===== src/Migrate.antt =====
-- cmd/migrate/main.go: the scripts of db/migrations, in the order of their names.
pub mod Order
pub mod Applied
use file_server_management.Prelude.{
  ℕ, ◌≡◌, Bool, true, false, not, ◌&&◌, ◌||◌, List, [], ◌∷◌, ◌++◌, Option, none, some, reverse, ltb,
  ◌==◌, if◌then◌else◌,
}
use file_server_management.Text.{Text, txt, text_eq}
use file_server_management.FilePath.{join}
use file_server_management.Config.{default_dsn}

-- os.DirEntry
pub record DirEntry : Type 0 where
  pub name : Text
  pub is_dir : Bool

-- filepath.Ext, backwards from the end of the path; `after` is what was passed.
unfoldable pub ext_before : (before after : Text) → Text
ext_before [] after = []
ext_before (c ∷ before) after =
    let rest = ext_before before (c ∷ after) in
    if c == b'/' then [] else (if c == b'.' then c ∷ after else rest)

unfoldable pub ext : Text → Text
ext path = ext_before (reverse path) []

-- `<=` on strings
unfoldable pub text_le : Text → Text → Bool
text_le [] t = true
text_le (c ∷ s) [] = false
text_le (c ∷ s) (d ∷ t) = ltb c d || (c == d && text_le s t)

-- sort.Strings, by insertion: equal strings cannot be told apart, so any way of sorting will do.
unfoldable pub insert_string : Text → List Text → List Text
insert_string x [] = x ∷ []
insert_string x (y ∷ ys) =
    let rest = insert_string x ys in if text_le x y then x ∷ y ∷ ys else y ∷ rest

unfoldable pub sort_strings : List Text → List Text
sort_strings [] = []
sort_strings (x ∷ xs) = insert_string x (sort_strings xs)

-- The loop over the entries.
unfoldable pub scripts : List DirEntry → List Text
scripts [] = []
scripts (e ∷ entries) =
    let rest = scripts entries in
    if e.is_dir || not (text_eq (ext e.name) (txt ".sql")) then rest else e.name ∷ rest

-- The DSN that the command connects to.
unfoldable pub migrate_dsn : (env : Text → Text) → Text
migrate_dsn env = let dsn = env (txt "POSTGRES_DSN") in if text_eq dsn [] then default_dsn else dsn

-- The calls of pgxpool and of package os, on the state `W` of the database.
pub record Migrator (W : Type 0) : Type 0 where
  pub opens : (dsn : Text) → Bool
  pub read_dir : Text → Option (List DirEntry)
  pub read_file : Text → Option Text
  pub exec : Text → W → Bool × W

-- How the command ends: with its last message, or with a panic, at a script or before all of them.
pub data Outcome : Type 0 where
  migrated : Outcome
  no_pool : Outcome
  no_directory : Outcome
  unreadable : (script : Text) → Outcome
  rejected : (script : Text) → Outcome

module _ {W : Type 0} (m : Migrator W) where
  abbrev pub script_path : Text → Text
  script_path name = join (txt "db/migrations" ∷ name ∷ [])

  -- `if _, err := pool.Exec(...); err != nil { panic(err) }`
  abbrev pub executed_or : (name : Text) → Bool × W → (W → Outcome × W) → Outcome × W
  executed_or name (true, w) next = next w
  executed_or name (false, w) next = (rejected name, w)

  -- The loop over the scripts.
  unfoldable pub apply_scripts : List Text → W → Outcome × W
  apply_scripts [] w = (migrated, w)
  apply_scripts (name ∷ names) w = elim (m.read_file (script_path name)) [
    | none ↦ (unreadable name, w)
    | some script ↦ executed_or name (m.exec script w) (λ w1. apply_scripts names w1)
  ]

  -- `main`
  unfoldable pub migrate : (env : Text → Text) → W → Outcome × W
  migrate env w =
      if m.opens (migrate_dsn env)
      then elim (m.read_dir (txt "db/migrations")) [
        | none ↦ (no_directory, w)
        | some entries ↦ apply_scripts (sort_strings (scripts entries)) w
      ]
      else (no_pool, w)
