-- ===== src/Examples/Scripts.antt =====
-- A directory of scripts, of which the database refuses one.
use file_server_management.Prelude.{
  true, false, not, List, [], ◌∷◌, ◌++◌, Option, none, some, if◌then◌else◌,
}
use file_server_management.Text.{Text, txt, text_eq}
use file_server_management.Migrate.{DirEntry, Migrator}

abbrev script_at : Text → Option Text
script_at p =
    if text_eq p (txt "db/migrations/01.sql")
    then some (txt "CREATE")
    else (if text_eq p (txt "db/migrations/02.sql") then some (txt "DROP") else none)

abbrev entries : List DirEntry
entries =
    record { name = txt "02.sql"; is_dir = false }
    ∷ record { name = txt "README.md"; is_dir = false }
    ∷ record { name = txt "01.sql"; is_dir = false }
    ∷ []

-- A database that keeps what it has executed, and refuses "DROP".
abbrev migrator : Migrator (List Text)
migrator = record {
  opens = λ dsn. not (text_eq dsn []);
  read_dir = λ d. some entries;
  read_file = script_at;
  exec = λ s w. if text_eq s (txt "DROP") then (false, w) else (true, w ++ s ∷ []);
}

abbrev no_env : Text → Text
no_env k = []
