-- ===== src/Migrate/Applied.antt =====
-- Which scripts cmd/migrate/main.go has executed when it ends.
use file_server_management.Prelude.{◌≡◌, ◌⊎◌, true, false, List, [], ◌∷◌, ◌++◌, none, some}
use file_server_management.Text.{Text}
use file_server_management.Migrate.{Migrator, Outcome, migrated, unreadable, rejected, script_path}

module _ {W : Type 0} (m : Migrator W) where
  -- The scripts are read and executed one after the other, each with success.
  pub data Executed : List Text → W → W → Type 0 where
    nothing : {w : W} → Executed [] w w
    script :
        {name : Text} {names : List Text} {w w1 w2 : W} (text : Text)
        → m.read_file (script_path m name) ≡ some text
        → m.exec text w ≡ (true, w1)
        → Executed names w1 w2
        → Executed (name ∷ names) w w2

  -- One script stops the command: it cannot be read, or the database refuses it.
  abbrev pub StopsAt : (name : Text) → Outcome → W → W → Type 0
  StopsAt name o w w' =
      ((o ≡ unreadable name) × (m.read_file (script_path m name) ≡ none) × (w' ≡ w))
      ⊎ ((text : Text) × (o ≡ rejected name)
          × (m.read_file (script_path m name) ≡ some text)
          × (m.exec text w ≡ (false, w')))

  -- All scripts of a list are executed, or those before the one that stops the command.
  abbrev pub Runs : List Text → Outcome → W → W → Type 0
  Runs names o w w' =
      ((o ≡ migrated) × Executed names w w')
      ⊎ ((before : List Text) × (name : Text) × (after : List Text) × (w1 : W) × (names
            ≡ before ++ name ∷ after)
          × Executed before w w1
          × StopsAt name o w1 w')

  -- What `Runs` says of a result.
  abbrev Ends : List Text → W → Outcome × W → Type 0
  Ends names w r = Runs names r.0 w r.1
