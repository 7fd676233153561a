-- ===== src/Os.antt =====
-- The operations on the disk of internal/adapters/storage/local/local_storage.go and of
-- internal/adapters/fs/local/local.go, over the calls of Go's package os that they make.
pub mod Race
pub mod Steps
pub mod Atomic
pub mod Writes
pub mod Move
pub mod Cleaned
pub mod Unchecked
use file_server_management.Prelude.{
  ℕ, Bool, true, false, ◌&&◌, List, [], ◌∷◌, Option, none, some, Result, ok, err, map,
}
use file_server_management.Text.{Text}
use file_server_management.FilePath.{dir, join}
use file_server_management.LocalFs.{LocalFs, FsError, sanitize_and_join}
use file_server_management.Storage.{ObjectInfo, full}

abbrev pub Bytes : Type 0
Bytes = List ℕ

-- What a reader gives, and whether it ends without an error.
abbrev pub Source : Type 0
Source = Bytes × Bool

-- What os.Stat answers.
pub data Stat : Type 0 where
  found not_exist stat_failed : Stat

-- The calls of package os, on the state `W` of the disk; a call that fails may leave any state.
pub record Os (W : Type 0) : Type 0 where
  pub mkdir_all : Text → W → Bool × W
  -- In a directory, the name of a new file.
  pub create_temp : Text → W → Option Text × W
  -- Writing at the end of an open file.
  pub write : Text → Bytes → W → Bool × W
  -- Closing a file, where the code looks at the result.
  pub close : Text → W → Bool × W
  -- Flushing a file, where the code drops the error.
  pub sync : Text → W → W
  pub chmod : Text → ℕ → W → Bool × W
  pub rename : Text → Text → W → Bool × W
  pub open_file : Text → W → Option Source
  pub mode_of : Text → W → Option ℕ
  pub create : Text → W → Bool × W
  pub remove : Text → W → Bool × W
  pub remove_all : Text → W → Bool × W
  pub stat : Text → W → Stat
  -- The name, size (0 if it is not known) and kind of each entry.
  pub read_dir : Text → W → Option (List (Text × ℕ × Bool))

pub data DiskError : Type 0 where
  refused : FsError → DiskError
  cancelled : DiskError
  target_required : DiskError
  os_failed : DiskError

abbrev pub Outcome : Type 0 → Type 0
Outcome W = Result DiskError (Unit {0}) × W

-- `if err := ...; err != nil { return err }`
abbrev pub after : {W : Type 0} → Bool × W → (W → Outcome W) → Outcome W
after (true, w) next = next w
after (false, w) next = (err os_failed, w)

abbrev pub with_name : {W : Type 0} → Option Text × W → (Text → W → Outcome W) → Outcome W
with_name (some t, w) next = next t w
with_name (none, w) next = (err os_failed, w)

-- A call whose error is returned.
abbrev pub finish : {W : Type 0} → Bool × W → Outcome W
finish r = after r (λ w. (ok tt, w))

abbrev pub existence : Stat → Result DiskError Bool
existence found = ok true
existence not_exist = ok false
existence stat_failed = err os_failed

module _ {W : Type 0} (os : Os W) where
  -- io.Copy to a file
  unfoldable pub copy : Text → Source → W → Bool × W
  copy t src w = let r = os.write t src.0 w in (r.0 && src.1, r.1)

  -- local_storage.go `AtomicWrite`, on the path that `full` gives
  unfoldable pub write_through : Text → Source → W → Outcome W
  write_through target src w = after (os.mkdir_all (dir target) w) (λ w1.
      with_name (os.create_temp (dir target) w1)
        (λ tmp w2. after (copy tmp src w2) (λ w3. finish (os.rename tmp target w3))))

  -- The copy behind a rename that failed.
  unfoldable pub copy_and_remove : Text → Text → W → Outcome W
  copy_and_remove src dst w = elim (os.open_file src w) [
    | none ↦ (err os_failed, w)
    | some source ↦
        after (os.create dst w) (λ w1. after (copy dst source w1) (λ w2. finish (os.remove src w2)))
  ]

  abbrev pub or_copy : Text → Text → Bool × W → Outcome W
  or_copy src dst (true, w) = (ok tt, w)
  or_copy src dst (false, w) = copy_and_remove src dst w

  -- local_storage.go `Move` and local.go `MoveUploadedFile`, on full paths
  unfoldable pub move_through : Text → Text → W → Outcome W
  move_through src dst w =
      after (os.mkdir_all (dir dst) w) (λ w1. or_copy src dst (os.rename src dst w1))

  module _ (base : Text) where
    unfoldable pub storage_create_folder : Text → W → Outcome W
    storage_create_folder path w = finish (os.mkdir_all (full base path) w)

    unfoldable pub storage_atomic_write : Text → Source → W → Outcome W
    storage_atomic_write path src w = write_through (full base path) src w

    unfoldable pub storage_move : Text → Text → W → Outcome W
    storage_move src dst w = move_through (full base src) (full base dst) w

    unfoldable pub storage_delete : Text → W → Outcome W
    storage_delete path w = finish (os.remove_all (full base path) w)

    unfoldable pub storage_exists : Text → W → Result DiskError Bool
    storage_exists path w = existence (os.stat (full base path) w)

    unfoldable pub storage_list : Text → W → Option (List ObjectInfo)
    storage_list prefix w = elim (os.read_dir (full base prefix) w) [
      | none ↦ none
      | some entries ↦
          some (
            map (λ e. record { path = join (prefix ∷ e.0 ∷ []); size = e.1; is_dir = e.2 }) entries)
    ]

    unfoldable pub storage_open : Text → W → Option Source
    storage_open path w = os.open_file (full base path) w

  abbrev pub with_path : Result FsError Text → W → (Text → Outcome W) → Outcome W
  with_path (err e) w next = (err (refused e), w)
  with_path (ok p) w next = next p

  -- local.go, past its check of the path: as `write_through`, with the data in memory, and chmod
  -- before the rename
  unfoldable pub write_with_mode : ℕ → Text → Bytes → W → Outcome W
  write_with_mode mode target bytes w = after (os.mkdir_all (dir target) w) (λ w1.
      with_name (os.create_temp (dir target) w1) (λ tmp w2.
        after (os.write tmp bytes w2)
          (λ w3. after (os.chmod tmp mode w3) (λ w4. finish (os.rename tmp target w4)))))

  -- local.go `CreateFolder`
  unfoldable pub create_folder : LocalFs → List Text → W → Outcome W
  create_folder l parts w = with_path (sanitize_and_join l parts) w (λ p. finish (os.mkdir_all p w))

  -- local.go `AtomicWriteFile`
  unfoldable pub atomic_write_file : LocalFs → ℕ → Bytes → List Text → W → Outcome W
  atomic_write_file l mode bytes parts w =
      with_path (sanitize_and_join l parts) w (λ p. write_with_mode mode p bytes w)

  -- local.go `MoveUploadedFile`
  unfoldable pub move_uploaded_file : LocalFs → List Text → List Text → W → Outcome W
  move_uploaded_file l src dst w =
      with_path (sanitize_and_join l src) w
        (λ s. with_path (sanitize_and_join l dst) w (λ d. move_through s d w))

  abbrev pub existing : Result FsError Text → W → Result DiskError Bool
  existing (err e) w = err (refused e)
  existing (ok p) w = existence (os.stat p w)

  -- local.go `Exists`
  unfoldable pub file_exists : LocalFs → List Text → W → Result DiskError Bool
  file_exists l parts w = existing (sanitize_and_join l parts) w
