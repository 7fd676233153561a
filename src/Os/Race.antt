-- ===== src/Os/Race.antt =====
-- Writes to the disk by many callers at once: `AtomicWrite` of
-- internal/adapters/storage/local/local_storage.go, call by call of package os, in any order.
pub mod Calls
pub mod Safe
pub mod Writes
use file_server_management.Prelude.{
  ℕ, ◌≡◌, ◌≢◌, ◌⊎◌, refl, Bool, true, false, List, [], ◌∷◌, Option, none, some, Result, ok, err,
  ◌==◌, if◌then◌else◌,
}
use file_server_management.Text.{Text}
use file_server_management.FilePath.{dir}
use file_server_management.Os.{
  Bytes, Source, Os, DiskError, Outcome, os_failed, after, with_name, finish, copy, write_through,
}

-- How far a writer is: it has a new temporary file, or has filled it, or has returned.
pub data Phase : Type 0 where
  fresh : Phase
  opened : (tmp : Text) → Phase
  filled : (tmp : Text) → Phase
  returned : Bool → Phase

-- Where each writer is, and the state of the disk.
pub record Race (W : Type 0) : Type 0 where
  pub phase : ℕ → Phase
  pub disk : W

abbrev pub set_phase : (ℕ → Phase) → ℕ → Phase → ℕ → Phase
set_phase f i v j = if j == i then v else f j

module _ {W : Type 0} (os : Os W) (target : ℕ → Text) (source : ℕ → Source) where
  abbrev pub or_failed : Phase → Bool × W → Phase × W
  or_failed next (true, w) = (next, w)
  or_failed next (false, w) = (returned false, w)

  abbrev pub given : Option Text × W → Phase × W
  given (none, w) = (returned false, w)
  given (some t, w) = (opened t, w)

  abbrev pub ready : ℕ → Bool × W → Phase × W
  ready i (true, w) = given (os.create_temp (dir (target i)) w)
  ready i (false, w) = (returned false, w)

  -- The next calls of a writer, of which one changes files: it makes the directory and the
  -- temporary file, or copies the reader to it, or renames it.
  unfoldable pub advance : ℕ → Phase → W → Phase × W
  advance i fresh w = ready i (os.mkdir_all (dir (target i)) w)
  advance i (opened t) w = or_failed (filled t) (copy os t (source i) w)
  advance i (filled t) w = or_failed (returned true) (os.rename t (target i) w)
  advance i (returned done) w = (returned done, w)

  -- One writer goes on.
  unfoldable pub step : ℕ → Race W → Race W
  step i r =
      let (v, w) = advance i (r.phase i) r.disk in
      record { phase = set_phase r.phase i v; disk = w }

  -- The writers that go on, in this order.
  unfoldable pub race : List ℕ → Race W → Race W
  race [] r = r
  race (i ∷ is) r = race is (step i r)

  abbrev pub start_at : W → Race W
  start_at w = record { phase = λ i. fresh; disk = w }

  -- A writer that is alone.
  abbrev pub alone : ℕ → W → Phase × W
  alone i w =
      let first = advance i fresh w in
      let second = advance i first.0 first.1 in advance i second.0 second.1

  abbrev pub as_returned : Outcome W → Phase × W
  as_returned (ok _, w) = (returned true, w)
  as_returned (err _, w) = (returned false, w)

  -- It does what the code does.
  pub alone-write_through :
      (i : ℕ) (w : W) → alone i w ≡ as_returned (write_through os (target i) (source i) w)
  unfolding advance write_through
  alone-write_through i w = by_dir (os.mkdir_all (dir (target i)) w)
    where
      by_rename : (r : Bool × W) → or_failed (returned true) r ≡ as_returned (finish r)
      by_rename (true, v) = refl
      by_rename (false, v) = refl

      by_copy :
          (t : Text) (r : Bool × W)
          → (let second = or_failed (filled t) r in advance i second.0 second.1)
            ≡ as_returned (after r (λ v. finish (os.rename t (target i) v)))
      by_copy t (true, v) = by_rename (os.rename t (target i) v)
      by_copy t (false, v) = refl

      by_name :
          (r : Option Text × W)
          → (let first = given r in
              let second = advance i first.0 first.1 in advance i second.0 second.1)
            ≡ as_returned (
                with_name r (λ t v.
                  after (copy os t (source i) v) (λ v3. finish (os.rename t (target i) v3))))
      by_name (none, v) = refl
      by_name (some t, v) = by_copy t (copy os t (source i) v)

      by_dir :
          (r : Bool × W)
          → (let first = ready i r in
              let second = advance i first.0 first.1 in advance i second.0 second.1)
            ≡ as_returned (
                after r (λ v. with_name (os.create_temp (dir (target i)) v) (λ t v2.
                  after (copy os t (source i) v2) (λ v3. finish (os.rename t (target i) v3)))))
      by_dir (true, v) = by_name (os.create_temp (dir (target i)) v)
      by_dir (false, v) = refl
