-- ===== src/Os/Race/Writes.antt =====
-- Uploads to the local backend that run at once, and what they leave.
use file_server_management.Prelude.{ℕ, ◌≡◌, ◌⊎◌, inl, refl, true, List, [], ◌∷◌, Option}
use file_server_management.Text.{Text}
use file_server_management.Storage.{full}
use file_server_management.Os.{Bytes, Source, Os, storage_atomic_write}
use file_server_management.Os.Steps.{IsOs}
use file_server_management.Os.Race.{
  Race, returned, advance, step, race, start_at, alone, as_returned, alone-write_through,
}
use file_server_management.Os.Race.Calls.{IsLasting, advance-Effect}
use file_server_management.Os.Race.Safe.{HoldsWrite, IsSafe, after-IsSafe}

module _ {W : Type 0} (os : Os W) (target : ℕ → Text) (source : ℕ → Source)
    (content : W → Text → Option Bytes) where
  module _ (laws : IsOs os content)
      (lasting : (i : ℕ) → IsLasting os target source content (target i)) where
    step-IsSafe :
        (before : W) (r : Race W) (i : ℕ)
        → IsSafe os target source content before r
        → IsSafe os target source content before (step os target source i r)
    unfolding step
    step-IsSafe before r i safe =
        let out = advance os target source i (r.phase i) r.disk in
        after-IsSafe os target source content laws lasting before r safe i out.0 out.1 (
          advance-Effect os target source content laws lasting i (r.phase i) r.disk (safe.held i)
            (safe.aside i))

    race_on-IsSafe :
        (before : W) (is : List ℕ) (r : Race W)
        → IsSafe os target source content before r
        → IsSafe os target source content before (race os target source is r)
    unfolding race
    race_on-IsSafe before [] r safe = safe
    race_on-IsSafe before (i ∷ is) r safe =
        race_on-IsSafe before is (step os target source i r) (step-IsSafe before r i safe)

    race-IsSafe :
        (before : W) (is : List ℕ)
        → IsSafe os target source content before
            (race os target source is (start_at os target source before))
    race-IsSafe before is = race_on-IsSafe before is (start_at os target source before) (record {
      held = λ i t b e. absurd (cc e);
      apart = λ i j t b c ne e f. cc e;
      aside = λ i t b e. absurd (cc e);
      whole = λ p lasts. inl refl;
      landed = λ i e. absurd (cc e);
    })

module _ {W : Type 0} (os : Os W) (base : Text) (path : ℕ → Text) (source : ℕ → Source)
    (content : W → Text → Option Bytes) where
  -- The path on the disk to which a writer writes.
  abbrev pub target_of : ℕ → Text
  target_of i = full base (path i)

  -- The writers that go on, in this order, from a state of the disk on.
  abbrev pub local_race : List ℕ → W → Race W
  local_race is before = race os target_of source is (start_at os target_of source before)

  alone-storage_atomic_write :
      (i : ℕ) (w : W)
      → alone os target_of source i w
        ≡ as_returned os target_of source (storage_atomic_write os base (path i) (source i) w)
  unfolding storage_atomic_write
  alone-storage_atomic_write i w = alone-write_through os target_of source i w

  -- A writer that makes its calls in a row does what AtomicWrite of the local backend does; and
  -- however the calls of any number of writers follow on each other, if no temporary file is made
  -- under a path that is written to: at every point each path under which no temporary file is ever
  -- made holds what it held before, or all that one writer to it had to write; and the path of a
  -- writer that has succeeded holds all that one writer to it had to write.
  pub local_race-HoldsWrite :
      IsOs os content
      → ((i : ℕ) → IsLasting os target_of source content (target_of i))
      → (before : W) (is : List ℕ)
      → let after = local_race is before in
        ((i : ℕ) (w : W)
          → alone os target_of source i w
            ≡ as_returned os target_of source (storage_atomic_write os base (path i) (source i) w))
        × ((p : Text)
            → IsLasting os target_of source content p
            → (content after.disk p ≡ content before p)
              ⊎ HoldsWrite os target_of source content p after.disk)
        × ((i : ℕ)
            → after.phase i ≡ returned true
            → HoldsWrite os target_of source content (target_of i) after.disk)
  local_race-HoldsWrite laws lasting before is =
      let safe = race-IsSafe os target_of source content laws lasting before is in
      (alone-storage_atomic_write, safe.whole, safe.landed)
