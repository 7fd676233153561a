-- ===== src/Objects/Race.antt =====
-- Uploads to one bucket by many writers at once: `AtomicWrite` of internal/adapters/storage/s3 and
-- internal/adapters/storage/gcs, one call of the client at a time, in any order of the writers.
pub mod Safe
pub mod Keys
pub mod Uploads
use file_server_management.Prelude.{
  ℕ, ◌<◌, ◌≡◌, ◌≢◌, ◌⊎◌, refl, Bool, true, false, List, [], ◌∷◌, some, ◌==◌, if◌then◌else◌,
  Bool-cases, inl, inr,
}
use file_server_management.Text.{Text}
use file_server_management.Os.{Bytes}
use file_server_management.Objects.{Objects, and_then}
use file_server_management.Objects.Publish.{IsUpload, IsCopy, IsRemoval}

-- How far a writer is: what it has done last, and at the end what it returns.
pub data Phase : Type 0 where
  fresh : Phase
  uploaded : Phase
  copied : Phase
  returned : Bool → Phase

-- Where each writer is, and the state of the bucket.
pub record Race (W : Type 0) : Type 0 where
  pub phase : ℕ → Phase
  pub bucket : W

abbrev pub set_phase : (ℕ → Phase) → ℕ → Phase → ℕ → Phase
set_phase f i v j = if j == i then v else f j

-- The calls of the writers: the upload to a temporary key, the copy to the final key, the removal.
pub record Calls (W : Type 0) : Type 0 where
  pub upload : ℕ → W → Bool × W
  pub copy : ℕ → W → Bool × W
  pub remove : ℕ → W → Bool × W

module _ {W : Type 0} (calls : Calls W) where
  abbrev pub or_failed : Phase → Bool × W → Phase × W
  or_failed next (true, w) = (next, w)
  or_failed next (false, w) = (returned false, w)

  -- The next call of a writer: it stops at the first that fails, but for the removal.
  unfoldable pub advance : ℕ → Phase → W → Phase × W
  advance i fresh w = or_failed uploaded (calls.upload i w)
  advance i uploaded w = or_failed copied (calls.copy i w)
  advance i copied w = (returned true, (calls.remove i w).1)
  advance i (returned done) w = (returned done, w)

  -- One writer makes its next call.
  unfoldable pub step : ℕ → Race W → Race W
  step i r =
      let (v, w) = advance i (r.phase i) r.bucket in
      record { phase = set_phase r.phase i v; bucket = w }

  -- The writers that make a call, in this order.
  unfoldable pub race : List ℕ → Race W → Race W
  race [] r = r
  race (i ∷ is) r = race is (step i r)

  abbrev pub start_at : W → Race W
  start_at w = record { phase = λ i. fresh; bucket = w }

  -- A writer that is alone, with its three calls in a row.
  abbrev pub alone : ℕ → W → Phase × W
  alone i w =
      let first = advance i fresh w in
      let second = advance i first.0 first.1 in advance i second.0 second.1

  -- The three calls as the code runs them.
  abbrev pub published : ℕ → W → Bool × W
  published i w =
      and_then (calls.upload i w)
        (λ w1. and_then (calls.copy i w1) (λ w2. (true, (calls.remove i w2).1)))

  pub alone-published :
      (i : ℕ) (w : W) → alone i w ≡ (returned (published i w).0, (published i w).1)
  unfolding advance
  alone-published i w = by_upload (calls.upload i w)
    where
      by_copy :
          (r : Bool × W)
          → (let second = or_failed copied r in advance i second.0 second.1) ≡ (
              let out = and_then r (λ w2. (true, (calls.remove i w2).1)) in (returned out.0, out.1))
      by_copy (true, v) = refl
      by_copy (false, v) = refl

      by_upload :
          (r : Bool × W)
          → (let first = or_failed uploaded r in
              let second = advance i first.0 first.1 in advance i second.0 second.1)
            ≡ (let out =
                  and_then r
                    (λ w1. and_then (calls.copy i w1) (λ w2. (true, (calls.remove i w2).1))) in
                (returned out.0, out.1))
      by_upload (false, v) = refl
      by_upload (true, v) = by_copy (calls.copy i v)

-- What the calls do, and how the keys lie: no two of the `n` writers have one temporary key, and no
-- temporary key is a final one.
pub record IsWriting {W : Type 0} (content : W → Objects) (calls : Calls W) (tmp final : ℕ → Text)
    (body : ℕ → Bytes) (n : ℕ) : Type 0 where
  pub uploads : (i : ℕ) (w : W) → IsUpload content (tmp i) (body i) w (calls.upload i w)
  pub copies : (i : ℕ) (w : W) → IsCopy content (tmp i) (final i) w (calls.copy i w)
  pub removes : (i : ℕ) (w : W) → IsRemoval content (tmp i) w (calls.remove i w)
  pub apart : (i j : ℕ) → i < n → j < n → i ≢ j → tmp i ≢ tmp j
  pub aside : (i j : ℕ) → final i ≢ tmp j

-- The writer has copied its upload.
abbrev pub has_copied : Phase → Bool
has_copied fresh = false
has_copied uploaded = false
has_copied copied = true
has_copied (returned done) = done
