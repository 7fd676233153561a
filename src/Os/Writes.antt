-- ===== src/Os/Writes.antt =====
-- What `AtomicWrite` of the local backend and `AtomicWriteFile` of local.go leave on the disk.
use file_server_management.Prelude.{
  ℕ, ◌≡◌, ◌≢◌, Bool, List, Option, none, some, ok, err, sym, ap, Result-cases, inl, inr, ◌⊎◌,
}
use file_server_management.Text.{Text}
use file_server_management.Os.{Bytes, Os, DiskError, storage_atomic_write, atomic_write_file}
use file_server_management.LocalFs.{LocalFs, sanitize_and_join}
use file_server_management.LocalFs.Sanitize.{HasBase, IsWithin, sanitize_and_join-IsWithin}
use file_server_management.Storage.{full}
use file_server_management.Os.Steps.{IsOs}
use file_server_management.Os.Atomic.{
  write_through-AllOrNothing, write_with_mode-AllOrNothing, same_or_else,
}

module _ {W : Type 0} (content : W → Text → Option Bytes) where
  -- If `AtomicWrite` of the local backend succeeds, the file under the path holds what the reader
  -- gave, and nothing else on the disk has changed: no temporary file is left.
  pub storage_atomic_write-ok :
      (os : Os W) (base path : Text) (b : Bytes) (clean : Bool) (w w' : W) (p : Text)
      → IsOs os content
      → storage_atomic_write os base path (b, clean) w ≡ (ok tt, w')
      → (content w' (full base path) ≡ some b)
        × ((p ≡ full base path) ⊎ (content w' p ≡ content w p))
  unfolding storage_atomic_write
  storage_atomic_write-ok os base path b clean w w' p laws e =
      let all = rw e at (write_through-AllOrNothing content os laws (full base path) b w clean) in
      (all.0, same_or_else content w w' (full base path) p (all.1 p))

  -- If `AtomicWrite` of the local backend fails, whichever call or read has failed, every file that
  -- was on the disk is as it was; if the target was there, it holds its old content.
  pub storage_atomic_write-err :
      (os : Os W) (base path : Text) (b : Bytes) (clean : Bool) (w w' : W) (error : DiskError)
      (p : Text)
      → IsOs os content
      → storage_atomic_write os base path (b, clean) w ≡ (err error, w')
      → content w p ≢ none
      → content w' p ≡ content w p
  unfolding storage_atomic_write
  storage_atomic_write-err os base path b clean w w' error p laws e =
      rw e at (write_through-AllOrNothing content os laws (full base path) b w clean) p

  -- If `AtomicWriteFile` of local.go succeeds, some path at or below the base holds the data, and
  -- nothing else on the disk has changed.
  pub atomic_write_file-ok :
      (os : Os W) (l : LocalFs) (bs : List Text) (mode : ℕ) (b : Bytes) (parts : List Text)
      (w w' : W) (p : Text)
      → IsOs os content
      → HasBase l bs
      → atomic_write_file os l mode b parts w ≡ (ok tt, w')
      → (target : Text) × IsWithin bs target
        × (content w' target ≡ some b)
        × ((p ≡ target) ⊎ (content w' p ≡ content w p))
  unfolding atomic_write_file
  atomic_write_file-ok os l bs mode b parts w w' p laws h e =
      elim (Result-cases (sanitize_and_join l parts)) [
        | inr (r, refused_) ↦ absurd (cc (ap (λ q. q.0) (rw (refused_, atomic_write_file) at e)))
        | inl (target, accepted) ↦
            let written_ = rw (accepted, atomic_write_file) at e in
            let all =
              rw written_ at (write_with_mode-AllOrNothing content os laws target b w mode) in
            (
              target,
              sanitize_and_join-IsWithin l bs parts target h accepted,
              all.0,
              same_or_else content w w' target p (all.1 p),
            )
      ]

  -- If `AtomicWriteFile` of local.go fails, every file that was on the disk is as it was.
  pub atomic_write_file-err :
      (os : Os W) (l : LocalFs) (mode : ℕ) (b : Bytes) (parts : List Text) (w w' : W)
      (error : DiskError) (p : Text)
      → IsOs os content
      → atomic_write_file os l mode b parts w ≡ (err error, w')
      → content w p ≢ none
      → content w' p ≡ content w p
  unfolding atomic_write_file
  atomic_write_file-err os l mode b parts w w' error p laws e there =
      elim (Result-cases (sanitize_and_join l parts)) [
        | inr (r, refused_) ↦ ap (λ q. content q.1 p) (sym (rw (refused_, atomic_write_file) at e))
        | inl (target, accepted) ↦
            let failed = rw (accepted, atomic_write_file) at e in
            (rw failed at (write_with_mode-AllOrNothing content os laws target b w mode)) p there
      ]
