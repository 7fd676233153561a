-- ===== src/Os/Unchecked.antt =====
-- internal/fs/local_fs.go, which looks at the result of a write's last call only.
use file_server_management.Prelude.{◌≡◌, refl, Bool, true, false, [], ◌++◌, Option, some}
use file_server_management.Text.{Text, txt}
use file_server_management.Storage.{full}
use file_server_management.Os.{Bytes, Source, Os, copy}
use file_server_management.Os.Steps.{IsOs}

module _ {W : Type 0} (os : Os W) (base : Text) where
  unfoldable pub unchecked_create_folder : Text → W → Bool × W
  unchecked_create_folder p w = os.mkdir_all (full base p) w

  -- The file that os.Create gives; without one, io.Copy and Close fail and do nothing.
  abbrev pub filled : Text → Source → Bool × W → W
  filled t src (true, w) = (copy os t src w).1
  filled t src (false, w) = w

  unfoldable pub unchecked_atomic_write : Text → Source → W → Bool × W
  unchecked_atomic_write p src w =
      let f = full base p in let t = f ++ txt ".tmp" in os.rename t f (filled t src (os.create t w))

  -- `AtomicWrite` of local_fs.go succeeds with the part of the data that came before an error of
  -- the reader, and that part replaces the file, if the calls of package os succeed.
  pub unchecked_atomic_write-partial :
      (content : W → Text → Option Bytes) (p : Text) (part : Bytes) (w w1 w2 w3 : W)
      → IsOs os content
      → os.create (full base p ++ txt ".tmp") w ≡ (true, w1)
      → os.write (full base p ++ txt ".tmp") part w1 ≡ (true, w2)
      → os.rename (full base p ++ txt ".tmp") (full base p) w2 ≡ (true, w3)
      → (unchecked_atomic_write p (part, false) w ≡ (true, w3))
        × (content w3 (full base p) ≡ some part)
  unfolding unchecked_atomic_write copy
  unchecked_atomic_write-partial content p part w w1 w2 w3 laws created written renamed =
      let t = full base p ++ txt ".tmp" in
      let held = laws.write_appends t part w1 w2 [] written (laws.create_empties t w w1 created) in
      (
        rw (unchecked_atomic_write, created, written, renamed) refl,
        (laws.rename_moves t (full base p) w2 w3 part renamed held).0,
      )
