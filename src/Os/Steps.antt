-- ===== src/Os/Steps.antt =====
-- What the calls of package os do to the contents of files.
use file_server_management.Prelude.{ℕ, ◌≡◌, ◌≢◌, true, false, [], ◌++◌, Option, none, some}
use file_server_management.Text.{Text}
use file_server_management.Os.{Bytes, Os}

-- `content w p` is what the regular file at `p` holds, `none` if there is no such file; each file
-- has one name. A rename is only described for a regular file.
pub record IsOs {W : Type 0} (os : Os W) (content : W → Text → Option Bytes) : Type 0 where
  pub mkdir_keeps : (d : Text) (w : W) (p : Text) → content (os.mkdir_all d w).1 p ≡ content w p
  pub temp_fails :
      (d : Text) (w w' : W)
      → os.create_temp d w ≡ (none, w')
      → (p : Text) → content w' p ≡ content w p
  pub temp_new :
      (d : Text) (w w' : W) (t : Text)
      → os.create_temp d w ≡ (some t, w')
      → (content w t ≡ none) × (content w' t ≡ some [])
  pub temp_others :
      (d : Text) (w w' : W) (t : Text)
      → os.create_temp d w ≡ (some t, w')
      → (p : Text) → p ≢ t
      → content w' p ≡ content w p
  pub write_appends :
      (t : Text) (b : Bytes) (w w' : W) (old : Bytes)
      → os.write t b w ≡ (true, w')
      → content w t ≡ some old
      → content w' t ≡ some (old ++ b)
  pub write_others :
      (t : Text) (b : Bytes) (w : W) (p : Text) → p ≢ t → content (os.write t b w).1 p ≡ content w p
  pub close_keeps : (t : Text) (w : W) (p : Text) → content (os.close t w).1 p ≡ content w p
  pub sync_keeps : (t : Text) (w : W) (p : Text) → content (os.sync t w) p ≡ content w p
  pub chmod_keeps :
      (t : Text) (m : ℕ) (w : W) (p : Text) → content (os.chmod t m w).1 p ≡ content w p
  pub rename_moves :
      (a b : Text) (w w' : W) (x : Bytes)
      → os.rename a b w ≡ (true, w')
      → content w a ≡ some x
      → (content w' b ≡ some x)
        × (a ≢ b → content w' a ≡ none)
        × ((p : Text) → p ≢ a → p ≢ b → content w' p ≡ content w p)
  pub rename_fails :
      (a b : Text) (w w' : W)
      → os.rename a b w ≡ (false, w')
      → (p : Text) → content w' p ≡ content w p
  pub open_reads :
      (a : Text) (w : W) (b : Bytes) → os.open_file a w ≡ some (b, true) → content w a ≡ some b
  pub create_empties : (t : Text) (w w' : W) → os.create t w ≡ (true, w') → content w' t ≡ some []
  pub create_others :
      (t : Text) (w : W) (p : Text) → p ≢ t → content (os.create t w).1 p ≡ content w p
  pub remove_done : (t : Text) (w w' : W) → os.remove t w ≡ (true, w') → content w' t ≡ none
  pub remove_fails :
      (t : Text) (w w' : W) → os.remove t w ≡ (false, w') → (p : Text) → content w' p ≡ content w p
  pub remove_others :
      (t : Text) (w : W) (p : Text) → p ≢ t → content (os.remove t w).1 p ≡ content w p
