-- ===== src/Sftp/NewFile.antt =====
-- `AtomicWriteFile` of internal/filesystem/sftp_client.go: SFTP renames to free names only.
use file_server_management.Prelude.{
  ◌⊎◌, ℕ, ◌≡◌, ◌≢◌, refl, Bool, true, false, ◌&&◌, List, [], ◌++◌, Option, none, some, sym, ◌∙◌,
}
use file_server_management.Text.{Text, txt}
use file_server_management.FilePath.{dir}
use file_server_management.Os.{Bytes}
use file_server_management.Os.Atomic.{same_or_else}
use file_server_management.Objects.{temp_key}
use file_server_management.Objects.Publish.{temp_key-apart}
use file_server_management.Sftp.{
  SftpFs, SftpClient, and_then, remote_join, remote_copy, write_and_rename, sftp_atomic_write,
}

-- What the calls do to the contents of the remote files. The protocol's rename, which is the one
-- that the client sends, is an error if there is a file with the new name.
pub record IsSftp {W : Type 0} (client : SftpClient W) (content : W → Text → Option Bytes)
    : Type 0 where
  pub mkdir_keeps : (d : Text) (w : W) (p : Text) → content (client.mkdir_all d w).1 p ≡ content w p
  pub open_empties :
      (t : Text) (w : W)
      → (client.open_empty t w).0 ≡ true
      → content (client.open_empty t w).1 t ≡ some []
  pub open_others :
      (t : Text) (w : W) (p : Text) → p ≢ t → content (client.open_empty t w).1 p ≡ content w p
  pub write_appends :
      (t : Text) (b : Bytes) (w : W) (old : Bytes)
      → (client.write t b w).0 ≡ true
      → content w t ≡ some old
      → content (client.write t b w).1 t ≡ some (old ++ b)
  pub write_others :
      (t : Text) (b : Bytes) (w : W) (p : Text)
      → p ≢ t
      → content (client.write t b w).1 p ≡ content w p
  pub chmod_keeps :
      (t : Text) (m : ℕ) (w : W) (p : Text) → content (client.chmod t m w).1 p ≡ content w p
  pub rename_moves :
      (a b : Text) (w : W) (x : Bytes)
      → (client.rename a b w).0 ≡ true
      → content w a ≡ some x
      → (content w b ≡ none)
        × (content (client.rename a b w).1 b ≡ some x)
        × ((p : Text) → p ≢ a → p ≢ b → content (client.rename a b w).1 p ≡ content w p)
  pub rename_fails :
      (a b : Text) (w : W)
      → (client.rename a b w).0 ≡ false
      → (p : Text) → content (client.rename a b w).1 p ≡ content w p

both : (a c : Bool) → a && c ≡ true → a ≡ true
both true c e = refl
both false c e = absurd (cc e)

module _ {W : Type 0} (P : Bool × W → Type 0) where
  pub by_result :
      (r : Bool × W) → (r.0 ≡ true → P (true, r.1)) → (r.0 ≡ false → P (false, r.1)) → P r
  by_result (true, w) done failed = done refl
  by_result (false, w) done failed = failed refl

  pub by_step :
      (r : Bool × W) (next : W → Bool × W)
      → P (false, r.1)
      → (r.0 ≡ true → P (next r.1))
      → P (and_then r next)
  by_step (true, w) next failed done = done refl
  by_step (false, w) next failed done = failed

module _ {W : Type 0} (client : SftpClient W) (content : W → Text → Option Bytes) where
  -- A write that succeeds has made a new file, with the data; one that fails has changed no file
  -- but the temporary one.
  abbrev pub NewFile : (full tmp : Text) → Bytes → W → Bool × W → Type 0
  NewFile full tmp b w (true, w') =
      (content w full ≡ none)
      × (content w' full ≡ some b)
      × ((p : Text) → p ≢ tmp → p ≢ full → content w' p ≡ content w p)
  NewFile full tmp b w (false, w') = (p : Text) → p ≢ tmp → content w' p ≡ content w p

  module _ (laws : IsSftp client content) (full nanos : Text) (b : Bytes) (clean : Bool)
      (w : W) where
    abbrev tmp : Text
    tmp = full ++ txt ".tmp-" ++ nanos

    abbrev Keeps : W → Type 0
    Keeps v = (p : Text) → p ≢ tmp → content v p ≡ content w p

    renamed :
        (v : W) → Keeps v → content v tmp ≡ some b → NewFile full tmp b w (client.rename tmp full v)
    unfolding temp_key
    renamed v keeps held =
        by_result (NewFile full tmp b w) (client.rename tmp full v)
          (λ done.
            let (free, at_full, others) = laws.rename_moves tmp full v b done held in
            (
              sym (keeps full (λ e. temp_key-apart full nanos e)) ∙ free,
              at_full,
              λ p n m. others p n m ∙ keeps p n,
            ))
          (λ failed p n. laws.rename_fails tmp full v failed p ∙ keeps p n)

    -- The state with the temporary file open and empty.
    abbrev Opened : W → Type 0
    Opened v = Keeps v × (content v tmp ≡ some [])

    filled :
        (mode : ℕ) (v : W)
        → Opened v
        → NewFile full tmp b w (
            and_then
              (remote_copy client tmp (b, clean) v)
              (λ v1. client.rename tmp full (client.chmod tmp mode v1).1))
    unfolding remote_copy
    filled mode v (keeps, empty) =
        let v1 = (client.write tmp b v).1 in
        let kept = λ (p : Text) (n : p ≢ tmp). laws.write_others tmp b v p n ∙ keeps p n in
        by_step (NewFile full tmp b w) (remote_copy client tmp (b, clean) v) _ kept (λ copied.
          renamed (client.chmod tmp mode v1).1 (λ p n. laws.chmod_keeps tmp mode v1 p ∙ kept p n)
            (laws.chmod_keeps tmp mode v1 tmp
              ∙ laws.write_appends tmp b v [] (both (client.write tmp b v).0 clean copied) empty))

    write_and_rename-NewFile :
        (mode : ℕ) → NewFile full tmp b w (write_and_rename client mode nanos full (b, clean) w)
    unfolding write_and_rename
    write_and_rename-NewFile mode =
        let w1 = (client.mkdir_all (dir full) w).1 in
        let made = λ (p : Text). laws.mkdir_keeps (dir full) w p in
        by_step (NewFile full tmp b w) (client.mkdir_all (dir full) w) _ (λ p n. made p)
          (λ _.
            by_step (NewFile full tmp b w) (client.open_empty tmp w1) _
              (λ p n. laws.open_others tmp w1 p n ∙ made p)
              (λ opened.
                filled mode (client.open_empty tmp w1).1
                  ((λ p n. laws.open_others tmp w1 p n ∙ made p), laws.open_empties tmp w1 opened)))

  -- The same of one file: it is as it was, unless it is the one that was made.
  abbrev pub MadeOrKept : (full : Text) → Bytes → W → (p : Text) → Bool × W → Type 0
  MadeOrKept full b w p (true, w') =
      (content w full ≡ none)
      × (content w' full ≡ some b)
      × ((p ≡ full) ⊎ (content w' p ≡ content w p))
  MadeOrKept full b w p (false, w') = content w' p ≡ content w p

  MadeOrKept-of_NewFile :
      (full t : Text) (b : Bytes) (w : W) (p : Text) (r : Bool × W)
      → p ≢ t
      → NewFile full t b w r
      → MadeOrKept full b w p r
  MadeOrKept-of_NewFile full t b w p (true, w') n (free, at_full, others) =
      (free, at_full, same_or_else content w w' full p (others p n))
  MadeOrKept-of_NewFile full t b w p (false, w') n kept = kept p n

  -- Where a rename to a name that is taken is an error: if `AtomicWriteFile` succeeds, there was no
  -- file under the path before, there is one with the data now, and no other file but the temporary
  -- one has changed; if it fails, no file but the temporary one has changed.
  pub sftp_atomic_write-MadeOrKept :
      (laws : IsSftp client content) (s : SftpFs) (mode : ℕ) (nanos : Text) (b : Bytes)
      (clean : Bool) (parts : List Text) (w : W) (p : Text)
      → p ≢ remote_join s parts ++ txt ".tmp-" ++ nanos
      → MadeOrKept
          (remote_join s parts)
          b
          w
          p
          (sftp_atomic_write client s mode nanos (b, clean) parts w)
  unfolding sftp_atomic_write
  sftp_atomic_write-MadeOrKept laws s mode nanos b clean parts w p apart =
      MadeOrKept-of_NewFile (remote_join s parts) (remote_join s parts ++ txt ".tmp-" ++ nanos) b w
        p _ apart (write_and_rename-NewFile laws (remote_join s parts) nanos b clean w mode)
