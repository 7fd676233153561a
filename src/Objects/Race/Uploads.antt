-- ===== src/Objects/Race/Uploads.antt =====
-- Writers that upload to one bucket through the GCS or the S3 storage, each of them with its path,
-- its source and its random bytes.
use file_server_management.Prelude.{ℕ, ◌<◌, ◌≡◌, ◌≢◌, sym, ◌∙◌, List, ◌++◌, All, length}
use file_server_management.Text.{Text, txt}
use file_server_management.Os.{Bytes, Source}
use file_server_management.Storage.{key}
use file_server_management.Objects.{Objects, temp_key}
use file_server_management.Objects.Gcs.{GcsClient, gcs_upload, gcs_atomic_write}
use file_server_management.Objects.Gcs.Laws.{IsGcs, gcs_upload-IsUpload}
use file_server_management.Objects.S3.{S3Client, copy_source, s3_atomic_write}
use file_server_management.Objects.S3.Escape.{IsPlainKey}
use file_server_management.Objects.S3.Laws.{IsS3, copies_key}
use file_server_management.Objects.Race.{
  Race, returned, Calls, alone, alone-published, race, start_at,
}
use file_server_management.Objects.Race.Keys.{rand_hex, IsByte, temp_key-rand_hex}
use file_server_management.Objects.Race.Safe.{IsWhole, race-IsWhole}

pub record Uploads : Type 0 where
  pub path : ℕ → Text
  pub source : ℕ → Source
  pub random : ℕ → List ℕ

module _ (prefix : Text) (u : Uploads) where
  abbrev pub final : ℕ → Text
  final i = key prefix (u.path i)

  abbrev pub tmp : ℕ → Text
  tmp i = temp_key (final i) (rand_hex (u.random i))

  abbrev pub body : ℕ → Bytes
  body i = (u.source i).0

-- The random bytes of no two of the `n` writers are the same, and no writer's key is the temporary
-- key of a writer.
pub record IsApart (prefix : Text) (u : Uploads) (n : ℕ) : Type 0 where
  pub bytes : (i : ℕ) → All IsByte (u.random i)
  pub eight : (i : ℕ) → length (u.random i) ≡ 8
  pub differ : (i j : ℕ) → i < n → j < n → i ≢ j → u.random i ≢ u.random j
  pub visible : (i j : ℕ) → final prefix u i ≢ tmp prefix u j

tmp-apart :
    (prefix : Text) (u : Uploads) (n : ℕ)
    → IsApart prefix u n
    → (i j : ℕ) → i < n
    → j < n
    → i ≢ j
    → tmp prefix u i ≢ tmp prefix u j
tmp-apart prefix u n a i j k l ne =
    temp_key-rand_hex (final prefix u i) (final prefix u j) (u.random i) (u.random j) (a.bytes i)
      (a.bytes j) (a.eight i ∙ sym (a.eight j)) (a.differ i j k l ne)

module _ {W : Type 0} (gcs : GcsClient W) (prefix : Text) (u : Uploads) where
  -- The calls of `AtomicWrite` of gcs_storage.go, one by one.
  abbrev pub gcs_calls : Calls W
  gcs_calls = record {
    upload = λ i w. gcs_upload gcs prefix (tmp prefix u i) (u.source i) w;
    copy = λ i w. gcs.copy (tmp prefix u i) (final prefix u i) w;
    remove = λ i w. gcs.delete (tmp prefix u i) w;
  }

  -- The writers that make a call, in this order, from a state of the bucket on.
  abbrev pub gcs_race : List ℕ → W → Race W
  gcs_race is before = race gcs_calls is (start_at gcs_calls before)

  -- A writer that is alone does what `AtomicWrite` does.
  gcs_calls-alone :
      (i : ℕ) (w : W)
      → let r = gcs_atomic_write gcs prefix (rand_hex (u.random i)) (u.path i) (u.source i) w in
        alone gcs_calls i w ≡ (returned r.0, r.1)
  unfolding gcs_atomic_write
  gcs_calls-alone i w = alone-published gcs_calls i w

  module _ (content : W → Objects) (laws : IsGcs gcs content) where
    -- A writer that makes its calls in a row does what AtomicWrite of the GCS storage does; and
    -- however the calls of `n` writers follow on each other, if each draws eight random bytes, no
    -- two draw the same, and no writer's final key is the temporary key of a writer: at every point
    -- each key that is not the temporary key of a writer holds what it held before, or the whole
    -- content of one upload to that key; and the key of an upload that has been copied holds the
    -- whole content of one upload to it.
    pub gcs_race-IsWhole :
        (n : ℕ)
        → IsApart prefix u n
        → (before : W) (is : List ℕ) → All (λ i. i < n) is
        → ((i : ℕ) (w : W)
            → let r =
                gcs_atomic_write gcs prefix (rand_hex (u.random i)) (u.path i) (u.source i) w in
              alone gcs_calls i w ≡ (returned r.0, r.1))
          × IsWhole content gcs_calls
              (tmp prefix u)
              (final prefix u)
              (body prefix u)
              n
              before
              (gcs_race is before)
    gcs_race-IsWhole n a before is writers = (
      gcs_calls-alone,
      race-IsWhole content gcs_calls (tmp prefix u) (final prefix u) (body prefix u) n
          (record {
            uploads =
                λ i w. gcs_upload-IsUpload gcs content laws prefix (tmp prefix u i) (u.source i) w;
            copies = λ i w. laws.copies (tmp prefix u i) (final prefix u i) w;
            removes = λ i w. laws.removes (tmp prefix u i) w;
            apart = tmp-apart prefix u n a;
            aside = a.visible;
          })
          before is writers,
    )

module _ {W : Type 0} (s3 : S3Client W) (bucket prefix : Text) (u : Uploads) where
  -- The calls of `AtomicWrite` of s3_storage.go, one by one.
  abbrev pub s3_calls : Calls W
  s3_calls = record {
    upload = λ i w. s3.put_object (tmp prefix u i) (u.source i) w;
    copy =
        λ i w. s3.copy_object (copy_source s3 bucket prefix (tmp prefix u i)) (final prefix u i) w;
    remove = λ i w. s3.delete_object (tmp prefix u i) w;
  }

  -- The writers that make a call, in this order, from a state of the bucket on.
  abbrev pub s3_race : List ℕ → W → Race W
  s3_race is before = race s3_calls is (start_at s3_calls before)

  s3_calls-alone :
      (i : ℕ) (w : W)
      → let r =
          s3_atomic_write s3 bucket prefix (rand_hex (u.random i)) (u.path i) (u.source i) w in
        alone s3_calls i w ≡ (returned r.0, r.1)
  unfolding s3_atomic_write
  s3_calls-alone i w = alone-published s3_calls i w

  module _ (content : W → Objects) (object_of : Text → Text)
      (laws : IsS3 s3 bucket content object_of) where
    -- A writer that makes its calls in a row does what AtomicWrite of the S3 storage does; and
    -- however the calls of `n` writers follow on each other, if each draws eight random bytes, no
    -- two draw the same, no writer's final key is the temporary key of a writer, and the bucket and
    -- the temporary keys consist of letters, digits, "-", ".", "_", "~", "/" and spaces: at every
    -- point each key that is not the temporary key of a writer holds what it held before, or the
    -- whole content of one upload to that key; and the key of an upload that has been copied holds
    -- the whole content of one upload to it.
    pub s3_race-IsWhole :
        (n : ℕ)
        → IsApart prefix u n
        → ((i : ℕ) → IsPlainKey (bucket ++ txt "/" ++ tmp prefix u i))
        → (before : W) (is : List ℕ) → All (λ i. i < n) is
        → ((i : ℕ) (w : W)
            → let r =
                s3_atomic_write s3 bucket prefix
                  (rand_hex (u.random i))
                  (u.path i)
                  (u.source i)
                  w in
              alone s3_calls i w ≡ (returned r.0, r.1))
          × IsWhole content s3_calls
              (tmp prefix u)
              (final prefix u)
              (body prefix u)
              n
              before
              (s3_race is before)
    s3_race-IsWhole n a plain before is writers = (
      s3_calls-alone,
      race-IsWhole content s3_calls (tmp prefix u) (final prefix u) (body prefix u) n
          (record {
            uploads = λ i w. laws.puts (tmp prefix u i) (u.source i) w;
            copies = λ i w.
                copies_key s3 bucket content object_of laws prefix (tmp prefix u i)
                  (final prefix u i) w (plain i);
            removes = λ i w. laws.removes (tmp prefix u i) w;
            apart = tmp-apart prefix u n a;
            aside = a.visible;
          })
          before is writers,
    )
