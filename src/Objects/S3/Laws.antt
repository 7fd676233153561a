-- ===== src/Objects/S3/Laws.antt =====
-- internal/adapters/storage/s3/s3_storage.go implements the contract of an object store, for keys
-- that its escaping of copy sources can name.
use file_server_management.Prelude.{
  ◌≡◌, ◌≢◌, ◌⊎◌, true, false, List, [], ◌++◌, some, ap, ◌∙◌, All, subst,
}
use file_server_management.Text.{Text, txt}
use file_server_management.Os.{Source}
use file_server_management.Storage.{key, folder_key}
use file_server_management.Objects.{Objects, temp_key}
use file_server_management.Objects.Publish.{
  IsUpload, IsCopy, IsRemoval, publish-ok, publish-err, temp_key-apart,
}
use file_server_management.Objects.Relocate.{upload-set_object, removal-set_object, relocate-ok}
use file_server_management.Objects.S3.{
  S3Client, copy_source, s3_create_folder, s3_atomic_write, s3_move, s3_delete,
}
use file_server_management.Objects.S3.Escape.{IsPlainKey, url_encode, url_path_escape-encode}
use file_server_management.Objects.Contract.Sequence.{run, apply_all, MovesVisible, run-apply_all}
use file_server_management.Objects.Contract.{
  ObjectOp, create_folder, atomic_write, move, delete, apply, IsVisible, MovesAway, ObjectBackend,
  Implements,
}

-- What the client's calls are documented to do; a call that fails may have been made.
-- `object_of` is the key that S3 reads off a copy source, which is to be the URL encoding of the
-- bucket's name, a slash and the key.
pub record IsS3 {W : Type 0} (s3 : S3Client W) (bucket : Text) (content : W → Objects)
    (object_of : Text → Text) : Type 0 where
  pub puts : (k : Text) (src : Source) (w : W) → IsUpload content k src.0 w (s3.put_object k src w)
  pub copies :
      (source dst : Text) (w : W)
      → IsCopy content (object_of source) dst w (s3.copy_object source dst w)
  pub removes : (k : Text) (w : W) → IsRemoval content k w (s3.delete_object k w)
  pub names :
      (k : Text)
      → IsPlainKey (bucket ++ txt "/" ++ k)
      → object_of (url_encode (bucket ++ txt "/" ++ k)) ≡ k

module _ {W : Type 0} (s3 : S3Client W) (bucket : Text) (content : W → Objects)
    (object_of : Text → Text) (laws : IsS3 s3 bucket content object_of) (prefix : Text) where
  pub copies_key :
      (k dst : Text) (w : W)
      → IsPlainKey (bucket ++ txt "/" ++ k)
      → IsCopy content k dst w (s3.copy_object (copy_source s3 bucket prefix k) dst w)
  copies_key k dst w safe =
      rw (ap object_of (url_path_escape-encode (bucket ++ txt "/" ++ k) safe) ∙ laws.names k safe)
        at (laws.copies (copy_source s3 bucket prefix k) dst w)

  -- The operations as one backend.
  abbrev pub s3_backend : ObjectBackend W
  s3_backend hex (create_folder path) w = s3_create_folder s3 bucket prefix path w
  s3_backend hex (atomic_write path source) w = s3_atomic_write s3 bucket prefix hex path source w
  s3_backend hex (move src dst) w = s3_move s3 bucket prefix src dst w
  s3_backend hex (delete path) w = s3_delete s3 bucket prefix path w

  -- The keys that the operation copies from are plain, and it is no move to the key of the object.
  abbrev pub CopiesPlain : Text → ObjectOp → Type 0
  CopiesPlain hex (atomic_write path source) =
      IsPlainKey (bucket ++ txt "/" ++ temp_key (key prefix path) hex)
  CopiesPlain hex (move src dst) =
      IsPlainKey (bucket ++ txt "/" ++ key prefix src) × MovesAway prefix (move src dst)
  CopiesPlain hex _ = Unit {0}

  -- S3 implements the contract, for such operations.
  pub s3_backend-Implements : Implements s3_backend content prefix CopiesPlain
  unfolding apply s3_create_folder s3_atomic_write s3_move s3_delete
  s3_backend-Implements = record {
    simulates = λ hex op w p safe visible e. by_op hex op w p safe visible e;
  }
    where
      by_op :
          (hex : Text) (op : ObjectOp) (w : W) (p : Text)
          → CopiesPlain hex op
          → IsVisible p
          → (s3_backend hex op w).0 ≡ true
          → content (s3_backend hex op w).1 p ≡ apply prefix op (content w) p
      by_op hex (create_folder path) w p safe visible e =
          upload-set_object content (folder_key prefix path) [] w _ p (laws.puts _ ([], true) w) e
      by_op hex (delete path) w p safe visible e =
          removal-set_object content (key prefix path) w _ p (laws.removes _ w) e
      by_op hex (move src dst) w p (safe, away) visible e = rw away (
          relocate-ok content
            (s3.copy_object (copy_source s3 bucket prefix (key prefix src)) (key prefix dst))
            (s3.delete_object (key prefix src)) (key prefix src) (key prefix dst) w
            (copies_key (key prefix src) (key prefix dst) w safe) (λ v. laws.removes _ v) p e)
      by_op hex (atomic_write path source) w p safe visible e =
          let final = key prefix path in
          let tmp = temp_key final hex in
          publish-ok content (s3.put_object tmp source)
            (s3.copy_object (copy_source s3 bucket prefix tmp) final) (s3.delete_object tmp) tmp
            final source.0 w (temp_key-apart final hex) (laws.puts tmp source w)
            (λ v. copies_key tmp final v safe) (λ v. laws.removes tmp v) p (visible final hex) e

  -- An upload to S3 that fails, at whichever call, leaves under each key but the temporary one what
  -- was there before; only the final key may hold the whole of what the reader gave, if the copy
  -- was made although it failed. This is for a bucket and a temporary key of letters, digits, "-",
  -- ".", "_", "~", "/" and spaces.
  pub s3_atomic_write-err :
      (hex path : Text) (source : Source) (w w' : W) (p : Text)
      → IsPlainKey (bucket ++ txt "/" ++ temp_key (key prefix path) hex)
      → p ≢ temp_key (key prefix path) hex
      → s3_atomic_write s3 bucket prefix hex path source w ≡ (false, w')
      → (content w' p ≡ content w p) ⊎ ((p ≡ key prefix path) × (content w' p ≡ some source.0))
  unfolding s3_atomic_write
  s3_atomic_write-err hex path source w w' p safe ne e =
      let final = key prefix path in
      let tmp = temp_key final hex in
      subst (λ v. (content v p ≡ content w p) ⊎ ((p ≡ final) × (content v p ≡ some source.0)))
        (ap (λ r. r.1) e)
        (publish-err content (s3.put_object tmp source)
          (s3.copy_object (copy_source s3 bucket prefix tmp) final) (s3.delete_object tmp) tmp final
          source.0 w (temp_key-apart final hex) (laws.puts tmp source w)
          (λ v. copies_key tmp final v safe) (λ v. laws.removes tmp v) p ne (ap (λ r. r.0) e))

  -- Operations on S3 that all succeed, in any number and order, leave under every key that is not a
  -- temporary one, that is a key followed by ".tmp-" and any text, what the contract of the storage
  -- says, if none moves an object from a temporary key, none moves an object to the key that it
  -- has, and the bucket and the keys that are copied from, the temporary ones too, consist of
  -- letters, digits, "-", ".", "_", "~", "/" and spaces.
  pub s3_run-apply_all :
      (ops : List (Text × ObjectOp)) (w w' : W) (p : Text)
      → All (λ o. CopiesPlain o.0 o.1) ops
      → All (λ o. MovesVisible prefix o.1) ops
      → IsVisible p
      → run s3_backend ops w ≡ (true, w')
      → content w' p ≡ apply_all prefix ops (content w) p
  s3_run-apply_all ops w w' p safe moves visible e =
      run-apply_all s3_backend content prefix CopiesPlain ops w w' p s3_backend-Implements safe
        moves visible e
