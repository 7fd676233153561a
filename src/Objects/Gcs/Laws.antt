-- ===== src/Objects/Gcs/Laws.antt =====
-- internal/adapters/storage/gcs/gcs_storage.go implements the contract of an object store.
use file_server_management.Prelude.{
  ◌≡◌, ◌≢◌, ◌⊎◌, refl, Bool, true, false, ◌&&◌, List, [], none, some, sym, ap, ◌∙◌, All, subst,
}
use file_server_management.Text.{Text, text_eq, text_eq_iff}
use file_server_management.Os.{Bytes, Source}
use file_server_management.Storage.{key, folder_key}
use file_server_management.Objects.{Objects, temp_key}
use file_server_management.Objects.Publish.{
  IsUpload, IsCopy, IsRemoval, publish-ok, publish-err, temp_key-apart,
}
use file_server_management.Objects.Relocate.{upload-set_object, removal-set_object, relocate-ok}
use file_server_management.Objects.Gcs.{
  GcsClient, gcs_create_folder, close_after, gcs_upload, gcs_atomic_write, gcs_move, gcs_delete,
}
use file_server_management.Objects.Contract.Sequence.{run, apply_all, MovesVisible, run-apply_all}
use file_server_management.Objects.Contract.{
  ObjectOp, create_folder, atomic_write, move, delete, apply, IsVisible, MovesAway, ObjectBackend,
  Implements,
}

-- What the client's calls are documented to do: an object appears when its writer is closed; a copy
-- or a removal that fails may have been made; a reader gives the content.
pub record IsGcs {W : Type 0} (gcs : GcsClient W) (content : W → Objects) : Type 0 where
  pub write_keeps :
      (k : Text) (b : Bytes) (w : W) (p : Text) → content (gcs.write k b w).1 p ≡ content w p
  pub closes : (k : Text) (b : Bytes) (w : W) → IsUpload content k b w (gcs.close k b w)
  pub copies : (src dst : Text) (w : W) → IsCopy content src dst w (gcs.copy src dst w)
  pub removes : (k : Text) (w : W) → IsRemoval content k w (gcs.delete k w)
  pub finds : (k : Text) (w : W) → gcs.attrs k w ≡ true → content w k ≢ none

module _ {W : Type 0} (gcs : GcsClient W) (content : W → Objects) (laws : IsGcs gcs content)
    (prefix : Text) where
  pub gcs_upload-IsUpload :
      (k : Text) (src : Source) (w : W) → IsUpload content k src.0 w (gcs_upload gcs prefix k src w)
  unfolding gcs_upload
  gcs_upload-IsUpload k src w = split (gcs.write k src.0 w) refl src.1
    where
      split :
          (r : Bool × W)
          → gcs.write k src.0 w ≡ r
          → (clean : Bool)
          → IsUpload content k src.0 w (close_after gcs prefix k src.0 (r.0 && clean, r.1))
      split (d, v) q clean = by_case (d && clean)
        where
          kept : (p : Text) → content v p ≡ content w p
          kept p = sym (ap (λ r. content r.1 p) q) ∙ laws.write_keeps k src.0 w p

          by_case : (x : Bool) → IsUpload content k src.0 w (close_after gcs prefix k src.0 (x, v))
          by_case true = record {
            changes = record {
              others = λ p ne. (laws.closes k src.0 v).changes.others p ne ∙ kept p;
            };
            stored = (laws.closes k src.0 v).stored;
          }
          by_case false = record {
            changes = record {
              others = λ p ne. (laws.closes k src.0 v).changes.others p ne ∙ kept p;
            };
            stored = λ e. absurd (cc e);
          }

  -- The operations as one backend.
  abbrev pub gcs_backend : ObjectBackend W
  gcs_backend hex (create_folder path) w = gcs_create_folder gcs prefix path w
  gcs_backend hex (atomic_write path source) w = gcs_atomic_write gcs prefix hex path source w
  gcs_backend hex (move src dst) w = gcs_move gcs prefix src dst w
  gcs_backend hex (delete path) w = gcs_delete gcs prefix path w

  -- GCS implements the contract, for operations that are no move to the key of the object.
  pub gcs_backend-Implements : Implements gcs_backend content prefix (λ hex op. MovesAway prefix op)
  unfolding apply gcs_create_folder gcs_atomic_write gcs_move gcs_delete
  gcs_backend-Implements = record {
    simulates = λ hex op w p away visible e. by_op hex op w p away visible e;
  }
    where
      by_op :
          (hex : Text) (op : ObjectOp) (w : W) (p : Text)
          → MovesAway prefix op
          → IsVisible p
          → (gcs_backend hex op w).0 ≡ true
          → content (gcs_backend hex op w).1 p ≡ apply prefix op (content w) p
      by_op hex (create_folder path) w p away visible e =
          upload-set_object content (folder_key prefix path) [] w _ p (laws.closes _ [] w) e
      by_op hex (delete path) w p away visible e =
          removal-set_object content (key prefix path) w _ p (laws.removes _ w) e
      by_op hex (move src dst) w p away visible e = rw away (
          relocate-ok content (gcs.copy (key prefix src) (key prefix dst))
            (gcs.delete (key prefix src)) (key prefix src) (key prefix dst) w (laws.copies _ _ w)
            (λ v. laws.removes _ v) p e)
      by_op hex (atomic_write path source) w p away visible e =
          let final = key prefix path in
          let tmp = temp_key final hex in
          publish-ok content (gcs_upload gcs prefix tmp source) (gcs.copy tmp final)
            (gcs.delete tmp) tmp final source.0 w (temp_key-apart final hex)
            (gcs_upload-IsUpload tmp source w) (λ v. laws.copies tmp final v)
            (λ v. laws.removes tmp v) p (visible final hex) e

  -- An upload to GCS that fails, at whichever call, leaves every object but the temporary one as it
  -- was, or the whole content under the final key.
  gcs_atomic_write-err :
      (hex path : Text) (source : Source) (w w' : W) (p : Text)
      → p ≢ temp_key (key prefix path) hex
      → gcs_atomic_write gcs prefix hex path source w ≡ (false, w')
      → (content w' p ≡ content w p) ⊎ ((p ≡ key prefix path) × (content w' p ≡ some source.0))
  unfolding gcs_atomic_write
  gcs_atomic_write-err hex path source w w' p ne e =
      let final = key prefix path in
      let tmp = temp_key final hex in
      subst (λ v. (content v p ≡ content w p) ⊎ ((p ≡ final) × (content v p ≡ some source.0)))
        (ap (λ r. r.1) e)
        (publish-err content (gcs_upload gcs prefix tmp source) (gcs.copy tmp final)
          (gcs.delete tmp) tmp final source.0 w (temp_key-apart final hex)
          (gcs_upload-IsUpload tmp source w) (λ v. laws.copies tmp final v)
          (λ v. laws.removes tmp v) p ne (ap (λ r. r.0) e))

  -- A move in GCS to a path with the same key, as "a" and "/a" have, succeeds and loses the object.
  pub gcs_move-same_key :
      (src dst : Text) (w w' : W)
      → key prefix src ≡ key prefix dst
      → gcs_move gcs prefix src dst w ≡ (true, w')
      → content w' (key prefix dst) ≡ none
  unfolding gcs_move
  gcs_move-same_key src dst w w' same e =
      ap (content w') (sym same)
      ∙ sym (ap (λ r. content r.1 (key prefix src)) e)
      ∙ relocate-ok content (gcs.copy (key prefix src) (key prefix dst))
          (gcs.delete (key prefix src)) (key prefix src) (key prefix dst) w (laws.copies _ _ w)
          (λ v. laws.removes _ v) (key prefix src) (ap (λ r. r.0) e)
      ∙ rw (text_eq_refl (key prefix src))
    where
      text_eq_refl : (t : Text) → text_eq t t ≡ true
      text_eq_refl t = (text_eq_iff t t).1 refl

  -- Operations on GCS that all succeed, in any number and order, leave under every key that is not
  -- a temporary one, that is a key followed by ".tmp-" and any text, what the contract of the
  -- storage says, if none moves an object from a temporary key, and none moves an object to the key
  -- that it has.
  pub gcs_run-apply_all :
      (ops : List (Text × ObjectOp)) (w w' : W) (p : Text)
      → All (λ o. MovesVisible prefix o.1) ops
      → All (λ o. MovesAway prefix o.1) ops
      → IsVisible p
      → run gcs_backend ops w ≡ (true, w')
      → content w' p ≡ apply_all prefix ops (content w) p
  gcs_run-apply_all ops w w' p moves away visible e =
      run-apply_all gcs_backend content prefix (λ hex op. MovesAway prefix op) ops w w' p
        gcs_backend-Implements away moves visible e
