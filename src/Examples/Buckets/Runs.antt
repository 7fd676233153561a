-- ===== src/Examples/Buckets/Runs.antt =====
-- Operations on the bucket of Examples/Buckets.
use file_server_management.Prelude.{
  ℕ, ◌≡◌, refl, sym, ap, ◌∙◌, Bool, true, false, ◌||◌, List, [], ◌∷◌, ◌++◌, All, none, any,
  any-append, ◌==◌, some, ◌⊎◌,
}
use file_server_management.Text.{
  Text, txt, text_eq, contains, has_prefix, trim_prefix, trim_suffix, replace_all, replace_from,
}
use file_server_management.Storage.{key, folder_key}
use file_server_management.Objects.{Objects, temp_key}
use file_server_management.Objects.Gcs.{
  gcs_create_folder, gcs_upload, gcs_atomic_write, gcs_move, gcs_delete,
}
use file_server_management.Objects.Gcs.Laws.{gcs_backend, gcs_run-apply_all}
use file_server_management.Objects.S3.{
  url_path_escape, s3_create_folder, s3_atomic_write, s3_move, s3_delete,
}
use file_server_management.Objects.S3.Escape.{IsPlainKey}
use file_server_management.Objects.S3.Laws.{
  CopiesPlain, s3_backend, s3_run-apply_all, s3_atomic_write-err,
}
use file_server_management.Objects.Contract.{
  ObjectOp, create_folder, atomic_write, move, IsVisible, MovesAway,
}
use file_server_management.Objects.Contract.Sequence.{run, apply_all, MovesVisible}
use file_server_management.Examples.Buckets.{content, gcs, gcs-IsGcs, s3, s3-IsS3, object_of}

runs : Unit {0}
unfolding run gcs_create_folder gcs_upload gcs_atomic_write gcs_move gcs_delete s3_create_folder
    s3_atomic_write s3_move s3_delete url_path_escape key folder_key temp_key text_eq contains
    has_prefix trim_prefix trim_suffix replace_all replace_from any
runs = tt

abbrev is_dot : ℕ → Bool
is_dot c = c == 46

temp_key-dotted : (final hex : Text) → any is_dot (temp_key final hex) ≡ true
unfolding temp_key
temp_key-dotted final hex =
    rw (any-append is_dot (final ++ txt ".tmp-") hex, any-append is_dot final (txt ".tmp-"))
      (marked (any is_dot final) (any is_dot hex))
  where
    marked : (a b : Bool) → ((a || any is_dot (txt ".tmp-")) || b) ≡ true
    marked true b = refl
    marked false b = unfold any in refl

-- A key without a dot is not one of a temporary object.
pub dotless-IsVisible : (p : Text) → any is_dot p ≡ false → IsVisible p
dotless-IsVisible p h final hex e = cc (sym (ap (any is_dot) e) ∙ h, temp_key-dotted final hex)

abbrev no_objects : Objects
no_objects p = none

abbrev ops : List (Text × ObjectOp)
ops =
    (txt "01", create_folder (txt "/docs"))
    ∷ (txt "02", atomic_write (txt "/docs/a") (1 ∷ 2 ∷ [], true))
    ∷ (txt "03", move (txt "/docs/a") (txt "/b c"))
    ∷ []

moved-IsVisible : IsVisible (key (txt "up") (txt "/docs/a"))
moved-IsVisible = dotless-IsVisible (key (txt "up") (txt "/docs/a")) moved_run
  where
    moved_run : any is_dot (key (txt "up") (txt "/docs/a")) ≡ false
    moved_run = unfold key text_eq trim_prefix has_prefix any in refl

target-IsVisible : IsVisible (txt "up/b c")
target-IsVisible = dotless-IsVisible (txt "up/b c") (unfold any in refl)

ops-MovesVisible : All (λ o. MovesVisible (txt "up") o.1) ops
ops-MovesVisible = (tt, (tt, (moved-IsVisible, tt)))

ops-MovesAway : All (λ o. MovesAway (txt "up") o.1) ops
unfolding runs
ops-MovesAway = (tt, (tt, (refl, tt)))

abbrev gcs_after : Objects
gcs_after = (run (gcs_backend gcs content gcs-IsGcs (txt "up")) ops no_objects).1

gcs_finished : run (gcs_backend gcs content gcs-IsGcs (txt "up")) ops no_objects ≡ (true, gcs_after)
unfolding runs
gcs_finished = refl

gcs_run-apply_all_example :
    content gcs_after (txt "up/b c") ≡ apply_all (txt "up") ops (content no_objects) (txt "up/b c")
gcs_run-apply_all_example =
    gcs_run-apply_all gcs content gcs-IsGcs (txt "up") ops no_objects gcs_after (txt "up/b c")
      ops-MovesVisible ops-MovesAway target-IsVisible gcs_finished

ops-CopiesPlain :
    All (λ o. CopiesPlain s3 (txt "b") content object_of s3-IsS3 (txt "up") o.0 o.1) ops
unfolding runs
ops-CopiesPlain = (tt, (refl, ((refl, refl), tt)))

abbrev s3_after : Objects
s3_after = (run (s3_backend s3 (txt "b") content object_of s3-IsS3 (txt "up")) ops no_objects).1

s3_finished :
    run (s3_backend s3 (txt "b") content object_of s3-IsS3 (txt "up")) ops no_objects
    ≡ (true, s3_after)
unfolding runs
s3_finished = refl

s3_run-apply_all_example :
    content s3_after (txt "up/b c") ≡ apply_all (txt "up") ops (content no_objects) (txt "up/b c")
s3_run-apply_all_example =
    s3_run-apply_all s3 (txt "b") content object_of s3-IsS3 (txt "up") ops no_objects s3_after
      (txt "up/b c") ops-CopiesPlain ops-MovesVisible target-IsVisible s3_finished

-- An upload whose reader breaks.
abbrev gcs_broken : Objects
gcs_broken = (gcs_atomic_write gcs (txt "up") (txt "04") (txt "/b c") (9 ∷ [], false) gcs_after).1

gcs_broken_run :
    gcs_atomic_write gcs (txt "up") (txt "04") (txt "/b c") (9 ∷ [], false) gcs_after
    ≡ (false, gcs_broken)
unfolding runs
gcs_broken_run = refl

abbrev s3_broken : Objects
s3_broken =
    (s3_atomic_write s3 (txt "b") (txt "up") (txt "04") (txt "/b c") (9 ∷ [], false) s3_after).1

s3_broken_run :
    s3_atomic_write s3 (txt "b") (txt "up") (txt "04") (txt "/b c") (9 ∷ [], false) s3_after
    ≡ (false, s3_broken)
unfolding runs
s3_broken_run = refl

temp-IsPlainKey :
    IsPlainKey (txt "b" ++ txt "/" ++ temp_key (key (txt "up") (txt "/b c")) (txt "04"))
unfolding runs
temp-IsPlainKey = refl

s3_atomic_write-err_example :
    (content s3_broken (txt "up/b c") ≡ content s3_after (txt "up/b c"))
    ⊎ ((txt "up/b c" ≡ key (txt "up") (txt "/b c"))
        × (content s3_broken (txt "up/b c") ≡ some (9 ∷ [])))
s3_atomic_write-err_example =
    s3_atomic_write-err s3 (txt "b") content object_of s3-IsS3 (txt "up") (txt "04") (txt "/b c")
      (9 ∷ [], false) s3_after s3_broken (txt "up/b c") temp-IsPlainKey
      (target-IsVisible (key (txt "up") (txt "/b c")) (txt "04")) s3_broken_run

-- "b c" is moved to "/b c", and lost.
abbrev gcs_lost : Objects
gcs_lost = (gcs_move gcs (txt "up") (txt "b c") (txt "/b c") gcs_after).1

gcs_lost_run : gcs_move gcs (txt "up") (txt "b c") (txt "/b c") gcs_after ≡ (true, gcs_lost)
unfolding runs
gcs_lost_run = refl
