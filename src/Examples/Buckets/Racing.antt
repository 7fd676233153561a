-- ===== src/Examples/Buckets/Racing.antt =====
-- Two writers to one path of the bucket of Examples/Buckets.
use file_server_management.Prelude.{
  ℕ, zero, suc, ◌<◌, ◌≡◌, ◌≢◌, refl, true, List, [], ◌∷◌, ◌++◌, none, some, any, arith, replicate,
  All, length, false, ◌==◌,
}
use file_server_management.Text.{txt, text_eq, has_prefix, trim_prefix}
use file_server_management.Storage.{key}
use file_server_management.Objects.{Objects, temp_key}
use file_server_management.Objects.Gcs.{gcs_upload, gcs_atomic_write}
use file_server_management.Objects.S3.{s3_atomic_write}
use file_server_management.Objects.S3.Escape.{IsPlainKey}
use file_server_management.Objects.Race.{alone, advance, step, race, start_at, returned}
use file_server_management.Objects.Race.Keys.{rand_hex, hex_digit, IsByte}
use file_server_management.Objects.Race.Safe.{IsWhole}
use file_server_management.Objects.Race.Uploads.{
  Uploads, final, tmp, body, IsApart, gcs_calls, gcs_race-IsWhole, s3_calls, s3_race-IsWhole,
}
use file_server_management.Examples.Buckets.{content, gcs, gcs-IsGcs, s3, s3-IsS3, object_of}
use file_server_management.Examples.Buckets.Runs.{dotless-IsVisible}

abbrev random : ℕ → List ℕ
random zero = replicate 8 0
random (suc i) = replicate 8 255

abbrev both : Uploads
both = record { path = λ i. txt "/docs"; source = λ i. (i ∷ i ∷ [], true); random = random }

docs_run : any (λ c. c == 46) (key (txt "up") (txt "/docs")) ≡ false
unfolding key any trim_prefix has_prefix text_eq
docs_run = refl

both-IsApart : IsApart (txt "up") both 2
both-IsApart = record {
  bytes = bytes;
  eight = eight;
  differ = differ;
  visible = λ i j.
      dotless-IsVisible (key (txt "up") (txt "/docs")) docs_run (final (txt "up") both j)
        (rand_hex (random j));
}
  where
    bytes : (i : ℕ) → All IsByte (random i)
    bytes zero = (
      omega arith,
      (
        omega arith,
        (
          omega arith,
          (omega arith, (omega arith, (omega arith, (omega arith, (omega arith, tt))))),
        ),
      ),
    )
    bytes (suc i) = (
      omega arith,
      (
        omega arith,
        (
          omega arith,
          (omega arith, (omega arith, (omega arith, (omega arith, (omega arith, tt))))),
        ),
      ),
    )

    eight : (i : ℕ) → length (random i) ≡ 8
    eight zero = refl
    eight (suc i) = refl

    differ : (i j : ℕ) → i < 2 → j < 2 → i ≢ j → random i ≢ random j
    differ zero zero h k ne e = absurd (ne refl)
    differ zero (suc j) h k ne e = cc e
    differ (suc i) zero h k ne e = cc e
    differ (suc i) (suc j) h k ne e = absurd (ne (omega (arith, h, k)))

abbrev empty : Objects
empty p = none

-- The second writer copies between the first one's upload and its copy.
abbrev order : List ℕ
order = 0 ∷ 1 ∷ 1 ∷ 0 ∷ 1 ∷ 0 ∷ []

gcs_run :
    (race
        (gcs_calls gcs (txt "up") both)
        order
        (start_at (gcs_calls gcs (txt "up") both) empty)).bucket
      (txt "up/docs")
    ≡ some (0 ∷ 0 ∷ [])
unfolding race step advance gcs_upload key temp_key rand_hex hex_digit trim_prefix has_prefix
    text_eq
gcs_run = refl

gcs_race-IsWhole_example :
    ((i : ℕ) (w : Objects)
      → let r =
          gcs_atomic_write gcs
            (txt "up")
            (rand_hex (both.random i))
            (both.path i)
            (both.source i)
            w in
        alone (gcs_calls gcs (txt "up") both) i w ≡ (returned r.0, r.1))
    × IsWhole content
        (gcs_calls gcs (txt "up") both)
        (tmp (txt "up") both)
        (final (txt "up") both)
        (body (txt "up") both)
        2
        empty
        (race
          (gcs_calls gcs (txt "up") both)
          order
          (start_at (gcs_calls gcs (txt "up") both) empty))
gcs_race-IsWhole_example =
    gcs_race-IsWhole gcs (txt "up") both content gcs-IsGcs 2 both-IsApart empty order
      (omega arith, (omega arith, (omega arith, (omega arith, (omega arith, (omega arith, tt))))))

both-IsPlainKey : (i : ℕ) → IsPlainKey (txt "b/" ++ tmp (txt "up") both i)
unfolding key temp_key rand_hex hex_digit trim_prefix has_prefix text_eq any
both-IsPlainKey zero = refl
both-IsPlainKey (suc i) = refl

s3_race-IsWhole_example :
    ((i : ℕ) (w : Objects)
      → let r =
          s3_atomic_write s3
            (txt "b")
            (txt "up")
            (rand_hex (both.random i))
            (both.path i)
            (both.source i)
            w in
        alone (s3_calls s3 (txt "b") (txt "up") both) i w ≡ (returned r.0, r.1))
    × IsWhole content
        (s3_calls s3 (txt "b") (txt "up") both)
        (tmp (txt "up") both)
        (final (txt "up") both)
        (body (txt "up") both)
        2
        empty
        (race
          (s3_calls s3 (txt "b") (txt "up") both)
          order
          (start_at (s3_calls s3 (txt "b") (txt "up") both) empty))
s3_race-IsWhole_example =
    s3_race-IsWhole s3 (txt "b") (txt "up") both content object_of s3-IsS3 2 both-IsApart
      both-IsPlainKey empty order
      (omega arith, (omega arith, (omega arith, (omega arith, (omega arith, (omega arith, tt))))))
