-- ===== src/Storage/Keys.antt =====
-- Keys of the object stores: every key lies under the prefix, a listed path leads back to its key,
-- and paths of the local backend stay below the base.
use file_server_management.Prelude.{
  ◌≡◌, ◌≢◌, refl, true, false, List, [], ◌∷◌, ◌++◌, arith, All, ap, ◌∙◌, reverse, reverse-append,
  reverse-reverse, length, drop,
}
use file_server_management.Text.{Text, txt, text_eq, text_eq_iff, has_prefix, trim_prefix}
use file_server_management.FilePath.{render, is_abs}
use file_server_management.FilePath.Walk.{IsPlain}
use file_server_management.FilePath.Rooted.{
  join-render, clean_of_abs, parts_of, parts_of-IsPlain, walk-render,
}
use file_server_management.Storage.{full, key, gcs_shown_path, s3_shown_path}

has_prefix-append : (p s : Text) → has_prefix (p ++ s) p ≡ true
unfolding has_prefix
has_prefix-append [] s = refl
has_prefix-append (c ∷ p) s = ground (arith, has_prefix-append p s)

drop-append : (p s : Text) → drop (length p) (p ++ s) ≡ s
drop-append [] s = refl
drop-append (c ∷ p) s = drop-append p s

trim_prefix-append : (p s : Text) → trim_prefix (p ++ s) p ≡ s
unfolding trim_prefix
trim_prefix-append p s = rw (has_prefix-append p s, drop-append p s)

trim_prefix-slash : (s : Text) → trim_prefix (txt "/" ++ s) (txt "/") ≡ s
trim_prefix-slash s = trim_prefix-append (txt "/") s

not_empty : (p : Text) → p ≢ [] → text_eq p [] ≡ false
not_empty p h = ground (arith, text_eq_iff p [])

key-root :
    (prefix path : Text)
    → prefix ≢ []
    → key prefix path ≡ (prefix ++ txt "/") ++ trim_prefix path (txt "/")
unfolding key
key-root prefix path h = rw (not_empty prefix h, key)

key-bare : (path : Text) → key [] path ≡ trim_prefix path (txt "/")
unfolding key text_eq
key-bare path = refl

-- Every key of a backend with a prefix lies under that prefix: no path, whatever dots it has,
-- leads out of it.
has_prefix-key :
    (prefix path : Text) → prefix ≢ [] → has_prefix (key prefix path) (prefix ++ txt "/") ≡ true
has_prefix-key prefix path h = rw (key-root prefix path h) (has_prefix-append (prefix ++ txt "/") _)

-- The path that a GCS listing shows for a key is stored under that key.
pub key-gcs_shown_path :
    (prefix path : Text) → key prefix (gcs_shown_path prefix (key prefix path)) ≡ key prefix path
unfolding gcs_shown_path text_eq
key-gcs_shown_path [] path =
    rw (key-bare path, key-bare (txt "/" ++ trim_prefix path (txt "/")), trim_prefix-slash)
key-gcs_shown_path (c ∷ prefix) path =
    let some_prefix : c ∷ prefix ≢ [] = ground arith in
    rw (
      key-root (c ∷ prefix) path some_prefix,
      trim_prefix-append ((c ∷ prefix) ++ txt "/") (trim_prefix path (txt "/")),
      key-root (c ∷ prefix) _ some_prefix,
      trim_prefix-slash,
    )

-- The path that an S3 listing with a prefix shows for the key of an object is stored under that
-- key.
pub key-s3_shown_path :
    (prefix path : Text)
    → prefix ≢ []
    → key prefix (s3_shown_path prefix (key prefix path)) ≡ key prefix path
unfolding s3_shown_path
key-s3_shown_path prefix path h = rw (
  key-root prefix path h,
  trim_prefix-append (prefix ++ txt "/") (trim_prefix path (txt "/")),
  key-root prefix _ h,
  trim_prefix-slash,
)

-- Without a prefix S3 shows a key that begins with a slash, as that of "//a" does, by a path that
-- stands for another key.
pub key-s3_shown_path_double :
    (a : Text)
    → (key [] (txt "//" ++ a) ≡ txt "/" ++ a)
      × (key [] (s3_shown_path [] (key [] (txt "//" ++ a))) ≡ a)
unfolding s3_shown_path
key-s3_shown_path_double a =
    let stored : key [] (txt "//" ++ a) ≡ txt "/" ++ a =
      key-bare (txt "//" ++ a) ∙ trim_prefix-slash (txt "/" ++ a) in
    (stored, rw (stored, trim_prefix-slash, key-bare) (trim_prefix-slash a))

-- A path of the local backend is the base followed by the parts that Clean keeps of it, so it lies
-- at or below the base.
pub full-below :
    (bs : List Text) (p : Text)
    → All IsPlain bs
    → full (render true bs) p ≡ render true (bs ++ parts_of (txt "/" ++ p))
unfolding full
full-below bs p h =
    let parts = parts_of (txt "/" ++ p) in
    let plain = parts_of-IsPlain (txt "/" ++ p) in
    rw
      (
        clean_of_abs (txt "/" ++ p) (unfold is_abs has_prefix in refl),
        join-render bs (render true parts) h,
        walk-render (reverse bs) parts plain,
        ← reverse-append,
      )
      (ap (render true) (reverse-reverse (bs ++ parts)))
