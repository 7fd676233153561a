-- ===== src/Examples/Buckets.antt =====
-- A bucket that is a map from keys to contents, with the clients of both object stores.
mod Listed
mod Runs
mod Racing
use file_server_management.Prelude.{
  ℕ, ◌+◌, ◌≡◌, ◌≢◌, refl, sym, ap, ◌∙◌, Bool, true, false, not, ◌&&◌, List, [], ◌∷◌, ◌++◌, Option,
  none, some, arith, drop, any, or_false, ==_iff, Bool-cases, inl, inr, ◌==◌, if◌then◌else◌,
}
use file_server_management.Text.{
  Text, txt, text_eq, text_eq_iff, contains, has_prefix, replace_all, replace_from,
}
use file_server_management.Os.{Bytes, Source}
use file_server_management.Objects.{Objects, set_object}
use file_server_management.Objects.Publish.{ChangesOnly, IsUpload, IsCopy, IsRemoval}
use file_server_management.Objects.Gcs.{GcsClient}
use file_server_management.Objects.Gcs.Laws.{IsGcs}
use file_server_management.Objects.S3.{S3Client, url_path_escape}
use file_server_management.Objects.S3.Escape.{
  escaped, each_escaped, url_path_escape-eq, IsPlainKey, needs_more, url_path_escape-encode,
}
use file_server_management.Objects.S3.Laws.{IsS3}

abbrev pub content : Objects → Objects
content w = w

abbrev is_object : Option Bytes → Bool
is_object none = false
is_object (some b) = true

abbrev copied : Text → Option Bytes → Objects → Bool × Objects
copied dst none w = (false, w)
copied dst (some b) w = (true, set_object w dst (some b))

abbrev put_whole : Text → Source → Objects → Bool × Objects
put_whole k (b, clean) w = if clean then (true, set_object w k (some b)) else (false, w)

abbrev opened : Option Bytes → Option Source
opened none = none
opened (some b) = some (b, true)

abbrev pub gcs : GcsClient Objects
gcs = record {
  write = λ k b w. (true, w);
  close = λ k b w. (true, set_object w k (some b));
  copy = λ src dst w. copied dst (w src) w;
  delete = λ k w. (is_object (w k), set_object w k none);
  attrs = λ k w. is_object (w k);
  objects = λ prefix w. ([], true);
  new_reader = λ k w. opened (w k);
}

-- The key that a copy source of the bucket "b" names.
abbrev pub object_of : Text → Text
object_of s = drop 2 (replace_all s (txt "%20") (txt " "))

abbrev pub s3 : S3Client Objects
s3 = record {
  put_object = put_whole;
  copy_object = λ source dst w. copied dst (w (object_of source)) w;
  delete_object = λ k w. (true, set_object w k none);
  head_object = λ k w. is_object (w k);
  list_pages = λ prefix w. ([], true);
  get_object = λ k w. opened (w k);
}

set_object-same : (w : Objects) (k : Text) (v : Option Bytes) → set_object w k v k ≡ v
set_object-same w k v = rw ((text_eq_iff k k).1 refl)

set_object-other :
    (w : Objects) (k : Text) (v : Option Bytes) (p : Text) → p ≢ k → set_object w k v p ≡ w p
set_object-other w k v p ne = elim (Bool-cases (text_eq p k)) [
  | inl here ↦ absurd (ne ((text_eq_iff p k).0 here))
  | inr elsewhere ↦ rw elsewhere
]

set-IsUpload :
    (k : Text) (b : Bytes) (w : Objects) → IsUpload content k b w (true, set_object w k (some b))
set-IsUpload k b w = record {
  changes = record { others = λ p ne. set_object-other w k (some b) p ne };
  stored = λ _. set_object-same w k (some b);
}

put_whole-IsUpload :
    (k : Text) (b : Bytes) (clean : Bool) (w : Objects)
    → IsUpload content k b w (put_whole k (b, clean) w)
put_whole-IsUpload k b true w = set-IsUpload k b w
put_whole-IsUpload k b false w = record {
  changes = record { others = λ p ne. refl };
  stored = λ e. absurd (cc e);
}

copied-IsCopy :
    (src dst : Text) (o : Option Bytes) (w : Objects)
    → o ≡ w src
    → IsCopy content src dst w (copied dst o w)
copied-IsCopy src dst none w e = record {
  changes = record { others = λ p ne. refl };
  copied = λ q. absurd (cc q);
  failed = λ q. inl refl;
}
copied-IsCopy src dst (some b) w e = record {
  changes = record { others = λ p ne. set_object-other w dst (some b) p ne };
  copied = λ q. set_object-same w dst (some b) ∙ e;
  failed = λ q. absurd (cc q);
}

delete-IsRemoval :
    (k : Text) (o : Option Bytes) (w : Objects)
    → o ≡ w k
    → IsRemoval content k w (is_object o, set_object w k none)
delete-IsRemoval k none w e = record {
  changes = record { others = λ p ne. set_object-other w k none p ne };
  gone = λ q. absurd (cc q);
}
delete-IsRemoval k (some b) w e = record {
  changes = record { others = λ p ne. set_object-other w k none p ne };
  gone = λ q. set_object-same w k none;
}

found_at : (o : Option Bytes) → is_object o ≡ true → o ≢ none
found_at none e = absurd (cc e)
found_at (some b) e = ground arith

pub gcs-IsGcs : IsGcs gcs content
gcs-IsGcs = record {
  write_keeps = λ k b w p. refl;
  closes = λ k b w. set-IsUpload k b w;
  copies = λ src dst w. copied-IsCopy src dst (w src) w refl;
  removes = λ k w. delete-IsRemoval k (w k) w refl;
  finds = λ k w e. found_at (w k) e;
}

rest : (c : ℕ) (t : Text) → contains (c ∷ t) (txt "%") ≡ false → contains t (txt "%") ≡ false
unfolding contains has_prefix
rest c t h = ground arith

unescape_from :
    (t : Text)
    → contains t (txt "%") ≡ false
    → replace_from (txt "%20") (txt " ") 0 (each_escaped t) ≡ t
unfolding replace_from has_prefix contains
unescape_from [] h = refl
unescape_from (c ∷ t) h = elim (Bool-cases (c == 32)) [
  | inl space ↦ rw space (ground (arith, unescape_from t (rest c t h)))
  | inr other ↦ rw other (ground (arith, unescape_from t (rest c t h)))
]

unescape :
    (s : Text)
    → contains s (txt "%") ≡ false
    → replace_all (each_escaped s) (txt "%20") (txt " ") ≡ s
unfolding replace_all
unescape s h = unescape_from s h

-- A plain key has no percent sign.
no_percent : (s : Text) → IsPlainKey s → contains s (txt "%") ≡ false
unfolding contains has_prefix any
no_percent [] h = refl
no_percent (c ∷ s) h =
    let (here, later) = or_false (needs_more c) (any needs_more s) h in
    elim (Bool-cases (c == 37)) [
      | inl percent ↦ absurd (cc (sym here ∙ ap needs_more ((==_iff c 37).0 percent)))
      | inr other ↦ rw (other, no_percent s later) refl
    ]

pub s3-IsS3 : IsS3 s3 (txt "b") content object_of
s3-IsS3 = record {
  puts = λ k src w. put_whole-IsUpload k src.0 src.1 w;
  copies = λ source dst w. copied-IsCopy (object_of source) dst (w (object_of source)) w refl;
  removes = λ k w. record {
    changes = record { others = λ p ne. set_object-other w k none p ne };
    gone = λ q. set_object-same w k none;
  };
  names = λ k safe. ap (drop 2) (
      ap (λ s. replace_all s (txt "%20") (txt " "))
        (sym (url_path_escape-encode (txt "b/" ++ k) safe) ∙ url_path_escape-eq (txt "b/" ++ k))
      ∙ unescape (txt "b/" ++ k) (no_percent (txt "b/" ++ k) safe));
}
