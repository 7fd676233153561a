-- ===== src/Examples/Buckets/Listed.antt =====
-- A listing of one page.
use file_server_management.Prelude.{◌≡◌, refl, false, [], ◌∷◌, some, Memᴰ, arith}
use file_server_management.Text.{txt, text_eq, has_prefix, has_suffix, trim_prefix}
use file_server_management.Storage.{ObjectInfo, key, s3_shown_path}
use file_server_management.Objects.S3.{Page, s3_dirs, s3_files, s3_listing}
use file_server_management.Objects.S3.Listing.{IsListed, s3_listing-IsListed}

abbrev page : Page
page = record {
  common_prefixes = [];
  contents = (some (txt "up/b/"), some 0) ∷ (some (txt "up/a"), some 3) ∷ [];
}

abbrev shown : ObjectInfo
shown = record { path = txt "/a"; size = 3; is_dir = false }

listing_run : s3_listing (txt "up") (page ∷ []) ≡ shown ∷ []
unfolding s3_listing s3_files s3_dirs s3_shown_path trim_prefix has_prefix has_suffix text_eq
listing_run = refl

b_key : txt "up/b/" ≡ key (txt "up") (txt "b/")
unfolding key trim_prefix has_prefix text_eq
b_key = refl

a_key : txt "up/a" ≡ key (txt "up") (txt "a")
unfolding key trim_prefix has_prefix text_eq
a_key = refl

s3_listing-IsListed_example : (p : Page) × Memᴰ p (page ∷ []) × IsListed (txt "up") shown p.contents
s3_listing-IsListed_example =
    s3_listing-IsListed (txt "up") (page ∷ []) shown (ground arith)
      (((txt "b/", b_key), ((txt "a", a_key), tt)), tt) (rw listing_run (Memᴰ.head refl)) refl
