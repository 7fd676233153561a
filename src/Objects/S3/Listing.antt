-- ===== src/Objects/S3/Listing.antt =====
-- What `List` of internal/adapters/storage/s3/s3_storage.go shows.
use file_server_management.Prelude.{
  ℕ, ◌≡◌, ◌≢◌, inl, inr, refl, sym, ap, ◌∙◌, true, false, ◌&&◌, List, [], ◌∷◌, ◌++◌, Option, none,
  some, Memᴰ, All, Bool-cases, either, mem-append_cases,
}
use file_server_management.Text.{Text, txt, has_suffix}
use file_server_management.Storage.{ObjectInfo, key, s3_shown_path}
use file_server_management.Storage.Keys.{key-s3_shown_path}
use file_server_management.Objects.S3.{Page, s3_dirs, s3_files, s3_listing, is_zero}

abbrev pub Object : Type 0
Object = Option Text × Option ℕ

-- The key is one that the prefix gives to a path.
abbrev pub IsPrefixed : (prefix : Text) → Object → Type 0
IsPrefixed prefix (none, size) = Unit
IsPrefixed prefix (some k, size) = (path : Text) × (k ≡ key prefix path)

-- The path of a file is that of an object of the list.
abbrev pub IsListed : (prefix : Text) → ObjectInfo → List Object → Type 0
IsListed prefix info objs =
    (k : Text) × (size : Option ℕ) × Memᴰ (some k, size) objs × (key prefix info.path ≡ k)

s3_dirs-is_dir :
    (prefix : Text) (ps : List (Option Text)) (info : ObjectInfo)
    → Memᴰ info (s3_dirs prefix ps)
    → info.is_dir ≡ true
unfolding s3_dirs
s3_dirs-is_dir prefix [] info m = elim m [ ]
s3_dirs-is_dir prefix (none ∷ ps) info m = s3_dirs-is_dir prefix ps info m
s3_dirs-is_dir prefix (some p ∷ ps) info m = elim (either m) [
  | inl here ↦ ap (λ (i : ObjectInfo). i.is_dir) here
  | inr later ↦ s3_dirs-is_dir prefix ps info later
]

later_object :
    (prefix : Text) (info : ObjectInfo) (o : Object) (objs : List Object)
    → IsListed prefix info objs
    → IsListed prefix info (o ∷ objs)
later_object prefix info o objs (k, size, m, e) = (k, size, Memᴰ.tail m, e)

s3_files-IsListed :
    (prefix : Text) (objs : List Object) (info : ObjectInfo)
    → prefix ≢ []
    → All (IsPrefixed prefix) objs
    → Memᴰ info (s3_files prefix objs)
    → IsListed prefix info objs
unfolding s3_files
s3_files-IsListed prefix [] info h all m = elim m [ ]
s3_files-IsListed prefix ((none, size) ∷ objs) info h all m =
    later_object prefix info (none, size) objs (s3_files-IsListed prefix objs info h all.1 m)
s3_files-IsListed prefix ((some k, size) ∷ objs) info h all m =
    elim (Bool-cases (has_suffix k (txt "/") && is_zero size)) [
      | inl placeholder ↦
          later_object prefix info (some k, size) objs
            (s3_files-IsListed prefix objs info h all.1 (rw (s3_files, placeholder) at m))
      | inr shown ↦ elim (either (rw (s3_files, shown) at m)) [
        | inl here ↦ (
          k,
          size,
          Memᴰ.head refl,
          ap (λ (i : ObjectInfo). key prefix i.path) here
              ∙ ap (λ j. key prefix (s3_shown_path prefix j)) all.0.1
              ∙ key-s3_shown_path prefix all.0.0 h
              ∙ sym all.0.1,
        )
        | inr later ↦
            later_object prefix info (some k, size) objs
              (s3_files-IsListed prefix objs info h all.1 later)
      ]
    ]

-- Under a prefix, a file that `List` shows has a path whose key is that of an object on one of
-- the pages, provided that the keys on the pages are below the prefix.
pub s3_listing-IsListed :
    (prefix : Text) (pages : List Page) (info : ObjectInfo)
    → prefix ≢ []
    → All (λ (page : Page). All (IsPrefixed prefix) page.contents) pages
    → Memᴰ info (s3_listing prefix pages)
    → info.is_dir ≡ false
    → (page : Page) × Memᴰ page pages × IsListed prefix info page.contents
unfolding s3_listing
s3_listing-IsListed prefix [] info h all m file = elim m [ ]
s3_listing-IsListed prefix (page ∷ pages) info h all m file =
    let dirs = s3_dirs prefix page.common_prefixes in
    let files = s3_files prefix page.contents in
    elim (mem-append_cases (dirs ++ files) (s3_listing prefix pages) m) [
      | inl here ↦ elim (mem-append_cases dirs files here) [
        | inl dir ↦ absurd (cc (s3_dirs-is_dir prefix page.common_prefixes info dir, file))
        | inr shown ↦
            (page, Memᴰ.head refl, s3_files-IsListed prefix page.contents info h all.0 shown)
      ]
      | inr later ↦
          let (found, among, listed) = s3_listing-IsListed prefix pages info h all.1 later file in
          (found, Memᴰ.tail among, listed)
    ]
