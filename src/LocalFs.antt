-- ===== src/LocalFs.antt =====
-- internal/adapters/fs/local/local.go and internal/filesystem/fs.go: the file systems below a base
-- directory. Both check a requested path before they touch the disk; the second also resolves
-- symbolic links first.
pub mod Sanitize
pub mod Accepted
pub mod Links
use file_server_management.Prelude.{
  ◌≡◌, refl, Bool, true, false, List, [], ◌∷◌, Option, none, some, Result, ok, err, if◌then◌else◌,
}
use file_server_management.Text.{Text, txt, text_eq, has_prefix, trim_prefix}
use file_server_management.FilePath.{dotdot, clean, join, is_abs, rel}

pub data FsError : Type 0 where
  base_required : FsError
  cannot_resolve_base : FsError
  outside_base : FsError

-- local.go `LocalFs`, fs.go `LocalFs`
pub record LocalFs : Type 0 where
  pub base_root : Text

-- Both constructors `NewLocalFs`; `abs` is filepath.Abs, which reads the working directory.
unfoldable pub new_local_fs : (Text → Option Text) → Text → Result FsError LocalFs
new_local_fs abs base = if text_eq base [] then err base_required else elim (abs base) [
  | none ↦ err cannot_resolve_base
  | some p ↦ ok (record { base_root = clean p })
]

-- The requested parts as one relative path: an absolute one loses its first slash.
unfoldable pub relative_request : List Text → Text
relative_request parts =
    let cleaned = clean (join parts) in
    if is_abs cleaned then trim_prefix cleaned (txt "/") else cleaned

-- The check at the end of both versions of `sanitizeAndJoin`.
unfoldable pub check_inside : Text → Text → Result FsError Text
check_inside base full = elim (rel base full) [
  | none ↦ err outside_base
  | some r ↦ if has_prefix r dotdot then err outside_base else ok full
]

-- local.go `sanitizeAndJoin`
unfoldable pub sanitize_and_join : LocalFs → List Text → Result FsError Text
sanitize_and_join l parts =
    check_inside l.base_root (join (l.base_root ∷ relative_request parts ∷ []))

-- fs.go: the path with its links resolved, or as it is where that fails; `eval` is
-- filepath.EvalSymlinks, and `none` its error.
unfoldable pub resolve_links : (Text → Option Text) → Text → Text
resolve_links eval full = elim (eval full) [ none ↦ full | some resolved ↦ resolved ]

-- fs.go `sanitizeAndJoin`
unfoldable pub sanitize_and_resolve :
    (Text → Option Text) → LocalFs → List Text → Result FsError Text
sanitize_and_resolve eval l parts =
    check_inside l.base_root (resolve_links eval (join (l.base_root ∷ relative_request parts ∷ [])))
