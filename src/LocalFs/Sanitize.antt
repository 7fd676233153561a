-- ===== src/LocalFs/Sanitize.antt =====
-- The check of requested paths in local.go and fs.go.
use file_server_management.Prelude.{
  ◌≡◌, true, false, List, ◌++◌, Option, some, ok, arith, All, All-right, Option-cases, inl, inr, ap,
  sym, ◌∙◌,
}
use file_server_management.Text.{Text, has_prefix}
use file_server_management.FilePath.{dotdot, render, clean, is_abs, rel}
use file_server_management.FilePath.Walk.{IsPlain}
use file_server_management.FilePath.Rooted.{
  join-render, descend, descend-IsPlain, parts_of, parts_of-IsPlain, clean_of_abs,
}
use file_server_management.FilePath.Relative.{rel-inside}
use file_server_management.LocalFs.{
  LocalFs, new_local_fs, relative_request, check_inside, sanitize_and_join,
}

-- The base is a cleaned path from the root, with the parts `bs`.
pub record HasBase (l : LocalFs) (bs : List Text) : Type 0 where
  pub plain : All IsPlain bs
  pub text : l.base_root ≡ render true bs

-- The base or a path below it, with no part "", "." or "..".
pub record IsWithin (bs : List Text) (full : Text) : Type 0 where
  pub rest : List Text
  pub plain : All IsPlain rest
  pub text : full ≡ render true (bs ++ rest)

-- The base of a new file system is a cleaned path from the root, if filepath.Abs returns paths from
-- the root.
new_local_fs-HasBase :
    (abs : Text → Option Text) (base : Text) (l : LocalFs)
    → ((p q : Text) → abs p ≡ some q → is_abs q ≡ true)
    → new_local_fs abs base ≡ ok l
    → (bs : List Text) × HasBase l bs
unfolding new_local_fs
new_local_fs-HasBase abs base l rooted e = elim (Option-cases (abs base)) [
  | inl lost ↦ absurd (ground arith)
  | inr (p, found) ↦ (
    parts_of p,
    record {
      plain = parts_of-IsPlain p;
      text = sym (base_eq found) ∙ clean_of_abs p (rooted base p found);
    },
  )
]
  where
    base_eq : {p : Text} → abs base ≡ some p → clean p ≡ l.base_root
    base_eq found = ground arith

check_inside-ok :
    (base full : Text) {out : Text}
    → check_inside base full ≡ ok out
    → (r : Text) × (rel base full ≡ some r) × (has_prefix r dotdot ≡ false) × (out ≡ full)
unfolding check_inside
check_inside-ok base full e = elim (Option-cases (rel base full)) [
  | inl lost ↦ cc (rw (lost, check_inside) at e)
  | inr (r, found) ↦ (r, found, ground arith, ground arith)
]

module _ (bs fs : List Text) (hb : All IsPlain bs) (hf : All IsPlain fs) {out : Text} where
  pub check_inside-IsWithin :
      check_inside (render true bs) (render true fs) ≡ ok out → IsWithin bs out
  check_inside-IsWithin e =
      let (r, found, inside, same) = check_inside-ok (render true bs) (render true fs) e in
      let (ts, split, _) = rel-inside bs fs hb hf found inside in
      record {
        rest = ts;
        plain = All-right IsPlain bs ts (rw split at hf);
        text = same ∙ ap (render true) split;
      }

-- Whatever parts are requested of `sanitizeAndJoin` of local.go, an accepted path is the base or
-- lies below it.
pub sanitize_and_join-IsWithin :
    (l : LocalFs) (bs : List Text) (parts : List Text) (full : Text)
    → HasBase l bs
    → sanitize_and_join l parts ≡ ok full
    → IsWithin bs full
unfolding sanitize_and_join
sanitize_and_join-IsWithin l bs parts full h e =
    check_inside-IsWithin bs (descend bs (relative_request parts)) h.plain
      (descend-IsPlain bs _ h.plain)
      (rw (h.text, join-render bs (relative_request parts) h.plain) at e)
