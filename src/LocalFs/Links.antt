-- ===== src/LocalFs/Links.antt =====
-- The check of fs.go, which resolves symbolic links before it compares paths.
use file_server_management.Prelude.{
  ◌≡◌, true, List, [], ◌∷◌, Option, none, some, ok, All, Option-cases, inl, inr, sym, ◌∙◌,
}
use file_server_management.Text.{Text}
use file_server_management.FilePath.{render, clean, join, is_abs}
use file_server_management.FilePath.Walk.{IsPlain}
use file_server_management.FilePath.Rooted.{
  join-render, descend, descend-IsPlain, parts_of, parts_of-IsPlain, clean_of_abs, is_abs-render,
}
use file_server_management.LocalFs.{
  LocalFs, relative_request, sanitize_and_join, sanitize_and_resolve, resolve_links,
}
use file_server_management.LocalFs.Sanitize.{HasBase, IsWithin, check_inside-IsWithin}

-- filepath.EvalSymlinks gives cleaned paths, and one from the root for one from the root.
pub record EvalIsClean (eval : Text → Option Text) : Type 0 where
  pub abs : (p q : Text) → is_abs p ≡ true → eval p ≡ some q → is_abs q ≡ true
  pub cleaned : (p q : Text) → eval p ≡ some q → clean q ≡ q

resolve_links-none :
    (eval : Text → Option Text) (p : Text) → eval p ≡ none → resolve_links eval p ≡ p
unfolding resolve_links
resolve_links-none eval p h = rw (h, resolve_links)

resolve_links-some :
    (eval : Text → Option Text) (p q : Text) → eval p ≡ some q → resolve_links eval p ≡ q
unfolding resolve_links
resolve_links-some eval p q h = rw (h, resolve_links)

-- What the links of a path from the root resolve to is again a cleaned path from the root.
resolved_parts :
    (eval : Text → Option Text) (fs : List Text)
    → EvalIsClean eval
    → All IsPlain fs
    → (gs : List Text) × All IsPlain gs × (resolve_links eval (render true fs) ≡ render true gs)
resolved_parts eval fs v h = elim (Option-cases (eval (render true fs))) [
  | inl lost ↦ (fs, h, resolve_links-none eval _ lost)
  | inr (q, found) ↦ (
    parts_of q,
    parts_of-IsPlain q,
    resolve_links-some eval _ q found
        ∙ sym (v.cleaned _ q found)
        ∙ clean_of_abs q (v.abs _ q (is_abs-render fs) found),
  )
]

-- A path that the check of fs.go accepts lies at or below the base, links resolved where they could
-- be, if EvalSymlinks gives cleaned paths.
pub sanitize_and_resolve-IsWithin :
    (eval : Text → Option Text) (l : LocalFs) (bs : List Text) (parts : List Text) (full : Text)
    → EvalIsClean eval
    → HasBase l bs
    → sanitize_and_resolve eval l parts ≡ ok full
    → IsWithin bs full
unfolding sanitize_and_resolve
sanitize_and_resolve-IsWithin eval l bs parts full v h e =
    let c = relative_request parts in
    let (gs, plain, text) = resolved_parts eval (descend bs c) v (descend-IsPlain bs c h.plain) in
    check_inside-IsWithin bs gs h.plain plain (rw (h.text, join-render bs c h.plain, text) at e)

-- Where EvalSymlinks fails on the requested path, as it does on a file that does not exist yet,
-- the answer is that of the check without links: a link in one of its directories is not seen.
pub sanitize_and_resolve_unresolved :
    (eval : Text → Option Text) (l : LocalFs) (parts : List Text)
    → eval (join (l.base_root ∷ relative_request parts ∷ [])) ≡ none
    → sanitize_and_resolve eval l parts ≡ sanitize_and_join l parts
unfolding sanitize_and_resolve sanitize_and_join
sanitize_and_resolve_unresolved eval l parts h = rw (resolve_links-none eval _ h)
