-- ===== src/Auth/Postgres/Decisions.antt =====
-- The decisions of internal/auth/resolver.go over internal/auth/postgres_store.go, read off the
-- rows of the table.
use file_server_management.Prelude.{
  ℕ, ◌+◌, ◌<◌, ◌≡◌, ◌↔◌, ◌⊎◌, refl, true, List, [], ◌∷◌, Option, some, Memᴰ, inl, inr, sym, ap, ◌∙◌,
  length, Option-cases, Bool-cases,
}
use file_server_management.Text.{Text, txt, text_eq}
use file_server_management.FilePath.{is_abs}
use file_server_management.Auth.{Permission, Acl, AuthContext}
use file_server_management.Auth.Resolver.{can_access, entries_of}
use file_server_management.Auth.Ancestors.{visited, ancestors, dir_stack}
use file_server_management.Auth.Grants.{
  by_path-at_path, ByAcl, ByRole, can_access-eq, some-injective,
}
use file_server_management.Auth.Postgres.{
  Row, Db, PermissionJson, acl_of_row, scanned, postgres_get_acls_for_paths, postgres_store,
}
use file_server_management.Auth.Postgres.Rows.{
  IsTable, can_access_paths_entries, mem-at_path, at_path-mem, scanned-mem, ByRow, single_row,
  batch_rows,
}

module _ {S : Type 0} (db : Db S) (json : PermissionJson) (table : S → List Row)
    (laws : IsTable db table) where
  -- Every entry that is read for a path is that of a row for the path.
  entries_row :
      (paths : List Text) (p : Text) (s : S) {a : Acl}
      → Memᴰ a (entries_of (postgres_store json db s) paths p)
      → (r : Row) × Memᴰ r (table s) × (r.path ≡ p) × (a ≡ acl_of_row json r)
  unfolding entries_of
  entries_row paths p s m = elim (Option-cases (postgres_get_acls_for_paths json db s paths)) [
    | inl failed ↦ single_row json db table laws p s (rw (failed, entries_of) at m)
    | inr (acls, batch) ↦
        let (listed, at_p) =
          mem-at_path p acls (rw (by_path-at_path acls p) at (rw (batch, entries_of) at m)) in
        let (r, kept, same) = batch_rows json db table laws paths s acls batch listed in
        (r, kept, row_path r (ap (λ x. x.path) (sym same) ∙ at_p), same)
  ]
    where
      row_path : (r : Row) → (acl_of_row json r).path ≡ p → r.path ≡ p
      row_path r e = unfold acl_of_row in e

  -- Whichever of its queries fail, the store opens no path that its rows do not: where access is
  -- granted, a row on the path or on a directory above it grants it to the user or to one of the
  -- roles, or a role grants it everywhere.
  pub can_access-ByRow :
      (fuel : ℕ) (ctx : AuthContext) (path : Text) (perm : Permission) (s : S)
      → is_abs path ≡ true
      → length path + 1 < fuel
      → can_access fuel ctx path perm (postgres_store json db s) ≡ some true
      → ByRow json db table laws ctx perm (visited path) s ⊎ ByRole ctx perm
  can_access-ByRow fuel ctx path perm s h enough e =
      let granted = some-injective _ true (rw (can_access-eq fuel ctx path perm _ h enough) at e) in
      elim ((can_access_paths_entries ctx (visited path) perm (postgres_store json db s)).0
        granted) [
          | inr role ↦ inr role
          | inl (p, counted, (a, read, grant)) ↦
              let (r, kept, at_p, same) = entries_row (visited path) p s read in
              inl (r, kept, (rw (sym at_p) at counted, rw same at grant))
        ]

  visited-cons : (p : Text) → (q : Text) × (qs : List Text) × (visited p ≡ q ∷ qs)
  visited-cons p = elim (Bool-cases (text_eq p (txt "/"))) [
    | inl root ↦ (txt "/", [], rw root)
    | inr more ↦ (p, ancestors (dir_stack p), rw more)
  ]

  batch_answers :
      (ps : List Text) (q : Text) (qs : List Text) (s : S) (rows : List (Option Row))
      → ps ≡ q ∷ qs
      → db.select_paths ps s ≡ some rows
      → postgres_get_acls_for_paths json db s ps ≡ some (scanned json rows)
  unfolding postgres_get_acls_for_paths
  batch_answers ps q qs s rows is_cons answered =
      rw (is_cons, rw is_cons at answered, postgres_get_acls_for_paths)

  -- Where the query on all the paths is answered, access to a path that begins with a slash is
  -- granted, with enough rounds, exactly if some row on the path or on a directory above it grants
  -- it to the user or to one of the roles, whatever other rows say, closer ones too, or a role
  -- grants it everywhere.
  pub can_access-ByRow_iff :
      (fuel : ℕ) (ctx : AuthContext) (path : Text) (perm : Permission) (s : S)
      (rows : List (Option Row))
      → is_abs path ≡ true
      → length path + 1 < fuel
      → db.select_paths (visited path) s ≡ some rows
      → (can_access fuel ctx path perm (postgres_store json db s) ≡ some true)
        ↔ (ByRow json db table laws ctx perm (visited path) s ⊎ ByRole ctx perm)
  unfolding entries_of
  can_access-ByRow_iff fuel ctx path perm s rows h enough answered = (
    can_access-ByRow fuel ctx path perm s h enough,
    λ g. rw (can_access-eq fuel ctx path perm (postgres_store json db s) h enough) (
        ap some (
          (can_access_paths_entries ctx (visited path) perm (postgres_store json db s)).1
            (by_entry g))),
  )
    where
      by_entry :
          ByRow json db table laws ctx perm (visited path) s ⊎ ByRole ctx perm
          → ByAcl ctx perm (visited path) (entries_of (postgres_store json db s) (visited path))
            ⊎ ByRole ctx perm
      by_entry (inr role) = inr role
      by_entry (inl (r, kept, (counted, grant))) =
          let (q, qs, is_cons) = visited-cons path in
          let batch = batch_answers (visited path) q qs s rows is_cons answered in
          let listed = (laws.selects_any (visited path) s rows r answered).1 (kept, counted) in
          inl (
            r.path,
            counted,
            (
              acl_of_row json r,
              rw (batch, entries_of, by_path-at_path)
                  (at_path-mem r.path (scanned json rows) (scanned-mem json rows r listed)
                    (unfold acl_of_row in refl)),
              grant,
            ),
          )
