-- ===== src/Auth/Postgres/Rows.antt =====
-- Which rows of the table the entries come from that internal/auth/resolver.go reads.
use file_server_management.Prelude.{
  ◌≡◌, ◌↔◌, ◌⊎◌, refl, true, List, [], ◌∷◌, Option, none, some, Memᴰ, inl, inr, sym, ap, subst, ◌∙◌,
  Option-cases, Bool-cases, or_iff, either,
}
use file_server_management.Text.{Text, text_eq, text_eq_iff}
use file_server_management.Auth.{Permission, Acl, AuthContext, AclStore}
use file_server_management.Auth.Resolver.{can_access_paths, entries_of}
use file_server_management.Auth.Grants.{
  at_path, IsGrant, ByAcl, ByRole, granted_by_acl_iff, granted_by_role_iff,
}
use file_server_management.Auth.Postgres.{
  Row, Db, PermissionJson, acl_of_row, scanned, postgres_get_acls, postgres_get_acls_for_paths,
}

-- What the statements are documented to do on the rows of the table, in no particular order.
pub record IsTable {S : Type 0} (db : Db S) (table : S → List Row) : Type 0 where
  pub inserts :
      (r : Row) (s s' : S)
      → db.insert r s ≡ (true, s')
      → (q : Row) → Memᴰ q (table s') ↔ (Memᴰ q (table s) ⊎ (q ≡ r))
  pub selects :
      (p : Text) (s : S) (rows : List (Option Row)) (r : Row)
      → db.select_path p s ≡ some rows
      → Memᴰ (some r) rows
      → Memᴰ r (table s) × (r.path ≡ p)
  pub selects_any :
      (ps : List Text) (s : S) (rows : List (Option Row)) (r : Row)
      → db.select_paths ps s ≡ some rows
      → Memᴰ (some r) rows ↔ (Memᴰ r (table s) × Memᴰ r.path ps)

-- The decision for any store, by the entries that are read.
pub can_access_paths_entries :
    (ctx : AuthContext) (paths : List Text) (perm : Permission) (store : AclStore)
    → (can_access_paths ctx paths perm store ≡ true)
      ↔ (ByAcl ctx perm paths (entries_of store paths) ⊎ ByRole ctx perm)
unfolding can_access_paths
can_access_paths_entries ctx paths perm store = (
  λ h. elim ((or_iff _ _).0 h) [
    | inl acl ↦ inl ((granted_by_acl_iff ctx perm paths (entries_of store paths)).0 acl)
    | inr role ↦ inr ((granted_by_role_iff ctx perm).0 role)
  ],
  λ g. (or_iff _ _).1 (elim g [
    | inl acl ↦ inl ((granted_by_acl_iff ctx perm paths (entries_of store paths)).1 acl)
    | inr role ↦ inr ((granted_by_role_iff ctx perm).1 role)
  ]),
)

pub mem-at_path :
    (p : Text) (acls : List Acl) {a : Acl} → Memᴰ a (at_path p acls) → Memᴰ a acls × (a.path ≡ p)
mem-at_path p [] m = elim m [ ]
mem-at_path p (b ∷ acls) {a} m = elim (Bool-cases (text_eq b.path p)) [
  | inl here ↦ elim (either (rw here at m)) [
    | inl same ↦ (Memᴰ.head same, ap (λ x. x.path) same ∙ (text_eq_iff b.path p).0 here)
    | inr later ↦ let (listed, at_p) = mem-at_path p acls later in (Memᴰ.tail listed, at_p)
  ]
  | inr elsewhere ↦
      let (listed, at_p) = mem-at_path p acls (rw elsewhere at m) in (Memᴰ.tail listed, at_p)
]

pub at_path-mem :
    (p : Text) (acls : List Acl) {a : Acl} → Memᴰ a acls → a.path ≡ p → Memᴰ a (at_path p acls)
at_path-mem p [] m e = elim m [ ]
at_path-mem p (b ∷ acls) {a} m e = elim (Bool-cases (text_eq b.path p)) [
  | inl here ↦ rw here (elim (either m) [
    | inl same ↦ Memᴰ.head same
    | inr later ↦ Memᴰ.tail (at_path-mem p acls later e)
  ])
  | inr elsewhere ↦ rw elsewhere (elim (either m) [
    | inl same ↦ absurd (cc ((text_eq_iff b.path p).1 (sym (ap (λ x. x.path) same) ∙ e), elsewhere))
    | inr later ↦ at_path-mem p acls later e
  ])
]

module _ (json : PermissionJson) where
  pub mem-scanned :
      (rows : List (Option Row)) {a : Acl}
      → Memᴰ a (scanned json rows)
      → (r : Row) × Memᴰ (some r) rows × (a ≡ acl_of_row json r)
  unfolding scanned
  mem-scanned [] m = elim m [ ]
  mem-scanned (none ∷ rows) m = let (r, listed, e) = mem-scanned rows m in (r, Memᴰ.tail listed, e)
  mem-scanned (some q ∷ rows) m = elim (either m) [
    | inl same ↦ (q, Memᴰ.head refl, same)
    | inr later ↦ let (r, listed, e) = mem-scanned rows later in (r, Memᴰ.tail listed, e)
  ]

  pub scanned-mem :
      (rows : List (Option Row)) (r : Row)
      → Memᴰ (some r) rows
      → Memᴰ (acl_of_row json r) (scanned json rows)
  unfolding scanned
  scanned-mem [] r m = elim m [ ]
  scanned-mem (none ∷ rows) r m = elim (either m) [
    | inl same ↦ absurd (cc same)
    | inr later ↦ scanned-mem rows r later
  ]
  scanned-mem (some q ∷ rows) r m = elim (either m) [
    | inl same ↦
        Memᴰ.head (ap (elim [ none ↦ acl_of_row json q | some x ↦ acl_of_row json x ]) same)
    | inr later ↦ Memᴰ.tail (scanned-mem rows r later)
  ]

  module _ {S : Type 0} (db : Db S) (table : S → List Row) (laws : IsTable db table) where
    -- A row on the path or on a directory above it grants the permission.
    abbrev pub ByRow : AuthContext → Permission → List Text → S → Type 0
    ByRow ctx perm paths s =
        (r : Row) × Memᴰ r (table s) × (Memᴰ r.path paths × IsGrant ctx perm (acl_of_row json r))

    pub single_row :
        (p : Text) (s : S) {a : Acl}
        → Memᴰ a (postgres_get_acls json db s p)
        → (r : Row) × Memᴰ r (table s) × (r.path ≡ p) × (a ≡ acl_of_row json r)
    unfolding postgres_get_acls
    single_row p s m = elim (Option-cases (db.select_path p s)) [
      | inl failed ↦ elim (rw (failed, postgres_get_acls) at m) [ ]
      | inr (rows, answered) ↦
          let (r, listed, e) = mem-scanned rows (rw (answered, postgres_get_acls) at m) in
          let (kept, at_p) = laws.selects p s rows r answered listed in (r, kept, at_p, e)
    ]

    pub batch_rows :
        (paths : List Text) (s : S) (acls : List Acl) {a : Acl}
        → postgres_get_acls_for_paths json db s paths ≡ some acls
        → Memᴰ a acls
        → (r : Row) × Memᴰ r (table s) × (a ≡ acl_of_row json r)
    unfolding postgres_get_acls_for_paths
    batch_rows [] s acls {a} e m = elim (subst (λ xs. Memᴰ a xs) (nothing e) m) [ ]
      where
        nothing : {xs : List Acl} → ◌≡◌ {A = Option (List Acl)} (some []) (some xs) → xs ≡ []
        nothing q = sym (ap (elim [ none ↦ [] | some ys ↦ ys ]) q)
    batch_rows (p ∷ ps) s acls {a} e m = elim (Option-cases (db.select_paths (p ∷ ps) s)) [
      | inl failed ↦ absurd (cc (rw (failed, postgres_get_acls_for_paths) at e))
      | inr (rows, answered) ↦
          let same = all_of (rw (answered, postgres_get_acls_for_paths) at e) in
          let (r, listed, is_r) = mem-scanned rows (subst (λ xs. Memᴰ a xs) (sym same) m) in
          (r, ((laws.selects_any (p ∷ ps) s rows r answered).0 listed).0, is_r)
    ]
      where
        all_of : {xs ys : List Acl} → ◌≡◌ {A = Option (List Acl)} (some xs) (some ys) → xs ≡ ys
        all_of {xs} q = ap (elim [ none ↦ xs | some zs ↦ zs ]) q
