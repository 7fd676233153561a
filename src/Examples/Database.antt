-- ===== src/Examples/Database.antt =====
-- A table that is a list of rows, and decisions over it; the query on many paths can be down.
use file_server_management.Prelude.{
  either, ◌≡◌, ◌↔◌, ◌⊎◌, refl, sym, ap, subst, ◌∙◌, Bool, true, false, List, [], ◌∷◌, ◌++◌, Option,
  none, some, arith, Memᴰ, any, Bool-cases, inl, inr, any-found, any-mem, mem-append_left,
  mem-append_right, if◌then◌else◌,
}
use file_server_management.Text.{Text, txt, text_eq, text_eq_iff}
use file_server_management.FilePath.{is_abs, render, dir, clean, split_slash, walk}
use file_server_management.Auth.{
  perm_write, find_flag, role_permissions, set_acl, new_in_memory_acl_store,
}
use file_server_management.Auth.Resolver.{
  can_access, parent_paths, can_access_paths, granted_by_acl, granted_by_role, acl_grants,
  entries_of, by_path,
}
use file_server_management.Auth.Ancestors.{visited}
use file_server_management.Auth.Grants.{ByRole}
use file_server_management.Auth.Postgres.{
  Row, Db, PermissionJson, acl_of_row, scanned, postgres_get_acls, postgres_get_acls_for_paths,
  postgres_store,
}
use file_server_management.Auth.Postgres.Rows.{IsTable, ByRow}
use file_server_management.Auth.Postgres.Decisions.{can_access-ByRow_iff}
use file_server_management.Examples.{alice}

abbrev pub on_path : (Text → Bool) → List Row → List (Option Row)
on_path test [] = []
on_path test (r ∷ rows) = if test r.path then some r ∷ on_path test rows else on_path test rows

abbrev pub table : List Row → List Row
table rows = rows

abbrev pub db : Bool → Db (List Row)
db up = record {
  insert = λ r rows. (true, rows ++ r ∷ []);
  select_path = λ p rows. some (on_path (λ q. text_eq q p) rows);
  select_paths =
      λ ps rows. if up then some (on_path (λ q. any (λ p. text_eq q p) ps) rows) else none;
}

on_path-mem :
    (test : Text → Bool) (rows : List Row) (r : Row)
    → Memᴰ (some r) (on_path test rows) ↔ (Memᴰ r rows × (test r.path ≡ true))
on_path-mem test [] r = (λ m. elim m [ ], λ h. elim h.0 [ ])
on_path-mem test (q ∷ rows) r = elim (Bool-cases (test q.path)) [
  | inl here ↦ rw here (
    λ m. elim (either m) [
      | inl same ↦
          let is_q : r ≡ q = ap (elim [ none ↦ r | some x ↦ x ]) same in
          (Memᴰ.head is_q, ap (λ x. test x.path) is_q ∙ here)
      | inr later ↦
          let (kept, tested) = (on_path-mem test rows r).0 later in (Memᴰ.tail kept, tested)
    ],
    λ h. elim (either h.0) [
      | inl same ↦ Memᴰ.head (ap some same)
      | inr later ↦ Memᴰ.tail ((on_path-mem test rows r).1 (later, h.1))
    ],
  )
  | inr elsewhere ↦ rw elsewhere (
    λ m. let (kept, tested) = (on_path-mem test rows r).0 m in (Memᴰ.tail kept, tested),
    λ h. elim (either h.0) [
      | inl same ↦ absurd (cc (sym (ap (λ x. test x.path) same) ∙ h.1, elsewhere))
      | inr later ↦ (on_path-mem test rows r).1 (later, h.1)
    ],
  )
]

some_rows :
    {xs ys : List (Option Row)} → ◌≡◌ {A = Option (List (Option Row))} (some xs) (some ys) → xs ≡ ys
some_rows {xs} e = ap (elim [ none ↦ xs | some zs ↦ zs ]) e

appended : (rows : List Row) (r q : Row) → Memᴰ q (rows ++ r ∷ []) → Memᴰ q rows ⊎ (q ≡ r)
appended [] r q m = elim (either m) [ inl same ↦ inr same | inr later ↦ elim later [ ] ]
appended (x ∷ rows) r q m = elim (either m) [
  | inl same ↦ inl (Memᴰ.head same)
  | inr later ↦ elim (appended rows r q later) [
    | inl kept ↦ inl (Memᴰ.tail kept)
    | inr is_r ↦ inr is_r
  ]
]

listed_iff : (ps : List Text) (q : Text) → (any (λ p. text_eq q p) ps ≡ true) ↔ Memᴰ q ps
listed_iff ps q = (
  λ h.
      let (x, m, same) = any-found _ ps h in
      subst (λ y. Memᴰ y ps) (sym ((text_eq_iff q x).0 same)) m,
  λ m. any-mem _ m ((text_eq_iff q q).1 refl),
)

selected :
    (up : Bool) (ps : List Text) (s : List Row) (rows : List (Option Row))
    → (db up).select_paths ps s ≡ some rows
    → on_path (λ q. any (λ p. text_eq q p) ps) s ≡ rows
selected true ps s rows e = some_rows e
selected false ps s rows e = absurd cc

pub db-IsTable : (up : Bool) → IsTable (db up) table
db-IsTable up = record {
  inserts = λ r s s' e q. (
    λ m. appended s r q (rw (sym (ap (λ x. x.1) e)) at m),
    λ h.
        subst (λ t. Memᴰ q t) (ap (λ x. x.1) e)
          (elim h [
            | inl kept ↦ mem-append_left (r ∷ []) kept
            | inr is_r ↦ mem-append_right s (Memᴰ.head is_r)
          ]),
  );
  selects = λ p s rows r e m.
      let (kept, same) =
        (on_path-mem (λ q. text_eq q p) s r).0
          (subst (λ t. Memᴰ (some r) t) (sym (some_rows e)) m) in
      (kept, (text_eq_iff r.path p).0 same);
  selects_any = λ ps s rows r e.
      let rule = on_path-mem (λ q. any (λ p. text_eq q p) ps) s r in
      let same = selected up ps s rows e in
      (
        λ m.
            let (kept, tested) = rule.0 (subst (λ t. Memᴰ (some r) t) (sym same) m) in
            (kept, (listed_iff ps r.path).0 tested),
        λ h. subst (λ t. Memᴰ (some r) t) same (rule.1 (h.0, (listed_iff ps r.path).1 h.1)),
      );
}

-- The permissions of one kind of entry.
abbrev pub json : PermissionJson
json = record {
  marshal = λ m. none;
  unmarshal =
      λ b. elim (text_eq b (txt "w")) [ true ↦ some ((perm_write, true) ∷ []) | false ↦ none ];
}

abbrev rows : List Row
rows =
    record { path = txt "/other"; principal_id = txt "user:alice"; permissions = txt "w" }
    ∷ record { path = txt "/projects"; principal_id = txt "role:staff"; permissions = txt "w" }
    ∷ []

runs : Unit {0}
unfolding can_access parent_paths dir clean can_access_paths granted_by_acl acl_grants entries_of
    granted_by_role find_flag any role_permissions text_eq postgres_get_acls
    postgres_get_acls_for_paths scanned acl_of_row by_path set_acl new_in_memory_acl_store render
    split_slash walk is_abs
runs = tt

abbrev docs : Text
docs = txt "/projects/docs"

docs-IsAbs : is_abs docs ≡ true
docs-IsAbs = unfold is_abs in refl

-- The query on all the paths fails, and the single ones are asked.
single_run : can_access 20 alice docs perm_write (postgres_store json (db false) rows) ≡ some true
unfolding runs
single_run = refl

abbrev selected_rows : List (Option Row)
selected_rows = on_path (λ q. any (λ p. text_eq q p) (visited docs)) rows

can_access-ByRow_iff_example :
    (can_access 20 alice docs perm_write (postgres_store json (db true) rows) ≡ some true) ↔ (
      ByRow json (db true) table (db-IsTable true) alice perm_write (visited docs) rows
      ⊎ ByRole alice perm_write)
can_access-ByRow_iff_example =
    can_access-ByRow_iff (db true) json table (db-IsTable true) 20 alice docs perm_write rows
      selected_rows docs-IsAbs (omega arith) refl
