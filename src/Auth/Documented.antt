-- ===== src/Auth/Documented.antt =====
-- The decision of internal/auth/resolver.go against the resolution order of docs/auth.md: the
-- closest entry for the user, the closest entry for a role, the permissions of the roles, no.
use file_server_management.Prelude.{
  ℕ, ◌+◌, ◌<◌, ◌≡◌, ◌⊎◌, inl, inr, refl, sym, ap, ◌∙◌, Bool, true, false, List, [], ◌∷◌, ◌++◌,
  Option, none, some, Memᴰ, any, any-found, any-mem, length, Bool-cases, Option-cases,
  if◌then◌else◌, mem-append_left, mem-append_right, mem-append_cases, bool_ext,
}
use file_server_management.Text.{Text, txt, text_eq, text_eq_iff}
use file_server_management.FilePath.{is_abs}
use file_server_management.Auth.{Permission, Acl, AuthContext, AclStore, find_flag}
use file_server_management.Auth.Resolver.{can_access, can_access_paths, granted_by_role}
use file_server_management.Auth.Ancestors.{visited}
use file_server_management.Auth.Grants.{
  IsConsistent, IsGrant, can_access_paths_iff, granted_by_role_iff, can_access-eq,
}

-- The first item that passes a test.
unfoldable pub first : (Acl → Bool) → List Acl → Option Acl
first p [] = none
first p (a ∷ acls) = let rest = first p acls in if p a then some a else rest

first-found :
    (p : Acl → Bool) (acls : List Acl) (a : Acl)
    → first p acls ≡ some a
    → Memᴰ a acls × (p a ≡ true)
unfolding first
first-found p [] a e = absurd (cc e)
first-found p (b ∷ acls) a e = elim (Bool-cases (p b)) [
  | inl here ↦
      let same = some_acl b a (rw here at e) in (Memᴰ.head (sym same), ap p (sym same) ∙ here)
  | inr later ↦ let (m, q) = first-found p acls a (rw later at e) in (Memᴰ.tail m, q)
]
  where
    some_acl : (x y : Acl) → ◌≡◌ {A = Option Acl} (some x) (some y) → x ≡ y
    some_acl x y q = ap (elim [ none ↦ x | some z ↦ z ]) q

first-none :
    (p : Acl → Bool) (acls : List Acl) {a : Acl} → first p acls ≡ none → Memᴰ a acls → p a ≡ false
unfolding first
first-none p [] {a} e m = absurd (elim m [ ])
first-none p (b ∷ acls) {a} e m = elim (Bool-cases (p b)) [
  | inl here ↦ absurd (cc (rw here at e))
  | inr later ↦ elim m [
    | Memᴰ.head same ↦ ap p same ∙ later
    | Memᴰ.tail more ↦ first-none p acls (rw later at e) more
  ]
]

-- The entries of the paths, those of the closest path first.
unfoldable pub entries_on : List Text → (Text → List Acl) → List Acl
entries_on [] get = []
entries_on (p ∷ paths) get = get p ++ entries_on paths get

entries_on-path :
    (paths : List Text) (get : Text → List Acl) {a : Acl}
    → Memᴰ a (entries_on paths get)
    → (p : Text) × Memᴰ p paths × Memᴰ a (get p)
unfolding entries_on
entries_on-path [] get m = absurd (elim m [ ])
entries_on-path (p ∷ paths) get m = elim (mem-append_cases (get p) (entries_on paths get) m) [
  | inl here ↦ (p, Memᴰ.head refl, here)
  | inr later ↦
      let (q, listed, kept) = entries_on-path paths get later in (q, Memᴰ.tail listed, kept)
]

entries_on-mem :
    (paths : List Text) (get : Text → List Acl) (p : Text) {a : Acl}
    → Memᴰ p paths
    → Memᴰ a (get p)
    → Memᴰ a (entries_on paths get)
unfolding entries_on
entries_on-mem [] get p none_left m = absurd (elim none_left [ ])
entries_on-mem (q ∷ paths) get p (Memᴰ.head e) m =
    mem-append_left (entries_on paths get) (rw e at m)
entries_on-mem (q ∷ paths) get p (Memᴰ.tail later) m =
    mem-append_right (get q) (entries_on-mem paths get p later m)

module _ (ctx : AuthContext) (perm : Permission) where
  abbrev pub names_user : Acl → Bool
  names_user a = text_eq a.principal_id (txt "user:" ++ ctx.user_id)

  abbrev pub names_role : Acl → Bool
  names_role a = any (λ r. text_eq a.principal_id (txt "role:" ++ r)) ctx.roles

  -- What the document says of the entries of the path and of the directories above it.
  unfoldable pub documented : List Acl → Bool
  documented acls = elim (first names_user acls) [
    | some a ↦ find_flag a.permissions perm
    | none ↦ elim (first names_role acls) [
      | some a ↦ find_flag a.permissions perm
      | none ↦ granted_by_role ctx perm
    ]
  ]

  -- The entry is for the user or for one of the roles.
  abbrev pub Names : Acl → Type 0
  Names a =
      (a.principal_id ≡ txt "user:" ++ ctx.user_id)
      ⊎ ((r : Text) × Memᴰ r ctx.roles × (a.principal_id ≡ txt "role:" ++ r))

  names_user-Names : (a : Acl) → names_user a ≡ true → Names a
  names_user-Names a h = inl ((text_eq_iff _ _).0 h)

  names_role-Names : (a : Acl) → names_role a ≡ true → Names a
  names_role-Names a h =
      let (r, listed, same) =
        any-found (λ r. text_eq a.principal_id (txt "role:" ++ r)) ctx.roles h in
      inr (r, listed, (text_eq_iff _ _).0 same)

  -- An entry for the user or a role that does not give the permission.
  abbrev pub Refusal : List Acl → Type 0
  Refusal acls = (a : Acl) × Memᴰ a acls × Names a × (find_flag a.permissions perm ≡ false)

  -- The two agree, or the code grants what the document refuses.
  abbrev pub Agrees : List Acl → Bool → Type 0
  Agrees acls granted =
      (granted ≡ documented acls) ⊎ ((granted ≡ true) × (documented acls ≡ false) × Refusal acls)

  module _ (acls : List Acl) (granted : Bool)
      (entry : (a : Acl) → Memᴰ a acls → IsGrant ctx perm a → granted ≡ true)
      (only : granted ≡ true
        → ((a : Acl) × Memᴰ a acls × IsGrant ctx perm a) ⊎ (granted_by_role ctx perm ≡ true))
      (role : granted_by_role ctx perm ≡ true → granted ≡ true) where
    -- The entry that decides.
    decided :
        (a : Acl)
        → Memᴰ a acls
        → Names a
        → documented acls ≡ find_flag a.permissions perm
        → Agrees acls granted
    decided a m named e = elim (Bool-cases (find_flag a.permissions perm)) [
      | inl gives ↦
          inl (entry a m (record { permits = gives; principal = named }) ∙ sym (e ∙ gives))
      | inr refuses ↦ elim (Bool-cases granted) [
        | inl grants ↦ inr (grants, e ∙ refuses, (a, m, named, refuses))
        | inr denies ↦ inl (denies ∙ sym (e ∙ refuses))
      ]
    ]

    unnamed :
        (a : Acl)
        → names_user a ≡ false
        → names_role a ≡ false
        → IsGrant ctx perm a
        → granted_by_role ctx perm ≡ true
    unnamed a no_user no_role g = elim g.principal [
      | inl user ↦ absurd (cc (sym no_user ∙ (text_eq_iff _ _).1 user))
      | inr (r, listed, same) ↦ absurd (
          cc (
            sym no_role
            ∙ any-mem (λ q. text_eq a.principal_id (txt "role:" ++ q)) listed
                ((text_eq_iff _ _).1 same)))
    ]

    agrees : Agrees acls granted
    unfolding documented
    agrees = elim (Option-cases (first names_user acls)) [
      | inr (a, found) ↦
          let (m, named) = first-found names_user acls a found in
          decided a m (names_user-Names a named) (rw (found, documented) refl)
      | inl no_user ↦ elim (Option-cases (first names_role acls)) [
        | inr (a, found) ↦
            let (m, named) = first-found names_role acls a found in
            decided a m (names_role-Names a named) (rw (no_user, found, documented) refl)
        | inl no_role ↦ inl (
            bool_ext granted (granted_by_role ctx perm) (
              λ grants. elim (only grants) [
                | inr by_role ↦ by_role
                | inl (a, m, g) ↦
                    unnamed a (first-none names_user acls no_user m)
                      (first-none names_role acls no_role m) g
              ],
              role,
            )
            ∙ sym (rw (no_user, no_role, documented) refl))
      ]
    ]

-- On a path that begins with a slash, with enough rounds and a store whose batch holds what the
-- single lookups give, `CanAccess` decides as docs/auth.md says (the closest entry for the user,
-- else the closest for one of the roles, else the permissions of the roles), or it grants what the
-- document refuses, and then an entry of the path or of a directory above it is for the user or one
-- of the roles and does not give the permission: it never refuses what the document grants.
pub can_access-Agrees :
    (fuel : ℕ) (ctx : AuthContext) (path : Text) (perm : Permission) (store : AclStore)
    → is_abs path ≡ true
    → length path + 1 < fuel
    → IsConsistent store
    → (granted : Bool) × (can_access fuel ctx path perm store ≡ some granted)
      × Agrees ctx perm (entries_on (visited path) store.get_acls) granted
can_access-Agrees fuel ctx path perm store h enough c =
    let iff = can_access_paths_iff ctx perm (visited path) store c in
    let on = visited path in
    (
      can_access_paths ctx on perm store,
      can_access-eq fuel ctx path perm store h enough,
      agrees ctx perm (entries_on on store.get_acls) (can_access_paths ctx on perm store)
          (λ a m g.
            let (p, listed, kept) = entries_on-path on store.get_acls m in
            iff.1 (inl (p, listed, (a, kept, g))))
          (λ grants. elim (iff.0 grants) [
            | inl (p, listed, (a, kept, g)) ↦
                inl (a, entries_on-mem on store.get_acls p listed kept, g)
            | inr role ↦ inr ((granted_by_role_iff ctx perm).1 role)
          ])
          (λ role. iff.1 (inr ((granted_by_role_iff ctx perm).0 role))),
    )
