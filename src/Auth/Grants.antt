-- ===== src/Auth/Grants.antt =====
-- The decision of internal/auth/resolver.go against the reading "some entry of the path or of a
-- directory above it names the user or one of the roles, or a role grants it everywhere".
use file_server_management.Prelude.{
  ℕ, ◌+◌, ◌<◌, ◌≡◌, ◌↔◌, ◌⊎◌, Bool, true, ◌||◌, List, [], ◌∷◌, ◌++◌, Option, none, some, foldl,
  arith, if◌then◌else◌, Memᴰ, any, or_iff, and_iff, any-found, any-mem, any-congr, Option-cases,
  inl, inr, ap, sym, ◌∙◌, append-nil, append_assoc,
}
use file_server_management.Text.{Text, txt, text_eq, text_eq_iff}
use file_server_management.FilePath.{is_abs}
use file_server_management.Prelude.{length}
use file_server_management.Auth.{
  Permission, Acl, AuthContext, AclMap, AclStore, find_flag, role_permissions, set_acl,
  new_in_memory_acl_store,
}
use file_server_management.Auth.Resolver.{
  acl_grants, granted_by_acl, granted_by_role, by_path, entries_of, can_access_paths, can_access,
}
use file_server_management.Auth.Ancestors.{visited, parent_paths-eq-visited}

-- The entries for one path, in order.
abbrev pub at_path : Text → List Acl → List Acl
at_path p [] = []
at_path p (a ∷ acls) = if text_eq a.path p then a ∷ at_path p acls else at_path p acls

fold-at_path :
    (m : AclMap) (acls : List Acl) (p : Text) → foldl set_acl m acls p ≡ m p ++ at_path p acls
unfolding set_acl
fold-at_path m [] p = sym (append-nil (m p))
fold-at_path m (a ∷ acls) p = ground (
  arith,
  fold-at_path (set_acl m a) acls p,
  text_eq_iff a.path p,
  append_assoc (m p) (a ∷ []) (at_path p acls),
)

-- The map `byPath` has the entries of each path in the order of the answer.
pub by_path-at_path : (acls : List Acl) (p : Text) → by_path acls p ≡ at_path p acls
unfolding by_path new_in_memory_acl_store
by_path-at_path acls p = fold-at_path (λ _. []) acls p

-- A batch answer holds, for each path asked for, what `GetACLs` gives for it.
pub record IsConsistent (store : AclStore) : Type 0 where
  pub batch :
      (get : List Text → Option (List Acl)) (paths : List Text) (acls : List Acl)
      → store.get_acls_for_paths ≡ some get
      → get paths ≡ some acls
      → (p : Text) → Memᴰ p paths
      → at_path p acls ≡ store.get_acls p

-- So it makes no difference which of the two loops runs.
pub entries_of-eq :
    (store : AclStore) (paths : List Text) (p : Text)
    → IsConsistent store
    → Memᴰ p paths
    → entries_of store paths p ≡ store.get_acls p
unfolding entries_of
entries_of-eq store paths p c m = elim (Option-cases store.get_acls_for_paths) [
  | inl single ↦ rw (single, entries_of)
  | inr (get, batch) ↦ elim (Option-cases (get paths)) [
    | inl failed ↦ rw (batch, entries_of) (rw failed)
    | inr (acls, found) ↦
        rw (batch, entries_of)
          (rw found (by_path-at_path acls p ∙ c.batch get paths acls batch found p m))
  ]
]

-- The entry grants the permission to the user or to one of the roles.
pub record IsGrant (ctx : AuthContext) (perm : Permission) (a : Acl) : Type 0 where
  pub permits : find_flag a.permissions perm ≡ true
  pub principal :
      (a.principal_id ≡ txt "user:" ++ ctx.user_id)
      ⊎ ((r : Text) × Memᴰ r ctx.roles × (a.principal_id ≡ txt "role:" ++ r))

module _ (ctx : AuthContext) (perm : Permission) where
  pub acl_grants-IsGrant : (a : Acl) → acl_grants ctx perm a ≡ true → IsGrant ctx perm a
  unfolding acl_grants
  acl_grants-IsGrant a h = elim ((or_iff _ _).0 h) [
    | inl user ↦
        let (named, permits) = (and_iff _ _).0 user in
        record { permits = permits; principal = inl ((text_eq_iff _ _).0 named) }
    | inr role ↦
        let (r, listed, both) = any-found _ ctx.roles role in
        let (named, permits) = (and_iff _ _).0 both in
        record { permits = permits; principal = inr (r, listed, (text_eq_iff _ _).0 named) }
  ]

  pub acl_grants-of_IsGrant : (a : Acl) → IsGrant ctx perm a → acl_grants ctx perm a ≡ true
  unfolding acl_grants
  acl_grants-of_IsGrant a g = elim g.principal [
    | inl user ↦ (or_iff _ _).1 (inl ((and_iff _ _).1 ((text_eq_iff _ _).1 user, g.permits)))
    | inr (r, listed, role) ↦
        (or_iff _ _).1
          (inr (any-mem _ listed ((and_iff _ _).1 ((text_eq_iff _ _).1 role, g.permits))))
  ]

  -- A role of the user grants the permission on every path.
  abbrev pub ByRole : Type 0
  ByRole = (r : Text) × Memᴰ r ctx.roles × (find_flag (role_permissions r) perm ≡ true)

  -- An entry of one of the paths grants it.
  abbrev pub ByAcl : List Text → (Text → List Acl) → Type 0
  ByAcl paths get = (p : Text) × Memᴰ p paths × ((a : Acl) × Memᴰ a (get p) × IsGrant ctx perm a)

  pub granted_by_role_iff : (granted_by_role ctx perm ≡ true) ↔ ByRole
  unfolding granted_by_role
  granted_by_role_iff = (any-found _ ctx.roles, λ b. any-mem _ b.1 b.2)

  pub granted_by_acl_iff :
      (paths : List Text) (get : Text → List Acl)
      → (granted_by_acl ctx paths perm get ≡ true) ↔ ByAcl paths get
  unfolding granted_by_acl
  granted_by_acl_iff paths get = (
    λ h.
        let (p, listed, some_entry) = any-found _ paths h in
        let (a, kept, grants) = any-found _ (get p) some_entry in
        (p, listed, (a, kept, acl_grants-IsGrant a grants)),
    λ b. any-mem _ b.1 (any-mem _ b.2.1 (acl_grants-of_IsGrant _ b.2.2)),
  )

  granted_by_acl-congr :
      (paths : List Text) (get get' : Text → List Acl)
      → ((p : Text) → Memᴰ p paths → get p ≡ get' p)
      → granted_by_acl ctx paths perm get ≡ granted_by_acl ctx paths perm get'
  unfolding granted_by_acl
  granted_by_acl-congr paths get get' same =
      any-congr _ _ paths (λ p m. ap (any (acl_grants ctx perm)) (same p m))

  -- The decision for a consistent store is that of its single lookups.
  pub can_access_paths-single :
      (paths : List Text) (store : AclStore)
      → IsConsistent store
      → can_access_paths ctx paths perm store
        ≡ (granted_by_acl ctx paths perm store.get_acls || granted_by_role ctx perm)
  unfolding can_access_paths
  can_access_paths-single paths store c =
      ap (λ b. b || granted_by_role ctx perm)
        (granted_by_acl-congr paths _ _ (λ p m. entries_of-eq store paths p c m))

  pub can_access_paths_iff :
      (paths : List Text) (store : AclStore)
      → IsConsistent store
      → (can_access_paths ctx paths perm store ≡ true) ↔ (ByAcl paths store.get_acls ⊎ ByRole)
  can_access_paths_iff paths store c = rw (can_access_paths-single paths store c) (
    λ h. elim ((or_iff _ _).0 h) [
      | inl acl ↦ inl ((granted_by_acl_iff paths store.get_acls).0 acl)
      | inr role ↦ inr (granted_by_role_iff.0 role)
    ],
    λ g. (or_iff _ _).1 (elim g [
      | inl acl ↦ inl ((granted_by_acl_iff paths store.get_acls).1 acl)
      | inr role ↦ inr (granted_by_role_iff.1 role)
    ]),
  )

-- A path that begins with a slash gets a decision, in as many rounds as it has characters and two
-- more.
pub can_access-eq :
    (fuel : ℕ) (ctx : AuthContext) (path : Text) (perm : Permission) (store : AclStore)
    → is_abs path ≡ true
    → length path + 1 < fuel
    → can_access fuel ctx path perm store ≡ some (can_access_paths ctx (visited path) perm store)
unfolding can_access
can_access-eq fuel ctx path perm store h enough = rw (parent_paths-eq-visited fuel path h enough)

pub some-injective : (a b : Bool) → ◌≡◌ {A = Option Bool} (some a) (some b) → a ≡ b
some-injective a b e = ground arith

-- On a path that begins with a slash, with enough rounds and a store whose batch holds what the
-- single lookups give, access is granted exactly if some entry of the path or of a directory above
-- it grants the permission to the user or to one of the roles, whatever other entries say, closer
-- ones too, or one of the roles has it everywhere.
pub can_access_iff :
    (fuel : ℕ) (ctx : AuthContext) (path : Text) (perm : Permission) (store : AclStore)
    → is_abs path ≡ true
    → length path + 1 < fuel
    → IsConsistent store
    → (can_access fuel ctx path perm store ≡ some true)
      ↔ (ByAcl ctx perm (visited path) store.get_acls ⊎ ByRole ctx perm)
can_access_iff fuel ctx path perm store h enough c =
    let decided = can_access_paths_iff ctx perm (visited path) store c in
    rw (can_access-eq fuel ctx path perm store h enough)
      (λ e. decided.0 (some-injective _ true e), λ g. ap some (decided.1 g))

-- Whether a store answers in a batch makes no difference to the decision on a path that begins with
-- a slash, if the batch holds what the single lookups give.
can_access_batch :
    (fuel : ℕ) (ctx : AuthContext) (path : Text) (perm : Permission) (store : AclStore)
    → is_abs path ≡ true
    → length path + 1 < fuel
    → IsConsistent store
    → can_access fuel ctx path perm store
      ≡ can_access fuel ctx path perm (record store { get_acls_for_paths = none })
can_access_batch fuel ctx path perm store h enough c =
    let single : AclStore = record store { get_acls_for_paths = none } in
    let trivial : IsConsistent single = record {
      batch = λ get paths acls e. absurd (ground arith);
    } in
    can_access-eq fuel ctx path perm store h enough
    ∙ ap some (
        can_access_paths-single ctx perm (visited path) store c
        ∙ sym (can_access_paths-single ctx perm (visited path) single trivial))
    ∙ sym (can_access-eq fuel ctx path perm single h enough)
