-- ===== src/Auth/Inherit.antt =====
-- How grants of internal/auth spread: to the paths below, and over time.
use file_server_management.Prelude.{
  ℕ, suc, ◌+◌, ◌<◌, ◌≡◌, refl, true, false, ◌||◌, List, [], ◌∷◌, ◌++◌, Option, none, some, arith,
  All, All-left, Memᴰ, inl, inr, ap, sym, ◌∙◌, length, reverse, reverse-append, reverse-reverse,
  All-reverse, any, mem-append_left, mem-append_right, mem-append_cases, ◌↔◌, ◌⊎◌, Bool-cases,
}
use file_server_management.Text.{Text, text_eq, text_eq_iff}
use file_server_management.FilePath.{is_abs, render}
use file_server_management.FilePath.Walk.{IsPlain}
use file_server_management.FilePath.Rooted.{is_abs-render}
use file_server_management.Auth.{
  Permission, Acl, AuthContext, AclMap, AclStore, set_acl, new_in_memory_acl_store, get_acls,
  in_memory,
}
use file_server_management.Auth.Resolver.{granted_by_acl, granted_by_role, can_access}
use file_server_management.Auth.Ancestors.{
  ancestors, visited, parent_paths-eq-visited, parent_paths-render,
}
use file_server_management.Auth.Grants.{
  IsConsistent, IsGrant, can_access_iff, can_access-eq, can_access_paths-single,
}

list_of_some : (xs ys : List Text) → ◌≡◌ {A = Option (List Text)} (some xs) (some ys) → xs ≡ ys
list_of_some xs ys e = ap (elim [ none ↦ [] | some zs ↦ zs ]) e

-- From a cleaned path the walk visits the path and every directory above it.
visited-render :
    (st : List Text) → All IsPlain st → visited (render true (reverse st)) ≡ ancestors st
visited-render st h =
    let fuel : ℕ = suc (length (render true (reverse st)) + 1 + length st) in
    list_of_some _ _ (
      sym (
        parent_paths-eq-visited fuel (render true (reverse st)) (is_abs-render (reverse st))
          (omega arith))
      ∙ parent_paths-render fuel st (omega arith) h)

visited-render_parts :
    (bs : List Text) → All IsPlain bs → visited (render true bs) ≡ ancestors (reverse bs)
visited-render_parts bs h =
    ap (λ xs. visited (render true xs)) (sym (reverse-reverse bs))
    ∙ visited-render (reverse bs) (All-reverse IsPlain bs h)

ancestors-append :
    (ys st : List Text) {p : Text} → Memᴰ p (ancestors st) → Memᴰ p (ancestors (ys ++ st))
ancestors-append [] st m = m
ancestors-append (y ∷ ys) st m = Memᴰ.tail (ancestors-append ys st m)

-- What counts for a directory counts for every path below it.
pub visited-below :
    (bs ts : List Text) {p : Text}
    → All IsPlain (bs ++ ts)
    → Memᴰ p (visited (render true bs))
    → Memᴰ p (visited (render true (bs ++ ts)))
visited-below bs ts h m =
    let m' = rw (visited-render_parts bs (All-left IsPlain bs ts h)) at m in
    rw (visited-render_parts (bs ++ ts) h, reverse-append)
      (ancestors-append (reverse ts) (reverse bs) m')

-- A grant on a directory is a grant on every path below it, both as cleaned paths from the root,
-- also where an entry on a path between them refuses it: with enough rounds, and a store whose
-- batch holds what the single lookups give.
pub can_access-inherited :
    (fuel fuel' : ℕ) (ctx : AuthContext) (bs ts : List Text) (perm : Permission) (store : AclStore)
    → All IsPlain (bs ++ ts)
    → length (render true bs) + 1 < fuel
    → length (render true (bs ++ ts)) + 1 < fuel'
    → IsConsistent store
    → can_access fuel ctx (render true bs) perm store ≡ some true
    → can_access fuel' ctx (render true (bs ++ ts)) perm store ≡ some true
can_access-inherited fuel fuel' ctx bs ts perm store h enough enough' c e =
    (can_access_iff fuel' ctx _ perm store (is_abs-render (bs ++ ts)) enough' c).1
      (elim ((can_access_iff fuel ctx _ perm store (is_abs-render bs) enough c).0 e) [
        | inl acl ↦ inl (acl.0, visited-below bs ts h acl.1, acl.2)
        | inr role ↦ inr role
      ])

pub in_memory-IsConsistent : (m : AclMap) → IsConsistent (in_memory m)
in_memory-IsConsistent m = record { batch = λ get paths acls e. absurd (ground arith) }

set_acl-at :
    (m : AclMap) (b : Acl) (p : Text) → b.path ≡ p → get_acls (set_acl m b) p ≡ m p ++ b ∷ []
unfolding set_acl get_acls
set_acl-at m b p e = rw ((text_eq_iff b.path p).1 e, e)

set_acl-kept :
    (m : AclMap) (b : Acl) (p : Text) {a : Acl}
    → Memᴰ a (get_acls m p)
    → Memᴰ a (get_acls (set_acl m b) p)
set_acl-kept m b p k = elim (Bool-cases (text_eq b.path p)) [
  | inl same ↦
      rw (set_acl-at m b p ((text_eq_iff b.path p).0 same))
        (mem-append_left (b ∷ []) (unfold get_acls in k))
  | inr other ↦ unfold set_acl get_acls in rw other k
]

set_acl-added : (m : AclMap) (a : Acl) → Memᴰ a (get_acls (set_acl m a) a.path)
set_acl-added m a = rw (set_acl-at m a a.path refl) (mem-append_right (m a.path) (Memᴰ.head refl))

-- An entry set on the path or on a directory above it takes effect.
pub can_access-set_acl_new :
    (fuel : ℕ) (ctx : AuthContext) (path : Text) (perm : Permission) (m : AclMap) (a : Acl)
    → is_abs path ≡ true
    → length path + 1 < fuel
    → Memᴰ a.path (visited path)
    → IsGrant ctx perm a
    → can_access fuel ctx path perm (in_memory (set_acl m a)) ≡ some true
can_access-set_acl_new fuel ctx path perm m a h enough above g =
    (can_access_iff fuel ctx path perm _ h enough (in_memory-IsConsistent (set_acl m a))).1
      (inl (a.path, above, (a, set_acl-added m a, g)))

set_acl-elsewhere :
    (m : AclMap) (b : Acl) (p : Text)
    → text_eq b.path p ≡ false
    → get_acls (set_acl m b) p ≡ get_acls m p
unfolding set_acl get_acls
set_acl-elsewhere m b p other = rw other refl

set_acl-only :
    (m : AclMap) (b : Acl) (p : Text) {a : Acl}
    → Memᴰ a (get_acls (set_acl m b) p)
    → Memᴰ a (get_acls m p) ⊎ ((a ≡ b) × (b.path ≡ p))
set_acl-only m b p k = elim (Bool-cases (text_eq b.path p)) [
  | inr other ↦ inl (rw (set_acl-elsewhere m b p other) at k)
  | inl same ↦
      let at_p = (text_eq_iff b.path p).0 same in
      elim (mem-append_cases (m p) (b ∷ []) (rw (set_acl-at m b p at_p) at k)) [
        | inl before ↦ inl (unfold get_acls in before)
        | inr last ↦ inr (mem-single last, at_p)
      ]
]
  where
    mem-single : {x y : Acl} → Memᴰ x (y ∷ []) → x ≡ y
    mem-single (Memᴰ.head e) = e
    mem-single (Memᴰ.tail none_left) = absurd (elim none_left [ ])

-- Behind `SetACL` of the store in memory, on a path that begins with a slash and with enough
-- rounds, access is granted exactly if it was granted before, or the new entry is on the path or on
-- a directory above it and gives the permission to the user or to one of the roles. So an entry
-- that refuses a permission changes no decision, however close it is to the path.
pub can_access-set_acl_iff :
    (fuel : ℕ) (ctx : AuthContext) (path : Text) (perm : Permission) (m : AclMap) (a : Acl)
    → is_abs path ≡ true
    → length path + 1 < fuel
    → (can_access fuel ctx path perm (in_memory (set_acl m a)) ≡ some true) ↔ (
        (can_access fuel ctx path perm (in_memory m) ≡ some true)
        ⊎ (Memᴰ a.path (visited path) × IsGrant ctx perm a))
can_access-set_acl_iff fuel ctx path perm m a h enough =
    let before = can_access_iff fuel ctx path perm _ h enough (in_memory-IsConsistent m) in
    let behind =
      can_access_iff fuel ctx path perm _ h enough (in_memory-IsConsistent (set_acl m a)) in
    (
      λ e. elim (behind.0 e) [
        | inr role ↦ inl (before.1 (inr role))
        | inl (p, listed, (b, kept, grant)) ↦ elim (set_acl-only m a p kept) [
          | inl old ↦ inl (before.1 (inl (p, listed, (b, old, grant))))
          | inr (same, at_p) ↦ inr (rw (sym at_p) at listed, rw same at grant)
        ]
      ],
      λ g. elim g [
        | inr (above, grant) ↦ can_access-set_acl_new fuel ctx path perm m a h enough above grant
        | inl e ↦ elim (before.0 e) [
          | inr role ↦ behind.1 (inr role)
          | inl (p, listed, (b, kept, grant)) ↦
              behind.1 (inl (p, listed, (b, set_acl-kept m a p kept, grant)))
        ]
      ],
    )

nothing_granted :
    (ctx : AuthContext) (perm : Permission) (paths : List Text)
    → granted_by_acl ctx paths perm (get_acls new_in_memory_acl_store) ≡ false
unfolding granted_by_acl get_acls new_in_memory_acl_store any
nothing_granted ctx perm [] = refl
nothing_granted ctx perm (p ∷ paths) = nothing_granted ctx perm paths

-- With no entries at all, the roles alone decide.
pub can_access-new_store :
    (fuel : ℕ) (ctx : AuthContext) (path : Text) (perm : Permission)
    → is_abs path ≡ true
    → length path + 1 < fuel
    → can_access fuel ctx path perm (in_memory new_in_memory_acl_store)
      ≡ some (granted_by_role ctx perm)
can_access-new_store fuel ctx path perm h enough =
    can_access-eq fuel ctx path perm _ h enough
    ∙ ap some (
        can_access_paths-single ctx perm (visited path) _ (in_memory-IsConsistent _)
        ∙ ap (λ b. b || granted_by_role ctx perm) (nothing_granted ctx perm (visited path)))
