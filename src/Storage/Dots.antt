-- ===== src/Storage/Dots.antt =====
-- A path that ends in "..": which directory's entries count for it in internal/auth/resolver.go,
-- and which one the local backend opens.
use file_server_management.Prelude.{
  ℕ, ◌+◌, ◌<◌, ◌≡◌, ◌≢◌, refl, true, false, List, [], ◌∷◌, ◌++◌, arith, All, All-right, Memᴰ, ap,
  ◌∙◌, append-nil, reverse, reverse-append, reverse-cons, reverse-reverse, length, some,
}
use file_server_management.Text.{Text, txt, text_eq, text_eq_iff, has_prefix}
use file_server_management.FilePath.{
  slash, slashes, dotdot, render, is_abs, walk, split_slash, step,
}
use file_server_management.FilePath.Segments.{split_slash-append, split_slash-cons_slash}
use file_server_management.FilePath.Walk.{IsPlain, walk-append, walk-cons, walk-nil, walk-empty}
use file_server_management.FilePath.Rooted.{render-ne-nil, parts_of, walk-render}
use file_server_management.FilePath.Parent.{init-append}
use file_server_management.Auth.{Permission, Acl, AuthContext, AclMap, set_acl, in_memory}
use file_server_management.Auth.Resolver.{can_access}
use file_server_management.Auth.Ancestors.{visited, dir_stack}
use file_server_management.Auth.Grants.{IsGrant}
use file_server_management.Auth.Inherit.{can_access-set_acl_new}
use file_server_management.Storage.{full}
use file_server_management.Storage.Keys.{full-below}

-- The directory `bs`/`x`, and the path that climbs out of it.
abbrev pub inside : List Text → Text → Text
inside bs x = render true (bs ++ x ∷ [])

abbrev pub climbing : List Text → Text → Text
climbing bs x = inside bs x ++ slash ∷ dotdot

module _ (bs : List Text) (x : Text) (plain : All IsPlain (bs ++ x ∷ [])) where
  split_climbing : split_slash (climbing bs x) ≡ split_slash (inside bs x) ++ dotdot ∷ []
  split_climbing = split_slash-append (inside bs x) dotdot ∙ unfold split_slash in refl

  walk-inside : (st : List Text) → walk true st (split_slash (inside bs x)) ≡ x ∷ reverse bs ++ st
  walk-inside st = rw (walk-render st (bs ++ x ∷ []) plain, reverse-append)

  dir_stack-climbing : dir_stack (climbing bs x) ≡ x ∷ reverse bs
  dir_stack-climbing = rw (split_climbing, init-append, walk-inside [], append-nil)

  climbing-IsAbs : is_abs (climbing bs x) ≡ true
  climbing-IsAbs = rooted (bs ++ x ∷ [])
    where
      rooted : (ts : List Text) → is_abs (render true ts ++ slash ∷ dotdot) ≡ true
      rooted [] = unfold is_abs has_prefix render in refl
      rooted (t ∷ ts) = unfold is_abs has_prefix render slashes in refl

  climbing-ne-root : text_eq (climbing bs x) (txt "/") ≡ false
  climbing-ne-root = longer (inside bs x) (render-ne-nil (bs ++ x ∷ []))
    where
      longer : (p : Text) → p ≢ [] → text_eq (p ++ slash ∷ dotdot) (txt "/") ≡ false
      longer [] h = absurd (h refl)
      longer (c ∷ []) h = unfold text_eq in ground arith
      longer (c ∷ d ∷ p) h = unfold text_eq in ground arith

  inside-visited : Memᴰ (inside bs x) (visited (climbing bs x))
  inside-visited =
      rw (climbing-ne-root, dir_stack-climbing) (Memᴰ.tail (Memᴰ.head (ap (render true) rebuilt)))
    where
      rebuilt : bs ++ x ∷ [] ≡ reverse (x ∷ reverse bs)
      rebuilt = rw (reverse-cons x (reverse bs), reverse-reverse)

  parts_of-climbing : parts_of (txt "/" ++ climbing bs x) ≡ bs
  parts_of-climbing =
      rw
        (
          split_slash-cons_slash,
          walk-empty true,
          split_climbing,
          walk-append,
          walk-inside [],
          append-nil,
          step_up,
        )
        (reverse-reverse bs)
    where
      climb_plain : (y : Text) → IsPlain y → step true (y ∷ reverse bs) dotdot ≡ reverse bs
      climb_plain y h = unfold step text_eq in ground (arith, text_eq_iff y dotdot)

      step_up : walk true (x ∷ reverse bs) (dotdot ∷ []) ≡ reverse bs
      step_up = rw (walk-cons, walk-nil) (climb_plain x (All-right IsPlain bs (x ∷ []) plain).0)

-- An entry on a directory decides about that directory's parent: it counts for the path that ends
-- in "..", and the local backend opens the parent under that path.
pub can_access-climbing :
    (fuel : ℕ) (ctx : AuthContext) (base bs : List Text) (x : Text) (perm : Permission) (m : AclMap)
    (a : Acl)
    → All IsPlain base
    → All IsPlain (bs ++ x ∷ [])
    → length (climbing bs x) + 1 < fuel
    → a.path ≡ inside bs x
    → IsGrant ctx perm a
    → (can_access fuel ctx (climbing bs x) perm (in_memory (set_acl m a)) ≡ some true)
      × (full (render true base) (climbing bs x) ≡ render true (base ++ bs))
can_access-climbing fuel ctx base bs x perm m a hb plain enough on g = (
  can_access-set_acl_new fuel ctx (climbing bs x) perm m a (climbing-IsAbs bs x plain) enough
      (rw on (inside-visited bs x plain)) g,
  full-below base (climbing bs x) hb
      ∙ ap (λ ts. render true (base ++ ts)) (parts_of-climbing bs x plain),
)
