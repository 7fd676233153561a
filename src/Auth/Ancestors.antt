-- ===== src/Auth/Ancestors.antt =====
-- `parentPaths` of internal/auth/resolver.go: where the walk to the root ends, and what it visits.
use mathlib.Core.Option
use file_server_management.Prelude.{
  ℕ, zero, suc, ◌+◌, ◌-◌, ◌≤◌, ◌<◌, ◌≡◌, ◌≢◌, refl, Bool, true, false, List, [], ◌∷◌, ◌++◌, none,
  some, arith, if◌then◌else◌, All, All-reverse, reverse, reverse-cons, init, length, Bool-cases,
  inl, inr,
}
use file_server_management.Text.{Text, txt, text_eq, text_eq_iff}
use file_server_management.FilePath.{push_front, walk, step, render, is_abs, split_slash, dir}
use file_server_management.FilePath.Walk.{IsPlain, walk-nil, walk-cons, walk-IsPlain}
use file_server_management.FilePath.Segments.{NoSlash, split_slash-NoSlash}
use file_server_management.FilePath.Parent.{dir-render, dir_of_abs, is_abs-dir-false}
use file_server_management.Auth.Resolver.{parent_paths}

-- The path with the given parts, last part first, and every directory above it.
abbrev pub ancestors : List Text → List Text
ancestors [] = txt "/" ∷ []
ancestors (x ∷ st) = render true (reverse (x ∷ st)) ∷ ancestors st

-- The parts of Dir of a path, last part first.
abbrev pub dir_stack : Text → List Text
dir_stack p = walk true [] (init (split_slash p))

-- What `parentPaths` visits from a path that begins with a slash: the path as it is written, then
-- its directory, cleaned, and every directory above that.
abbrev pub visited : Text → List Text
visited p = if text_eq p (txt "/") then txt "/" ∷ [] else p ∷ ancestors (dir_stack p)

init-NoSlash : (xs : List Text) → All NoSlash xs → All NoSlash (init xs)
init-NoSlash [] _ = tt
init-NoSlash (x ∷ []) _ = tt
init-NoSlash (x ∷ y ∷ ys) (p, h) = (p, init-NoSlash (y ∷ ys) h)

pub dir_stack-IsPlain : (p : Text) → All IsPlain (dir_stack p)
dir_stack-IsPlain p = walk-IsPlain [] _ tt (init-NoSlash _ (split_slash-NoSlash p))

root_test : (bs : List Text) → bs ≢ [] → All IsPlain bs → text_eq (render true bs) (txt "/") ≡ false
unfolding render text_eq
root_test [] h _ = absurd (h refl)
root_test ([] ∷ bs) _ h = absurd (h.0.0 refl)
root_test ((c ∷ b) ∷ bs) _ h = ground arith

root_render : render true [] ≡ txt "/"
unfolding render
root_render = refl

parent_paths-root : (f : ℕ) → parent_paths (suc f) (txt "/") ≡ some (txt "/" ∷ [])
unfolding parent_paths text_eq
parent_paths-root f = refl

parent_paths-step :
    (f : ℕ) (p : Text)
    → text_eq p (txt "/") ≡ false
    → parent_paths (suc f) p ≡ Option.map (λ ps. p ∷ ps) (parent_paths f (dir p))
unfolding parent_paths
parent_paths-step f p h = rw h

reverse-ne-nil : (x : Text) (st : List Text) → reverse st ++ x ∷ [] ≢ []
reverse-ne-nil x st = snoc (reverse st)
  where
    snoc : (ys : List Text) → ys ++ x ∷ [] ≢ []
    snoc [] = ground arith
    snoc (y ∷ ys) = ground arith

pub parent_paths-render :
    (f : ℕ) (st : List Text)
    → length st < f
    → All IsPlain st
    → parent_paths f (render true (reverse st)) ≡ some (ancestors st)
parent_paths-render zero st h _ = elim h [ ]
parent_paths-render (suc f) [] h _ = rw root_render (parent_paths-root f)
parent_paths-render (suc f) (x ∷ st) h (p, k) =
    let plain : All IsPlain (reverse st ++ x ∷ []) =
      rw reverse-cons at (All-reverse IsPlain (x ∷ st) (p, k)) in
    rw (
      reverse-cons x st,
      parent_paths-step f _ (root_test (reverse st ++ x ∷ []) (reverse-ne-nil x st) plain),
      dir-render (reverse st) x plain,
      parent_paths-render f st (omega arith) k,
    )

length-step : (r : Bool) (st : List Text) (x : Text) → length (step r st x) ≤ suc (length st)
unfolding step
length-step true [] x = ground arith
length-step false [] x = ground arith
length-step r (y ∷ st) x = ground arith

length-walk : (r : Bool) (st xs : List Text) → length (walk r st xs) ≤ length st + length xs
length-walk r st [] = rw walk-nil (omega arith)
length-walk r st (x ∷ xs) =
    rw walk-cons (omega (arith, length-walk r (step r st x) xs, length-step r st x))

length-push_front : (c : ℕ) (xs : List Text) → length (push_front c xs) ≤ suc (length xs - 1)
length-push_front c [] = omega arith
length-push_front c (x ∷ xs) = omega arith

length-split_slash : (s : Text) → length (split_slash s) ≤ suc (length s)
unfolding split_slash
length-split_slash [] = omega arith
length-split_slash (c ∷ s) =
    ground (arith, length-split_slash s, length-push_front c (split_slash s))

length-init : (xs : List Text) → length (init xs) ≡ length xs - 1
length-init [] = omega arith
length-init (x ∷ []) = omega arith
length-init (x ∷ y ∷ ys) = omega (arith, length-init (y ∷ ys))

length-dir_stack : (p : Text) → length (dir_stack p) ≤ length p
length-dir_stack p = omega (
  arith,
  length-walk true [] (init (split_slash p)),
  length-init (split_slash p),
  length-split_slash p,
)

-- From a path that begins with a slash the walk ends at the root, within as many rounds as the
-- path has characters and two more.
pub parent_paths-eq-visited :
    (fuel : ℕ) (p : Text)
    → is_abs p ≡ true
    → length p + 1 < fuel
    → parent_paths fuel p ≡ some (visited p)
parent_paths-eq-visited zero p h enough = absurd (omega arith)
parent_paths-eq-visited (suc f) p h enough = elim (Bool-cases (text_eq p (txt "/"))) [
  | inl root ↦ rw (root, (text_eq_iff p (txt "/")).0 root) (parent_paths-root f)
  | inr more ↦ rw (
    more,
    parent_paths-step f p more,
    dir_of_abs p h,
    parent_paths-render f (dir_stack p) (omega (arith, length-dir_stack p)) (dir_stack-IsPlain p),
  )
]

length-ancestors : (st : List Text) → length (ancestors st) ≡ suc (length st)
length-ancestors [] = refl
length-ancestors (x ∷ st) = omega (arith, length-ancestors st)

length-visited : (p : Text) → length (visited p) ≤ length p + 2
length-visited p = elim (Bool-cases (text_eq p (txt "/"))) [
  | inl root ↦ rw root (omega arith)
  | inr more ↦ rw more (omega (arith, length-ancestors (dir_stack p), length-dir_stack p))
]

-- From a path that begins with a slash the walk visits, with enough rounds, at most two paths more
-- than the path has characters: so many lookups are made for one decision.
pub length-parent_paths :
    (fuel : ℕ) (p : Text)
    → is_abs p ≡ true
    → length p + 1 < fuel
    → (paths : List Text) × (parent_paths fuel p ≡ some paths) × (length paths ≤ length p + 2)
length-parent_paths fuel p h enough =
    (visited p, parent_paths-eq-visited fuel p h enough, length-visited p)

not_root : (p : Text) → is_abs p ≡ false → text_eq p (txt "/") ≡ false
unfolding is_abs text_eq
not_root [] h = refl
not_root (c ∷ p) h = ground arith

-- From a path that does not begin with a slash the walk never ends, in however many rounds: "/" is
-- not met.
pub parent_paths_relative : (fuel : ℕ) (p : Text) → is_abs p ≡ false → parent_paths fuel p ≡ none
parent_paths_relative zero p h = unfold parent_paths in refl
parent_paths_relative (suc f) p h =
    rw
      (parent_paths-step f p (not_root p h), parent_paths_relative f (dir p) (is_abs-dir-false p h))
