-- ===== src/FilePath.antt =====
-- Go's path/filepath on a Unix system, as far as the code calls it: Clean, Join, Dir, IsAbs, Rel.
-- A path is cut at its slashes, and Clean walks over the parts with a stack.
mod Tests
pub mod Segments
pub mod Walk
pub mod Rooted
pub mod Relative
pub mod Parent
use file_server_management.Prelude.{
  ℕ, ◌≡◌, Bool, true, false, ◌&&◌, ◌||◌, List, [], ◌∷◌, ◌++◌, Option, none, some, foldl, reverse,
  replicate, length, ◌==◌, if◌then◌else◌,
}
use mathlib.Core.Option
use file_server_management.Text.{Text, txt, text_eq, has_prefix}

abbrev pub slash : ℕ
slash = b'/'

-- Puts a character in front of the first part.
abbrev pub push_front : ℕ → List Text → List Text
push_front c [] = (c ∷ []) ∷ []
push_front c (x ∷ xs) = (c ∷ x) ∷ xs

-- strings.Split(s, "/")
unfoldable pub split_slash : Text → List Text
split_slash [] = [] ∷ []
split_slash (c ∷ s) =
    let parts = split_slash s in if c == slash then [] ∷ parts else push_front c parts

-- Each part behind a slash.
unfoldable pub slashes : List Text → Text
slashes [] = []
slashes (x ∷ xs) = slash ∷ x ++ slashes xs

-- strings.Join(xs, "/")
unfoldable pub join_slash : List Text → Text
unfolding slashes
join_slash [] = []
join_slash (x ∷ xs) = x ++ slashes xs

abbrev pub dot : Text
dot = txt "."

abbrev pub dotdot : Text
dotdot = txt ".."

-- ".." leaves the last part, if there is one to leave; in front of a relative path it stays, and
-- at the root it is dropped.
abbrev pub go_up : Bool → List Text → List Text
go_up rooted [] = if rooted then [] else dotdot ∷ []
go_up rooted (top ∷ stack) = if text_eq top dotdot then dotdot ∷ top ∷ stack else stack

-- One part of the path; the stack has the last part on top.
unfoldable pub step : Bool → List Text → Text → List Text
unfolding text_eq
step rooted stack part =
    if text_eq part [] || text_eq part dot
    then stack
    else (if text_eq part dotdot then go_up rooted stack else part ∷ stack)

unfoldable pub is_abs : Text → Bool
unfolding has_prefix
is_abs p = has_prefix p (txt "/")

abbrev pub dot_if_empty : Text → Text
dot_if_empty [] = dot
dot_if_empty (c ∷ s) = c ∷ s

unfoldable pub render : Bool → List Text → Text
unfolding slashes join_slash
render true [] = txt "/"
render true (x ∷ xs) = slashes (x ∷ xs)
render false [] = dot
render false (x ∷ xs) = join_slash (x ∷ xs)

-- The stack after all the parts.
unfoldable pub walk : Bool → List Text → List Text → List Text
unfolding step
walk rooted stack parts = foldl (step rooted) stack parts

-- filepath.Clean
unfoldable pub clean : Text → Text
unfolding is_abs walk render split_slash
clean p = render (is_abs p) (reverse (walk (is_abs p) [] (split_slash p)))

-- filepath.Join: empty elements in front are left out.
unfoldable pub join : List Text → Text
unfolding clean join_slash
join [] = []
join ([] ∷ parts) = join parts
join ((c ∷ s) ∷ parts) = clean (join_slash ((c ∷ s) ∷ parts))

-- One more character in front of the part up to the last slash.
abbrev pub keep_front : ℕ → Text → Text
keep_front c [] = if c == slash then c ∷ [] else []
keep_front c (d ∷ s) = c ∷ d ∷ s

-- The path up to its last slash.
unfoldable pub dir_part : Text → Text
dir_part [] = []
dir_part (c ∷ s) = keep_front c (dir_part s)

-- filepath.Dir
unfoldable pub dir : Text → Text
unfolding clean dir_part
dir p = clean (dir_part p)

abbrev pub nonempty : List Text → List Text
nonempty [] = []
nonempty ([] ∷ xs) = nonempty xs
nonempty ((c ∷ x) ∷ xs) = (c ∷ x) ∷ nonempty xs

-- The parts of a cleaned path.
unfoldable pub elements : Text → List Text
unfolding split_slash
elements p = nonempty (split_slash p)

-- The elements of `targ` that are left behind the common ones, with a ".." for each of `base`
-- that is left; none under a ".." of `base` that is left.
unfoldable pub rel_elements : List Text → List Text → Option (List Text)
unfolding text_eq
rel_elements [] ts = some ts
rel_elements (b ∷ bs) [] = some (replicate (length (b ∷ bs)) dotdot)
rel_elements (b ∷ bs) (t ∷ ts) =
    let rest = rel_elements bs ts in
    if text_eq b t
    then rest
    else (if text_eq b dotdot then none else some (replicate (length (b ∷ bs)) dotdot ++ t ∷ ts))

abbrev bool_eq : Bool → Bool → Bool
bool_eq true b = b
bool_eq false true = false
bool_eq false false = true

abbrev empty_if_dot : Text → Text
empty_if_dot p = if text_eq p dot then [] else p

-- filepath.Rel on two cleaned paths.
unfoldable pub rel_clean : Text → Text → Option Text
unfolding text_eq rel_elements elements join_slash is_abs
rel_clean base targ =
    if text_eq base targ
    then some dot
    else (if bool_eq (is_abs (empty_if_dot base)) (is_abs targ)
        then Option.map join_slash (rel_elements (elements (empty_if_dot base)) (elements targ))
        else none)

-- filepath.Rel
unfoldable pub rel : Text → Text → Option Text
unfolding clean rel_clean
rel base targ = rel_clean (clean base) (clean targ)
