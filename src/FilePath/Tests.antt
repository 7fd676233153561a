-- ===== src/FilePath/Tests.antt =====
-- Runs of the path functions on small inputs.
use file_server_management.Prelude.{◌≡◌, refl, some, none, [], ◌∷◌}
use file_server_management.Text.{txt}
use file_server_management.FilePath.{clean, join, dir, rel}

clean_tests :
    (clean (txt "/a/../../b//./c/") ≡ txt "/b/c")
    × (clean (txt "") ≡ txt ".")
    × (clean (txt "a/../..") ≡ txt "..")
    × (clean (txt "../x/../../y") ≡ txt "../../y")
    × (clean (txt "/..") ≡ txt "/")
    × (clean (txt "/") ≡ txt "/")
unfolding clean
clean_tests = (refl, refl, refl, refl, refl, refl)

join_tests :
    (join (txt "" ∷ txt "a" ∷ txt "" ∷ txt "../b" ∷ []) ≡ txt "b")
    × (join (txt "" ∷ txt "" ∷ []) ≡ txt "")
    × (join (txt "/mnt" ∷ txt "x" ∷ []) ≡ txt "/mnt/x")
unfolding join
join_tests = (refl, refl, refl)

dir_tests :
    (dir (txt "/a/b") ≡ txt "/a")
    × (dir (txt "/a") ≡ txt "/")
    × (dir (txt "a") ≡ txt ".")
    × (dir (txt "/a/b/..") ≡ txt "/a/b")
    × (dir (txt "/a/b/") ≡ txt "/a/b")
unfolding dir
dir_tests = (refl, refl, refl, refl, refl)

rel_tests :
    (rel (txt "/a") (txt "/a/b/c") ≡ some (txt "b/c"))
    × (rel (txt "/a/b") (txt "/a/b/") ≡ some (txt "."))
    × (rel (txt "/a/b") (txt "/a/c") ≡ some (txt "../c"))
    × (rel (txt "/a/b/c") (txt "/a") ≡ some (txt "../.."))
    × (rel (txt "/") (txt "/a") ≡ some (txt "a"))
    × (rel (txt "a") (txt "/a") ≡ none)
    × (rel (txt "..") (txt "a") ≡ none)
    × (rel (txt ".") (txt "../b") ≡ some (txt "../b"))
unfolding rel
rel_tests = (refl, refl, refl, refl, refl, refl, refl, refl)
