-- ===== src/Examples/Disk/Racing.antt =====
-- Two uploads at once to the disk of Examples/Disk.
use file_server_management.Prelude.{
  ℕ, zero, suc, ◌≡◌, ◌⊎◌, refl, true, List, [], ◌∷◌, some, sym, ◌∙◌,
}
use file_server_management.Text.{Text, txt, text_eq}
use file_server_management.FilePath.{dir, clean, join, is_abs, render, split_slash, walk}
use file_server_management.Storage.{full}
use file_server_management.Os.{Source, storage_atomic_write, copy}
use file_server_management.Os.Race.{returned, alone, as_returned, race, step, advance}
use file_server_management.Os.Race.Calls.{IsLasting}
use file_server_management.Os.Race.Safe.{HoldsWrite}
use file_server_management.Os.Race.Writes.{target_of, local_race, local_race-HoldsWrite}
use file_server_management.Examples.Disk.{Files, content, disk, disk-IsOs}
use file_server_management.Examples.Disk.Writes.{stored, root, final, not_temp-IsNoTemp}

-- The first writer writes to one directory, all others to another one.
abbrev paths : ℕ → Text
paths zero = txt "a"
paths (suc i) = txt "d/a"

abbrev sources : ℕ → Source
sources i = (i ∷ i ∷ [], true)

abbrev targets : ℕ → Text
targets i = target_of (disk true) root paths sources content i

targets-final : (i : ℕ) → final (targets i) ≡ 97
unfolding full clean join is_abs render split_slash walk text_eq
targets-final zero = refl
targets-final (suc i) = refl

targets-IsLasting : (i : ℕ) → IsLasting (disk true) targets sources content (targets i)
targets-IsLasting i d w w' t e same =
    (not_temp-IsNoTemp true (targets i) (λ q. cc (q ∙ targets-final i))).apart d w w' t e (sym same)

-- The second writer makes its file between the first one's two last calls.
abbrev order : List ℕ
order = 0 ∷ 0 ∷ 1 ∷ 0 ∷ 1 ∷ []

order_run :
    (local_race (disk true) root paths sources content order stored).disk (txt "/mnt/files/a")
    ≡ some (0 ∷ 0 ∷ [])
unfolding race step advance copy full clean join is_abs render split_slash walk text_eq dir
order_run = refl

local_race-HoldsWrite_example :
    let after = local_race (disk true) root paths sources content order stored in
    ((i : ℕ) (w : Files)
      → alone (disk true) targets sources i w
        ≡ as_returned
            (disk true)
            targets
            sources
            (storage_atomic_write (disk true) root (paths i) (sources i) w))
    × ((p : Text)
        → IsLasting (disk true) targets sources content p
        → (content after.disk p ≡ content stored p)
          ⊎ HoldsWrite (disk true) targets sources content p after.disk)
    × ((i : ℕ)
        → after.phase i ≡ returned true
        → HoldsWrite (disk true) targets sources content (targets i) after.disk)
local_race-HoldsWrite_example =
    local_race-HoldsWrite (disk true) root paths sources content (disk-IsOs true) targets-IsLasting
      stored order
