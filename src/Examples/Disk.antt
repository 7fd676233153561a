-- ===== src/Examples/Disk.antt =====
-- A disk that is a map from names to contents; its child runs the operations on it.
mod Writes
mod Moves
mod Racing
use file_server_management.Prelude.{
  ◌≡◌, ◌≢◌, refl, Bool, true, false, not, [], ◌∷◌, ◌++◌, Option, none, some, ok, err, sym, ap, ◌∙◌,
  arith, Bool-cases, inl, inr, ◌⊎◌, if◌then◌else◌, All,
}
use file_server_management.Text.{
  Text, txt, text_eq, text_eq_iff, has_prefix, has_suffix, trim_prefix,
}
use file_server_management.FilePath.{dir, render, is_abs, clean, join, rel, split_slash, walk}
use file_server_management.FilePath.Walk.{IsPlain}
use file_server_management.Storage.{full}
use file_server_management.LocalFs.{sanitize_and_join, relative_request, check_inside}
use file_server_management.LocalFs.Sanitize.{HasBase, IsWithin}
use file_server_management.Os.{
  Bytes, Source, Os, os_failed, found, not_exist, copy, copy_and_remove, write_through,
  write_with_mode, move_through, storage_atomic_write, storage_move, atomic_write_file,
  move_uploaded_file,
}
use file_server_management.Os.Steps.{IsOs}
use file_server_management.Os.Writes.{
  storage_atomic_write-ok, storage_atomic_write-err, atomic_write_file-ok, atomic_write_file-err,
}
use file_server_management.Os.Move.{storage_move-ok, move_uploaded_file-err}
use file_server_management.Examples.{base, files}

abbrev pub Files : Type 0
Files = Text → Option Bytes

abbrev pub content : Files → Text → Option Bytes
content w p = w p

abbrev pub put : Text → Option Bytes → Files → Files
put t v w p = if text_eq p t then v else w p

abbrev is_file : Option Bytes → Bool
is_file none = false
is_file (some b) = true

-- The name of the temporary file is always the same, so it is given only if it is free.
abbrev pub temp_name : Text → Text
temp_name d = d ++ txt "/.tmp-1"

abbrev pub new_temp : Text → Option Bytes → Files → Option Text × Files
new_temp t none w = (some t, put t (some []) w)
new_temp t (some b) w = (none, w)

abbrev appended : Text → Bytes → Option Bytes → Files → Bool × Files
appended t b none w = (false, w)
appended t b (some old) w = (true, put t (some (old ++ b)) w)

-- `linked` tells whether a rename works. The name "locked" cannot be created.
abbrev moved : Bool → Text → Text → Option Bytes → Files → Bool × Files
moved linked a b none w = (false, w)
moved false a b (some x) w = (false, w)
moved true a b (some x) w = (true, put b (some x) (put a none w))

abbrev opened : Option Bytes → Option Source
opened none = none
opened (some b) = some (b, true)

abbrev pub disk : Bool → Os Files
disk linked = record {
  mkdir_all = λ d w. (true, w);
  create_temp = λ d w. new_temp (temp_name d) (w (temp_name d)) w;
  write = λ t b w. appended t b (w t) w;
  close = λ t w. (true, w);
  sync = λ t w. w;
  chmod = λ t m w. (true, w);
  mode_of = λ t w. some 420;
  rename = λ a b w. moved linked a b (w a) w;
  open_file = λ p w. opened (w p);
  create = λ t w. (not (text_eq t (txt "/mnt/files/locked")), put t (some []) w);
  remove = λ t w. (is_file (w t), put t none w);
  remove_all = λ t w. (true, put t none w);
  stat = λ p w. elim (w p) [ none ↦ not_exist | some _ ↦ found ];
  read_dir = λ p w. none;
}

pub put-same : (t : Text) (v : Option Bytes) (w : Files) → put t v w t ≡ v
put-same t v w = rw ((text_eq_iff t t).1 refl)

pub put-other : (t : Text) (v : Option Bytes) (w : Files) (p : Text) → p ≢ t → put t v w p ≡ w p
put-other t v w p ne = elim (Bool-cases (text_eq p t)) [
  | inl same ↦ absurd (ne ((text_eq_iff p t).0 same))
  | inr differs ↦ rw differs
]

-- What the calls do, by what the name they are about holds.
temp_fails_at :
    (t : Text) (o : Option Bytes) (w w' : Files)
    → new_temp t o w ≡ (none, w')
    → (p : Text) → w' p ≡ w p
temp_fails_at t none w w' e p = absurd (cc (ap (λ r. r.0) e))
temp_fails_at t (some b) w w' e p = sym (ap (λ r. r.1 p) e)

pub temp_at :
    (t u : Text) (o : Option Bytes) (w w' : Files)
    → new_temp t o w ≡ (some u, w')
    → (t ≡ u) × (o ≡ none) × ((p : Text) → w' p ≡ put t (some []) w p)
temp_at t u none w w' e =
    (ap (λ r. elim r.0 [ none ↦ t | some n ↦ n ]) e, refl, λ p. sym (ap (λ r. r.1 p) e))
temp_at t u (some b) w w' e = absurd (cc (ap (λ r. r.0) e))

appended_at :
    (t : Text) (b : Bytes) (o : Option Bytes) (w w' : Files) (old : Bytes)
    → appended t b o w ≡ (true, w')
    → o ≡ some old
    → w' t ≡ some (old ++ b)
appended_at t b none w w' old e held = absurd (cc (ap (λ r. r.0) e))
appended_at t b (some x) w w' old e held =
    sym (ap (λ r. r.1 t) e)
    ∙ put-same t (some (x ++ b)) w
    ∙ ap (λ o. some (elim o [ none ↦ [] | some y ↦ y ] ++ b)) held

appended-others :
    (t : Text) (b : Bytes) (o : Option Bytes) (w : Files) (p : Text)
    → p ≢ t
    → (appended t b o w).1 p ≡ w p
appended-others t b none w p ne = refl
appended-others t b (some x) w p ne = put-other t (some (x ++ b)) w p ne

moved_at :
    (linked : Bool) (a b : Text) (o : Option Bytes) (w w' : Files) (x : Bytes)
    → moved linked a b o w ≡ (true, w')
    → o ≡ some x
    → (w' b ≡ some x) × (a ≢ b → w' a ≡ none) × ((p : Text) → p ≢ a → p ≢ b → w' p ≡ w p)
moved_at linked a b none w w' x e held = absurd (cc (ap (λ r. r.0) e))
moved_at false a b (some y) w w' x e held = absurd (cc (ap (λ r. r.0) e))
moved_at true a b (some y) w w' x e held = (
  sym (ap (λ r. r.1 b) e) ∙ put-same b (some y) (put a none w) ∙ held,
  λ ne. sym (ap (λ r. r.1 a) e) ∙ put-other b (some y) (put a none w) a ne ∙ put-same a none w,
  λ p at_a at_b.
      sym (ap (λ r. r.1 p) e)
      ∙ put-other b (some y) (put a none w) p at_b
      ∙ put-other a none w p at_a,
)

moved_fails_at :
    (linked : Bool) (a b : Text) (o : Option Bytes) (w w' : Files)
    → moved linked a b o w ≡ (false, w')
    → (p : Text) → w' p ≡ w p
moved_fails_at linked a b none w w' e p = sym (ap (λ r. r.1 p) e)
moved_fails_at false a b (some y) w w' e p = sym (ap (λ r. r.1 p) e)
moved_fails_at true a b (some y) w w' e p = absurd (cc (ap (λ r. r.0) e))

opened_at : (o : Option Bytes) (b : Bytes) → opened o ≡ some (b, true) → o ≡ some b
opened_at none b e = absurd cc
opened_at (some x) b e = ap (λ s. elim s [ none ↦ some x | some r ↦ some r.0 ]) e

absent :
    (t : Text) (o : Option Bytes) (w w' : Files) (p : Text)
    → o ≡ w t
    → ◌≡◌ {A = Bool × Files} (is_file o, put t none w) (false, w')
    → w' p ≡ w p
absent t (some b) w w' p held e = absurd (cc (ap (λ r. r.0) e))
absent t none w w' p held e = elim (Bool-cases (text_eq p t)) [
  | inl same ↦
      let p_eq = (text_eq_iff p t).0 same in
      sym (ap (λ r. r.1 p) e) ∙ ap (put t none w) p_eq ∙ put-same t none w ∙ held ∙ ap w (sym p_eq)
  | inr differs ↦ sym (ap (λ r. r.1 p) e) ∙ rw differs
]

pub disk-IsOs : (linked : Bool) → IsOs (disk linked) content
disk-IsOs linked = record {
  mkdir_keeps = λ d w p. refl;
  temp_fails = λ d w w' e p. temp_fails_at (temp_name d) (w (temp_name d)) w w' e p;
  temp_new = λ d w w' t e.
      let (name, free, all) = temp_at (temp_name d) t (w (temp_name d)) w w' e in
      (
        ap w (sym name) ∙ free,
        all t ∙ ap (put (temp_name d) (some []) w) (sym name) ∙ put-same (temp_name d) (some []) w,
      );
  temp_others = λ d w w' t e p ne.
      let (name, free, all) = temp_at (temp_name d) t (w (temp_name d)) w w' e in
      all p ∙ put-other (temp_name d) (some []) w p (λ q. ne (q ∙ name));
  write_appends = λ t b w w' old e held. appended_at t b (w t) w w' old e held;
  write_others = λ t b w p ne. appended-others t b (w t) w p ne;
  close_keeps = λ t w p. refl;
  sync_keeps = λ t w p. refl;
  chmod_keeps = λ t m w p. refl;
  rename_moves = λ a b w w' x e held. moved_at linked a b (w a) w w' x e held;
  rename_fails = λ a b w w' e p. moved_fails_at linked a b (w a) w w' e p;
  open_reads = λ a w b e. opened_at (w a) b e;
  create_empties = λ t w w' e. sym (ap (λ r. r.1 t) e) ∙ put-same t (some []) w;
  create_others = λ t w p ne. put-other t (some []) w p ne;
  remove_done = λ t w w' e. sym (ap (λ r. r.1 t) e) ∙ put-same t none w;
  remove_fails = λ t w w' e p. absent t (w t) w w' p refl e;
  remove_others = λ t w p ne. put-other t none w p ne;
}
