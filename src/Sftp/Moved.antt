-- ===== src/Sftp/Moved.antt =====
-- `MoveUploadedFile` of internal/filesystem/sftp_client.go: what it leaves on the remote disk.
use file_server_management.Prelude.{
  ◌≡◌, ◌≢◌, refl, Bool, true, false, ◌&&◌, List, [], Option, none, some, sym, ap, ◌∙◌, Option-cases,
  Bool-cases, inl, inr,
}
use file_server_management.Text.{Text, text_eq, text_eq_iff}
use file_server_management.Os.{Bytes, Source}
use file_server_management.Sftp.{
  SftpFs, SftpClient, and_then, remote_join, remote_copy, remote_copy_and_remove, or_remote_copy,
  sftp_move,
}
use file_server_management.Sftp.NewFile.{IsSftp, by_result, by_step}

-- What the calls of a move do besides: a file is read as it is, where the reader ends without an
-- error; a rename takes the old name away; a removal takes one file away, if it succeeds.
pub record IsSftpMove {W : Type 0} (client : SftpClient W) (content : W → Text → Option Bytes)
    : Type 0 where
  pub reads :
      (a : Text) (w : W) (src : Source)
      → client.open_file a w ≡ some src
      → src.1 ≡ true
      → content w a ≡ some src.0
  pub rename_takes :
      (a b : Text) (w : W)
      → a ≢ b
      → (client.rename a b w).0 ≡ true
      → content (client.rename a b w).1 a ≡ none
  pub removes :
      (a : Text) (w : W) → (client.remove a w).0 ≡ true → content (client.remove a w).1 a ≡ none
  pub remove_others :
      (a : Text) (w : W) (p : Text) → p ≢ a → content (client.remove a w).1 p ≡ content w p
  pub remove_fails :
      (a : Text) (w : W)
      → (client.remove a w).0 ≡ false
      → content (client.remove a w).1 a ≡ content w a

module _ {W : Type 0} (client : SftpClient W) (content : W → Text → Option Bytes) where
  -- A move that succeeds has put the file under its new name, has taken the old one away and has
  -- changed no other file; one that fails has changed no file but the one under the new name.
  abbrev pub MovedOrKept : (src dst : Text) → Bytes → W → Bool × W → Type 0
  MovedOrKept src dst x w (true, w') =
      (content w' dst ≡ some x)
      × (content w' src ≡ none)
      × ((p : Text) → p ≢ src → p ≢ dst → content w' p ≡ content w p)
  MovedOrKept src dst x w (false, w') = (p : Text) → p ≢ dst → content w' p ≡ content w p

  module _ (laws : IsSftp client content) (more : IsSftpMove client content) (src dst : Text)
      (x : Bytes) (apart : src ≢ dst) (w : W) (here : content w src ≡ some x) where
    abbrev Outcome : Bool × W → Type 0
    Outcome = MovedOrKept src dst x w

    -- The state where nothing but the file under the new name differs.
    abbrev Kept : W → Type 0
    Kept v = (p : Text) → p ≢ dst → content v p ≡ content w p

    removed : (v : W) → Kept v → content v dst ≡ some x → Outcome (client.remove src v)
    removed v kept placed =
        by_result Outcome (client.remove src v)
          (λ done. (
            more.remove_others src v dst (λ e. apart (sym e)) ∙ placed,
            more.removes src v done,
            λ p n m. more.remove_others src v p n ∙ kept p m,
          ))
          (λ failed p n. still p n failed)
      where
        still :
            (p : Text)
            → p ≢ dst
            → (client.remove src v).0 ≡ false
            → content (client.remove src v).1 p ≡ content w p
        still p n failed = elim (Bool-cases (text_eq p src)) [
          | inl same ↦
              let is_src = (text_eq_iff p src).0 same in
              ap (content (client.remove src v).1) is_src
              ∙ more.remove_fails src v failed
              ∙ ap (content v) (sym is_src)
              ∙ kept p n
          | inr other ↦
              more.remove_others src v p (λ e. cc ((text_eq_iff p src).1 e, other)) ∙ kept p n
        ]

    copied :
        (v : W) (from : Source)
        → Kept v
        → client.open_file src v ≡ some from
        → Outcome (
            and_then
              (client.open_empty dst v)
              (λ w1. and_then (remote_copy client dst from w1) (λ w2. client.remove src w2)))
    unfolding remote_copy
    copied v (b, clean) kept opened =
        let w1 = (client.open_empty dst v).1 in
        let kept1 = λ (p : Text) (n : p ≢ dst). laws.open_others dst v p n ∙ kept p n in
        let kept2 = λ (p : Text) (n : p ≢ dst). laws.write_others dst b w1 p n ∙ kept1 p n in
        by_step Outcome (client.open_empty dst v) _ kept1 (λ emptied.
          by_step Outcome (remote_copy client dst (b, clean) w1) _ kept2 (λ written.
            let (all, ended) = both_of (client.write dst b w1).0 clean written in
            removed (client.write dst b w1).1 kept2 (
              laws.write_appends dst b w1 [] all (laws.open_empties dst v emptied)
              ∙ sym (more.reads src v (b, clean) opened ended)
              ∙ kept src apart
              ∙ here)))
      where
        both_of : (a c : Bool) → (a && c) ≡ true → (a ≡ true) × (c ≡ true)
        both_of true c e = (refl, e)
        both_of false c e = absurd (cc e)

    fallback : (v : W) → Kept v → Outcome (remote_copy_and_remove client src dst v)
    unfolding remote_copy_and_remove
    fallback v kept = elim (Option-cases (client.open_file src v)) [
      | inl missing ↦ rw (missing, remote_copy_and_remove) kept
      | inr (from, opened) ↦ rw (opened, remote_copy_and_remove) (copied v from kept opened)
    ]

    renamed_or_copied : Outcome (or_remote_copy client src dst (client.rename src dst w))
    renamed_or_copied =
        by_result (λ r. Outcome (or_remote_copy client src dst r)) (client.rename src dst w)
          (λ done.
            let (free, at_dst, others) = laws.rename_moves src dst w x done here in
            (at_dst, more.rename_takes src dst w apart done, others))
          (λ failed.
            fallback (client.rename src dst w).1 (λ p n. laws.rename_fails src dst w failed p))

  -- If a file is moved to another path: a move that succeeds leaves its content under the new path
  -- and nothing under the old one, whether it was renamed or copied, and changes no other file; a
  -- move that fails, at whichever call, changes no file but the one under the new path, so that the
  -- old path still holds the content.
  pub sftp_move-MovedOrKept :
      (laws : IsSftp client content) (more : IsSftpMove client content) (s : SftpFs)
      (src dst : List Text) (x : Bytes) (w : W)
      → remote_join s src ≢ remote_join s dst
      → content w (remote_join s src) ≡ some x
      → MovedOrKept (remote_join s src) (remote_join s dst) x w (sftp_move client s src dst w)
  unfolding sftp_move
  sftp_move-MovedOrKept laws more s src dst x w apart here =
      renamed_or_copied laws more (remote_join s src) (remote_join s dst) x apart w here
