-- ===== src/Os/Move.antt =====
-- Moving a file: by a rename, or by a copy and a removal where the rename fails.
use file_server_management.Prelude.{
  ◌≡◌, ◌≢◌, refl, Bool, true, false, ◌&&◌, List, [], Option, none, some, ok, err, sym, ap, ◌∙◌,
  Option-cases, inl, inr,
}
use file_server_management.Text.{Text}
use file_server_management.FilePath.{dir}
use file_server_management.Storage.{full}
use file_server_management.LocalFs.{LocalFs, sanitize_and_join}
use file_server_management.Os.{
  Bytes, Source, Os, Outcome, DiskError, after, finish, copy, or_copy, copy_and_remove,
  move_through, storage_move, move_uploaded_file,
}
use file_server_management.Os.Steps.{IsOs}

module _ {W : Type 0} (content : W → Text → Option Bytes) where
  -- After a success the file is at its new name and not at the old one, and no other name has
  -- changed; after a failure it still is at the old one.
  abbrev pub MovedOrKept : W → Text → Text → Bytes → Outcome W → Type 0
  MovedOrKept w src dst x (ok _, w') =
      (content w' dst ≡ some x)
      × (content w' src ≡ none)
      × ((p : Text) → p ≢ src → p ≢ dst → content w' p ≡ content w p)
  MovedOrKept w src dst x (err _, w') = content w' src ≡ some x

  module _ (os : Os W) (laws : IsOs os content) (src dst : Text) (x : Bytes) (w : W)
      (apart : src ≢ dst) (held : content w src ≡ some x) where
    -- A state in which only the new name has changed.
    record IsUnderway (v : W) : Type 0 where
      others : (p : Text) → p ≢ dst → content v p ≡ content w p

    still : (v : W) → IsUnderway v → content v src ≡ some x
    still v u = u.others src apart ∙ held

    removed :
        (v : W) (r : Bool × W)
        → os.remove src v ≡ r
        → IsUnderway v
        → content v dst ≡ some x
        → MovedOrKept w src dst x (finish r)
    removed v (false, v') e u there = laws.remove_fails src v v' e src ∙ still v u
    removed v (true, v') e u there = (
      sym (ap (λ r. content r.1 dst) e) ∙ laws.remove_others src v dst (λ q. apart (sym q)) ∙ there,
      laws.remove_done src v v' e,
      λ p at_src at_dst.
          sym (ap (λ r. content r.1 p) e) ∙ laws.remove_others src v p at_src ∙ u.others p at_dst,
    )

    copied :
        (b : Bytes) (clean : Bool) (v : W) (d : Bool × W)
        → os.write dst b v ≡ d
        → (clean ≡ true → b ≡ x)
        → IsUnderway v
        → content v dst ≡ some []
        → MovedOrKept w src dst x (after (d.0 && clean, d.1) (λ v'. finish (os.remove src v')))
    copied b clean v (done, v') e read u empty = split done clean e read
      where
        underway : IsUnderway v'
        underway = record {
          others = λ p ne.
              sym (ap (λ r. content r.1 p) e) ∙ laws.write_others dst b v p ne ∙ u.others p ne;
        }

        split :
            (done' clean' : Bool)
            → os.write dst b v ≡ (done', v')
            → (clean' ≡ true → b ≡ x)
            → MovedOrKept w src dst x
                (after (done' && clean', v') (λ v''. finish (os.remove src v'')))
        split true true e' read' =
            removed v' (os.remove src v') refl underway
              (laws.write_appends dst b v v' [] e' empty ∙ ap some (read' refl))
        split true false e' read' = still v' underway
        split false true e' read' = still v' underway
        split false false e' read' = still v' underway

    created :
        (source : Source) (v : W) (r : Bool × W)
        → os.create dst v ≡ r
        → (source.1 ≡ true → source.0 ≡ x)
        → IsUnderway v
        → MovedOrKept w src dst x
            (after r (λ w1. after (copy os dst source w1) (λ w2. finish (os.remove src w2))))
    unfolding copy
    created source v (done, v') e read u = split done e
      where
        underway : IsUnderway v'
        underway = record {
          others = λ p ne.
              sym (ap (λ r. content r.1 p) e) ∙ laws.create_others dst v p ne ∙ u.others p ne;
        }

        split :
            (done' : Bool)
            → os.create dst v ≡ (done', v')
            → MovedOrKept w src dst x (
                after
                  (done', v')
                  (λ w1. after (copy os dst source w1) (λ w2. finish (os.remove src w2))))
        split false e' = still v' underway
        split true e' =
            copied source.0 source.1 v' (os.write dst source.0 v') refl read underway
              (laws.create_empties dst v v' e')

    read_back :
        (v : W) (source : Source)
        → os.open_file src v ≡ some source
        → IsUnderway v
        → source.1 ≡ true
        → source.0 ≡ x
    read_back v (b, clean) e u c =
        let whole : os.open_file src v ≡ some (b, true) = e ∙ ap (λ d. some (b, d)) c in
        some_bytes (sym (laws.open_reads src v b whole) ∙ still v u)
      where
        some_bytes : {y z : Bytes} → ◌≡◌ {A = Option Bytes} (some y) (some z) → y ≡ z
        some_bytes {y} q = ap (elim [ none ↦ y | some t ↦ t ]) q

    fallback : (v : W) → IsUnderway v → MovedOrKept w src dst x (copy_and_remove os src dst v)
    unfolding copy_and_remove
    fallback v u = elim (Option-cases (os.open_file src v)) [
      | inl missing ↦ rw (missing, copy_and_remove) (still v u)
      | inr (source, opened) ↦
          rw (opened, copy_and_remove)
            (created source v (os.create dst v) refl (read_back v source opened u) u)
    ]

    renamed :
        (v : W) (r : Bool × W)
        → os.rename src dst v ≡ r
        → IsUnderway v
        → MovedOrKept w src dst x (or_copy os src dst r)
    renamed v (false, v') e u =
        fallback v' (record { others = λ p ne. laws.rename_fails src dst v v' e p ∙ u.others p ne })
    renamed v (true, v') e u =
        let (there, gone, rest) = laws.rename_moves src dst v v' x e (still v u) in
        (there, gone apart, λ p at_src at_dst. rest p at_src at_dst ∙ u.others p at_dst)

    pub move_through-MovedOrKept : MovedOrKept w src dst x (move_through os src dst w)
    unfolding move_through
    move_through-MovedOrKept = split (os.mkdir_all (dir dst) w) refl
      where
        split :
            (r : Bool × W)
            → os.mkdir_all (dir dst) w ≡ r
            → MovedOrKept w src dst x (after r (λ w1. or_copy os src dst (os.rename src dst w1)))
        split (done, v) e = by_result done
          where
            underway : IsUnderway v
            underway = record {
              others = λ p _. sym (ap (λ r. content r.1 p) e) ∙ laws.mkdir_keeps (dir dst) w p;
            }

            by_result :
                (done' : Bool)
                → MovedOrKept w src dst x
                    (after (done', v) (λ w1. or_copy os src dst (os.rename src dst w1)))
            by_result true = renamed v (os.rename src dst v) refl underway
            by_result false = still v underway

  -- If `Move` of the local backend succeeds on a file and another name, the file is at the new
  -- name and no longer at the old one, whether it was renamed or copied.
  pub storage_move-ok :
      (os : Os W) (base src dst : Text) (x : Bytes) (w w' : W)
      → IsOs os content
      → full base src ≢ full base dst
      → content w (full base src) ≡ some x
      → storage_move os base src dst w ≡ (ok tt, w')
      → (content w' (full base dst) ≡ some x) × (content w' (full base src) ≡ none)
  unfolding storage_move
  storage_move-ok os base src dst x w w' laws apart held e =
      let all =
        rw e at (move_through-MovedOrKept os laws (full base src) (full base dst) x w apart held) in
      (all.0, all.1)

  -- If `MoveUploadedFile` of local.go accepts both paths, which differ, and then fails, the file is
  -- still at its old name, whole.
  pub move_uploaded_file-err :
      (os : Os W) (l : LocalFs) (src dst : List Text) (s d : Text) (x : Bytes) (w w' : W)
      (error : DiskError)
      → IsOs os content
      → sanitize_and_join l src ≡ ok s
      → sanitize_and_join l dst ≡ ok d
      → s ≢ d
      → content w s ≡ some x
      → move_uploaded_file os l src dst w ≡ (err error, w')
      → content w' s ≡ some x
  unfolding move_uploaded_file
  move_uploaded_file-err os l src dst s d x w w' error laws from to apart held e =
      let failed = rw (from, to, move_uploaded_file) at e in
      rw failed at (move_through-MovedOrKept os laws s d x w apart held)
