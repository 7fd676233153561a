-- ===== src/Objects/Race/Safe.antt =====
-- No key of a bucket ever holds anything but whole contents, however the calls of writers
-- interleave.
use file_server_management.Prelude.{
  ℕ, ◌<◌, All, ◌≡◌, ◌≢◌, ◌⊎◌, inl, inr, refl, sym, ap, ◌∙◌, Bool, true, false, List, [], ◌∷◌, some,
  ◌==◌, ==_iff, Bool-cases,
}
use file_server_management.Text.{Text, text_eq, text_eq_iff}
use file_server_management.Os.{Bytes}
use file_server_management.Objects.{Objects}
use file_server_management.Objects.Publish.{IsUpload, IsCopy}
use file_server_management.Objects.Race.{
  Phase, fresh, uploaded, copied, returned, Race, set_phase, Calls, or_failed, advance, step, race,
  start_at, IsWriting, has_copied,
}

module _ {W : Type 0} (content : W → Objects) (calls : Calls W) (tmp final : ℕ → Text)
    (body : ℕ → Bytes) (n : ℕ) where
  -- A key holds what some writer to that key has uploaded, all of it.
  abbrev pub HoldsUpload : Text → W → Type 0
  HoldsUpload p w = (i : ℕ) × (final i ≡ p) × (content w p ≡ some (body i))

  -- What a race never breaks: a writer that is to copy has its upload under its temporary key; a
  -- key that is no temporary one holds what it held, or a whole upload; and the key of a writer
  -- that has copied holds a whole upload.
  pub record IsWhole (before : W) (r : Race W) : Type 0 where
    pub held : (i : ℕ) → i < n → r.phase i ≡ uploaded → content r.bucket (tmp i) ≡ some (body i)
    pub whole :
        (p : Text)
        → ((i : ℕ) → p ≢ tmp i)
        → (content r.bucket p ≡ content before p) ⊎ HoldsUpload p r.bucket
    pub landed : (i : ℕ) → has_copied (r.phase i) ≡ true → HoldsUpload (final i) r.bucket

  -- What a call of the writer `i` does.
  record Effect (i : ℕ) (old : Phase) (w : W) (r : Phase × W) : Type 0 where
    others : (p : Text) → p ≢ tmp i → p ≢ final i → content r.1 p ≡ content w p
    stored : r.0 ≡ uploaded → content r.1 (tmp i) ≡ some (body i)
    at_final :
        (content r.1 (final i) ≡ content w (final i)) ⊎ (content r.1 (final i) ≡ some (body i))
    copied_now :
        has_copied r.0 ≡ true
        → (content r.1 (final i) ≡ some (body i))
          ⊎ ((has_copied old ≡ true) × (content r.1 (final i) ≡ content w (final i)))

  module _ (laws : IsWriting content calls tmp final body n) where
    advance-Effect :
        (i : ℕ) (old : Phase) (w : W)
        → (old ≡ uploaded → content w (tmp i) ≡ some (body i))
        → Effect i old w (advance calls i old w)
    unfolding advance
    advance-Effect i fresh w h = by_upload (calls.upload i w) (laws.uploads i w)
      where
        by_upload :
            (r : Bool × W)
            → IsUpload content (tmp i) (body i) w r
            → Effect i fresh w (or_failed calls uploaded r)
        by_upload (true, v) up = record {
          others = λ p ne nf. up.changes.others p ne;
          stored = λ e. up.stored refl;
          at_final = inl (up.changes.others (final i) (laws.aside i i));
          copied_now = λ e. absurd (cc e);
        }
        by_upload (false, v) up = record {
          others = λ p ne nf. up.changes.others p ne;
          stored = λ e. absurd (cc e);
          at_final = inl (up.changes.others (final i) (laws.aside i i));
          copied_now = λ e. absurd (cc e);
        }
    advance-Effect i uploaded w h = by_copy (calls.copy i w) (laws.copies i w)
      where
        by_copy :
            (r : Bool × W)
            → IsCopy content (tmp i) (final i) w r
            → Effect i uploaded w (or_failed calls copied r)
        by_copy (true, v) cp =
            let placed = cp.copied refl ∙ h refl in
            record {
              others = λ p ne nf. cp.changes.others p nf;
              stored = λ e. absurd (cc e);
              at_final = inr placed;
              copied_now = λ e. inl placed;
            }
        by_copy (false, v) cp = record {
          others = λ p ne nf. cp.changes.others p nf;
          stored = λ e. absurd (cc e);
          at_final = elim (cp.failed refl) [ inl kept ↦ inl kept | inr made ↦ inr (made ∙ h refl) ];
          copied_now = λ e. absurd (cc e);
        }
    advance-Effect i copied w h =
        let rm = (laws.removes i w).changes.others in
        record {
          others = λ p ne nf. rm p ne;
          stored = λ e. absurd (cc e);
          at_final = inl (rm (final i) (laws.aside i i));
          copied_now = λ e. inr (refl, rm (final i) (laws.aside i i));
        }
    advance-Effect i (returned done) w h = record {
      others = λ p ne nf. refl;
      stored = λ e. absurd (cc e);
      at_final = inl refl;
      copied_now = λ e. inr (e, refl);
    }

    module _ (before : W) (r : Race W) (safe : IsWhole before r) (i : ℕ) (writer : i < n)
        (v : Phase) (w : W) (eff : Effect i (r.phase i) r.bucket (v, w)) where
      abbrev after : Race W
      after = record { phase = set_phase r.phase i v; bucket = w }

      -- An upload stays under a key that the call leaves alone, or the call replaces it.
      uploads_stay : (p : Text) → ((j : ℕ) → p ≢ tmp j) → HoldsUpload p r.bucket → HoldsUpload p w
      uploads_stay p visible (j, at_p, holds) = elim (Bool-cases (text_eq (final i) p)) [
        | inr elsewhere ↦ (
          j,
          at_p,
          eff.others p (visible i) (λ s. cc ((text_eq_iff (final i) p).1 (sym s), elsewhere))
              ∙ holds,
        )
        | inl here ↦
            let same = (text_eq_iff (final i) p).0 here in
            elim eff.at_final [
              | inl kept ↦
                  (j, at_p, sym (ap (content w) same) ∙ kept ∙ ap (content r.bucket) same ∙ holds)
              | inr replaced ↦ (i, same, sym (ap (content w) same) ∙ replaced)
            ]
      ]

      after-held : (j : ℕ) → j < n → after.phase j ≡ uploaded → content w (tmp j) ≡ some (body j)
      after-held j jn e = elim (Bool-cases (j == i)) [
        | inl here ↦
            let same = (==_iff j i).0 here in
            ap (λ k. content w (tmp k)) same
            ∙ eff.stored (rw here at e)
            ∙ ap (λ k. some (body k)) (sym same)
        | inr elsewhere ↦
            let apart = laws.apart j i jn writer (λ s. cc ((==_iff j i).1 s, elsewhere)) in
            eff.others (tmp j) apart (λ s. laws.aside i j (sym s))
            ∙ safe.held j jn (rw elsewhere at e)
      ]

      after-whole :
          (p : Text) → ((j : ℕ) → p ≢ tmp j) → (content w p ≡ content before p) ⊎ HoldsUpload p w
      after-whole p visible = elim (safe.whole p visible) [
        | inr upload ↦ inr (uploads_stay p visible upload)
        | inl old ↦ elim (Bool-cases (text_eq (final i) p)) [
          | inr elsewhere ↦ inl (
              eff.others p (visible i) (λ s. cc ((text_eq_iff (final i) p).1 (sym s), elsewhere))
              ∙ old)
          | inl here ↦
              let same = (text_eq_iff (final i) p).0 here in
              elim eff.at_final [
                | inl kept ↦
                    inl (sym (ap (content w) same) ∙ kept ∙ ap (content r.bucket) same ∙ old)
                | inr replaced ↦ inr (i, same, sym (ap (content w) same) ∙ replaced)
              ]
        ]
      ]

      after-landed : (j : ℕ) → has_copied (after.phase j) ≡ true → HoldsUpload (final j) w
      after-landed j e = elim (Bool-cases (j == i)) [
        | inr elsewhere ↦ uploads_stay (final j) (laws.aside j) (safe.landed j (rw elsewhere at e))
        | inl here ↦
            let same = (==_iff j i).0 here in
            elim (eff.copied_now (rw here at e)) [
              | inl placed ↦ (i, ap final (sym same), ap (λ k. content w (final k)) same ∙ placed)
              | inr (earlier, kept) ↦
                  uploads_stay (final j) (laws.aside j)
                    (safe.landed j (ap (λ k. has_copied (r.phase k)) same ∙ earlier))
            ]
      ]

      after-IsWhole : IsWhole before after
      after-IsWhole = record { held = after-held; whole = after-whole; landed = after-landed }

    step-IsWhole :
        (before : W) (r : Race W) (i : ℕ)
        → i < n
        → IsWhole before r
        → IsWhole before (step calls i r)
    unfolding step
    step-IsWhole before r i writer safe =
        let out = advance calls i (r.phase i) r.bucket in
        after-IsWhole before r safe i writer out.0 out.1
          (advance-Effect i (r.phase i) r.bucket (safe.held i writer))

    race_on-IsWhole :
        (before : W) (is : List ℕ) (r : Race W)
        → All (λ i. i < n) is
        → IsWhole before r
        → IsWhole before (race calls is r)
    unfolding race
    race_on-IsWhole before [] r _ safe = safe
    race_on-IsWhole before (i ∷ is) r (writer, more) safe =
        race_on-IsWhole before is (step calls i r) more (step-IsWhole before r i writer safe)

    pub race-IsWhole :
        (before : W) (is : List ℕ)
        → All (λ i. i < n) is
        → IsWhole before (race calls is (start_at calls before))
    race-IsWhole before is writers =
        race_on-IsWhole before is (start_at calls before) writers (record {
          held = λ i writer e. absurd (cc e);
          whole = λ p visible. inl refl;
          landed = λ i e. absurd (cc e);
        })
