-- ===== src/Os/Race/Safe.antt =====
-- No file that is no temporary one ever holds anything but whole contents, however the calls of
-- writers to the disk interleave.
use file_server_management.Prelude.{
  ℕ, ◌≡◌, ◌≢◌, ◌⊎◌, inl, inr, sym, ap, ◌∙◌, true, Option, some, ◌==◌, ==_iff, Bool-cases,
}
use file_server_management.Text.{Text, text_eq, text_eq_iff}
use file_server_management.Os.{Bytes, Source, Os}
use file_server_management.Os.Steps.{IsOs}
use file_server_management.Os.Race.{Phase, returned, Race, set_phase}
use file_server_management.Os.Race.Calls.{IsLasting, body, own, Owns, Effect}

module _ {W : Type 0} (os : Os W) (target : ℕ → Text) (source : ℕ → Source)
    (content : W → Text → Option Bytes) where
  -- Some writer to the path has renamed its file to it, and the path holds all of its data.
  abbrev pub HoldsWrite : Text → W → Type 0
  HoldsWrite p w = (i : ℕ) × (target i ≡ p) × (content w p ≡ some (body os target source content i))

  -- What a race never breaks: a temporary file holds what its writer has put there, and is no other
  -- writer's and at no lasting path; a lasting path holds what it held, or all that some writer to
  -- it had to write; and so does the path of a writer that has succeeded.
  pub record IsSafe (before : W) (r : Race W) : Type 0 where
    pub held :
        (i : ℕ) (t : Text) (b : Bytes)
        → Owns os target source content (r.phase i) i t b
        → content r.disk t ≡ some b
    pub apart :
        (i j : ℕ) (t : Text) (b c : Bytes)
        → i ≢ j
        → Owns os target source content (r.phase i) i t b
        → Owns os target source content (r.phase j) j t c
        → ⊥
    pub aside :
        (i : ℕ) (t : Text) (b : Bytes)
        → Owns os target source content (r.phase i) i t b
        → (p : Text) → IsLasting os target source content p
        → p ≢ t
    pub whole :
        (p : Text)
        → IsLasting os target source content p
        → (content r.disk p ≡ content before p) ⊎ HoldsWrite p r.disk
    pub landed : (i : ℕ) → r.phase i ≡ returned true → HoldsWrite (target i) r.disk

  module _ (laws : IsOs os content)
      (lasting : (i : ℕ) → IsLasting os target source content (target i)) (before : W) (r : Race W)
      (safe : IsSafe before r) (i : ℕ) (v : Phase) (w : W)
      (eff : Effect os target source content i (r.phase i) r.disk (v, w)) where
    abbrev after : Race W
    after = record { phase = set_phase r.phase i v; disk = w }

    -- The new temporary file, if there is one, is at no lasting path.
    new_aside :
        (t : Text) (b : Bytes)
        → Owns os target source content v i t b
        → (p : Text) → IsLasting os target source content p
        → p ≢ t
    new_aside t b e p lasts = elim (eff.origin t b e) [
      | inl (c, earlier) ↦ safe.aside i t c earlier p lasts
      | inr (_, new) ↦ new p lasts
    ]

    -- It is no other writer's.
    new_apart :
        (j : ℕ) (t : Text) (b c : Bytes)
        → i ≢ j
        → Owns os target source content v i t b
        → Owns os target source content (r.phase j) j t c
        → ⊥
    new_apart j t b c ne e f = elim (eff.origin t b e) [
      | inl (b', earlier) ↦ safe.apart i j t b' c ne earlier f
      | inr (free, _) ↦ cc (sym free ∙ safe.held j t c f)
    ]

    lasting_kept :
        (p : Text)
        → IsLasting os target source content p
        → p ≢ target i
        → content w p ≡ content r.disk p
    lasting_kept p lasts ne =
        eff.others p (λ t b e. safe.aside i t b e p lasts) (λ t b e. new_aside t b e p lasts) ne

    writes_stay :
        (p : Text) → IsLasting os target source content p → HoldsWrite p r.disk → HoldsWrite p w
    writes_stay p lasts (j, at_p, holds) = elim (Bool-cases (text_eq (target i) p)) [
      | inr elsewhere ↦ (
        j,
        at_p,
        lasting_kept p lasts (λ s. cc ((text_eq_iff (target i) p).1 (sym s), elsewhere)) ∙ holds,
      )
      | inl here ↦
          let same = (text_eq_iff (target i) p).0 here in
          elim eff.at_target [
            | inl kept ↦
                (j, at_p, sym (ap (content w) same) ∙ kept ∙ ap (content r.disk) same ∙ holds)
            | inr replaced ↦ (i, same, sym (ap (content w) same) ∙ replaced)
          ]
    ]

    after-held :
        (j : ℕ) (t : Text) (b : Bytes)
        → Owns os target source content (after.phase j) j t b
        → content w t ≡ some b
    after-held j t b e = elim (Bool-cases (j == i)) [
      | inl here ↦
          let same = (==_iff j i).0 here in
          eff.stored t b (ap (λ k. own os target source content v k) (sym same) ∙ rw here at e)
      | inr elsewhere ↦
          let mine = rw elsewhere at e in
          let ne : i ≢ j = λ s. cc ((==_iff j i).1 (sym s), elsewhere) in
          eff.others t
            (λ t' c f same. safe.apart i j t c b ne (f ∙ ap (λ s. some (s, c)) (sym same)) mine)
            (λ t' c f same. new_apart j t c b ne (f ∙ ap (λ s. some (s, c)) (sym same)) mine)
            (λ same. safe.aside j t b mine (target i) (lasting i) (sym same))
          ∙ safe.held j t b mine
    ]

    after-apart :
        (j k : ℕ) (t : Text) (b c : Bytes)
        → j ≢ k
        → Owns os target source content (after.phase j) j t b
        → Owns os target source content (after.phase k) k t c
        → ⊥
    after-apart j k t b c ne e f = elim (Bool-cases (j == i)) [
      | inl here ↦
          let same = (==_iff j i).0 here in
          let apart : i ≢ k = λ s. ne (same ∙ s) in
          elim (Bool-cases (k == i)) [
            | inl both ↦ absurd (apart (sym ((==_iff k i).0 both)))
            | inr other ↦
                new_apart k t b c apart
                  (ap (λ l. own os target source content v l) (sym same) ∙ rw here at e)
                  (rw other at f)
          ]
      | inr elsewhere ↦ elim (Bool-cases (k == i)) [
        | inl here ↦
            let same = (==_iff k i).0 here in
            new_apart j t c b (λ s. cc ((==_iff j i).1 (sym s), elsewhere))
              (ap (λ l. own os target source content v l) (sym same) ∙ rw here at f)
              (rw elsewhere at e)
        | inr other ↦ safe.apart j k t b c ne (rw elsewhere at e) (rw other at f)
      ]
    ]

    after-aside :
        (j : ℕ) (t : Text) (b : Bytes)
        → Owns os target source content (after.phase j) j t b
        → (p : Text) → IsLasting os target source content p
        → p ≢ t
    after-aside j t b e p lasts = elim (Bool-cases (j == i)) [
      | inl here ↦
          let same = (==_iff j i).0 here in
          new_aside t b (ap (λ l. own os target source content v l) (sym same) ∙ rw here at e) p
            lasts
      | inr elsewhere ↦ safe.aside j t b (rw elsewhere at e) p lasts
    ]

    after-whole :
        (p : Text)
        → IsLasting os target source content p
        → (content w p ≡ content before p) ⊎ HoldsWrite p w
    after-whole p lasts = elim (safe.whole p lasts) [
      | inr write ↦ inr (writes_stay p lasts write)
      | inl old ↦ elim (Bool-cases (text_eq (target i) p)) [
        | inr elsewhere ↦
            inl (
              lasting_kept p lasts (λ s. cc ((text_eq_iff (target i) p).1 (sym s), elsewhere))
              ∙ old)
        | inl here ↦
            let same = (text_eq_iff (target i) p).0 here in
            elim eff.at_target [
              | inl kept ↦ inl (sym (ap (content w) same) ∙ kept ∙ ap (content r.disk) same ∙ old)
              | inr replaced ↦ inr (i, same, sym (ap (content w) same) ∙ replaced)
            ]
      ]
    ]

    after-landed : (j : ℕ) → after.phase j ≡ returned true → HoldsWrite (target j) w
    after-landed j e = elim (Bool-cases (j == i)) [
      | inr elsewhere ↦ writes_stay (target j) (lasting j) (safe.landed j (rw elsewhere at e))
      | inl here ↦
          let same = (==_iff j i).0 here in
          elim (eff.landed_now (rw here at e)) [
            | inl placed ↦ (i, ap target (sym same), ap (λ k. content w (target k)) same ∙ placed)
            | inr (earlier, kept) ↦
                writes_stay (target j) (lasting j)
                  (safe.landed j (ap (λ k. r.phase k) same ∙ earlier))
          ]
    ]

    pub after-IsSafe : IsSafe before after
    after-IsSafe = record {
      held = after-held;
      apart = after-apart;
      aside = after-aside;
      whole = after-whole;
      landed = after-landed;
    }
