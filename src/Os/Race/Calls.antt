-- ===== src/Os/Race/Calls.antt =====
-- What the calls of one writer do, by how far it is.
use file_server_management.Prelude.{
  ℕ, ◌≡◌, ◌≢◌, ◌⊎◌, inl, inr, refl, sym, ap, ◌∙◌, Bool, true, false, ◌&&◌, [], Option, none, some,
}
use file_server_management.Text.{Text}
use file_server_management.FilePath.{dir}
use file_server_management.Os.{Bytes, Source, Os, copy}
use file_server_management.Os.Steps.{IsOs}
use file_server_management.Os.Race.{
  Phase, fresh, opened, filled, returned, or_failed, given, ready, advance,
}

module _ {W : Type 0} (os : Os W) (target : ℕ → Text) (source : ℕ → Source)
    (content : W → Text → Option Bytes) where
  -- The path is never that of a temporary file.
  abbrev pub IsLasting : Text → Type 0
  IsLasting p = (d : Text) (w w' : W) (t : Text) → os.create_temp d w ≡ (some t, w') → p ≢ t

  abbrev pub body : ℕ → Bytes
  body i = (source i).0

  -- The temporary file of a writer, and what it holds.
  abbrev pub own : Phase → ℕ → Option (Text × Bytes)
  own fresh i = none
  own (opened t) i = some (t, [])
  own (filled t) i = some (t, body i)
  own (returned done) i = none

  abbrev pub Owns : Phase → ℕ → Text → Bytes → Type 0
  Owns ph i t b = own ph i ≡ some (t, b)

  -- What the calls of the writer `i` do.
  pub record Effect (i : ℕ) (old : Phase) (w : W) (r : Phase × W) : Type 0 where
    pub others :
        (p : Text)
        → ((t : Text) (b : Bytes) → Owns old i t b → p ≢ t)
        → ((t : Text) (b : Bytes) → Owns r.0 i t b → p ≢ t)
        → p ≢ target i
        → content r.1 p ≡ content w p
    pub stored : (t : Text) (b : Bytes) → Owns r.0 i t b → content r.1 t ≡ some b
    pub origin :
        (t : Text) (b : Bytes)
        → Owns r.0 i t b
        → ((c : Bytes) × Owns old i t c)
          ⊎ ((content w t ≡ none) × ((p : Text) → IsLasting p → p ≢ t))
    pub at_target :
        (content r.1 (target i) ≡ content w (target i)) ⊎ (content r.1 (target i) ≡ some (body i))
    pub landed_now :
        r.0 ≡ returned true
        → (content r.1 (target i) ≡ some (body i))
          ⊎ ((old ≡ returned true) × (content r.1 (target i) ≡ content w (target i)))

  -- Calls that change no file, and after which the writer has none of its own.
  idle :
      (i : ℕ) (old : Phase) (w w' : W)
      → ((p : Text) → content w' p ≡ content w p)
      → Effect i old w (returned false, w')
  idle i old w w' same = record {
    others = λ p _ _ _. same p;
    stored = λ t b e. absurd (cc e);
    origin = λ t b e. absurd (cc e);
    at_target = inl (same (target i));
    landed_now = λ e. absurd (cc e);
  }

  own_text :
      {t t' : Text} {b b' : Bytes}
      → ◌≡◌ {A = Option (Text × Bytes)} (some (t, b)) (some (t', b'))
      → t ≡ t'
  own_text {t} e = ap (λ o. elim o [ none ↦ t | some p ↦ p.0 ]) e

  own_bytes :
      {t t' : Text} {b b' : Bytes}
      → ◌≡◌ {A = Option (Text × Bytes)} (some (t, b)) (some (t', b'))
      → b ≡ b'
  own_bytes {b = b} e = ap (λ o. elim o [ none ↦ b | some p ↦ p.1 ]) e

  module _ (laws : IsOs os content) (lasting : (i : ℕ) → IsLasting (target i)) where
    makes :
        (i : ℕ) (w : W) (r : Bool × W)
        → os.mkdir_all (dir (target i)) w ≡ r
        → Effect i fresh w (ready os target source i r)
    makes i w (false, v) made =
        idle i fresh w v (λ p. sym (ap (λ q. content q.1 p) made) ∙ laws.mkdir_keeps _ w p)
    makes i w (true, v) made = by_name (os.create_temp (dir (target i)) v) refl
      where
        kept : (p : Text) → content v p ≡ content w p
        kept p = sym (ap (λ q. content q.1 p) made) ∙ laws.mkdir_keeps (dir (target i)) w p

        by_name :
            (o : Option Text × W)
            → os.create_temp (dir (target i)) v ≡ o
            → Effect i fresh w (given os target source o)
        by_name (none, u) named = idle i fresh w u (λ p. laws.temp_fails _ v u named p ∙ kept p)
        by_name (some t, u) named =
            let (free, empty) = laws.temp_new (dir (target i)) v u t named in
            let far = λ (p : Text) (n : p ≢ t). laws.temp_others _ v u t named p n ∙ kept p in
            record {
              others = λ p _ new _. far p (new t [] refl);
              stored = λ t' b e. ap (content u) (sym (own_text e)) ∙ empty ∙ ap some (own_bytes e);
              origin = λ t' b e. inr (
                ap (content w) (sym (own_text e)) ∙ sym (kept t) ∙ free,
                λ p n same. n (dir (target i)) v u t named (same ∙ sym (own_text e)),
              );
              at_target = inl (far (target i) (lasting i (dir (target i)) v u t named));
              landed_now = λ e. absurd (cc e);
            }

    fills :
        (i : ℕ) (t : Text) (w : W)
        → content w t ≡ some []
        → ((p : Text) → IsLasting p → p ≢ t)
        → Effect i (opened t) w (or_failed os target source (filled t) (copy os t (source i) w))
    unfolding copy
    fills i t w empty aside = by_write (os.write t (body i) w) refl (source i).1
      where
        far :
            (r : Bool × W)
            → os.write t (body i) w ≡ r
            → (p : Text) → p ≢ t
            → content r.1 p ≡ content w p
        far r wrote p n = sym (ap (λ q. content q.1 p) wrote) ∙ laws.write_others t (body i) w p n

        failed :
            (r : Bool × W) → os.write t (body i) w ≡ r → Effect i (opened t) w (returned false, r.1)
        failed r wrote = record {
          others = λ p old _ _. far r wrote p (old t [] refl);
          stored = λ t' b e. absurd (cc e);
          origin = λ t' b e. absurd (cc e);
          at_target = inl (far r wrote (target i) (aside (target i) (lasting i)));
          landed_now = λ e. absurd (cc e);
        }

        by_write :
            (r : Bool × W)
            → os.write t (body i) w ≡ r
            → (clean : Bool)
            → Effect i (opened t) w (or_failed os target source (filled t) (r.0 && clean, r.1))
        by_write (false, v) wrote clean = failed (false, v) wrote
        by_write (true, v) wrote false = failed (true, v) wrote
        by_write (true, v) wrote true = record {
          others = λ p old _ _. far (true, v) wrote p (old t [] refl);
          stored = λ t' b e.
              ap (content v) (sym (own_text e))
              ∙ laws.write_appends t (body i) w v [] wrote empty
              ∙ ap some (own_bytes e);
          origin = λ t' b e. inl ([], ap (λ s. some (s, [])) (own_text e));
          at_target = inl (far (true, v) wrote (target i) (aside (target i) (lasting i)));
          landed_now = λ e. absurd (cc e);
        }

    renames :
        (i : ℕ) (t : Text) (w : W)
        → content w t ≡ some (body i)
        → Effect i
            (filled t)
            w
            (or_failed os target source (returned true) (os.rename t (target i) w))
    renames i t w full = by_rename (os.rename t (target i) w) refl
      where
        by_rename :
            (r : Bool × W)
            → os.rename t (target i) w ≡ r
            → Effect i (filled t) w (or_failed os target source (returned true) r)
        by_rename (false, v) moved =
            idle i (filled t) w v (laws.rename_fails t (target i) w v moved)
        by_rename (true, v) moved =
            let (placed, _, far) = laws.rename_moves t (target i) w v (body i) moved full in
            record {
              others = λ p old _ nt. far p (old t (body i) refl) nt;
              stored = λ t' b e. absurd (cc e);
              origin = λ t' b e. absurd (cc e);
              at_target = inr placed;
              landed_now = λ e. inl placed;
            }

    pub advance-Effect :
        (i : ℕ) (old : Phase) (w : W)
        → ((t : Text) (b : Bytes) → Owns old i t b → content w t ≡ some b)
        → ((t : Text) (b : Bytes) → Owns old i t b → (p : Text) → IsLasting p → p ≢ t)
        → Effect i old w (advance os target source i old w)
    unfolding advance
    advance-Effect i fresh w held aside = makes i w (os.mkdir_all (dir (target i)) w) refl
    advance-Effect i (opened t) w held aside = fills i t w (held t [] refl) (aside t [] refl)
    advance-Effect i (filled t) w held aside = renames i t w (held t (body i) refl)
    advance-Effect i (returned done) w held aside = record {
      others = λ p _ _ _. refl;
      stored = λ t b e. absurd (cc e);
      origin = λ t b e. absurd (cc e);
      at_target = inl refl;
      landed_now = λ e. inr (e, refl);
    }
