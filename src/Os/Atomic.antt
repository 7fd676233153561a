-- ===== src/Os/Atomic.antt =====
-- Writing a file through a temporary one is all or nothing.
use file_server_management.Prelude.{
  ℕ, ◌≡◌, ◌≢◌, refl, Bool, true, false, ◌&&◌, [], Option, none, some, ok, err, sym, ap, ◌∙◌,
  Bool-cases, inl, inr, ◌⊎◌,
}
use file_server_management.Text.{Text, text_eq, text_eq_iff}
use file_server_management.FilePath.{dir}
use file_server_management.Os.{
  Bytes, Os, Outcome, after, with_name, finish, copy, write_through, write_with_mode,
}
use file_server_management.Os.Steps.{IsOs}

module _ {W : Type 0} (content : W → Text → Option Bytes) where
  -- If the write succeeds, the target holds the data and no other name has changed; if it fails,
  -- every file that was there is as it was.
  abbrev pub AllOrNothing : W → Text → Bytes → Outcome W → Type 0
  AllOrNothing w target data_ (ok _, w') =
      (content w' target ≡ some data_) × ((p : Text) → p ≢ target → content w' p ≡ content w p)
  AllOrNothing w target data_ (err _, w') =
      (p : Text) → content w p ≢ none → content w' p ≡ content w p

  module _ (os : Os W) (laws : IsOs os content) (target : Text) (b : Bytes) (w : W) where
    -- The state with a temporary file that is not among the files of `w`.
    pub record IsStaged (t : Text) (v : W) : Type 0 where
      pub is_new : content w t ≡ none
      pub others : (p : Text) → p ≢ t → content v p ≡ content w p

    pub kept_file :
        (t : Text) (v : W)
        → IsStaged t v
        → (p : Text) → content w p ≢ none
        → content v p ≡ content w p
    kept_file t v st p there = st.others p (λ same. there (ap (content w) same ∙ st.is_new))

    renamed :
        (t : Text) (v : W) (r : Bool × W)
        → os.rename t target v ≡ r
        → IsStaged t v
        → content v t ≡ some b
        → AllOrNothing w target b (finish r)
    renamed t v (false, v') e st held =
        λ p there. laws.rename_fails t target v v' e p ∙ kept_file t v st p there
    renamed t v (true, v') e st held =
        let (at_target, gone, rest) = laws.rename_moves t target v v' b e held in
        (
          at_target,
          λ p other. elim (Bool-cases (text_eq p t)) [
            | inl same ↦
                let p_eq = (text_eq_iff p t).0 same in
                ap (content v') p_eq
                ∙ gone (λ q. other (p_eq ∙ q))
                ∙ sym st.is_new
                ∙ ap (content w) (sym p_eq)
            | inr differs ↦
                let ne : p ≢ t = λ q. cc ((text_eq_iff p t).1 q, differs) in
                rest p ne other ∙ st.others p ne
          ],
        )

    pub still-IsStaged :
        (t : Text) (v v' : W)
        → IsStaged t v
        → ((p : Text) → p ≢ t → content v' p ≡ content v p)
        → IsStaged t v'
    still-IsStaged t v v' st same = record {
      is_new = st.is_new;
      others = λ p ne. same p ne ∙ st.others p ne;
    }

    module _ (next : W → Outcome W) where
      pub made :
          (r : Bool × W)
          → os.mkdir_all (dir target) w ≡ r
          → ((v : W) → ((p : Text) → content v p ≡ content w p) → AllOrNothing w target b (next v))
          → AllOrNothing w target b (after r next)
      made (true, v) e go =
          go v (λ p. sym (ap (λ r. content r.1 p) e) ∙ laws.mkdir_keeps (dir target) w p)
      made (false, v) e go =
          λ p _. sym (ap (λ r. content r.1 p) e) ∙ laws.mkdir_keeps (dir target) w p

      pub written :
          (t : Text) (clean : Bool) (v : W) (d : Bool × W)
          → os.write t b v ≡ d
          → IsStaged t v
          → content v t ≡ some []
          → ((v' : W) → IsStaged t v' → content v' t ≡ some b → AllOrNothing w target b (next v'))
          → AllOrNothing w target b (after (d.0 && clean, d.1) next)
      written t clean v d e st empty go =
          let staged : IsStaged t d.1 =
            still-IsStaged t v d.1 st
              (λ p ne. sym (ap (λ r. content r.1 p) e) ∙ laws.write_others t b v p ne) in
          split d clean e staged
        where
          split :
              (d' : Bool × W) (clean' : Bool)
              → os.write t b v ≡ d'
              → IsStaged t d'.1
              → AllOrNothing w target b (after (d'.0 && clean', d'.1) next)
          split (true, v') true e' staged = go v' staged (laws.write_appends t b v v' [] e' empty)
          split (true, v') false e' staged = kept_file t v' staged
          split (false, v') true e' staged = kept_file t v' staged
          split (false, v') false e' staged = kept_file t v' staged

    pub named :
        (next : Text → W → Outcome W) (v : W) (r : Option Text × W)
        → ((p : Text) → content v p ≡ content w p)
        → os.create_temp (dir target) v ≡ r
        → ((t : Text) (v' : W)
            → os.create_temp (dir target) v ≡ (some t, v')
            → IsStaged t v'
            → content v' t ≡ some []
            → AllOrNothing w target b (next t v'))
        → AllOrNothing w target b (with_name r next)
    named next v (none, v') same e go = λ p _. laws.temp_fails (dir target) v v' e p ∙ same p
    named next v (some t, v') same e go =
        let (is_new, is_empty) = laws.temp_new (dir target) v v' t e in
        go t v' e
          (record {
            is_new = sym (same t) ∙ is_new;
            others = λ p ne. laws.temp_others (dir target) v v' t e p ne ∙ same p;
          })
          is_empty

    pub write_through-AllOrNothing :
        (clean : Bool) → AllOrNothing w target b (write_through os target (b, clean) w)
    unfolding write_through copy
    write_through-AllOrNothing clean = made _ (os.mkdir_all (dir target) w) refl (λ v same.
        named _ v (os.create_temp (dir target) v) same refl (λ t v1 _ st empty.
          written _ t clean v1 (os.write t b v1) refl st empty
            (λ v2 st2 held. renamed t v2 (os.rename t target v2) refl st2 held)))

    pub moded :
        (mode : ℕ) (t : Text) (v : W) (r : Bool × W)
        → os.chmod t mode v ≡ r
        → IsStaged t v
        → content v t ≡ some b
        → AllOrNothing w target b (after r (λ v'. finish (os.rename t target v')))
    moded mode t v (done, v') e st held = split done
      where
        same : (p : Text) → content v' p ≡ content v p
        same p = sym (ap (λ r. content r.1 p) e) ∙ laws.chmod_keeps t mode v p

        staged : IsStaged t v'
        staged = still-IsStaged t v v' st (λ p _. same p)

        split :
            (done' : Bool)
            → AllOrNothing w target b (after (done', v') (λ v''. finish (os.rename t target v'')))
        split true = renamed t v' (os.rename t target v') refl staged (same t ∙ held)
        split false = kept_file t v' staged

    pub write_with_mode-AllOrNothing :
        (mode : ℕ) → AllOrNothing w target b (write_with_mode os mode target b w)
    unfolding write_with_mode
    write_with_mode-AllOrNothing mode = made _ (os.mkdir_all (dir target) w) refl (λ v same.
        named _ v (os.create_temp (dir target) v) same refl (λ t v1 _ st empty.
          plain_written _ t v1 (os.write t b v1) refl st empty
            (λ v2 st2 held. moded mode t v2 (os.chmod t mode v2) refl st2 held)))
      where
        plain_written :
            (next : W → Outcome W) (t : Text) (v : W) (d : Bool × W)
            → os.write t b v ≡ d
            → IsStaged t v
            → content v t ≡ some []
            → ((v' : W) → IsStaged t v' → content v' t ≡ some b → AllOrNothing w target b (next v'))
            → AllOrNothing w target b (after d next)
        plain_written next t v (true, v') e st empty go =
            written next t true v (true, v') e st empty go
        plain_written next t v (false, v') e st empty go =
            written next t true v (false, v') e st empty go

  pub same_or_else :
      (w w' : W) (target p : Text)
      → (p ≢ target → content w' p ≡ content w p)
      → (p ≡ target) ⊎ (content w' p ≡ content w p)
  same_or_else w w' target p h = elim (Bool-cases (text_eq p target)) [
    | inl same ↦ inl ((text_eq_iff p target).0 same)
    | inr differs ↦ inr (h (λ q. cc ((text_eq_iff p target).1 q, differs)))
  ]
