-- ===== src/Objects/S3/Escape.antt =====
-- `urlPathEscape` of internal/adapters/storage/s3/s3_storage.go, and the URL encoding that S3 asks
-- for in a copy source.
use file_server_management.Prelude.{
  ℕ, ◌+◌, ◌/◌, ◌%◌, ◌≡◌, refl, Bool, true, false, not, ◌&&◌, ◌||◌, [], ◌∷◌, ◌++◌, sym, ap, ◌∙◌,
  arith, ◌==◌, ==_iff, ltb, leb, any, or_false, inl, inr, Bool-cases, if◌then◌else◌, append_assoc,
}
use file_server_management.Text.{Text, txt, has_prefix, replace_all, replace_from}
use file_server_management.Objects.S3.{url_path_escape}

-- One character of the text, escaped.
abbrev pub escaped : ℕ → Text
escaped c = if c == 32 then txt "%20" else c ∷ []

abbrev pub each_escaped : Text → Text
each_escaped [] = []
each_escaped (c ∷ s) = escaped c ++ each_escaped s

-- The text is escaped character by character.
pub url_path_escape-eq : (s : Text) → url_path_escape s ≡ each_escaped s
unfolding url_path_escape replace_all
url_path_escape-eq s = from_start s
  where
    from_start : (t : Text) → replace_from (txt " ") (txt "%20") 0 t ≡ each_escaped t
    from_start [] = unfold replace_from in refl
    from_start (c ∷ t) = unfold replace_from has_prefix in ground (arith, from_start t)

-- The characters that a URL encoding leaves alone (RFC 3986), with the slash between segments.
abbrev pub is_unreserved : ℕ → Bool
is_unreserved c =
    (leb 97 c && leb c 122)
    || (leb 65 c && leb c 90)
    || (leb 48 c && leb c 57)
    || any (λ x. c == x) (txt "-._~/")

abbrev upper_hex : ℕ → ℕ
upper_hex n = if ltb n 10 then n + 48 else n + 55

-- The URL encoding of an ASCII character.
abbrev pub url_encoded : ℕ → Text
url_encoded c =
    if is_unreserved c then c ∷ [] else 37 ∷ upper_hex (c / 16) ∷ upper_hex (c % 16) ∷ []

abbrev pub url_encode : Text → Text
url_encode [] = []
url_encode (c ∷ s) = url_encoded c ++ url_encode s

abbrev pub needs_more : ℕ → Bool
needs_more c = not (is_unreserved c || c == 32)

-- The text has no characters but unreserved ones, slashes and spaces.
abbrev pub IsPlainKey : Text → Type 0
IsPlainKey s = any needs_more s ≡ false

the_first : (a b : Bool) → not (a || b) ≡ false → b ≡ false → a ≡ true
the_first true b h e = refl
the_first false true h e = absurd (cc e)
the_first false false h e = absurd (cc h)

escaped-encoded : (c : ℕ) → needs_more c ≡ false → escaped c ≡ url_encoded c
unfolding any
escaped-encoded c h = elim (Bool-cases (c == 32)) [
  | inl space ↦ ap escaped ((==_iff c 32).0 space) ∙ ap url_encoded (sym ((==_iff c 32).0 space))
  | inr other ↦ rw (other, the_first (is_unreserved c) (c == 32) h other) refl
]

-- On such a text the code's escaping is the URL encoding.
pub url_path_escape-encode : (s : Text) → IsPlainKey s → url_path_escape s ≡ url_encode s
unfolding any
url_path_escape-encode s h = url_path_escape-eq s ∙ each s h
  where
    each : (t : Text) → IsPlainKey t → each_escaped t ≡ url_encode t
    each [] k = refl
    each (c ∷ t) k =
        let (here, later) = or_false (needs_more c) (any needs_more t) k in
        rw (escaped-encoded c here, each t later) refl

each_escaped-append : (s t : Text) → each_escaped (s ++ t) ≡ each_escaped s ++ each_escaped t
each_escaped-append [] t = refl
each_escaped-append (c ∷ s) t =
    rw (each_escaped-append s t) (sym (append_assoc (escaped c) (each_escaped s) (each_escaped t)))

-- A space and "%20" look the same when they are escaped, so keys that differ in them alone have
-- one copy source.
pub url_path_escape-clash :
    (s t : Text) → url_path_escape (s ++ txt " " ++ t) ≡ url_path_escape (s ++ txt "%20" ++ t)
url_path_escape-clash s t =
    rw (url_path_escape-eq (s ++ txt " " ++ t), url_path_escape-eq (s ++ txt "%20" ++ t))
      (rw (
        each_escaped-append (s ++ txt " ") t,
        each_escaped-append s (txt " "),
        each_escaped-append (s ++ txt "%20") t,
        each_escaped-append s (txt "%20"),
      ))
