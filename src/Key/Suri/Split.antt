-- ===== src/Key/Suri/Split.antt =====
-- `split` accepts exactly the secret URIs of the grammar.
use matter_sdk.Common.{
  ℕ, ◌≡◌, ◌≢◌, ◌↔◌, inl, inr, refl, ap, sym, subst, ◌∙◌, true, false, List, [], ◌∷◌, ◌++◌,
  append_assoc, map, Option, Text, codes, length, All, All-weaken, Result, ok, >>=-eq-ok, fail_if,
  arith, if◌then◌else◌,
}
use matter_sdk.Key.Error.{KeyError}
use matter_sdk.Key.Suri.{
  UriParts, Suri, slash, find_text, password_separator, cut_password, cut_path, bad_phrase,
  is_valid_phrase, parse_junctions, from_parts, split,
}
use matter_sdk.Key.Suri.Junctions.{Segments, Segments-Ends, parse_junctions_iff}
use matter_sdk.Key.Suri.Grammar.{
  suffix, later, later-append, Word, Uri, cut_password_sound, find_text_sound, cut_path_sound,
  valid_sound, valid_complete, find_text-Segments, cut_password-suffix, cut_path-Ends,
  find_text-plain,
}

module _ (u : UriParts) where
  parts_sound :
      (cut : Text × Text) (password : Option Text) (head : Text) {uri : Suri u}
      → from_parts u cut password ≡ ok uri
      → head ≡ cut.0 ++ cut.1
      → (tokens : List Text) × Uri u (head ++ suffix password) uri.phrase tokens uri.password
        × (uri.junctions ≡ map u.junction_from tokens)
  unfolding from_parts
  parts_sound (phrase, path) password head {uri} h spelled =
      let (_, valid, h₁) =
        >>=-eq-ok (fail_if (if is_valid_phrase u phrase then false else true) bad_phrase) _ h in
      let (js, parsed, made) = >>=-eq-ok (parse_junctions u path) _ h₁ in
      let (tokens, pathed, spelt) = (parse_junctions_iff u path js).0 parsed in
      let same_phrase : phrase ≡ uri.phrase = ground arith in
      let same_password : password ≡ uri.password = ground arith in
      let same_js : js ≡ uri.junctions = ground arith in
      let worded : All (Word u) phrase = valid_sound u phrase (ground arith) in
      let whole : Uri u (head ++ suffix password) phrase tokens password = record {
        path = path;
        spelled = ap (λ t. t ++ suffix password) spelled;
        worded = worded;
        pathed = pathed;
      } in
      (
        tokens,
        subst (λ x. Uri u (head ++ suffix password) uri.phrase tokens x) same_password
            (subst (λ x. Uri u (head ++ suffix password) x tokens password) same_phrase whole),
        sym same_js ∙ spelt,
      )

  split_sound :
      (input : Text) {uri : Suri u}
      → split u input ≡ ok uri
      → (tokens : List Text) × Uri u input uri.phrase tokens uri.password
        × (uri.junctions ≡ map u.junction_from tokens)
  unfolding split password_separator
  split_sound input {uri} h =
      let outer = cut_password input (find_text password_separator input) in
      let (tokens, whole, spelt) =
        parts_sound (cut_path outer.0 (find_text (slash ∷ []) outer.0)) outer.1 outer.0 h
          (cut_path_sound outer.0 _) in
      let spelled : input ≡ outer.0 ++ suffix outer.1 =
        cut_password_sound input (find_text password_separator input)
          (find_text_sound b'/' (codes "//") input) in
      (tokens, subst (λ t. Uri u t uri.phrase tokens uri.password) (sym spelled) whole, spelt)

  Word-plain : (u.is_alphanumeric slash ≡ false) → (c : ℕ) → Word u c → c ≢ slash
  unfolding Word
  Word-plain no_letter c (inl letter) same = absurd (ground (arith, ap u.is_alphanumeric same))
  Word-plain no_letter c (inr (inl h)) same = absurd (omega arith)
  Word-plain no_letter c (inr (inr h)) same = absurd (omega arith)

  -- The password separator, found behind the path.
  separator_found :
      (phrase path : Text) (tokens : List Text) (password : Option Text)
      → All (λ c. c ≢ slash) phrase
      → Segments path tokens
      → find_text (codes "///") ((phrase ++ path) ++ suffix password)
        ≡ later (length (phrase ++ path)) (find_text (codes "///") (suffix password))
  separator_found phrase path tokens password plain p =
      ap (find_text (codes "///")) (append_assoc phrase path (suffix password))
      ∙ (find_text-plain (codes "//") phrase (path ++ suffix password) plain
          ∙ (ap (later (length phrase)) (find_text-Segments p (suffix password))
              ∙ later-append phrase path (find_text (codes "///") (suffix password))))

  parts_complete :
      (phrase path : Text) (tokens : List Text) (password : Option Text)
      → All (Word u) phrase
      → Segments path tokens
      → from_parts u (phrase, path) password
        ≡ ok (record {
          phrase = phrase;
          junctions = map u.junction_from tokens;
          password = password;
        })
  unfolding from_parts
  parts_complete phrase path tokens password worded p = rw (
    valid_complete u phrase worded,
    (parse_junctions_iff u path (map u.junction_from tokens)).1 (tokens, p, refl),
  )

  pub split_complete :
      (u.is_alphanumeric slash ≡ false)
      → {input phrase : Text} {tokens : List Text} {password : Option Text}
      → Uri u input phrase tokens password
      → split u input
        ≡ ok (record {
          phrase = phrase;
          junctions = map u.junction_from tokens;
          password = password;
        })
  unfolding split password_separator
  split_complete no_letter {input} {phrase} {tokens} {password} uri =
      let plain : All (λ c. c ≢ slash) phrase =
        All-weaken _ _ (Word-plain no_letter) phrase uri.worded in
      let rest : Text × Option Text → Result KeyError (Suri u) =
        λ outer. from_parts u (cut_path outer.0 (find_text (slash ∷ []) outer.0)) outer.1 in
      ap (split u) uri.spelled
      ∙ (ap rest (
            cut_password-suffix (phrase ++ uri.path) password
              (separator_found phrase uri.path tokens password plain uri.pathed))
          ∙ (ap (λ inner. from_parts u inner password)
                (cut_path-Ends phrase uri.path plain (Segments-Ends uri.pathed))
              ∙ parts_complete phrase uri.path tokens password uri.worded uri.pathed))

  -- `split` succeeds exactly on the secret URIs of the grammar: it returns their phrase and
  -- password, and the junctions of their tokens. A slash is assumed not to be alphanumeric.
  pub split_iff :
      (u.is_alphanumeric slash ≡ false)
      → (input : Text) (uri : Suri u)
      → (split u input ≡ ok uri) ↔ (
          (tokens : List Text) × Uri u input uri.phrase tokens uri.password
          × (uri.junctions ≡ map u.junction_from tokens))
  split_iff no_letter input uri = (
    λ h. split_sound input h,
    λ (tokens, whole, made).
        split_complete no_letter whole
        ∙ ap (λ js. ok (record { phrase = uri.phrase; junctions = js; password = uri.password }))
            (sym made),
  )
