-- ===== src/Key/Suri/Junctions.antt =====
-- The derivation path: what `parse_junctions` accepts.
use matter_sdk.Common.{
  ◌↔◌, ℕ, zero, suc, ◌≤◌, ◌≡◌, ◌≢◌, refl, ap, subst, sym, ◌∙◌, Bool, true, false, List, [], ◌∷◌,
  ◌++◌, map, Text, length, All, ◌==◌, ==_ne, Result, ok, ◌>>◌, >>=-eq-ok, fail_if, is_empty, arith,
  if◌then◌else◌, length-append,
}
use matter_sdk.Key.Error.{KeyError}
use matter_sdk.Key.Suri.{
  UriParts, slash, bad_path, segment, hard_marker, token, next_token, junctions_loop,
  parse_junctions,
}

-- `[^/]+`.
pub record Code (code : Text) : Type 0 where
  pub filled : is_empty code ≡ false
  pub plain : All (λ c. c ≢ slash) code

-- `(//?[^/]+)*`, with the tokens of the segments.
pub data Segments : Text → List Text → Type 0 where
  done : Segments [] []
  step :
      (hard : Bool) (code rest : Text) (tokens : List Text)
      → Code code
      → Segments rest tokens
      → Segments (slash ∷ (token hard code ++ rest)) (token hard code ∷ tokens)

-- A text at the end, or before a slash.
pub data Ends : Text → Type 0 where
  nothing : Ends []
  slashed : (s : Text) → Ends (slash ∷ s)

pub Segments-Ends : {path : Text} {tokens : List Text} → Segments path tokens → Ends path
Segments-Ends done = nothing
Segments-Ends (step hard code rest tokens c p) = slashed _

segment_end : (rest : Text) → Ends rest → segment rest ≡ ([], rest)
unfolding segment
segment_end _ nothing = refl
segment_end _ (slashed s) = refl

segment-append :
    (code rest : Text)
    → All (λ c. c ≢ slash) code
    → Ends rest
    → segment (code ++ rest) ≡ (code, rest)
unfolding segment
segment-append [] rest _ e = segment_end rest e
segment-append (c ∷ code) rest (h, hs) e = rw (==_ne c slash h, segment-append code rest hs e)

-- A text cut at the end of its first segment.
Cut : Text → Text × Text → Type 0
Cut s cut = (s ≡ cut.0 ++ cut.1) × All (λ c. c ≢ slash) cut.0 × Ends cut.1

cons-Cut :
    (c : ℕ) (s : Text) (rest : Text × Text) (here : Bool)
    → (c == slash) ≡ here
    → Cut s rest
    → Cut (c ∷ s) (if here then ([], c ∷ s) else (c ∷ rest.0, rest.1))
unfolding Cut
cons-Cut c s rest true same (spelled, plain, ends) =
    let at : slash ≡ c = ground arith in (refl, tt, subst (λ d. Ends (d ∷ s)) at (slashed s))
cons-Cut c s rest false same (spelled, plain, ends) =
    let other : c ≢ slash = ground arith in (ap (λ t. c ∷ t) spelled, (other, plain), ends)

segment_sound : (s : Text) → Cut s (segment s)
unfolding segment Cut
segment_sound [] = (refl, tt, nothing)
segment_sound (c ∷ s) = unfold Cut in cons-Cut c s (segment s) (c == slash) refl (segment_sound s)

hard_marker_sound : (s : Text) → s ≡ token (hard_marker s).0 (hard_marker s).1
unfolding hard_marker token
hard_marker_sound [] = refl
hard_marker_sound (c ∷ s) = ground arith

hard_marker-token :
    (hard : Bool) (code rest : Text)
    → Code code
    → hard_marker (token hard code ++ rest) ≡ (hard, code ++ rest)
unfolding hard_marker token
hard_marker-token true code rest c = refl
hard_marker-token false [] rest c = absurd (ground (arith, c.filled))
hard_marker-token false (d ∷ code) rest c = rw (==_ne d slash c.plain.0)

token-append :
    (hard : Bool) (code rest : Text) → token hard (code ++ rest) ≡ token hard code ++ rest
unfolding token
token-append true code rest = refl
token-append false code rest = refl

pub cons_both : {a b : ℕ} {s t : Text} → a ≡ b → s ≡ t → a ∷ s ≡ b ∷ t
cons_both p q = ground (arith, p, q)

-- A turn of the loop accepts a segment, and no less than one.
NextToken : ℕ → Text → Text → Text → Type 0
NextToken c s tok rest =
    (hard : Bool) × (code : Text) × Code code
    × (c ∷ s ≡ slash ∷ (token hard code ++ rest))
    × (tok ≡ token hard code)

turn_sound :
    (c : ℕ) (s : Text) (here hard filled : Bool) (tail code rest' tok rest : Text)
    → (c == slash) ≡ here
    → is_empty code ≡ filled
    → s ≡ token hard tail
    → Cut tail (code, rest')
    → ◌≡◌ {A = Result KeyError (Text × Text)}
        (fail_if (if here then false else true) bad_path
          >> (fail_if filled bad_path >> ok (token hard code, rest')))
        (ok (tok, rest))
    → NextToken c s tok rest
unfolding NextToken Cut
turn_sound c s false hard filled tail code rest' tok rest at f marked cut h = absurd (ground arith)
turn_sound c s true hard true tail code rest' tok rest at f marked cut h = absurd (ground arith)
turn_sound c s true hard false tail code rest' tok rest at f marked (spelled, plain, ends) h =
    let slashed_here : c ≡ slash = ground arith in
    let same_token : token hard code ≡ tok = ground arith in
    let same_rest : rest' ≡ rest = ground arith in
    let whole : s ≡ token hard code ++ rest =
      marked
      ∙ (ap (token hard) spelled
          ∙ (token-append hard code rest' ∙ ap (λ r. token hard code ++ r) same_rest)) in
    (hard, code, record { filled = f; plain = plain }, cons_both slashed_here whole, sym same_token)

next_token_sound :
    (c : ℕ) (s tok rest : Text) → next_token c s ≡ ok (tok, rest) → NextToken c s tok rest
unfolding next_token NextToken
next_token_sound c s tok rest h =
    let marker = hard_marker s in
    let cut = segment marker.1 in
    unfold NextToken in
    turn_sound c s (c == slash) marker.0 (is_empty cut.0) marker.1 cut.0 cut.1 tok rest refl refl
      (hard_marker_sound s) (segment_sound marker.1) h

next_token_complete :
    (hard : Bool) (code rest : Text)
    → Code code
    → Ends rest
    → next_token slash (token hard code ++ rest) ≡ ok (token hard code, rest)
unfolding next_token
next_token_complete hard code rest c e =
    rw (hard_marker-token hard code rest c, segment-append code rest c.plain e, c.filled)

module _ (u : UriParts) where
  loop_complete :
      (fuel : ℕ) {path : Text} {tokens : List Text}
      → Segments path tokens
      → length path ≤ fuel
      → junctions_loop u fuel path ≡ ok (map u.junction_from tokens)
  unfolding junctions_loop
  loop_complete fuel done enough = refl
  loop_complete zero (step hard code rest tokens c p) enough = absurd (omega arith)
  loop_complete (suc fuel) (step hard code rest tokens c p) enough =
      let fewer : length rest ≤ fuel = omega (arith, length-append (token hard code) rest) in
      rw (next_token_complete hard code rest c (Segments-Ends p), loop_complete fuel p fewer)

  -- The tokens of a path.
  Tokens : Text → List u.Junction → Type 0
  Tokens path js = (tokens : List Text) × Segments path tokens × (js ≡ map u.junction_from tokens)

  cons-Tokens :
      (c : ℕ) (s tok rest : Text) {js others : List u.Junction}
      → NextToken c s tok rest
      → Tokens rest others
      → u.junction_from tok ∷ others ≡ js
      → Tokens (c ∷ s) js
  unfolding NextToken Tokens
  cons-Tokens c s tok rest {js} {others} (hard, code, plain, spelled, same) (tokens, p, made) h =
      let all_made : js ≡ map u.junction_from (token hard code ∷ tokens) =
        ground (arith, ap u.junction_from same) in
      (
        token hard code ∷ tokens,
        subst (λ t. Segments t (token hard code ∷ tokens)) (sym spelled)
            (step hard code rest tokens plain p),
        all_made,
      )

  loop_sound :
      (fuel : ℕ) (path : Text) {js : List u.Junction}
      → junctions_loop u fuel path ≡ ok js
      → Tokens path js
  unfolding junctions_loop Tokens
  loop_sound fuel [] h = ([], done, ground arith)
  loop_sound zero (c ∷ s) h = absurd (ground arith)
  loop_sound (suc fuel) (c ∷ s) h =
      let (found, was_found, h₁) = >>=-eq-ok (next_token c s) _ h in
      let (others, later, h₂) = >>=-eq-ok (junctions_loop u fuel found.1) _ h₁ in
      unfold Tokens in
      cons-Tokens c s found.0 found.1 (next_token_sound c s found.0 found.1 was_found)
        (loop_sound fuel found.1 later) (ground arith)

  -- `parse_junctions` accepts exactly the paths of the grammar, and makes a junction of each token.
  pub parse_junctions_iff :
      (path : Text) (js : List u.Junction)
      → (parse_junctions u path ≡ ok js)
        ↔ ((tokens : List Text) × Segments path tokens × (js ≡ map u.junction_from tokens))
  unfolding parse_junctions Tokens
  parse_junctions_iff path js = (
    λ h. loop_sound (length path) path h,
    λ (tokens, p, made). loop_complete (length path) p (omega arith) ∙ ap ok (sym made),
  )
