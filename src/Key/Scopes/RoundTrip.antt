-- ===== src/Key/Scopes/RoundTrip.antt =====
-- The text form of a scope set is read back as the set.
use matter_sdk.Common.{
  ℕ, ◌^◌, ◌<◌, ◌≡◌, refl, sym, ap, subst, ◌∙◌, Bool, true, false, not, ◌&&◌, ◌||◌, List, [], ◌∷◌,
  ◌++◌, Text, codes, arith, ◌==◌, All, any, is_whitespace, to_lower, ok, Bool-cases, inl, inr,
}
use matter_sdk.Common.Bits.{
  bit_at-zero, bit_at-bit_or, bit_at-pow, bit_at-high, below_of_bits, bit_at-le-one,
}
use matter_sdk.Common.Parts.{trim_black}
use matter_sdk.Key.Scopes.{
  Scope, Access, ScopeSet, deployments, read, write, all_scopes, name, empty, contains, with_grant,
  set_is_empty, discriminant, position, bit,
}
use matter_sdk.Key.Scopes.Format.{display, parse, parse_entries}
use matter_sdk.Key.Scopes.Laws.{contains-bit_at, position_lt, position_injective}
use matter_sdk.Key.Scopes.Order.{scope_set_ext}
use matter_sdk.Key.Scopes.Entries.{
  access_text, entry_text, entries, joined, behind, display_loop-joined, parts_behind,
  entries-IsEntry, ends_behind, grant, parse_entry-entry_text, IsEntry, entry_text-IsEntry,
}

-- The set that the entries of `self` add up to.
restore : ScopeSet → List Scope → ScopeSet → ScopeSet
restore self [] set = set
restore self (s ∷ rest) set =
    restore self rest (grant set s (contains self s read) (contains self s write))

grant_none : (set : ScopeSet) (s : Scope) → grant set s false false ≡ set
unfolding grant
grant_none set s = refl

parse_entries-entries :
    (self : ScopeSet) (scopes : List Scope) (set : ScopeSet)
    → parse_entries (entries self scopes) set ≡ ok (restore self scopes set)
unfolding parse_entries entries restore
parse_entries-entries self [] set = refl
parse_entries-entries self (s ∷ rest) set = elim (Bool-cases (contains self s read)) [
  | inl r ↦ elim (Bool-cases (contains self s write)) [
    | inl w ↦
        rw (r, w, parse_entry-entry_text s true true set refl) (parse_entries-entries self rest _)
    | inr w ↦
        rw (r, w, parse_entry-entry_text s true false set refl) (parse_entries-entries self rest _)
  ]
  | inr r ↦ elim (Bool-cases (contains self s write)) [
    | inl w ↦
        rw (r, w, parse_entry-entry_text s false true set refl) (parse_entries-entries self rest _)
    | inr w ↦ rw (r, w, grant_none set s) (parse_entries-entries self rest set)
  ]
]

-- A text that starts neither with white space nor with a bracket is read entry by entry.
read_entries :
    (c : ℕ) (t : Text) (es : List Text)
    → IsEntry (c ∷ t)
    → All IsEntry es
    → is_whitespace c ≡ false
    → (to_lower c == b'(') ≡ false
    → parse ((c ∷ t) ++ behind es) ≡ parse_entries ((c ∷ t) ∷ es) empty
read_entries c t es ie hes black letter =
    unfold parse in
    rw (trim_black c (t ++ behind es) black (ends_behind (c ∷ t) es ie hes), letter)
      (ap (λ parts. parse_entries parts empty) (parts_behind (c ∷ t) es ie hes))

-- The first letter of a scope's name.
name_start :
    (s : Scope) (rest : Text)
    → (c : ℕ) × (t : Text) × (name s ++ rest ≡ c ∷ t)
      × (is_whitespace c ≡ false)
      × ((to_lower c == b'(') ≡ false)
unfolding name is_whitespace
name_start deployments rest = (_, _, refl, refl, refl)
name_start _ rest = (_, _, refl, refl, refl)

read_shown :
    (s : Scope) (r w : Bool) (es : List Text)
    → (r || w) ≡ true
    → All IsEntry es
    → parse (entry_text s r w ++ behind es) ≡ parse_entries (entry_text s r w ∷ es) empty
unfolding entry_text access_text
read_shown s r w es h hes =
    let (c, t, p, black, letter) = name_start s (codes ":" ++ access_text r w) in
    subst (λ e. parse (e ++ behind es) ≡ parse_entries (e ∷ es) empty) (sym p)
      (read_entries c t es (subst IsEntry p (entry_text-IsEntry s r w h)) hes black letter)

read_entries-joined :
    (self : ScopeSet) (scopes : List Scope)
    → parse (joined true (entries self scopes)) ≡ parse_entries (entries self scopes) empty
unfolding joined entries parse parse_entries
read_entries-joined self [] = refl
read_entries-joined self (s ∷ rest) =
    elim (Bool-cases (not (contains self s read) && not (contains self s write))) [
      | inl hidden ↦ rw hidden (read_entries-joined self rest)
      | inr shown ↦
          rw shown (read_shown s _ _ (entries self rest) (ground arith) (entries-IsEntry self rest))
    ]

same_discriminant : (s sc : Scope) → discriminant s ≡ discriminant sc → s ≡ sc
unfolding discriminant
same_discriminant s sc h = ground arith

position_at :
    (s sc : Scope) (ac : Access) → discriminant s ≡ discriminant sc → position sc ac ≡ position s ac
unfolding position
position_at s sc ac h = omega arith

contains-added :
    (set : ScopeSet) (s sc : Scope) (a ac : Access)
    → contains (with_grant set s a) sc ac ≡ (contains set sc ac || (position sc ac == position s a))
unfolding with_grant bit
contains-added set s sc a ac = ground (
  arith,
  contains-bit_at (with_grant set s a) sc ac,
  contains-bit_at set sc ac,
  bit_at-bit_or (position sc ac) set.bits (2 ^ position s a),
  bit_at-pow (position sc ac) (position s a),
  bit_at-le-one (position sc ac) set.bits,
)

contains-grant :
    (self set : ScopeSet) (s sc : Scope) (ac : Access)
    → contains (grant set s (contains self s read) (contains self s write)) sc ac
      ≡ (contains set sc ac || ((discriminant s == discriminant sc) && contains self sc ac))
unfolding grant
contains-grant self set s sc ac = ground (
  arith,
  contains-added set s sc read ac,
  contains-added set s sc write ac,
  contains-added (with_grant set s read) s sc write ac,
  position_injective sc s ac read,
  position_injective sc s ac write,
  same_discriminant s sc,
  position_at s sc ac,
)

contains-restore :
    (self : ScopeSet) (scopes : List Scope) (set : ScopeSet) (sc : Scope) (ac : Access)
    → contains (restore self scopes set) sc ac ≡ (
        contains set sc ac
        || (any (λ s. discriminant s == discriminant sc) scopes && contains self sc ac))
unfolding restore
contains-restore self [] set sc ac = ground arith
contains-restore self (s ∷ rest) set sc ac = ground (
  arith,
  contains-restore self rest (grant set s (contains self s read) (contains self s write)) sc ac,
  contains-grant self set s sc ac,
)

with_grant-lt :
    (set : ScopeSet) (s : Scope) (ac : Access)
    → set.bits < 2 ^ 20
    → (with_grant set s ac).bits < 2 ^ 20
unfolding with_grant bit
with_grant-lt set s ac h = below_of_bits 20 _ λ k g. ground (
  arith,
  bit_at-bit_or k set.bits (2 ^ position s ac),
  bit_at-high 20 k set.bits h g,
  bit_at-pow k (position s ac),
  position_lt s ac,
)

grant-lt :
    (set : ScopeSet) (s : Scope) (r w : Bool) → set.bits < 2 ^ 20 → (grant set s r w).bits < 2 ^ 20
unfolding grant
grant-lt set s r w h = ground (
  arith,
  with_grant-lt set s read h,
  with_grant-lt set s write h,
  with_grant-lt (with_grant set s read) s write,
)

restore-lt :
    (self : ScopeSet) (scopes : List Scope) (set : ScopeSet)
    → set.bits < 2 ^ 20
    → (restore self scopes set).bits < 2 ^ 20
unfolding restore
restore-lt self [] set h = h
restore-lt self (s ∷ rest) set h = restore-lt self rest _ (grant-lt set s _ _ h)

listed : (sc : Scope) → any (λ s. discriminant s == discriminant sc) all_scopes ≡ true
unfolding discriminant
listed deployments = refl
listed _ = refl

contains-empty : (sc : Scope) (ac : Access) → contains empty sc ac ≡ false
unfolding empty
contains-empty sc ac = ground (arith, contains-bit_at empty sc ac, bit_at-zero (position sc ac))

restore-all : (self : ScopeSet) → self.bits < 2 ^ 20 → restore self all_scopes empty ≡ self
restore-all self h =
    scope_set_ext (restore self all_scopes empty) self
      (restore-lt self all_scopes empty (unfold empty in omega arith)) h
      λ sc ac.
        ground
          (arith, contains-restore self all_scopes empty sc ac, listed sc, contains-empty sc ac)

-- Every scope set with defined bits only is read back from its text: for any such set,
-- `display` then `parse` gives the same set.
pub parse-display : (self : ScopeSet) → self.bits < 2 ^ 20 → parse (display self) ≡ ok self
unfolding display
parse-display self h = elim (Bool-cases (set_is_empty self)) [
  | inl none_held ↦ rw none_held (unfold set_is_empty parse empty in ground arith)
  | inr some_held ↦ rw some_held (
      ap parse (display_loop-joined self all_scopes [] true)
      ∙ (read_entries-joined self all_scopes
          ∙ (parse_entries-entries self all_scopes empty ∙ ap ok (restore-all self h))))
]
