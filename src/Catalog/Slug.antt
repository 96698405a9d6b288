-- ===== src/Catalog/Slug.antt =====
-- `validateSlug` of internal/catalog/service.go.
use Prim.Native.Char.{Char, code}
use incident_garden.Prelude.{
  String, Bool, true, false, ◌&&◌, ◌||◌, not, ◌==◌, leb, if◌then◌else◌, ◌≡◌, refl, ap, ◌∙◌, inl,
  inr, List, [], ◌∷◌, arith, Bool-cases, All,
}
use mathlib.Core.Path.{subst}
use text.Mathlib.TextEquality.{Char-path}
use incident_garden.Errors.{Result, ok, err, invalid_slug}

-- `unicode.IsSpace`
abbrev pub is_space : Char → Bool
is_space c =
    let n = code c in
    leb 9 n && leb n 13
    || n == 32
    || n == 133
    || n == 160
    || n == 5760
    || leb 8192 n && leb n 8202
    || n == 8232
    || n == 8233
    || n == 8239
    || n == 8287
    || n == 12288

abbrev pub is_blank : String → Bool
is_blank String.[] = true
is_blank (String.◌∷◌ c s) = false

unfoldable pub trim_left : String → String
trim_left String.[] = String.[]
trim_left (String.◌∷◌ c s) = if is_space c then trim_left s else String.◌∷◌ c s

unfoldable pub trim_right : String → String
trim_right String.[] = String.[]
trim_right (String.◌∷◌ c s) =
    let rest = trim_right s in if is_space c && is_blank rest then String.[] else String.◌∷◌ c rest

-- `strings.TrimSpace`
unfoldable pub trim_space : String → String
unfolding trim_left trim_right
trim_space s = trim_right (trim_left s)

-- the class `[a-z0-9]`
abbrev pub is_slug_char : Char → Bool
is_slug_char c = leb b'a' (code c) && leb (code c) b'z' || leb b'0' (code c) && leb (code c) b'9'

abbrev pub is_hyphen : Char → Bool
is_hyphen c = code c == b'-'

-- `^[a-z0-9]+(?:-[a-z0-9]+)*$` from within it: whether the character before was one of the class
unfoldable pub match_slug : Bool → String → Bool
match_slug inside String.[] = inside
match_slug inside (String.◌∷◌ c s) =
    (is_slug_char c || inside && is_hyphen c) && match_slug (is_slug_char c) s

-- `validateSlug`
unfoldable pub validate_slug : String → Result (Unit {0})
unfolding trim_space match_slug
validate_slug s =
    let slug = trim_space s in
    if is_blank slug
    then err invalid_slug
    else if not (match_slug false slug)
    then err invalid_slug
    else ok tt

-- A text all of whose characters are of the class.
abbrev pub IsPlain : String → Type 0
IsPlain String.[] = Unit
IsPlain (String.◌∷◌ c s) = (is_slug_char c ≡ true) × IsPlain s

-- The same, and it is not empty.
abbrev pub IsWord : String → Type 0
IsWord w = (is_blank w ≡ false) × IsPlain w

-- The words with a hyphen between each and the next.
abbrev pub hyphenated : String → List String → String
hyphenated String.[] [] = String.[]
hyphenated String.[] (v ∷ vs) = String.◌∷◌ "-" (hyphenated v vs)
hyphenated (String.◌∷◌ c w) vs = String.◌∷◌ c (hyphenated w vs)

-- One word, or more with hyphens between them.
pub record IsSlug (s : String) : Type 0 where
  pub first : String
  pub others : List String
  pub first_word : IsWord first
  pub other_words : All IsWord others
  pub joined : hyphenated first others ≡ s

-- What the matcher accepts from within: the rest of a word, and more words.
record Rest (inside : Bool) (s : String) : Type 0 where
  first : String
  others : List String
  plain : IsPlain first
  other_words : All IsWord others
  starts : (not inside && is_blank first) ≡ false
  joined : hyphenated first others ≡ s

match-Rest : (inside : Bool) (s : String) → match_slug inside s ≡ true → Rest inside s
unfolding match_slug
match-Rest inside String.[] h = record {
  first = String.[];
  others = [];
  plain = tt;
  other_words = tt;
  starts = ground (arith, h);
  joined = refl;
}
match-Rest inside (String.◌∷◌ c s) h = elim (Bool-cases (is_slug_char c)) [
  | inl plain ↦
      let rest = match-Rest true s (ground (arith, plain, h)) in
      record {
        first = String.◌∷◌ c rest.first;
        others = rest.others;
        plain = (plain, rest.plain);
        other_words = rest.other_words;
        starts = ground arith;
        joined = ap (String.◌∷◌ c) rest.joined;
      }
  | inr other ↦
      let rest = match-Rest false s (ground (arith, other, h)) in
      record {
        first = String.[];
        others = rest.first ∷ rest.others;
        plain = tt;
        other_words = ((rest.starts, rest.plain), rest.other_words);
        starts = ground (arith, other, h);
        joined =
            ap (λ d. String.◌∷◌ d (hyphenated rest.first rest.others))
              (Char-path "-" c (ground (arith, other, h)))
            ∙ ap (String.◌∷◌ c) rest.joined;
      }
]

rest-Matches :
    (inside : Bool) (w : String) (vs : List String)
    → IsPlain w
    → All IsWord vs
    → (not inside && is_blank w) ≡ false
    → match_slug inside (hyphenated w vs) ≡ true
unfolding match_slug
rest-Matches inside String.[] [] h k starts = ground (arith, starts)
rest-Matches inside String.[] (v ∷ vs) h ((filled, plain), k) starts =
    ground (arith, starts, rest-Matches false v vs plain k filled)
rest-Matches inside (String.◌∷◌ c w) vs (plain, h) k starts =
    ground (arith, plain, rest-Matches true w vs h k refl)

matched-IsSlug : (s : String) → match_slug false s ≡ true → IsSlug s
matched-IsSlug s h =
    let rest = match-Rest false s h in
    record {
      first = rest.first;
      others = rest.others;
      first_word = (rest.starts, rest.plain);
      other_words = rest.other_words;
      joined = rest.joined;
    }

matched_filled : (s : String) → match_slug false s ≡ true → is_blank s ≡ false
unfolding match_slug
matched_filled String.[] h = cc
matched_filled (String.◌∷◌ c s) h = refl

IsSlug-matched : (s : String) → IsSlug s → (is_blank s ≡ false) × (match_slug false s ≡ true)
IsSlug-matched s h =
    let matches =
      subst (λ t. match_slug false t ≡ true) h.joined
        (rest-Matches false h.first h.others h.first_word.1 h.other_words h.first_word.0) in
    (matched_filled s matches, matches)

-- A slug is accepted exactly where, apart from blanks around it, it is one or more words of lower-case
-- letters and digits, with a single hyphen between each word and the next.
pub validate_slug-IsSlug :
    (s : String)
    → (validate_slug s ≡ ok tt → IsSlug (trim_space s))
      × (IsSlug (trim_space s) → validate_slug s ≡ ok tt)
unfolding validate_slug
validate_slug-IsSlug s = (
  λ h. matched-IsSlug (trim_space s) (ground (arith, h)),
  λ h. let (filled, matches) = IsSlug-matched (trim_space s) h in rw (filled, matches) refl,
)
