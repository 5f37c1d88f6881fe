-- ===== src/Instagram/Similarity.antt =====
-- `name_similarity` of app/services/instagram_cascade_service.py, with what it calls. A score is a
-- number of billionths. Unicode's tables, NFKD and the ratio of `difflib.SequenceMatcher` are
-- parameters.
pub mod Bounds
use cs_server.Prelude.{
  ℕ, ◌*◌, Bool, true, false, not, ◌&&◌, ◌||◌, Option, none, some, List, [], ◌∷◌, ◌++◌, ◌==◌, leb,
  ltb, length, if◌then◌else◌,
}
use cs_server.Python.Json.{codes}
use cs_server.Python.Regex.{Text, Unicode}
use cs_server.Python.Text.{
  is_empty, is_one_of, or_empty, nonempty, contains, replace, filter, strip, split, join,
}

pub record Names : Type 0 where
  pub unicode : Unicode
  pub nfkd : Text → Text
  pub ratio : Text → Text → ℕ

abbrev pub billion : ℕ
billion = 1000000000

abbrev generic_name_words : List Text
generic_name_words =
    codes "restaurante"
    ∷ codes "restaurant"
    ∷ codes "pizzaria"
    ∷ codes "bar"
    ∷ codes "cafe"
    ∷ codes "cafeteria"
    ∷ codes "boteco"
    ∷ codes "botequim"
    ∷ codes "lounge"
    ∷ codes "pub"
    ∷ codes "club"
    ∷ codes "clube"
    ∷ codes "churrascaria"
    ∷ codes "trattoria"
    ∷ codes "bistro"
    ∷ codes "bistr"
    ∷ codes "gastrobar"
    ∷ codes "burguer"
    ∷ codes "burger"
    ∷ codes "lanches"
    ∷ codes "sushi"
    ∷ codes "self"
    ∷ codes "service"
    ∷ codes "oficial"
    ∷ codes "academia"
    ∷ codes "shopping"
    ∷ codes "teatro"
    ∷ codes "recife"
    ∷ codes "boaviagem"
    ∷ codes "riomar"
    ∷ codes "marcozero"
    ∷ codes "gracas"
    ∷ codes "pina"
    ∷ codes "olinda"
    ∷ codes "pernambuco"
    ∷ codes "pe"
    ∷ codes "brasil"
    ∷ codes "brazil"
    ∷ codes "do"
    ∷ codes "da"
    ∷ codes "de"
    ∷ codes "e"
    ∷ codes "o"
    ∷ codes "a"
    ∷ []

abbrev generic_name_phrases : List Text
generic_name_phrases =
    codes "boa viagem"
    ∷ codes "marco zero"
    ∷ codes "rio mar"
    ∷ codes "santo antonio"
    ∷ codes "casa forte"
    ∷ codes "jardim paulista"
    ∷ codes "zona sul"
    ∷ codes "zona norte"
    ∷ []

abbrev min_core_for_containment : ℕ
min_core_for_containment = 5

abbrev is_ascii : ℕ → Bool
is_ascii c = ltb c 128

-- `[a-z0-9]`
abbrev is_plain : ℕ → Bool
is_plain c = leb b'a' c && leb c b'z' || leb b'0' c && leb c b'9'

abbrev pub max : ℕ → ℕ → ℕ
max a b = if ltb a b then b else a

abbrev pub min : ℕ → ℕ → ℕ
min a b = if ltb b a then b else a

-- The first text unless it is empty, then the second one: `a or b`.
abbrev or_else : Text → Text → Text
or_else [] b = b
or_else (c ∷ cs) b = c ∷ cs

module _ (n : Names) where
  open n.unicode use {is_space, lower}

  -- `str.replace` of each character of a class by a blank.
  as_blanks : (ℕ → Bool) → Text → Text
  as_blanks test [] = []
  as_blanks test (c ∷ cs) = (if test c then b' ' else c) ∷ as_blanks test cs

  abbrev words_of : Text → Option Text
  words_of h = nonempty (strip is_space (as_blanks (λ c. c == b'_') (as_blanks (λ c. c == b'.') h)))

  unfoldable pub handle_as_words : Option Text → Option Text
  unfolding as_blanks strip
  handle_as_words none = none
  handle_as_words (some h) = if is_empty h then none else words_of h

  unfoldable pub fold : Option Text → Text
  unfolding filter
  fold none = []
  fold (some t) = if is_empty t then [] else filter is_plain (lower (filter is_ascii (n.nfkd t)))

  drop_phrases : List Text → Text → Text
  drop_phrases [] t = t
  drop_phrases (p ∷ ps) t = drop_phrases ps (replace p (b' ' ∷ []) t)

  abbrev is_separator : ℕ → Bool
  is_separator c = is_space c || c == b'-' || c == b'|' || c == b',' || c == b'/'

  kept_tokens : List Text → List Text
  kept_tokens [] = []
  kept_tokens (t ∷ ts) =
      let folded = fold (some t) in
      let rest = kept_tokens ts in
      if is_empty folded || is_one_of folded generic_name_words then rest else folded ∷ rest

  unfoldable venue_core : Option Text → Text
  unfolding fold drop_phrases kept_tokens replace split join is_one_of
  venue_core name =
      let stripped = drop_phrases generic_name_phrases (lower (or_empty name)) in
      or_else (join (kept_tokens (split is_separator stripped))) (fold name)

  -- Whether one of the two contains the other and covers at least half of it.
  abbrev is_contained : Text → Text → Bool
  is_contained core other =
      let longer = max (length core) (length other) in
      leb min_core_for_containment (length core)
      && (contains core other || contains other core)
      && not (longer == 0)
      && leb longer (2 * min (length core) (length other))

  abbrev plain_ratio : Text → Text → ℕ
  plain_ratio a b = n.ratio (lower (strip is_space a)) (lower (strip is_space b))

  abbrev core_ratio : Text → Text → ℕ
  core_ratio core other = if is_empty core then 0 else n.ratio core other

  abbrev compare_folded : ℕ → Text → Text → Text → ℕ
  compare_folded plain venue other core =
      if is_empty venue || is_empty other
      then plain
      else (if is_contained core other
          then max plain 950000000
          else max (max plain (n.ratio venue other)) (core_ratio core other))

  abbrev compare_names : Text → Text → ℕ
  compare_names venue other =
      if is_empty venue || is_empty other
      then 0
      else compare_folded (plain_ratio venue other) (fold (some venue)) (fold (some other))
          (venue_core (some venue))

  -- `display_name or handle_as_words(handle)`
  abbrev pub shown : Option Text → Option Text → Option Text
  shown none handle = handle_as_words handle
  shown (some d) handle = if is_empty d then handle_as_words handle else some d

  unfoldable pub name_similarity : Option Text → Option Text → Option Text → ℕ
  unfolding handle_as_words fold venue_core contains strip
  name_similarity venue_name display_name handle =
      compare_names (or_empty venue_name) (or_empty (shown display_name handle))
