-- ===== src/Venues/Markers.antt =====
-- app/services/event_caption_matcher.py.
use cs_server.Prelude.{
  ℕ, Bool, true, false, ◌||◌, Option, none, some, List, [], ◌∷◌, ◌++◌, ◌==◌, if◌then◌else◌,
}
use cs_server.Python.Json.{codes}
use cs_server.Python.Regex.{
  Text, Unicode, Pattern, ◌>>◌, char, optional, many, up_to, lazy_up_to, between, word, one_of,
  boundary, search, is_digit,
}
use cs_server.Python.Text.{is_empty, contains}

abbrev months : List Text
months =
    codes "janeiro"
    ∷ codes "fevereiro"
    ∷ codes "março"
    ∷ codes "marco"
    ∷ codes "abril"
    ∷ codes "maio"
    ∷ codes "junho"
    ∷ codes "julho"
    ∷ codes "agosto"
    ∷ codes "setembro"
    ∷ codes "outubro"
    ∷ codes "novembro"
    ∷ codes "dezembro"
    ∷ []

abbrev weekdays : List Text
weekdays =
    codes "segunda"
    ∷ codes "terça"
    ∷ codes "terca"
    ∷ codes "quarta"
    ∷ codes "quinta"
    ∷ codes "sexta"
    ∷ codes "sábado"
    ∷ codes "sabado"
    ∷ codes "domingo"
    ∷ []

abbrev pub ticketing_terms : List Text
ticketing_terms =
    codes "ingressos"
    ∷ codes "ingresso"
    ∷ codes "line-up"
    ∷ codes "lineup"
    ∷ codes "open bar"
    ∷ codes "sympla"
    ∷ codes "shotgun"
    ∷ codes "pré-venda"
    ∷ codes "pre-venda"
    ∷ codes "pista"
    ∷ codes "camarote"
    ∷ []

pub data Marker : Type 0 where
  date weekday_time : Marker
  term : Text → Marker

abbrev is_separator : ℕ → Bool
is_separator c = c == b'/' || c == b'.' || c == b'-'

abbrev is_there : {A : Type 0} → Option A → Bool
is_there none = false
is_there (some a) = true

-- `term in text`, for each of the terms in their order.
unfoldable pub terms_in : Text → List Text → List Marker
unfolding contains
terms_in text [] = []
terms_in text (t ∷ ts) =
    let rest = terms_in text ts in if contains t text then term t ∷ rest else rest

module _ (u : Unicode) where
  abbrev edge : Pattern (Unit {0})
  edge = boundary u.is_word

  -- `\d{1,2}`
  abbrev one_or_two : Pattern Text
  one_or_two = between 1 1 (is_digit u)

  -- `\b\d{1,2}[/.\-]\d{1,2}(?:[/.\-]\d{2,4})?\b`
  unfoldable pub date_numeric : Pattern (Unit {0})
  unfolding between
  date_numeric =
      edge
      >> one_or_two
      >> char is_separator
      >> one_or_two
      >> optional (char is_separator >> between 2 2 (is_digit u))
      >> edge

  -- `\b\d{1,2}\s*(?:de)?\s*(?:janeiro|…)\b`, ignoring case.
  unfoldable pub date_textual : Pattern (Unit {0})
  unfolding between many word one_of
  date_textual =
      edge
      >> one_or_two
      >> many u.is_space
      >> optional (word u.same_letter (codes "de"))
      >> many u.is_space
      >> one_of u.same_letter months
      >> edge

  -- `[\w\-,.!\s]`
  abbrev in_gap : ℕ → Bool
  in_gap c = u.is_word c || c == b'-' || c == b',' || c == b'.' || c == b'!' || u.is_space c

  -- `[:h]`, ignoring case.
  abbrev is_clock : ℕ → Bool
  is_clock c = c == b':' || u.same_letter b'h' c

  -- `\b(?:segunda|…)\b[\w\-,.!\s]{0,40}?\d{1,2}[:h]\d{0,2}\b`, ignoring case.
  unfoldable pub weekday_time_pattern : Pattern (Unit {0})
  unfolding between up_to lazy_up_to one_of
  weekday_time_pattern =
      edge
      >> one_of u.same_letter weekdays
      >> edge
      >> lazy_up_to 40 in_gap
      >> one_or_two
      >> char is_clock
      >> up_to 2 (is_digit u)
      >> edge

  abbrev pub has_date : Text → Bool
  has_date caption =
      is_there (search date_numeric caption) || is_there (search date_textual (u.lower caption))

  abbrev pub has_weekday_time : Text → Bool
  has_weekday_time caption = is_there (search weekday_time_pattern (u.lower caption))

  unfoldable pub markers_of : Text → List Marker
  unfolding date_numeric date_textual weekday_time_pattern terms_in
  markers_of caption =
      (if has_date caption then date ∷ [] else [])
      ++ (if has_weekday_time caption then weekday_time ∷ [] else [])
      ++ terms_in (u.lower caption) ticketing_terms

  unfoldable pub find_event_markers : Option Text → List Marker
  unfolding markers_of
  find_event_markers none = []
  find_event_markers (some caption) = if is_empty caption then [] else markers_of caption

  abbrev is_any : List Marker → Bool
  is_any [] = false
  is_any (m ∷ ms) = true

  unfoldable pub matches_event_marker : Option Text → Bool
  unfolding find_event_markers
  matches_event_marker caption = is_any (find_event_markers caption)
