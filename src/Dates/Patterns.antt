-- ===== src/Dates/Patterns.antt =====
-- The tables of words and the regular expressions of app/services/event_date_resolver.py.
use cs_server.Prelude.{
  ℕ, String, Bool, ◌||◌, Option, none, some, List, [], ◌∷◌, ◌++◌, ◌==◌, leb, length, if◌then◌else◌,
}
use cs_server.Python.Json.{codes}
use cs_server.Python.Regex.{
  Text, Unicode, Pattern, matched, ◌>>=◌, ◌>>◌, char, either, optional, many, some_of, between,
  word, one_of, boundary, is_digit,
}

-- A table from words to numbers, as a Python dictionary in its order.
abbrev pub Table : Type 0
Table = List (Text × ℕ)

abbrev entry : String → ℕ → Text × ℕ
entry s n = (codes s, n)

-- Monday is 0.
abbrev pub weekdays : Table
weekdays =
    entry "segunda" 0
    ∷ entry "segunda-feira" 0
    ∷ entry "terça" 1
    ∷ entry "terca" 1
    ∷ entry "terça-feira" 1
    ∷ entry "terca-feira" 1
    ∷ entry "quarta" 2
    ∷ entry "quarta-feira" 2
    ∷ entry "quinta" 3
    ∷ entry "quinta-feira" 3
    ∷ entry "sexta" 4
    ∷ entry "sexta-feira" 4
    ∷ entry "sábado" 5
    ∷ entry "sabado" 5
    ∷ entry "domingo" 6
    ∷ []

abbrev pub months : Table
months =
    entry "janeiro" 1
    ∷ entry "jan" 1
    ∷ entry "fevereiro" 2
    ∷ entry "fev" 2
    ∷ entry "março" 3
    ∷ entry "marco" 3
    ∷ entry "mar" 3
    ∷ entry "abril" 4
    ∷ entry "abr" 4
    ∷ entry "maio" 5
    ∷ entry "mai" 5
    ∷ entry "junho" 6
    ∷ entry "jun" 6
    ∷ entry "julho" 7
    ∷ entry "jul" 7
    ∷ entry "agosto" 8
    ∷ entry "ago" 8
    ∷ entry "setembro" 9
    ∷ entry "set" 9
    ∷ entry "outubro" 10
    ∷ entry "out" 10
    ∷ entry "novembro" 11
    ∷ entry "nov" 11
    ∷ entry "dezembro" 12
    ∷ entry "dez" 12
    ∷ []

abbrev pub month_abbreviations : List Text
month_abbreviations =
    codes "jan"
    ∷ codes "fev"
    ∷ codes "mar"
    ∷ codes "abr"
    ∷ codes "mai"
    ∷ codes "jun"
    ∷ codes "jul"
    ∷ codes "ago"
    ∷ codes "set"
    ∷ codes "out"
    ∷ codes "nov"
    ∷ codes "dez"
    ∷ []

abbrev insert_word : Text → List Text → List Text
insert_word w [] = w ∷ []
insert_word w (v ∷ vs) =
    let later = insert_word w vs in if leb (length v) (length w) then w ∷ v ∷ vs else v ∷ later

-- `sorted(table, key=len, reverse=True)`, which keeps the order of words of one length.
abbrev pub longest_first : Table → List Text
longest_first [] = []
longest_first ((w, n) ∷ rest) = insert_word w (longest_first rest)

-- `[/.\-]`
abbrev pub is_separator : ℕ → Bool
is_separator c = c == b'/' || c == b'.' || c == b'-'

abbrev exactly : ℕ → ℕ → Bool
exactly k c = k == c

-- The groups of a numeric date.
pub record Numbers : Type 0 where
  pub day : Text
  pub month : Text
  pub year : Option Text

-- The groups of a date with the name of a month.
pub record Named : Type 0 where
  pub day : Text
  pub month : Text

-- What a token of a time yields: the whole match, the hour, the minute and am or pm.
pub record Token : Type 0 where
  pub whole : Text
  pub hour : Text
  pub minute : Option Text
  pub meridiem : Option Text

abbrev text_or_empty : Option Text → Text
text_or_empty none = []
text_or_empty (some t) = t

module _ (u : Unicode) where
  abbrev pub edge : Pattern (Unit {0})
  edge = boundary u.is_word

  abbrev one_or_two_digits : Pattern Text
  one_or_two_digits = between 1 1 (is_digit u)

  unfoldable pub weekday_pattern : Pattern Text
  unfolding one_of
  weekday_pattern = one_of u.same_letter (longest_first weekdays)

  unfoldable pub recurring_marker : Pattern (Unit {0})
  unfolding one_of word
  recurring_marker = do
    edge
    _ ← one_of u.same_letter (codes "toda" ∷ codes "todo" ∷ [])
    _ ← optional (char (u.same_letter b's'))
    edge

  -- The separator before the year is the one that the year is optional with.
  abbrev year_part : Pattern Text
  year_part = char is_separator >>= λ _. between 2 2 (is_digit u)

  unfoldable pub numeric_date_pattern : Pattern Numbers
  unfolding between
  numeric_date_pattern = do
    edge
    d ← one_or_two_digits
    _ ← char is_separator
    m ← one_or_two_digits
    y ← optional year_part
    edge
    matched (record { day = d; month = m; year = y })

  abbrev pub spaced_separator : Pattern ℕ
  spaced_separator = do _ ← many u.is_space; c ← char is_separator; _ ← many u.is_space; matched c

  abbrev pub spaced_of : Pattern ℕ
  spaced_of = do
    _ ← many u.is_space
    _ ← word u.same_letter (codes "de")
    _ ← many u.is_space
    matched 0

  abbrev pub spaces : Pattern ℕ
  spaces = some_of u.is_space >>= λ _. matched 0

  unfoldable pub textual_date_pattern : Pattern Named
  unfolding between many one_of word
  textual_date_pattern = do
    edge
    d ← one_or_two_digits
    _ ← optional (either spaced_of (either spaced_separator spaces))
    m ← one_of u.same_letter (longest_first months)
    edge
    matched (record { day = d; month = m })

  unfoldable pub reversed_date_pattern : Pattern Named
  unfolding between many one_of
  reversed_date_pattern = do
    edge
    m ← one_of u.same_letter month_abbreviations
    _ ← either spaced_separator spaces
    d ← one_or_two_digits
    edge
    matched (record { day = d; month = m })

  unfoldable pub bare_numeral : Pattern (Unit {0})
  unfolding between
  bare_numeral = do edge; _ ← one_or_two_digits; edge

  -- `:(\d{2})|h(\d{2})?`, as the text matched and the minute.
  abbrev clock : Pattern (Text × Option Text)
  clock =
      either (do c ← char (exactly b':'); m ← between 2 0 (is_digit u); matched (c ∷ m, some m))
        (do
          c ← char (u.same_letter b'h')
          m ← optional (between 2 0 (is_digit u))
          matched (c ∷ text_or_empty m, m))

  abbrev clock_text : Option (Text × Option Text) → Text
  clock_text none = []
  clock_text (some c) = c.0

  abbrev clock_minute : Option (Text × Option Text) → Option Text
  clock_minute none = none
  clock_minute (some c) = c.1

  unfoldable pub time_token : Pattern Token
  unfolding between many one_of
  time_token = do
    h ← one_or_two_digits
    c ← optional clock
    s ← many u.is_space
    m ← optional (one_of u.same_letter (codes "am" ∷ codes "pm" ∷ []))
    matched (record {
      whole = h ++ clock_text c ++ s ++ text_or_empty m;
      hour = h;
      minute = clock_minute c;
      meridiem = m;
    })
