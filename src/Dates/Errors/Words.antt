-- ===== src/Dates/Errors/Words.antt =====
-- The words that the patterns find in a plain text are keys of the tables.
use cs_server.Prelude.{ℕ, ◌≡◌, refl, Bool, true, false, ◌&&◌, List, [], ◌∷◌, arith}
use cs_server.Python.Except.{Result, ok, raised}
use cs_server.Python.Regex.{
  Text, Pattern, ◌>>=◌, matched, many, char, word, either, optional, Unicode, search, is_digit,
}
use cs_server.Python.Json.{codes}
use cs_server.Python.Regex.Plain.{
  Plain, Keeps, EachWord, EachWord-both, boundary-Keeps, between-Keeps, char-Keeps, many-Keeps,
  either-Keeps, optional-Keeps, >>=-Keeps, matched-Keeps, word-Keeps,
}
use cs_server.Python.Regex.Found.{
  Found, search-Found, >>=-Gives, one_of-Gives, one_of-Gives_word, matched-Gives,
}
use cs_server.Dates.Patterns.{
  spaced_of, spaced_separator, spaces, is_separator, Table, Named, weekdays, months,
  month_abbreviations, longest_first, weekday_pattern, textual_date_pattern, reversed_date_pattern,
}
use cs_server.Dates.Resolve.{entry_of}

-- A word of the table.
abbrev IsKey : Table → Text → Type 0
IsKey table w = (n : ℕ) × (entry_of table w ≡ ok n)

abbrev known : Result ℕ → Bool
known (ok n) = true
known (raised e) = false

abbrev all_known : Table → List Text → Bool
all_known table [] = true
all_known table (w ∷ ws) = known (entry_of table w) && all_known table ws

known-IsKey : (r : Result ℕ) → known r ≡ true → (n : ℕ) × (r ≡ ok n)
known-IsKey (ok n) h = (n, refl)
known-IsKey (raised e) h = absurd (cc)

EachWord-known :
    (table : Table) (ws : List Text) → all_known table ws ≡ true → EachWord (IsKey table) ws
EachWord-known table [] h = tt
EachWord-known table (w ∷ ws) h =
    (known-IsKey _ (ground arith), EachWord-known table ws (ground arith))

weekdays-IsKey : EachWord (IsKey weekdays) (longest_first weekdays)
unfolding entry_of
weekdays-IsKey = EachWord-known weekdays (longest_first weekdays) refl

months-IsKey : EachWord (IsKey months) (longest_first months)
unfolding entry_of
months-IsKey = EachWord-known months (longest_first months) refl

abbreviations-IsKey : EachWord (IsKey months) month_abbreviations
unfolding entry_of
abbreviations-IsKey = EachWord-known months month_abbreviations refl

-- `str.lower` leaves the words of the patterns as they are: they are written in small letters.
pub record LowersWords (u : Unicode) : Type 0 where
  pub weekdays_stay : EachWord (λ w. u.lower w ≡ w) (longest_first weekdays)
  pub months_stay : EachWord (λ w. u.lower w ≡ w) (longest_first months)
  pub abbreviations_stay : EachWord (λ w. u.lower w ≡ w) month_abbreviations

-- A word whose small letters are a key of the table.
abbrev pub HasKey : Unicode → Table → Text → Type 0
HasKey u table w = IsKey table w × (u.lower w ≡ w)

abbrev pub HasMonth : Unicode → Named → Type 0
HasMonth u g = HasKey u months g.month

abbrev pub IsPlain : Unicode → Text → Type 0
IsPlain u = Plain u.same_letter

module _ (u : Unicode) (law : LowersWords u) where
  weekdays_known : EachWord (HasKey u weekdays) (longest_first weekdays)
  weekdays_known =
      EachWord-both (IsKey weekdays) (λ w. u.lower w ≡ w) (longest_first weekdays) weekdays-IsKey
        law.weekdays_stay

  months_known : EachWord (HasKey u months) (longest_first months)
  months_known =
      EachWord-both (IsKey months) (λ w. u.lower w ≡ w) (longest_first months) months-IsKey
        law.months_stay

  abbreviations_known : EachWord (HasKey u months) month_abbreviations
  abbreviations_known =
      EachWord-both (IsKey months) (λ w. u.lower w ≡ w) month_abbreviations abbreviations-IsKey
        law.abbreviations_stay

  spaces_around :
      {A B : Type 0} (m : Pattern A) (b : A → B)
      → Keeps u.same_letter m
      → Keeps u.same_letter
          (many u.is_space >>= λ _. m >>= λ a. many u.is_space >>= λ _. matched (b a))
  spaces_around m b h = >>=-Keeps u.same_letter _ _ (many-Keeps u.same_letter u.is_space) λ _.
      >>=-Keeps u.same_letter _ _ h λ a.
        >>=-Keeps u.same_letter _ _ (many-Keeps u.same_letter u.is_space)
          λ _. matched-Keeps u.same_letter (b a)

  separator-Keeps : Keeps u.same_letter (spaced_separator u)
  separator-Keeps =
      spaces_around (char is_separator) (λ c. c) (char-Keeps u.same_letter is_separator)

  spaces-Keeps : Keeps u.same_letter (spaces u)
  spaces-Keeps =
      >>=-Keeps u.same_letter _ _
        (>>=-Keeps u.same_letter _ _ (char-Keeps u.same_letter u.is_space) λ c.
          >>=-Keeps u.same_letter _ _ (many-Keeps u.same_letter u.is_space)
            λ t. matched-Keeps u.same_letter (c ∷ t))
        (λ _. matched-Keeps u.same_letter 0)

  gap-Keeps :
      Keeps u.same_letter (optional (either (spaced_of u) (either (spaced_separator u) (spaces u))))
  gap-Keeps = optional-Keeps u.same_letter _ (
      either-Keeps u.same_letter _ _
        (spaces_around (word u.same_letter (codes "de")) (λ _. 0)
          (word-Keeps u.same_letter (codes "de")))
        (either-Keeps u.same_letter _ _ separator-Keeps spaces-Keeps))

  pub weekday-HasKey :
      (text : Text) → IsPlain u text → Found (HasKey u weekdays) (search (weekday_pattern u) text)
  unfolding weekday_pattern
  weekday-HasKey =
      search-Found u.same_letter _ (weekday_pattern u) (
        one_of-Gives_word u.same_letter (HasKey u weekdays) (longest_first weekdays) weekdays_known)

  pub textual-HasMonth :
      (text : Text) → IsPlain u text → Found (HasMonth u) (search (textual_date_pattern u) text)
  unfolding textual_date_pattern
  textual-HasMonth = search-Found u.same_letter (HasMonth u) (textual_date_pattern u) (
      >>=-Gives u.same_letter (HasMonth u) _ _ (boundary-Keeps u.same_letter u.is_word) λ _.
        >>=-Gives u.same_letter (HasMonth u) _ _ (between-Keeps u.same_letter 1 1 (is_digit u)) λ d.
          >>=-Gives u.same_letter (HasMonth u) _ _ gap-Keeps λ _.
            one_of-Gives u.same_letter (HasKey u months) (HasMonth u) (longest_first months) _
              months_known
              λ m key.
                >>=-Gives u.same_letter (HasMonth u) _ _ (boundary-Keeps u.same_letter u.is_word)
                  λ _. matched-Gives u.same_letter (HasMonth u) (record { day = d; month = m }) key)

  pub reversed-HasMonth :
      (text : Text) → IsPlain u text → Found (HasMonth u) (search (reversed_date_pattern u) text)
  unfolding reversed_date_pattern
  reversed-HasMonth = search-Found u.same_letter (HasMonth u) (reversed_date_pattern u) (
      >>=-Gives u.same_letter (HasMonth u) _ _ (boundary-Keeps u.same_letter u.is_word) λ _.
        one_of-Gives u.same_letter (HasKey u months) (HasMonth u) month_abbreviations _
          abbreviations_known
          λ m key.
            >>=-Gives u.same_letter (HasMonth u) _ _
              (either-Keeps u.same_letter _ _ separator-Keeps spaces-Keeps)
              λ _.
                >>=-Gives u.same_letter (HasMonth u) _ _
                  (between-Keeps u.same_letter 1 1 (is_digit u))
                  λ d.
                    >>=-Gives u.same_letter (HasMonth u) _ _
                      (boundary-Keeps u.same_letter u.is_word)
                      λ _.
                        matched-Gives u.same_letter (HasMonth u) (record { day = d; month = m })
                          key)
