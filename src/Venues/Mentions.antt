-- ===== src/Venues/Mentions.antt =====
-- `extract_mentions` and `build_handle_index` of app/services/event_venue_resolution.py.
use cs_server.Prelude.{
  ℕ, Bool, false, not, ◌&&◌, ◌||◌, Option, none, some, List, [], ◌∷◌, ◌==◌, leb, if◌then◌else◌,
}
use cs_server.Python.Regex.{Text, Unicode, Pattern, matched, ◌>>◌, char, between, finditer}
use cs_server.Python.Text.{is_empty, text_eq}
use cs_server.Instagram.Handles.{normalize_handle}

abbrev is_before : (ℕ → Bool) → Option ℕ → Bool
is_before test none = false
is_before test (some c) = test c

-- `(?<![…])`
abbrev not_after : (ℕ → Bool) → Pattern (Unit {0})
not_after test p = if is_before test p.before then [] else matched tt p

abbrev is_at : ℕ → Bool
is_at c = c == b'@'

-- `[A-Za-z0-9_.]`
abbrev in_handle : ℕ → Bool
in_handle c =
    leb b'A' c && leb c b'Z'
    || leb b'a' c && leb c b'z'
    || leb b'0' c && leb c b'9'
    || c == b'_'
    || c == b'.'

-- `dict.get` of a dictionary from handles, the last assignment first.
abbrev pub HandleIndex : Type 0
HandleIndex = List (Option Text × Text)

abbrev is_key : Option Text → Text → Bool
is_key none h = false
is_key (some k) h = text_eq k h

unfoldable pub venue_of : HandleIndex → Text → Option Text
unfolding text_eq
venue_of [] h = none
venue_of ((k, v) ∷ rest) h = let later = venue_of rest h in if is_key k h then some v else later

module _ (u : Unicode) where
  -- `(?<![\w.])@([A-Za-z0-9_.]{1,30})`, with its group.
  unfoldable mention_pattern : Pattern Text
  unfolding between
  mention_pattern =
      not_after (λ c. u.is_word c || c == b'.') >> (char is_at >> between 1 29 in_handle)

  handles : List Text → List Text
  handles [] = []
  handles (m ∷ ms) =
      let rest = handles ms in
      elim (normalize_handle u (some m)) [ none ↦ rest | some h ↦ h ∷ rest ]

  unfoldable pub extract_mentions : Option Text → List Text
  unfolding mention_pattern handles normalize_handle
  extract_mentions none = []
  extract_mentions (some caption) =
      if is_empty caption then [] else handles (finditer mention_pattern caption)

  abbrev truthy : Option Text → Bool
  truthy none = false
  truthy (some t) = not (is_empty t)

  -- The comprehension over the pairs of a venue and its handle, in their order.
  unfoldable index_from : List (Text × Option Text) → HandleIndex → HandleIndex
  unfolding normalize_handle
  index_from [] index = index
  index_from ((venue_id, handle) ∷ rest) index =
      let added = index_from rest ((normalize_handle u handle, venue_id) ∷ index) in
      let skipped = index_from rest index in if truthy handle then added else skipped

  unfoldable build_handle_index : List (Text × Option Text) → HandleIndex
  unfolding index_from
  build_handle_index pairs = index_from pairs []
