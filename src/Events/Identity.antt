-- ===== src/Events/Identity.antt =====
-- app/services/event_identity.py, and `compute_event_identity` of app/services/event_merge.py.
-- Unicode's tables, the calendar's text form and SHA-256 are not code of the repository: they are the
-- parameter `TextTables`.
pub mod Payload
use mathlib.Core.List.{reverse}
use cs_server.Prelude.{
  ℕ, String, Bool, true, false, ◌&&◌, Option, none, some, List, [], ◌∷◌, ◌++◌, ◌==◌, str_eq,
  if◌then◌else◌,
}
use cs_server.Events.Row.{Value, null, text, instant}

-- The code points of a text, `str.casefold`, `unicodedata.normalize("NFKD", …)`,
-- `unicodedata.combining`, `str.isspace`, `date.isoformat` of a day, and the first 32 hex digits of
-- the SHA-256 of a text.
pub record TextTables : Type 0 where
  pub code_points : String → List ℕ
  pub casefold : List ℕ → List ℕ
  pub nfkd : List ℕ → List ℕ
  pub is_combining : ℕ → Bool
  pub is_space : ℕ → Bool
  pub isoformat : ℕ → List ℕ
  pub digest : List ℕ → String

abbrev pub bar : ℕ
bar = b'|'

-- `starts_at.date()` of a start that is there.
abbrev pub day_of : Value → Option ℕ
day_of (instant day minute) = some day
day_of _ = none

module _ (u : TextTables) where
  open u use {code_points, casefold, nfkd, is_combining, is_space, isoformat, digest}

  lstrip : List ℕ → List ℕ
  lstrip [] = []
  lstrip (c ∷ cs) = let rest = lstrip cs in if is_space c then rest else c ∷ cs

  unfoldable pub strip : List ℕ → List ℕ
  unfolding lstrip
  strip cs = reverse (lstrip (reverse (lstrip cs)))

  without_combining : List ℕ → List ℕ
  without_combining [] = []
  without_combining (c ∷ cs) =
      let rest = without_combining cs in if is_combining c then rest else c ∷ rest

  -- `re.sub(r"\s+", " ", …)`; the flag says that the last character was a blank.
  unfoldable pub collapse : Bool → List ℕ → List ℕ
  collapse in_run [] = []
  collapse in_run (c ∷ cs) =
      let rest = collapse (is_space c) cs in
      if is_space c then (if in_run then rest else 32 ∷ rest) else c ∷ rest

  -- `title or ""`
  abbrev points_of : Value → List ℕ
  points_of (text t) = code_points t
  points_of _ = []

  unfoldable pub normalize_title : Value → List ℕ
  unfolding strip without_combining collapse
  normalize_title title =
      collapse false (without_combining (nfkd (casefold (strip (points_of title)))))

  abbrev pub date_part : Option ℕ → List ℕ
  date_part none = []
  date_part (some day) = isoformat day

  unfoldable pub payload : Value → Value → List ℕ
  payload title starts_at = normalize_title title ++ bar ∷ date_part (day_of starts_at)

  unfoldable pub compute_source_event_key : Value → Value → String
  unfolding payload
  compute_source_event_key title starts_at = digest (payload title starts_at)

  -- `(venue_id, calendar date, normalized title)`; an empty venue id counts as none.
  abbrev pub EventIdentity : Type 0
  EventIdentity = String × ℕ × List ℕ

  abbrev identity_at : String → Value → Value → Option EventIdentity
  identity_at venue (instant day minute) title = some (venue, day, normalize_title title)
  identity_at venue _ title = none

  unfoldable pub compute_event_identity : Value → Value → Value → Option EventIdentity
  compute_event_identity (text venue) starts_at title =
      if str_eq venue "" then none else identity_at venue starts_at title
  compute_event_identity _ starts_at title = none

abbrev pub points_eq : List ℕ → List ℕ → Bool
points_eq [] [] = true
points_eq (a ∷ as') (b ∷ bs) = a == b && points_eq as' bs
points_eq _ _ = false
