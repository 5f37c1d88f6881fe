-- ===== src/Eligibility/Category.antt =====
-- `resolve_category` and `representative_google_type` of app/models/venue_category.py. The case
-- mappings of `str` are Unicode's tables, which are a parameter.
use cs_server.Prelude.{String, Bool, ◌&&◌, ◌||◌, Option, none, some, [], ◌∷◌, str_eq, if◌then◌else◌}
use cs_server.Eligibility.Categories.{Table, representative_google_types}

-- `str.strip`, `str.lower` and `str.upper`.
pub record Case : Type 0 where
  pub strip : String → String
  pub lower : String → String
  pub upper : String → String

-- `table.get(key)`
unfoldable pub lookup : String → Table → Option String
lookup k [] = none
lookup k ((j, v) ∷ rest) = let later = lookup k rest in if str_eq j k then some v else later

-- `text or None`
abbrev pub or_none : Option String → Option String
or_none none = none
or_none (some t) = if str_eq t "" then none else some t

-- The category that a table has for a type that is there, under the table's case.
abbrev pub category_of : (String → String) → Table → Option String → Option String
category_of fold table none = none
category_of fold table (some t) = if str_eq t "" then none else lookup (fold t) table

abbrev pub is_bar_or_pub : String → Bool
is_bar_or_pub c = str_eq c "BAR" || str_eq c "PUB"

-- Google's category, then BestTime's; of a restaurant that BestTime calls a bar, BestTime's.
abbrev pub pick : Option String → Option String → String
pick none none = "OTHER"
pick none (some b) = b
pick (some g) none = g
pick (some g) (some b) = if str_eq g "RESTAURANT" && is_bar_or_pub b then b else g

module _ (case : Case) where
  unfoldable pub resolve_category : Option String → Option String → Table → Table → String
  resolve_category google_type besttime_type gmap bmap =
      pick (or_none (category_of case.lower gmap google_type))
        (or_none (category_of case.upper bmap besttime_type))

  unfoldable pub representative_google_type : String → Option String
  representative_google_type category =
      if str_eq category "" then none else lookup (case.upper category) representative_google_types
