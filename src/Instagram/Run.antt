-- ===== src/Instagram/Run.antt =====
-- `run` of app/services/instagram_cascade_service.py, and `parse_venue_ids` of
-- app/services/venue_photo_archive_service.py. A write that fails is logged and lost.
pub mod Confined
pub mod Requested
mod Tests
use cs_server.Prelude.{
  ℕ, ◌+◌, Bool, true, false, not, ◌||◌, Option, none, some, List, [], ◌∷◌, ◌++◌, ◌==◌, length,
  if◌then◌else◌,
}
use cs_server.Python.Except.{Result, ok, raised}
use cs_server.Python.Regex.{Text, Unicode}
use cs_server.Python.Text.{is_empty, text_eq, is_one_of, strip, split_at}
use cs_server.Instagram.Data.{CascadeResult, VenueInstagram, Service, Config}
use cs_server.Instagram.Cascade.{Dao, Discovered, discover}

-- `config.get("venue_ids")`: missing, a list, or a text.
pub data VenueIds : Type 0 where
  missing : VenueIds
  listed : List Text → VenueIds
  pasted : Text → VenueIds

abbrev is_comma : ℕ → Bool
is_comma c = c == b','

abbrev pub items_of : VenueIds → List Text
items_of missing = []
items_of (listed ts) = ts
items_of (pasted t) = let (piece, more) = split_at is_comma t in piece ∷ more

-- One round of the loop over the items.
abbrev pub take_id : Text → List Text → List Text
take_id vid out = if is_empty vid || is_one_of vid out then out else out ++ vid ∷ []

unfoldable pub take_ids : Unicode → List Text → List Text → List Text
unfolding strip
take_ids u [] out = out
take_ids u (t ∷ ts) out = take_ids u ts (take_id (strip u.is_space t) out)

unfoldable pub parse_venue_ids : Unicode → VenueIds → List Text
unfolding take_ids split_at
parse_venue_ids u raw = take_ids u (items_of raw) []

unfoldable pub known_ids : List Text → List Text → List Text
unfolding is_one_of
known_ids catalogue [] = []
known_ids catalogue (v ∷ vs) =
    let rest = known_ids catalogue vs in if is_one_of v catalogue then v ∷ rest else rest

unfoldable pub unknown_ids : List Text → List Text → List Text
unfolding is_one_of
unknown_ids catalogue [] = []
unknown_ids catalogue (v ∷ vs) =
    let rest = unknown_ids catalogue vs in if is_one_of v catalogue then rest else v ∷ rest

-- The venues to look at, and the requested ones that are not served.
unfoldable pub select : List Text → List Text → List Text × List Text
unfolding known_ids unknown_ids
select catalogue [] = (catalogue, [])
select catalogue (v ∷ vs) = (known_ids catalogue (v ∷ vs), unknown_ids catalogue (v ∷ vs))

pub record Summary : Type 0 where
  pub considered : ℕ
  pub accepted : ℕ
  pub not_found : ℕ
  pub errors : ℕ
  pub unknown_venue_ids : ℕ

abbrev pub no_venues : ℕ → Summary
no_venues unknown = record {
  considered = 0;
  accepted = 0;
  not_found = 0;
  errors = 0;
  unknown_venue_ids = unknown;
}

-- `set_venue_instagram`
abbrev set_venue_instagram : Option VenueInstagram → Dao → Dao
set_venue_instagram none dao = dao
set_venue_instagram (some v) dao =
    if dao.saves v.venue_id
    then record dao {
      get_venue_instagram =
          λ j. (if text_eq v.venue_id j then ok (some v) else dao.get_venue_instagram j);
    }
    else dao

abbrev pub counted : Result Discovered → Dao × Summary → Dao × Summary
counted (raised x) (dao, m) =
    (dao, record m { considered = m.considered + 1; errors = m.errors + 1 })
counted (ok (r, v)) (dao, m) = (
  set_venue_instagram v dao,
  if r.accepted
      then record m { considered = m.considered + 1; accepted = m.accepted + 1 }
      else record m { considered = m.considered + 1; not_found = m.not_found + 1 },
)

module _ (s : Service) (c : Config) where
  unfoldable pub run_all : List Text → Dao × Summary → Dao × Summary
  unfolding discover
  run_all [] state = state
  run_all (v ∷ vs) (dao, m) = run_all vs (counted (discover s dao c v) (dao, m))

  unfoldable pub run : List Text → VenueIds → Dao → Dao × Summary
  unfolding parse_venue_ids select run_all
  run catalogue raw dao =
      let (chosen, unknown) = select catalogue (parse_venue_ids s.names.unicode raw) in
      run_all chosen (dao, no_venues (length unknown))
