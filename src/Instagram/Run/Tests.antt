-- ===== src/Instagram/Run/Tests.antt =====
-- A run over the catalogue, and the list of ids that it is given, at concrete inputs.
use cs_server.Prelude.{◌≡◌, refl, not, ◌&&◌, none, List, [], ◌∷◌}
use cs_server.Python.Except.{ok}
use cs_server.Python.Ascii.{ascii}
use cs_server.Python.Json.{codes}
use cs_server.Python.Regex.{Text}
use cs_server.Python.Text.{is_one_of, is_empty}
use cs_server.Instagram.Run.{VenueIds, pasted, parse_venue_ids, items_of, run}
use cs_server.Instagram.Run.Requested.{AreIds, stripped, parse_venue_ids-exact}
use cs_server.Instagram.Run.Confined.{run-elsewhere}
use cs_server.Instagram.Samples.{fresh, venue, empty_dao, strict}

abbrev pasted_ids : VenueIds
pasted_ids = pasted (codes " v1, v9,,v1 ")

ids_run : parse_venue_ids ascii pasted_ids ≡ codes "v1" ∷ codes "v9" ∷ []
unfolding parse_venue_ids is_one_of
ids_run = refl

parse_venue_ids-exact_example :
    AreIds (parse_venue_ids ascii pasted_ids)
    × (is_one_of venue (parse_venue_ids ascii pasted_ids)
        ≡ (not (is_empty venue) && is_one_of venue (stripped ascii (items_of pasted_ids))))
parse_venue_ids-exact_example = parse_venue_ids-exact ascii pasted_ids venue

abbrev catalogue : List Text
catalogue = codes "v1" ∷ codes "v2" ∷ []

run-elsewhere_example :
    (run strict fresh catalogue pasted_ids empty_dao).0.get_venue_instagram (codes "v2") ≡ ok none
unfolding parse_venue_ids is_one_of
run-elsewhere_example = run-elsewhere strict fresh catalogue pasted_ids empty_dao (codes "v2") refl
