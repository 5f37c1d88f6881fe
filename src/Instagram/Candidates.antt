-- ===== src/Instagram/Candidates.antt =====
-- `_candidates_from` of app/services/instagram_cascade_service.py: the handles of one source.
use cs_server.Prelude.{Option, none, some, List, [], ◌∷◌, ◌++◌, if◌then◌else◌}
use cs_server.Python.Regex.{Text}
use cs_server.Python.Text.{is_empty}
use cs_server.Instagram.Handles.{Source, apify_search, Rejection, normalize_handle, extract_handle}
use cs_server.Instagram.Data.{Notes, Fetch, answered, forbidden, failed, Service, Candidates}

module _ (s : Service) where
  -- The handles that a paid search found.
  handles_of : List (Option Text × Option Text) → List (Text × Option Text)
  handles_of [] = []
  handles_of ((name, display) ∷ pairs) =
      let rest = handles_of pairs in
      elim (normalize_handle s.names.unicode name) [ none ↦ rest | some h ↦ (h, display) ∷ rest ]

  abbrev note_rejection : Notes → Rejection → Notes
  note_rejection n r = record n { rejections = n.rejections ++ r ∷ [] }

  abbrev note_unavailable : Notes → Source → Notes
  note_unavailable n t = record n { tier_unavailable = n.tier_unavailable ++ t ∷ [] }

  abbrev note_error : Notes → Source → Notes
  note_error n t = record n { tier_errors = n.tier_errors ++ t ∷ [] }

  abbrev of_extracted : Notes → Option Text × Option Rejection → Candidates × Notes
  of_extracted n (h, some r) = (some [], note_rejection n r)
  of_extracted n (some h, none) = (some ((h, none) ∷ []), n)
  of_extracted n (none, none) = (some [], n)

  abbrev of_website : Notes → Source → Fetch (Option Text) → Candidates × Notes
  of_website n t (answered none) = (some [], n)
  of_website n t (answered (some w)) =
      if is_empty w
      then (some [], n)
      else of_extracted n (extract_handle s.names.unicode s.urlparse (some w))
  of_website n t forbidden = (none, note_unavailable n t)
  of_website n t failed = (none, note_error n t)

  abbrev of_search : Notes → Fetch (List (Option Text × Option Text)) → Candidates × Notes
  of_search n (answered pairs) = (some (handles_of pairs), n)
  of_search n forbidden = (none, note_unavailable n apify_search)
  of_search n failed = (none, note_error n apify_search)

  abbrev read_website :
      Notes → Source → Text → Option (Text → Fetch (Option Text)) → Candidates × Notes
  read_website n t venue_id none = (none, note_unavailable n t)
  read_website n t venue_id (some reader) = of_website n t (reader venue_id)

  abbrev search_paid :
      Notes → Text → Option (Text → Fetch (List (Option Text × Option Text))) → Candidates × Notes
  search_paid n venue_id none = (none, note_unavailable n apify_search)
  search_paid n venue_id (some search) = of_search n (search venue_id)

  -- `_candidates_from`, with the handlers of `discover` around it.
  unfoldable pub candidates_from : Notes → Source → Text → Candidates × Notes
  unfolding handles_of normalize_handle extract_handle
  candidates_from n apify_search venue_id = search_paid n venue_id s.paid_search
  candidates_from n t venue_id = read_website n t venue_id (s.reader t)
