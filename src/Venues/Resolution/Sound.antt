-- ===== src/Venues/Resolution/Sound.antt =====
-- The answer of the whole ladder.
use cs_server.Prelude.{refl}
use cs_server.Venues.Ranking.{name_match_candidates}
use cs_server.Venues.Resolution.{tag_coords_of, resolve_event_venue}
use cs_server.Venues.Resolution.Sorted.{name_match_candidates-Descends}
use cs_server.Venues.Resolution.Answers.{Ladder, Answers}
use cs_server.Venues.Resolution.ByName.{resolve_by_name-Answers, name_match_candidates-Every}
use cs_server.Venues.Resolution.ByTag.{resolve_by_tag-Answers}
use cs_server.Venues.Resolution.ByMention.{resolve_by_mention-Answers}

module _ (l : Ladder) where
  open l use {names, haversine, place, venues, index, floor, margin}

  -- The ladder links an event only to a venue of its list, and only for one of three reasons: the
  -- caption mentions the venue's handle, which is not the promoter's own; the name of the location tag
  -- is like the venue's by at least the bar for tags, and like no other venue's more; or the venue's
  -- name scores at least the floor and ahead of every other candidate by the margin. It queues an
  -- event only where the best name reaches the floor and the next one is within the margin; and
  -- without a link or a queue no candidate reaches the floor.
  pub resolve_event_venue-Answers :
      Answers l (resolve_event_venue names haversine place venues index floor margin)
  unfolding resolve_event_venue
  resolve_event_venue-Answers =
      let cs =
        name_match_candidates names haversine place.location_text venues
          (tag_coords_of place.tag) in
      resolve_by_mention-Answers l _ _ refl (
        resolve_by_tag-Answers l _ _ refl (
          resolve_by_name-Answers l cs
            (name_match_candidates-Descends names haversine place.location_text venues
              (tag_coords_of place.tag))
            (name_match_candidates-Every l place.location_text (tag_coords_of place.tag))))
