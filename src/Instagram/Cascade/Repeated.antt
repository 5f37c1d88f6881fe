-- ===== src/Instagram/Cascade/Repeated.antt =====
-- A run without `force_refresh` repeats what an earlier one stored.
use cs_server.Prelude.{◌≡◌, refl, true, false, ◌∙◌, ap, subst, Option, none, some}
use cs_server.Python.Except.{ok}
use cs_server.Python.Regex.{Text}
use cs_server.Instagram.Data.{CascadeResult, Service, Config, VenueInstagram, low_confidence}
use cs_server.Instagram.Cascade.{Dao, has_handle, repeated, discover}
use cs_server.Instagram.Cascade.Accepted.{JudgedAs, discover-IsJudged}

module _ (s : Service) (c d : Config) (dao later : Dao) (venue_id : Text) (name : Option Text)
    (r : CascadeResult) (v : VenueInstagram) where
  -- Where a run for a venue stored a weak handle, and it is still stored when a run without
  -- `force_refresh` comes to the venue: the first run did not accept the handle, and the later one
  -- repeats it as accepted and stores nothing.
  pub discover-repeats :
      discover s dao c venue_id ≡ ok (r, some v)
      → v.status ≡ low_confidence
      → d.force_refresh ≡ false
      → later.get_venue venue_id ≡ ok name
      → later.get_venue_instagram venue_id ≡ ok (some v)
      → has_handle r.handle ≡ true
      → (r.accepted ≡ false)
        × ((discover s later d venue_id ≡ ok (repeated v, none)) × ((repeated v).accepted ≡ true))
  unfolding discover
  discover-repeats e weak calm there stored named =
      let as_weak : JudgedAs s c low_confidence r v =
        subst (λ x. JudgedAs s c x r v) weak (discover-IsJudged s c dao venue_id r v e) in
      (as_weak.0, (rw (calm, there, stored) refl, ap has_handle as_weak.1.1.1.1 ∙ named))
