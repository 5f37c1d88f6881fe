-- ===== src/Venues.antt =====
-- Where an event takes place: app/services/event_venue_resolution.py, and which venues are worth a
-- look for events: app/services/event_caption_matcher.py and app/services/event_venue_targeting.py.
pub mod Mentions
pub mod Links
pub mod Ranking
pub mod Resolution
pub mod Markers
pub mod Targeting
mod Tests
