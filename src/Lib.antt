-- ===== src/Lib.antt =====
-- A verification library for the cs-server repository: the server that keeps venues, their live
-- busyness and their events for a nightlife map.
--
-- The parts and how they interact. The monthly budget (app/services/venue_budget_service.py over
-- app/dao/venue_budget_dao.py) gates every paid read of a venue. The event pipeline turns a post's
-- extraction into rows: a date out of its words (app/services/event_date_resolver.py), an identity
-- (app/services/event_identity.py), the reconciliation with the rows of the same post
-- (app/services/event_reconciliation.py) and the merge of the rows that different posts left for
-- one event (app/services/event_merge.py). Serving derives a price tier
-- (app/services/price_signal.py) and judges how fresh a live value is
-- (app/services/live_freshness.py), from the interval that the refresher runs on
-- (app/services/refresh_interval_watch.py). Which venues are served at all is decided by the block
-- lists (app/services/venue_eligibility.py), which an operator edits as rules
-- (app/services/eligibility_rules.py), with the display category (app/models/venue_category.py).
-- The handle of a venue's Instagram page is discovered from free and paid sources
-- (app/services/instagram_cascade_service.py, with instagram_handle_sources.py and
-- instagram_judge.py beside it); by these handles, the location tag or the name an event is linked to
-- a venue (app/services/event_venue_resolution.py), and which venues are looked at for events is
-- decided from their categories and from evidence (app/services/event_venue_targeting.py, with
-- app/services/event_caption_matcher.py).
-- The scheduled jobs share a lock (app/services/job_lock.py) and take ids
-- (app/services/pipeline_run_registry.py).
--
-- The files.
--   Prelude, Prelude/*: Boolean tests, lists, maps and integers over the native numbers.
--   Python, Python/*: exceptions as values, and JSON values with Python's `int`.
--   Budget/Redis: the commands that the budget sends, as an interface of a client, and the keys it
--     uses with the documented effects on them. Budget/Redis/Simulation: what it is for a client to
--     behave as documented, seen through a view of its state. Budget/Dao: `VenueBudgetDao`, a function
--     of the client for each method. Budget/Service: `VenueBudgetService`, likewise.
--     Budget/Refinement takes the service from a client to the keys. Settings, Counter, Ledger and
--     Steps hold the laws of the settings, the monthly counter, the ledger of touched venues and of
--     sequences of operations.
--   Events/Row: a row as a Python dictionary. Events/Identity: `normalize_title`,
--     `compute_source_event_key`, `compute_event_identity`. Events/Unions: `union_lineup`,
--     `union_attractions`. Events/Protection: `apply_operator_field_protection`,
--     `_confirmed_update_fields`, `is_clean_extraction`. Events/Posts: what `reconcile_post_events` is
--     given and writes. Events/Reconcile: the function, with its nested `_persist` and each of its
--     loops. Events/Merge: `choose_canonical`, `merge_event_fields`. Events/Merge/Store:
--     `merge_touched_events` over the tables, with the statements of app/dao/rds_venue_store.py that it
--     runs. The child modules hold the laws.
--   Price: price_signal.py. Live/Watch: `RefreshIntervalWatcher`. Live/Freshness: live_freshness.py.
--   Price/Tiers, Live/Watch/Laws and Live/Agreement hold the laws; the modules named Tests and
--     Samples, and Events/Ascii, hold runs at concrete inputs and what these need.
--   Eligibility/Categories and Eligibility/Defaults: the tables of app/models/venue_category.py and
--     app/services/venue_eligibility.py. Eligibility/Category: `resolve_category` and
--     `representative_google_type`. Eligibility/Evaluate: `evaluate`. Eligibility/Fence, with
--     Eligibility/Capitals: `validate_geo_fence` and `load_geo_fence`. Eligibility/Rules:
--     `EligibilityConfig.from_dict`, `assemble_eligibility_blob`, `decompose_eligibility_blob`.
--     Eligibility/Rules/Service: app/services/eligibility_rules.py over its table and its mirror;
--     Eligibility/Rules/Mirror holds its laws. Eligibility/Policy,
--     Eligibility/Correction and the children of Eligibility/Fence hold the laws.
--   Python/Date: dates with their numbers. Python/Regex: regular expressions that run, and
--     Python/Regex/Plain and Found, what they match in texts where case makes no difference.
--   Dates/Patterns, Dates/Resolve and Dates/Event: app/services/event_date_resolver.py, the tables and
--     patterns, the functions to `_parse_time_text`, and `resolve_event_datetime`. Weekday, Explicit,
--     Sound, Times, Ends, Outcome, Recurring and Errors hold the laws.
--   Jobs/Lock: app/services/job_lock.py, with the triggers of app/routers/admin_trigger_router.py and
--     the scheduler's guard in main.py; Jobs/Lock/Exclusive holds its laws.
--   Jobs/RunId: `new_run_id` of app/services/pipeline_run_registry.py; Jobs/RunId/Order holds its law.
--     Jobs/Registry: its `_BoundedRunRegistry`; Jobs/Registry/Bounded holds its law.
--   Instagram/Handles: instagram_handle_sources.py. Instagram/Similarity: `name_similarity` and what it
--     calls. Instagram/Judge: instagram_judge.py. Instagram/Data, Candidates, Scoring and Cascade:
--     `InstagramCascadeService` up to `discover`; Instagram/Run: `run`, with `parse_venue_ids` of
--     app/services/venue_photo_archive_service.py. The children of Cascade and Run hold the laws.
--   Venues/Mentions, Links, Ranking and Resolution: event_venue_resolution.py; the children of
--     Resolution hold the laws. Venues/Markers: event_caption_matcher.py. Venues/Targeting, with Config,
--     Evidence and State: event_venue_targeting.py; Promise says what a run promises, and Stages,
--     Chosen, Outcome, Ends and RoundTrip hold the laws.
--     Eligibility/CategoryMap: `load_category_map`.
--   Python/Text: methods of `str`. Python/Round: `round`. Python/Ascii: tables for concrete runs.
--
-- How code becomes definitions. A method that changes Redis is a function from the state to a
-- result and a state. A coroutine or a callback that is handed in (the attribution of an event to a
-- venue) is a parameter, and so are the Redis client, Unicode's tables, the zone database, the
-- digest, difflib's ratio, the distance on the sphere, the probe of profiles, the language model,
-- `json.loads`, the date parsers and the supply of ids. `reconcile_post_events` reads its rows once and
-- then only writes, so it is a function to the list of its writes. Loops over lists are structural
-- recursion, so there is no fuel. A threshold, a score or a factor that is a float in the code is a
-- natural number of small units or a fraction here.
--
-- Not modelled: HTTP clients, the routers and handlers, metrics and logs, the SQL store but for the
-- statements that the merge and the rules run, and the enrichment services that wait for these. A
-- lost connection to Redis is modelled where the code handles it: at the reads of the quota and of
-- the geo-fence, and at the mirror of the eligibility rules.
pub mod Prelude
pub mod Python
pub mod Budget
pub mod Events
pub mod Price
pub mod Live
pub mod Eligibility
pub mod Jobs
pub mod Dates
pub mod Instagram
pub mod Venues
