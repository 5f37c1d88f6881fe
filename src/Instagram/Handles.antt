-- ===== src/Instagram/Handles.antt =====
-- app/services/instagram_handle_sources.py. `urlparse` is a parameter: the host and the path of a URL,
-- or none where it raises.
use cs_server.Prelude.{
  ℕ, Bool, true, false, not, ◌||◌, Option, none, some, List, [], ◌∷◌, ◌++◌, ◌==◌, if◌then◌else◌,
}
use cs_server.Python.Json.{codes}
use cs_server.Python.Regex.{Text, Unicode}
use cs_server.Python.Text.{
  is_empty, is_one_of, or_empty, drop, starts_with, contains, up_to_first, any, lstrip, strip,
  split_at,
}

pub data Source : Type 0 where
  google_website archived_gmaps venue_website apify_search google_search : Source

-- Cheapest first.
abbrev pub source_order : List Source
source_order = google_website ∷ archived_gmaps ∷ venue_website ∷ apify_search ∷ google_search ∷ []

abbrev pub is_paid : Source → Bool
is_paid apify_search = true
is_paid google_search = true
is_paid _ = false

abbrev shim_hosts : List Text
shim_hosts = codes "l.instagram.com" ∷ codes "lm.instagram.com" ∷ []

abbrev non_profile_paths : List Text
non_profile_paths =
    codes "p"
    ∷ codes "reel"
    ∷ codes "reels"
    ∷ codes "explore"
    ∷ codes "stories"
    ∷ codes "tv"
    ∷ codes "s"
    ∷ codes "accounts"
    ∷ codes "direct"
    ∷ []

pub data Rejection : Type 0 where
  link_shim non_profile_path empty malformed not_instagram : Rejection

abbrev is_char : ℕ → ℕ → Bool
is_char k c = c == k

module _ (u : Unicode) where
  -- A handle that is not empty and has no blank.
  abbrev checked : Text → Option Text
  checked t = if is_empty t || any u.is_space t then none else some t

  unfoldable pub normalize_handle : Option Text → Option Text
  unfolding lstrip strip up_to_first any
  normalize_handle raw =
      let text = lstrip (is_char b'@') (strip u.is_space (or_empty raw)) in
      let bare = up_to_first (is_char b'#') (up_to_first (is_char b'?') text) in
      checked (u.lower (strip (is_char b'/') bare))

  -- The parts of a path that are not empty; the first one.
  first_segment : List Text → Option Text
  first_segment [] = none
  first_segment (t ∷ ts) = if is_empty t then first_segment ts else some t

  abbrev first_part : Text → Option Text
  first_part path = let (piece, more) = split_at (is_char b'/') path in first_segment (piece ∷ more)

  -- What `extract_handle` returns: a handle or the reason for which there is none.
  abbrev Extracted : Type 0
  Extracted = Option Text × Option Rejection

  abbrev rejected : Rejection → Extracted
  rejected r = (none, some r)

  abbrev handle_or : Option Text → Extracted
  handle_or none = rejected malformed
  handle_or (some h) = (some h, none)

  abbrev of_segment : Option Text → Extracted
  of_segment none = rejected empty
  of_segment (some part) =
      if is_one_of (u.lower part) non_profile_paths
      then rejected non_profile_path
      else handle_or (normalize_handle (some part))

  -- The host without its port and without `www.`
  abbrev host_of : Text → Text
  host_of netloc =
      let host = up_to_first (is_char b':') (u.lower netloc) in
      if starts_with (codes "www.") host then drop 4 host else host

  abbrev of_url : Option (Text × Text) → Extracted
  of_url none = rejected malformed
  of_url (some (netloc, path)) =
      let host = host_of netloc in
      if is_one_of host shim_hosts
      then rejected link_shim
      else (if not (contains (codes "instagram.com") host)
          then rejected not_instagram
          else of_segment (first_part path))

  unfoldable pub extract_handle : (Text → Option (Text × Text)) → Option Text → Extracted
  unfolding normalize_handle first_segment strip up_to_first is_one_of starts_with contains split_at
  extract_handle urlparse url =
      let text = strip u.is_space (or_empty url) in
      if is_empty text
      then rejected empty
      else of_url (urlparse (if contains (codes "//") text then text else codes "https://" ++ text))
