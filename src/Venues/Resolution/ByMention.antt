-- ===== src/Venues/Resolution/ByMention.antt =====
-- Rung 1: the handles that the caption mentions.
use cs_server.Prelude.{
  ◌≡◌, refl, subst, ap, sym, ◌∙◌, inl, inr, true, false, Option, none, some, List, [], ◌∷◌,
  Bool-cases, Option-cases, arith,
}
use cs_server.Python.Regex.{Text}
use cs_server.Python.Text.{text_eq, is_one_of, is_empty}
use cs_server.Python.Text.Equality.{text_eq_self, text_eq_eq}
use cs_server.Instagram.Handles.{normalize_handle}
use cs_server.Venues.Mentions.{venue_of, extract_mentions}
use cs_server.Venues.Links.{VenueLite, ResolutionResult}
use cs_server.Venues.Resolution.{
  by_id, same_handle, mentioned_venue, first_mention, resolve_by_mention,
}
use cs_server.Venues.Resolution.Answers.{Ladder, Among, Answers}

by_id-Among :
    (vs : List VenueLite) (i : Text) (v : VenueLite)
    → by_id vs i ≡ some v
    → Among v vs × (v.venue_id ≡ i)
unfolding by_id
by_id-Among [] i v e = absurd (cc e)
by_id-Among (w ∷ ws) i v e = elim (Option-cases (by_id ws i)) [
  | inl none_later ↦ elim (Bool-cases (text_eq w.venue_id i)) [
    | inl same ↦
        let first : w ≡ v = cc (e, none_later, same) in
        (inl (sym first), ap (λ x. x.venue_id) (sym first) ∙ text_eq_eq w.venue_id i same)
    | inr other ↦ absurd (cc (e, none_later, other))
  ]
  | inr (x, later) ↦
      let same : by_id ws i ≡ some v = cc (e, later) in
      let (among, id) = by_id-Among ws i v same in (inr among, id)
]

module _ (l : Ladder) where
  open l use {names, haversine, place, venues, index, floor, margin}

  -- Rung 1.
  abbrev IsMention : List Text → Text → VenueLite → Type 0
  IsMention ms m v =
      (is_one_of m ms ≡ true)
      × ((same_handle (normalize_handle names.unicode place.promoter_handle) m ≡ false)
          × ((venue_of index m ≡ some v.venue_id) × Among v venues))

  mentioned_venue-Among :
      (m : Text) (v : VenueLite)
      → mentioned_venue venues index m ≡ some v
      → (venue_of index m ≡ some v.venue_id) × Among v venues
  unfolding mentioned_venue
  mentioned_venue-Among m v e = elim (Option-cases (venue_of index m)) [
    | inl gone ↦ absurd (cc (e, gone))
    | inr (i, there) ↦ elim (Bool-cases (is_empty i)) [
      | inl blank ↦ absurd (cc (e, there, blank))
      | inr full ↦
          let found : by_id venues i ≡ some v = cc (e, there, full) in
          let (among, id) = by_id-Among venues i v found in (there ∙ ap some (sym id), among)
    ]
  ]

  first_mention-IsMention :
      (ms : List Text) (m : Text) (v : VenueLite)
      → first_mention venues index (normalize_handle names.unicode place.promoter_handle) ms
        ≡ some (m, v)
      → IsMention ms m v
  unfolding first_mention is_one_of
  first_mention-IsMention [] m v e = absurd (cc e)
  first_mention-IsMention (k ∷ ks) m v e =
      let own = normalize_handle names.unicode place.promoter_handle in
      let later : first_mention venues index own ks ≡ some (m, v) → IsMention (k ∷ ks) m v =
        λ d. (let (one, rest) = first_mention-IsMention ks m v d in (ground arith, rest)) in
      elim (Bool-cases (same_handle own k)) [
        | inl self ↦ later (cc (e, self))
        | inr other ↦ elim (Option-cases (mentioned_venue venues index k)) [
          | inl gone ↦ later (cc (e, other, gone))
          | inr (w, there) ↦
              let same_m : k ≡ m = cc (e, other, there) in
              let same_v : w ≡ v = cc (e, other, there) in
              subst (λ x. IsMention (k ∷ ks) x v) same_m
                (
                  ground (arith, text_eq_self k),
                  (other, mentioned_venue-Among k v (there ∙ ap some same_v)),
                )
        ]
      ]

  pub resolve_by_mention-Answers :
      (o : Option (Text × VenueLite)) (more : ResolutionResult)
      → first_mention venues index
          (normalize_handle names.unicode place.promoter_handle)
          (extract_mentions names.unicode place.caption)
        ≡ o
      → Answers l more
      → Answers l (resolve_by_mention names haversine o more)
  resolve_by_mention-Answers none more e next = next
  resolve_by_mention-Answers (some (m, v)) more e next =
      let (one, (other, (known, among))) =
        first_mention-IsMention (extract_mentions names.unicode place.caption) m v e in
      (
        v,
        (
          among,
          (
            refl,
            inl (record {
              mention = m;
              in_caption = one;
              not_own = other;
              known = known;
              method = refl;
            }),
          ),
        ),
      )
