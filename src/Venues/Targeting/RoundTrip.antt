-- ===== src/Venues/Targeting/RoundTrip.antt =====
-- What a validated write of the categories is read back as.
use cs_server.Prelude.{
  String, ◌≡◌, refl, sym, ap, ◌∙◌, true, List, [], ◌∷◌, str_eq, elem, Bool-cases, inl, inr, arith,
  eq_iff, eq_refl,
}
use cs_server.Python.Except.{ok, Result-cases}
use cs_server.Python.Json.{Json, null, bool, int, decimal, str, arr, obj, Fields, get}
use cs_server.Eligibility.Categories.{categories}
use cs_server.Eligibility.Category.{Case}
use cs_server.Venues.Targeting.Config.{
  default_allowed_categories, default_vibe_music_format_overrides, default_vibe_estilo_overrides,
  CategoryConfig, of_fields, texts_of, string_set, upper_categories, from_dict, items_of,
  stored_form, validate_event_candidate_categories_config,
}

-- `sorted` keeps the members of a set.
abbrev pub KeepsMembers : (List String → List String) → Type 0
KeepsMembers sorted = (x : String) (xs : List String) → elem x (sorted xs) ≡ elem x xs

-- The names of the categories are in capitals.
abbrev pub AreCapital : Case → Type 0
AreCapital case = (x : String) → elem x categories ≡ true → case.upper x ≡ x

-- The same three sets.
pub record SameSets (a b : CategoryConfig) : Type 0 where
  pub allowed : (x : String) → elem x b.allowed_categories ≡ elem x a.allowed_categories
  pub music :
      (x : String) → elem x b.vibe_music_format_overrides ≡ elem x a.vibe_music_format_overrides
  pub estilo : (x : String) → elem x b.vibe_estilo_overrides ≡ elem x a.vibe_estilo_overrides

texts_of-items_of : (xs : List String) → texts_of (items_of xs) ≡ ok xs
unfolding texts_of items_of
texts_of-items_of [] = refl
texts_of-items_of (x ∷ xs) = rw (texts_of-items_of xs) refl

module _ (case : Case) where
  abbrev AreKnown : List String → Type 0
  AreKnown xs = (x : String) → elem x xs ≡ true → elem x categories ≡ true

  upper_categories-known : (xs ys : List String) → upper_categories case xs ≡ ok ys → AreKnown ys
  unfolding upper_categories
  upper_categories-known [] ys e x h =
      let empty : [] ≡ ys = cc e in absurd (cc (ap (elem x) empty, h))
  upper_categories-known (c ∷ cs) ys e x h = elim (Bool-cases (elem (case.upper c) categories)) [
    | inr unknown ↦ absurd (cc (e, unknown))
    | inl known ↦ elim (Result-cases (upper_categories case cs)) [
      | inr (z, bad) ↦ absurd (cc (e, known, bad))
      | inl (zs, good) ↦
          let whole : case.upper c ∷ zs ≡ ys = cc (e, known, good) in
          let here : elem x (case.upper c ∷ zs) ≡ true = ap (elem x) whole ∙ h in
          elim (Bool-cases (str_eq x (case.upper c))) [
            | inl same ↦ ap (λ y. elem y categories) ((eq_iff x (case.upper c)).0 same) ∙ known
            | inr other ↦ upper_categories-known cs zs good x (ground (arith, here))
          ]
    ]
  ]

  upper_categories-again :
      (xs : List String) → AreCapital case → AreKnown xs → upper_categories case xs ≡ ok xs
  unfolding upper_categories
  upper_categories-again [] capital known = refl
  upper_categories-again (x ∷ xs) capital known =
      let first : elem x categories ≡ true = known x (ground (arith, eq_refl x)) in
      rw
        (
          capital x first,
          first,
          upper_categories-again xs capital (λ y h. known y (ground (arith, h))),
        )
        refl

  of_fields-known :
      (fs : Fields) (a : CategoryConfig) → of_fields case fs ≡ ok a → AreKnown a.allowed_categories
  of_fields-known fs a e =
      elim (Result-cases (string_set fs "allowed_categories" default_allowed_categories)) [
        | inr (x, bad) ↦ absurd (cc (e, bad))
        | inl (given, good) ↦ elim (Result-cases (upper_categories case given)) [
          | inr (x, bad) ↦ absurd (cc (e, good, bad))
          | inl (allowed, known) ↦
              elim (Result-cases
                (string_set fs "vibe_music_format_overrides" default_vibe_music_format_overrides)) [
                  | inr (x, bad) ↦ absurd (cc (e, good, known, bad))
                  | inl (music, third) ↦
                      elim (Result-cases
                        (string_set fs "vibe_estilo_overrides" default_vibe_estilo_overrides)) [
                          | inr (x, bad) ↦ absurd (cc (e, good, known, third, bad))
                          | inl (estilo, fourth) ↦
                              let same : allowed ≡ a.allowed_categories =
                                cc (e, good, known, third, fourth) in
                              λ x h.
                                upper_categories-known given allowed known x (ap (elem x) same ∙ h)
                        ]
                ]
        ]
      ]

  from_dict-known :
      (value : Json) (a : CategoryConfig)
      → from_dict case value ≡ ok a
      → AreKnown a.allowed_categories
  unfolding from_dict
  from_dict-known (obj fs) a e = of_fields-known fs a e
  from_dict-known null a e = absurd (cc e)
  from_dict-known (bool b) a e = absurd (cc e)
  from_dict-known (int n) a e = absurd (cc e)
  from_dict-known (decimal m k) a e = absurd (cc e)
  from_dict-known (str t) a e = absurd (cc e)
  from_dict-known (arr xs) a e = absurd (cc e)

  module _ (sorted : List String → List String) where
    abbrev sorted_config : CategoryConfig → CategoryConfig
    sorted_config a = record {
      allowed_categories = sorted a.allowed_categories;
      vibe_music_format_overrides = sorted a.vibe_music_format_overrides;
      vibe_estilo_overrides = sorted a.vibe_estilo_overrides;
    }

    from_dict-stored_form :
        (a : CategoryConfig)
        → KeepsMembers sorted
        → AreCapital case
        → AreKnown a.allowed_categories
        → from_dict case (stored_form sorted a) ≡ ok (sorted_config a)
    unfolding from_dict string_set get
    from_dict-stored_form a keeps capital known =
        rw
          (
            texts_of-items_of (sorted a.allowed_categories),
            texts_of-items_of (sorted a.vibe_music_format_overrides),
            texts_of-items_of (sorted a.vibe_estilo_overrides),
            upper_categories-again (sorted a.allowed_categories) capital
                (λ x h. known x (sym (keeps x a.allowed_categories) ∙ h)),
          )
          refl

    -- Where `sorted` keeps the members of a set and the names of the categories are in capitals: what
    -- is stored of a write that is accepted is read back, and as the same three sets as the write
    -- itself.
    pub validate-SameSets :
        (value stored : Json)
        → KeepsMembers sorted
        → AreCapital case
        → validate_event_candidate_categories_config case sorted value ≡ ok stored
        → (a : CategoryConfig) × ((b : CategoryConfig) × ((from_dict case value ≡ ok a)
              × ((from_dict case stored ≡ ok b) × SameSets a b)))
    unfolding validate_event_candidate_categories_config
    validate-SameSets value stored keeps capital e = elim (Result-cases (from_dict case value)) [
      | inr (x, bad) ↦ absurd (cc (e, bad))
      | inl (a, good) ↦
          let form : stored_form sorted a ≡ stored = cc (e, good) in
          (
            a,
            (
              sorted_config a,
              (
                good,
                (
                  ap (from_dict case) (sym form)
                      ∙ from_dict-stored_form a keeps capital (from_dict-known value a good),
                  record {
                    allowed = λ x. keeps x a.allowed_categories;
                    music = λ x. keeps x a.vibe_music_format_overrides;
                    estilo = λ x. keeps x a.vibe_estilo_overrides;
                  },
                ),
              ),
            ),
          )
    ]
