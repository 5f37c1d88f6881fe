-- ===== src/Eligibility/Correction.antt =====
-- An operator's correction of a venue's category, by the representative Google type.
use cs_server.Prelude.{
  ℕ, String, ◌≡◌, refl, Bool, true, false, not, ◌&&◌, ◌||◌, Option, none, some, List, [], ◌∷◌, ◌==◌,
  leb, str_eq, elem, arith, eq_iff, Bool-cases, inl, inr, ap, ◌∙◌,
}
use cs_server.Python.Json.{codes}
use cs_server.Eligibility.Categories.{
  Table, google_to_category, besttime_to_category, representative_google_types,
}
use cs_server.Eligibility.Defaults.{default_blocked_google_types, default_blocked_venue_types}
use cs_server.Eligibility.Category.{
  Case, lookup, or_none, category_of, is_bar_or_pub, pick, resolve_category,
  representative_google_type,
}
use cs_server.Eligibility.Policy.{evaluate_policy}
use cs_server.Eligibility.Evaluate.{
  evaluate, google_type_of, is_blocked, besttime_type_of, name_of, has_good_category,
}

-- Lower-case ASCII letters and underscores only.
abbrev all_plain : List ℕ → Bool
all_plain [] = true
all_plain (c ∷ cs) = (leb 97 c && leb c 122 || c == 95) && all_plain cs

-- What Python documents of `strip` and `lower` on such texts: they leave them as they are.
pub record IsCase (case : Case) : Type 0 where
  pub plain_strip : (t : String) → all_plain (codes t) ≡ true → case.strip t ≡ t
  pub plain_lower : (t : String) → all_plain (codes t) ≡ true → case.lower t ≡ t

abbrev is_found : Option String → String → Bool
is_found none c = false
is_found (some d) c = str_eq d c

is_found-eq : (o : Option String) (c : String) → is_found o c ≡ true → o ≡ some c
is_found-eq none c h = cc
is_found-eq (some d) c h = ap some ((eq_iff d c).0 h)

-- An entry of the table: its type is plain, not blocked by default, and its own category's.
abbrev is_sound : String → String → Bool
is_sound c g =
    all_plain (codes g)
    && not (str_eq g "")
    && not (elem g default_blocked_google_types)
    && is_found (lookup g google_to_category) c
    && not (str_eq c "")
    && not (str_eq c "OTHER")

-- Every entry passes a test.
abbrev every : (String → String → Bool) → Table → Bool
every test [] = true
every test ((c, g) ∷ rest) = test c g && every test rest

lookup-every :
    (test : String → String → Bool) (k g : String) (t : Table)
    → every test t ≡ true
    → lookup k t ≡ some g
    → test k g ≡ true
unfolding lookup
lookup-every test k g [] h l = cc
lookup-every test k g ((c, v) ∷ rest) h l = elim (Bool-cases (str_eq c k)) [
  | inl same ↦ grind (arith, eq_iff c k)
  | inr other ↦ lookup-every test k g rest (ground arith) (ground arith)
]

representatives_sound : every is_sound representative_google_types ≡ true
unfolding lookup
representatives_sound = refl

bar_good : (b : String) → is_bar_or_pub b ≡ true → str_eq b "OTHER" ≡ false
bar_good b h = elim (Bool-cases (str_eq b "BAR")) [
  | inl bar ↦ rw ((eq_iff b "BAR").0 bar) refl
  | inr other ↦ rw ((eq_iff b "PUB").0 (ground arith)) refl
]

pick_good :
    (c : String) (b : Option String)
    → str_eq c "" ≡ false
    → str_eq c "OTHER" ≡ false
    → str_eq (pick (or_none (some c)) b) "OTHER" ≡ false
pick_good c none h k = rw h k
pick_good c (some b) h k = elim (Bool-cases (str_eq c "RESTAURANT" && is_bar_or_pub b)) [
  | inl bar ↦ rw (h, bar) (bar_good b (ground arith))
  | inr plain ↦ rw (h, plain) k
]

pick_first :
    (c : String) (b : Option String)
    → str_eq c "" ≡ false
    → str_eq c "RESTAURANT" ≡ false
    → pick (or_none (some c)) b ≡ c
pick_first c none h k = rw h refl
pick_first c (some b) h k = rw (h, k) refl

-- What the checks of one entry give.
record Sound (c g : String) : Type 0 where
  plain : all_plain (codes g) ≡ true
  there : str_eq g "" ≡ false
  allowed : elem g default_blocked_google_types ≡ false
  found : lookup g google_to_category ≡ some c
  named : str_eq c "" ≡ false
  good : str_eq c "OTHER" ≡ false

split :
    (a b c d e f : Bool)
    → (a && not b && not c && d && not e && not f) ≡ true
    → (a ≡ true) × (b ≡ false) × (c ≡ false) × (d ≡ true) × (e ≡ false) × (f ≡ false)
split a b c d e f h = ground arith

is_sound-Sound : (c g : String) → is_sound c g ≡ true → Sound c g
is_sound-Sound c g h =
    let (p, t, a, f, n, o) =
      split (all_plain (codes g)) (str_eq g "") (elem g default_blocked_google_types)
        (is_found (lookup g google_to_category) c) (str_eq c "") (str_eq c "OTHER") h in
    record {
      plain = p;
      there = t;
      allowed = a;
      found = is_found-eq (lookup g google_to_category) c f;
      named = n;
      good = o;
    }

representative-Sound :
    (case : Case) (category g : String)
    → representative_google_type case category ≡ some g
    → Sound (case.upper category) g
unfolding representative_google_type
representative-Sound case category g h = elim (Bool-cases (str_eq category "")) [
  | inl blank ↦ cc
  | inr there ↦ is_sound-Sound (case.upper category) g (
      lookup-every is_sound (case.upper category) g representative_google_types
        representatives_sound (ground (arith, h)))
]

module _ (case : Case) (ok : IsCase case) {c g : String} (s : Sound c g) where
  google_type_of-plain : google_type_of case (some g) ≡ some g
  google_type_of-plain = rw (ok.plain_strip g s.plain, ok.plain_lower g s.plain, s.there) refl

  category_of-found : category_of case.lower google_to_category (some g) ≡ some c
  category_of-found = rw (s.there, ok.plain_lower g s.plain) s.found

  has_good_category-found : (b : Option String) → has_good_category case (some g) b ≡ true
  unfolding has_good_category resolve_category
  has_good_category-found b =
      rw
        (
          category_of-found,
          pick_good c (or_none (category_of case.upper besttime_to_category b)) s.named s.good,
        )
        refl

  is_blocked-free : is_blocked (google_type_of case (some g)) default_blocked_google_types ≡ false
  is_blocked-free =
      ap (λ t. is_blocked t default_blocked_google_types) google_type_of-plain ∙ s.allowed

  has_good_category-corrected :
      (b : Option String) → has_good_category case (google_type_of case (some g)) b ≡ true
  has_good_category-corrected b =
      ap (λ t. has_good_category case t b) google_type_of-plain ∙ has_good_category-found b

served_at :
    (unnamed google besttime good keyword : Bool)
    → unnamed ≡ false
    → google ≡ false
    → besttime ≡ false
    → good ≡ true
    → (not unnamed && not (google || besttime) && (good || not keyword)) ≡ true
served_at unnamed google besttime good keyword a b c d = ground arith

-- A corrected venue is served: where `strip` and `lower` leave lower-case ASCII texts as they are,
-- a venue with a name, the default block lists and no blocked BestTime type that carries the
-- representative Google type of a category is eligible, whatever keywords stand in its name.
pub correction-IsServed :
    (case : Case) (category g : String) (venue_name besttime_type : Option String)
    → IsCase case
    → representative_google_type case category ≡ some g
    → str_eq (name_of case venue_name) "" ≡ false
    → is_blocked (besttime_type_of case besttime_type) default_blocked_venue_types ≡ false
    → (evaluate case venue_name besttime_type (some g) none).eligible ≡ true
correction-IsServed case category g venue_name besttime_type ok r named free =
    (evaluate_policy case venue_name besttime_type (some g) none).0
    ∙ served_at (str_eq (name_of case venue_name) "")
        (is_blocked (google_type_of case (some g)) default_blocked_google_types)
        (is_blocked (besttime_type_of case besttime_type) default_blocked_venue_types)
        (has_good_category case (google_type_of case (some g))
          (besttime_type_of case besttime_type))
        _ named (is_blocked-free case ok s) free
        (has_good_category-corrected case ok s (besttime_type_of case besttime_type))
  where
    s : Sound (case.upper category) g
    s = representative-Sound case category g r

-- Where `strip` and `lower` leave lower-case ASCII texts as they are, a venue with the
-- representative Google type of a category other than RESTAURANT is shown under that category,
-- whatever BestTime says of it.
correction_category :
    (case : Case) (category g : String) (besttime_type : Option String)
    → IsCase case
    → representative_google_type case category ≡ some g
    → str_eq (case.upper category) "RESTAURANT" ≡ false
    → resolve_category case (some g) besttime_type google_to_category besttime_to_category
      ≡ case.upper category
unfolding resolve_category
correction_category case category g besttime_type ok r other = rw (category_of-found case ok s) (
    pick_first (case.upper category)
      (or_none (category_of case.upper besttime_to_category besttime_type)) s.named other)
  where
    s : Sound (case.upper category) g
    s = representative-Sound case category g r
