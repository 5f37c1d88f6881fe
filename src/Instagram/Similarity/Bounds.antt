-- ===== src/Instagram/Similarity/Bounds.antt =====
-- A similarity is a share of one.
use cs_server.Prelude.{ℕ, ◌≤◌, Bool, true, false, Option, arith, if◌then◌else◌}
use cs_server.Python.Regex.{Text}
use cs_server.Instagram.Similarity.{Names, billion, name_similarity}

-- `SequenceMatcher.ratio` is at most one.
abbrev pub IsRatio : Names → Type 0
IsRatio n = (a b : Text) → n.ratio a b ≤ billion

if-le : (b : Bool) {x y m : ℕ} → x ≤ m → y ≤ m → (if b then x else y) ≤ m
if-le true h g = h
if-le false h g = g

pub name_similarity-le :
    (n : Names) (venue display handle : Option Text)
    → IsRatio n
    → name_similarity n venue display handle ≤ billion
unfolding name_similarity
name_similarity-le n venue display handle h =
    let none_at_all : 0 ≤ billion = omega arith in
    let almost_all : 950000000 ≤ billion = omega arith in
    search (if-le, h, none_at_all, almost_all) depth 12 fits 4000
