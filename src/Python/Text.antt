-- ===== src/Python/Text.antt =====
-- The methods of `str` that the code uses, on texts as lists of code points.
pub mod Equality
use cs_server.Prelude.{
  ℕ, zero, suc, String, Bool, true, false, ◌&&◌, ◌||◌, Option, none, some, List, [], ◌∷◌, ◌++◌,
  ◌==◌, if◌then◌else◌,
}
use cs_server.Python.Regex.{Text, Unicode}

abbrev pub is_empty : Text → Bool
is_empty [] = true
is_empty (c ∷ cs) = false

unfoldable pub text_eq : Text → Text → Bool
text_eq [] [] = true
text_eq (a ∷ as') (b ∷ bs) = a == b && text_eq as' bs
text_eq _ _ = false

-- `text in (w₁, w₂, …)`
unfoldable pub is_one_of : Text → List Text → Bool
unfolding text_eq
is_one_of t [] = false
is_one_of t (w ∷ ws) = text_eq w t || is_one_of t ws

-- `text or ""`
abbrev pub or_empty : Option Text → Text
or_empty none = []
or_empty (some t) = t

-- `text or None`
abbrev pub nonempty : Text → Option Text
nonempty [] = none
nonempty (c ∷ cs) = some (c ∷ cs)

-- `text[n:]`
abbrev pub drop : ℕ → Text → Text
drop zero t = t
drop (suc n) [] = []
drop (suc n) (c ∷ cs) = drop n cs

-- `text.startswith(prefix)`
unfoldable pub starts_with : Text → Text → Bool
starts_with [] t = true
starts_with (p ∷ ps) [] = false
starts_with (p ∷ ps) (c ∷ cs) = p == c && starts_with ps cs

-- `part in text`
unfoldable pub contains : Text → Text → Bool
unfolding starts_with
contains part [] = starts_with part []
contains part (c ∷ cs) = starts_with part (c ∷ cs) || contains part cs

-- `text.replace(old, new)` for a text `old` of `suc k` characters; `skip` of them are still to go.
replace_from : Text → ℕ → Text → ℕ → Text → Text
unfolding starts_with
replace_from old k new skip [] = []
replace_from old k new (suc skip) (c ∷ cs) = replace_from old k new skip cs
replace_from old k new zero (c ∷ cs) =
    let taken = new ++ replace_from old k new k cs in
    let kept = c ∷ replace_from old k new zero cs in
    if starts_with old (c ∷ cs) then taken else kept

abbrev extra : Text → ℕ
extra [] = zero
extra (c ∷ []) = zero
extra (c ∷ d ∷ cs) = suc (extra (d ∷ cs))

-- `text.replace(old, new)`, for an `old` that is not empty.
unfoldable pub replace : Text → Text → Text → Text
unfolding replace_from
replace old new t = replace_from old (extra old) new zero t

-- The characters before the first one of a class: `text.split(c)[0]`.
unfoldable pub up_to_first : (ℕ → Bool) → Text → Text
up_to_first test [] = []
up_to_first test (c ∷ cs) = let rest = up_to_first test cs in if test c then [] else c ∷ rest

unfoldable pub filter : (ℕ → Bool) → Text → Text
filter test [] = []
filter test (c ∷ cs) = let rest = filter test cs in if test c then c ∷ rest else rest

-- `any(…)` over the characters.
unfoldable pub any : (ℕ → Bool) → Text → Bool
any test [] = false
any test (c ∷ cs) = test c || any test cs

-- `text.lstrip(…)`
unfoldable pub lstrip : (ℕ → Bool) → Text → Text
lstrip test [] = []
lstrip test (c ∷ cs) = let rest = lstrip test cs in if test c then rest else c ∷ cs

abbrev keep_last : (ℕ → Bool) → ℕ → Text → Text
keep_last test c [] = if test c then [] else c ∷ []
keep_last test c (d ∷ ds) = c ∷ d ∷ ds

-- `text.rstrip(…)`
unfoldable pub rstrip : (ℕ → Bool) → Text → Text
rstrip test [] = []
rstrip test (c ∷ cs) = keep_last test c (rstrip test cs)

-- `text.strip(…)`
unfoldable pub strip : (ℕ → Bool) → Text → Text
unfolding lstrip rstrip
strip test t = rstrip test (lstrip test t)

-- The pieces between the runs of a class; the first one is under way.
split_from : (ℕ → Bool) → Bool → Text → Text × List Text
split_from test in_run [] = ([], [])
split_from test in_run (c ∷ cs) =
    let (piece, more) = split_from test (test c) cs in
    if test c then (if in_run then (piece, more) else ([], piece ∷ more)) else (c ∷ piece, more)

-- `re.split("[…]+", text)`
unfoldable pub split : (ℕ → Bool) → Text → List Text
unfolding split_from
split test t = let (piece, more) = split_from test false t in piece ∷ more

-- `text.split(c)` for one character.
unfoldable pub split_at : (ℕ → Bool) → Text → Text × List Text
split_at test [] = ([], [])
split_at test (c ∷ cs) =
    let (piece, more) = split_at test cs in if test c then ([], piece ∷ more) else (c ∷ piece, more)

-- `"".join(texts)`
unfoldable pub join : List Text → Text
join [] = []
join (t ∷ ts) = t ++ join ts
