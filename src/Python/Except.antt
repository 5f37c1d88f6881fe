-- ===== src/Python/Except.antt =====
-- Python exceptions as values, and actions on a state that may raise.
use cs_server.Prelude.{◌≡◌, refl, subst, ◌⊎◌, inl, inr}

-- The exceptions that the modelled code can meet.
pub data Error : Type 0 where
  type_error value_error attribute_error key_error overflow_error redis_error integrity_error :
      Error

pub data Result {ℓ} (A : Type ℓ) : Type ℓ where
  ok : A → Result A
  raised : Error → Result A

pub Result-cases :
    {A : Type 0} (r : Result A) → ((a : A) × (r ≡ ok a)) ⊎ ((e : Error) × (r ≡ raised e))
Result-cases (ok a) = inl (a, refl)
Result-cases (raised e) = inr (e, refl)

abbrev pub and_then : {A B : Type 0} → Result A → (A → Result B) → Result B
and_then (ok a) f = f a
and_then (raised e) f = raised e

-- What holds of the value, where there is one.
pub record Holds {A : Type 0} (P : A → Type 0) (r : Result A) : Type 0 where
  pub of_value : (a : A) → r ≡ ok a → P a

pub ok-Holds : {A : Type 0} {P : A → Type 0} (a : A) → P a → Holds P (ok a)
ok-Holds {A} {P} a h = record { of_value = λ b e. subst P (cc) h }

pub and_then-Holds :
    {A B : Type 0} {P : A → Type 0} {Q : B → Type 0} (r : Result A) (f : A → Result B)
    → Holds P r
    → ((a : A) → P a → Holds Q (f a))
    → Holds Q (and_then r f)
and_then-Holds (ok a) f h g = g a (h.of_value a refl)
and_then-Holds (raised e) f h g = record { of_value = λ b d. absurd (cc) }

-- An action on a state: its result, and the state that it leaves, also when it raises.
abbrev pub Exec : Type 0 → Type 0 → Type 0
Exec S A = S → Result A × S

abbrev pub proceed : {S A B : Type 0} → Result A → S → (A → Exec S B) → Result B × S
proceed (ok a) s f = f a s
proceed (raised e) s f = (raised e, s)

infixl 5 ◌>>=◌ ◌>>◌
abbrev pub ◌>>=◌ : {S A B : Type 0} → Exec S A → (A → Exec S B) → Exec S B
◌>>=◌ m f s = proceed (m s).0 (m s).1 f

abbrev pub ◌>>◌ : {S A B : Type 0} → Exec S A → Exec S B → Exec S B
◌>>◌ m k = m >>= λ _. k

abbrev pub pure : {S A : Type 0} → A → Exec S A
pure a s = (ok a, s)

abbrev pub lift : {S A : Type 0} → Result A → Exec S A
lift r s = (r, s)
