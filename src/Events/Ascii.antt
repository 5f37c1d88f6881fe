-- ===== src/Events/Ascii.antt =====
-- The tables of texts for the concrete runs: ASCII alone.
use Prim.Native.Nat.{◌+◌}
use cs_server.Prelude.{
  ℕ, zero, suc, String, ◌≡◌, refl, ap, false, List, [], ◌∷◌, arith, leb, ◌&&◌, ◌==◌, if◌then◌else◌,
  map,
}
use cs_server.Python.Json.{codes}
use cs_server.Events.Identity.{TextTables}
use cs_server.Events.Identity.Payload.{DateText, NoBar}

-- Plain ASCII tables; a day is written as that many zeros behind a one.
abbrev pub lower : ℕ → ℕ
lower c = if leb b'A' c && leb c b'Z' then c + 32 else c

abbrev zeros : ℕ → List ℕ
zeros zero = []
zeros (suc n) = b'0' ∷ zeros n

abbrev marks : List ℕ → String
marks [] = ""
marks (c ∷ cs) = String.◌∷◌ "x" (marks cs)

abbrev pub ascii : TextTables
ascii = record {
  code_points = codes;
  casefold = map lower;
  nfkd = λ cs. cs;
  is_combining = λ c. false;
  is_space = λ c. c == 32;
  isoformat = λ day. b'1' ∷ zeros day;
  digest = marks;
}

zeros-NoBar : (n : ℕ) → NoBar (zeros n)
zeros-NoBar zero = tt
zeros-NoBar (suc n) = (omega arith, zeros-NoBar n)

zeros-injective : (m n : ℕ) → zeros m ≡ zeros n → m ≡ n
zeros-injective zero zero h = refl
zeros-injective zero (suc n) h = cc
zeros-injective (suc m) zero h = cc
zeros-injective (suc m) (suc n) h = ap suc (zeros-injective m n (cc))

pub ascii-DateText : DateText ascii
ascii-DateText = record {
  no_bar = λ day. (omega arith, zeros-NoBar day);
  injective = λ d e h. zeros-injective d e (cc);
  nonempty = λ d h. cc;
}
