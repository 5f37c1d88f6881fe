-- ===== src/Python/Ascii.antt =====
-- The tables of ASCII, with the letters of Latin-1 as word characters, for runs at concrete inputs.
use cs_server.Prelude.{ℕ, ◌+◌, ◌-◌, ◌||◌, ◌&&◌, none, some, [], ◌∷◌, ◌==◌, leb, if◌then◌else◌}
use cs_server.Python.Regex.{Text, Unicode}

abbrev pub lower_char : ℕ → ℕ
lower_char c = if leb 65 c && leb c 90 then c + 32 else c

abbrev pub lower_all : Text → Text
lower_all [] = []
lower_all (c ∷ cs) = lower_char c ∷ lower_all cs

abbrev pub ascii : Unicode
ascii = record {
  decimal = λ c. if leb 48 c && leb c 57 then some (c - 48) else none;
  is_word = λ c.
      leb 48 c && leb c 57
      || leb 65 c && leb c 90
      || leb 97 c && leb c 122
      || c == 95
      || leb 192 c && leb c 255;
  is_space = λ c. c == 32 || leb 9 c && leb c 13 || leb 28 c && leb c 31;
  lower = lower_all;
  same_letter = λ k c. k == lower_char c;
}
