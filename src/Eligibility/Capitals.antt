-- ===== src/Eligibility/Capitals.antt =====
-- `STATE_CAPITALS` of app/services/venue_eligibility.py: the only cities that a geo-fence can hold.
use cs_server.Prelude.{String, List, [], ◌∷◌}
use cs_server.Prelude.Int.{ℤ, pos, negsuc}

-- Coordinates in ten-thousandths of a degree.
pub record Capital : Type 0 where
  pub slug : String
  pub name : String
  pub lat : ℤ
  pub lng : ℤ

abbrev capital : String → String → ℤ → ℤ → Capital
capital slug name lat lng = record { slug = slug; name = name; lat = lat; lng = lng }

abbrev pub recife : Capital
recife = capital "recife" "Recife" (negsuc 80475) (negsuc 348769)

abbrev pub natal : Capital
natal = capital "natal" "Natal" (negsuc 57944) (negsuc 352109)

abbrev pub state_capitals : List Capital
state_capitals =
    capital "aracaju" "Aracaju" (negsuc 109471) (negsuc 370730)
    ∷ capital "belem" "Belém" (negsuc 14557) (negsuc 484901)
    ∷ capital "belo-horizonte" "Belo Horizonte" (negsuc 199166) (negsuc 439344)
    ∷ capital "boa-vista" "Boa Vista" (pos 28235) (negsuc 606757)
    ∷ capital "brasilia" "Brasília" (negsuc 157938) (negsuc 478827)
    ∷ capital "campo-grande" "Campo Grande" (negsuc 204696) (negsuc 546200)
    ∷ capital "cuiaba" "Cuiabá" (negsuc 156013) (negsuc 560978)
    ∷ capital "curitiba" "Curitiba" (negsuc 254283) (negsuc 492732)
    ∷ capital "florianopolis" "Florianópolis" (negsuc 275953) (negsuc 485479)
    ∷ capital "fortaleza" "Fortaleza" (negsuc 37318) (negsuc 385266)
    ∷ capital "goiania" "Goiânia" (negsuc 166868) (negsuc 492647)
    ∷ capital "joao-pessoa" "João Pessoa" (negsuc 71194) (negsuc 348449)
    ∷ capital "macapa" "Macapá" (pos 349) (negsuc 510693)
    ∷ capital "maceio" "Maceió" (negsuc 96497) (negsuc 357088)
    ∷ capital "manaus" "Manaus" (negsuc 31189) (negsuc 600216)
    ∷ natal
    ∷ capital "palmas" "Palmas" (negsuc 101843) (negsuc 483335)
    ∷ capital "porto-alegre" "Porto Alegre" (negsuc 300345) (negsuc 512176)
    ∷ capital "porto-velho" "Porto Velho" (negsuc 87611) (negsuc 639003)
    ∷ recife
    ∷ capital "rio-branco" "Rio Branco" (negsuc 99753) (negsuc 678248)
    ∷ capital "rio-de-janeiro" "Rio de Janeiro" (negsuc 229067) (negsuc 431728)
    ∷ capital "salvador" "Salvador" (negsuc 129713) (negsuc 385013)
    ∷ capital "sao-luis" "São Luís" (negsuc 25306) (negsuc 443067)
    ∷ capital "sao-paulo" "São Paulo" (negsuc 235504) (negsuc 466332)
    ∷ capital "teresina" "Teresina" (negsuc 50891) (negsuc 428018)
    ∷ capital "vitoria" "Vitória" (negsuc 203154) (negsuc 403127)
    ∷ []
