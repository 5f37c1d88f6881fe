-- ===== src/Eligibility/Defaults.antt =====
-- The default block lists of app/services/venue_eligibility.py; a set is a list of its members.
use cs_server.Prelude.{String, List, [], ◌∷◌}

abbrev pub default_blocked_venue_types : List String
default_blocked_venue_types =
    "SHOPPING" ∷ "SHOPPING_CENTER" ∷ "DEPARTMENT_STORE" ∷ "SUPERMARKET" ∷ "GROCERY" ∷ "MARKET"
    ∷ "COFFEE" ∷ "FAST_FOOD" ∷ "BAKERY" ∷ "DESSERT" ∷ "LIBRARY" ∷ "SCHOOL" ∷ "CHURCH" ∷ "TEMPLE"
    ∷ "GYM" ∷ "FITNESS" ∷ "HOSPITAL" ∷ "PHARMACY" ∷ "BANK" ∷ "GAS_STATION" ∷ "MUSEUM"
    ∷ "MODERN_ART_MUSEUM" ∷ "APPAREL" ∷ "GIFTS" ∷ "PERSONAL_CARE"
    ∷ "TELECOMMUNICATIONS_SERVICE_PROVIDER" ∷ "BUSINESS_MANAGEMENT_CONSULTANT"
    ∷ "SOCIAL_SERVICES_ORGANIZATION" ∷ "TOURIST_DESTINATION" ∷ "HISTORICAL" ∷ "SPORTS_COMPLEX"
    ∷ "SPORTS_CLUB" ∷ "GOLF" ∷ "BOATING" ∷ []

abbrev pub default_blocked_google_types : List String
default_blocked_google_types =
    "garden" ∷ "national_park" ∷ "shopping_mall" ∷ "department_store" ∷ "store" ∷ "home_goods_store"
    ∷ "furniture_store" ∷ "electronics_store" ∷ "auto_parts_store" ∷ "cell_phone_store"
    ∷ "shoe_store" ∷ "cosmetics_store" ∷ "candy_store" ∷ "food_store" ∷ "health_food_store"
    ∷ "museum" ∷ "art_museum" ∷ "history_museum" ∷ "library" ∷ "book_store" ∷ "warehouse_store"
    ∷ "building_materials_store" ∷ "drugstore" ∷ "pharmacy" ∷ "supermarket" ∷ "grocery_store"
    ∷ "liquor_store" ∷ "florist" ∷ "sports_club" ∷ "tour_agency" ∷ "consultant"
    ∷ "telecommunications_service_provider" ∷ "lodging" ∷ "hotel" ∷ "church" ∷ "mosque"
    ∷ "synagogue" ∷ "hindu_temple" ∷ "hospital" ∷ "doctor" ∷ "dentist" ∷ "school" ∷ "university"
    ∷ "gas_station" ∷ "bank" ∷ "atm" ∷ "gym" ∷ "post_office" ∷ "postal_code" ∷ "business_center"
    ∷ []

abbrev pub default_hard_blocked_name_keywords : List String
default_hard_blocked_name_keywords =
    "farmácia" ∷ "farmacia" ∷ "drogaria" ∷ "hospital" ∷ "clínica" ∷ "clinica" ∷ "igreja"
    ∷ "catedral" ∷ "capela" ∷ "temple" ∷ "escola" ∷ "colégio" ∷ "colegio" ∷ "universidade"
    ∷ "faculdade" ∷ "supermercado" ∷ "atacado" ∷ "atacadão" ∷ "gym" ∷ "fitness" ∷ "caixa econômica"
    ∷ "bradesco" ∷ "itaú" ∷ "santander" ∷ "gas station" ∷ "loja " ∷ "lojas " ∷ "casas bahia"
    ∷ "magazine luiza" ∷ "americanas" ∷ "home center" ∷ "ferreira costa" ∷ "leroy merlin"
    ∷ "livraria" ∷ "biblioteca" ∷ "museu" ∷ "museum" ∷ "correios" ∷ "cartório" ∷ "delegacia"
    ∷ "tribunal" ∷ "estacionamento" ∷ "parking" ∷ "condomínio" ∷ "condominio" ∷ "edifício"
    ∷ "edificio" ∷ "pet shop" ∷ "veterinár" ∷ "barbearia" ∷ "floricultura" ∷ "nagem" ∷ "multicoisas"
    ∷ "game station" ∷ []

abbrev pub default_ambiguous_name_keywords : List String
default_ambiguous_name_keywords =
    "shopping" ∷ "mall" ∷ "parque" ∷ "park" ∷ "praça" ∷ "plaza" ∷ "mercado" ∷ "academia" ∷ "banco"
    ∷ "posto" ∷ "instituto" ∷ "catamaran" ∷ "passeio" ∷ "tour" ∷ "salão" ∷ "salao"
    ∷ "plantation square" ∷ "tim " ∷ "claro " ∷ "vivo " ∷ []
