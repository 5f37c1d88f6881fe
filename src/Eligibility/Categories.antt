-- ===== src/Eligibility/Categories.antt =====
-- The tables of app/models/venue_category.py.
use cs_server.Prelude.{String, List, [], ◌∷◌}

abbrev pub Table : Type 0
Table = List (String × String)

-- The keys of `CATEGORIES`; the labels and colours are for display only.
abbrev pub categories : List String
categories =
    "BAR" ∷ "PUB" ∷ "COCKTAIL_BAR" ∷ "NIGHTCLUB" ∷ "KARAOKE" ∷ "BREWERY" ∷ "WINERY" ∷ "COFFEE_SHOP"
    ∷ "BAKERY" ∷ "RESTAURANT" ∷ "BUFFET" ∷ "FOOD_DRINK" ∷ "EVENT_VENUE" ∷ "LIVE_MUSIC" ∷ "CASINO"
    ∷ "ENTERTAINMENT" ∷ "PARK" ∷ "OTHER" ∷ []

abbrev pub google_to_category : Table
google_to_category =
    ("bar", "BAR")
    ∷ ("bar_and_grill", "BAR")
    ∷ ("snack_bar", "BAR")
    ∷ ("irish_pub", "PUB")
    ∷ ("pub", "PUB")
    ∷ ("cocktail_bar", "COCKTAIL_BAR")
    ∷ ("wine_bar", "COCKTAIL_BAR")
    ∷ ("night_club", "NIGHTCLUB")
    ∷ ("karaoke", "KARAOKE")
    ∷ ("brewery", "BREWERY")
    ∷ ("winery", "WINERY")
    ∷ ("coffee_shop", "COFFEE_SHOP")
    ∷ ("cafe", "COFFEE_SHOP")
    ∷ ("bakery", "BAKERY")
    ∷ ("restaurant", "RESTAURANT")
    ∷ ("brazilian_restaurant", "RESTAURANT")
    ∷ ("portuguese_restaurant", "RESTAURANT")
    ∷ ("argentinian_restaurant", "RESTAURANT")
    ∷ ("family_restaurant", "RESTAURANT")
    ∷ ("seafood_restaurant", "RESTAURANT")
    ∷ ("steak_restaurant", "RESTAURANT")
    ∷ ("pizza_restaurant", "RESTAURANT")
    ∷ ("italian_restaurant", "RESTAURANT")
    ∷ ("japanese_restaurant", "RESTAURANT")
    ∷ ("chinese_restaurant", "RESTAURANT")
    ∷ ("mexican_restaurant", "RESTAURANT")
    ∷ ("asian_restaurant", "RESTAURANT")
    ∷ ("mediterranean_restaurant", "RESTAURANT")
    ∷ ("french_restaurant", "RESTAURANT")
    ∷ ("indian_restaurant", "RESTAURANT")
    ∷ ("thai_restaurant", "RESTAURANT")
    ∷ ("turkish_restaurant", "RESTAURANT")
    ∷ ("korean_restaurant", "RESTAURANT")
    ∷ ("vegetarian_restaurant", "RESTAURANT")
    ∷ ("vegan_restaurant", "RESTAURANT")
    ∷ ("ramen_restaurant", "RESTAURANT")
    ∷ ("sushi_restaurant", "RESTAURANT")
    ∷ ("hamburger_restaurant", "RESTAURANT")
    ∷ ("barbecue_restaurant", "RESTAURANT")
    ∷ ("buffet_restaurant", "BUFFET")
    ∷ ("bistro", "FOOD_DRINK")
    ∷ ("deli", "FOOD_DRINK")
    ∷ ("cafeteria", "FOOD_DRINK")
    ∷ ("food_court", "FOOD_DRINK")
    ∷ ("acai_shop", "FOOD_DRINK")
    ∷ ("salad_shop", "FOOD_DRINK")
    ∷ ("ice_cream_shop", "FOOD_DRINK")
    ∷ ("pastry_shop", "FOOD_DRINK")
    ∷ ("confectionery", "FOOD_DRINK")
    ∷ ("juice_shop", "FOOD_DRINK")
    ∷ ("event_venue", "EVENT_VENUE")
    ∷ ("performing_arts_theater", "LIVE_MUSIC")
    ∷ ("cultural_center", "LIVE_MUSIC")
    ∷ ("video_arcade", "ENTERTAINMENT")
    ∷ ("casino", "CASINO")
    ∷ ("park", "PARK")
    ∷ ("plaza", "PARK")
    ∷ ("city_park", "PARK")
    ∷ ("historical_landmark", "PARK")
    ∷ []

abbrev pub besttime_to_category : Table
besttime_to_category =
    ("BAR", "BAR")
    ∷ ("BEER", "BAR")
    ∷ ("CLUBS", "NIGHTCLUB")
    ∷ ("BREWERY", "BREWERY")
    ∷ ("CONCERT_HALL", "LIVE_MUSIC")
    ∷ ("EVENT_VENUE", "EVENT_VENUE")
    ∷ ("PERFORMING_ARTS", "LIVE_MUSIC")
    ∷ ("ARTS", "ENTERTAINMENT")
    ∷ ("WINERY", "WINERY")
    ∷ ("CASINO", "CASINO")
    ∷ ("FOOD_AND_DRINK", "FOOD_DRINK")
    ∷ ("BISTRO", "FOOD_DRINK")
    ∷ ("RESTAURANT", "RESTAURANT")
    ∷ ("CAFE", "COFFEE_SHOP")
    ∷ ("PARK", "PARK")
    ∷ ("PLAZA", "PARK")
    ∷ ("CITY_PARK", "PARK")
    ∷ []

abbrev pub representative_google_types : Table
representative_google_types =
    ("BAR", "bar")
    ∷ ("PUB", "pub")
    ∷ ("COCKTAIL_BAR", "cocktail_bar")
    ∷ ("NIGHTCLUB", "night_club")
    ∷ ("KARAOKE", "karaoke")
    ∷ ("BREWERY", "brewery")
    ∷ ("WINERY", "winery")
    ∷ ("COFFEE_SHOP", "coffee_shop")
    ∷ ("BAKERY", "bakery")
    ∷ ("RESTAURANT", "restaurant")
    ∷ ("BUFFET", "buffet_restaurant")
    ∷ ("FOOD_DRINK", "bistro")
    ∷ ("EVENT_VENUE", "event_venue")
    ∷ ("LIVE_MUSIC", "performing_arts_theater")
    ∷ ("CASINO", "casino")
    ∷ ("ENTERTAINMENT", "video_arcade")
    ∷ ("PARK", "park")
    ∷ []
