-- ===== src/Gateway/Cors/Examples.antt =====
-- The origins' general statements at a concrete configuration.
use modularis.Base.{true, false, String, Option, some, List, [], ◌∷◌, ◌≡◌, refl, ◌↔◌}
use modularis.Gateway.Cors.{cors_origin_handler}
use modularis.Gateway.Cors.Laws.{IsLetIn, cors_origin_handler-IsLetIn}

abbrev lower : String → String
lower s = s

abbrev hostname : String → Option String
hostname s = some "evil.example"

abbrev configured : List String
configured = "https://app.example" ∷ []

-- Another site is refused.
refused_run : cors_origin_handler lower hostname configured (some "https://evil.example") ≡ false
unfolding cors_origin_handler
refused_run = refl

cors_origin_handler-IsLetIn_example :
    cors_origin_handler lower hostname configured (some "https://app.example") ≡ true
    ↔ IsLetIn lower hostname configured (some "https://app.example")
cors_origin_handler-IsLetIn_example =
    cors_origin_handler-IsLetIn lower hostname configured (some "https://app.example")
