-- ===== src/Service/Cors.antt =====
-- main.go: `corsMiddleware`.
use modigo_runner.Base.{
  Bool, ◌||◌, List, any, Option, none, some, Text, codes, text_eq, is_empty, if◌then◌else◌,
}

-- The loop over `AllowedOrigins`, which ends at the first that fits.
unfoldable pub origin_allowed : (allowed_origins : List Text) → (origin : Text) → Bool
origin_allowed allowed_origins origin =
    any (λ o. text_eq o (codes "*") || text_eq o origin) allowed_origins

-- The header `Access-Control-Allow-Origin`.
unfoldable pub allow_origin : (allowed_origins : List Text) → (origin : Text) → Option Text
allow_origin allowed_origins origin =
    if origin_allowed allowed_origins origin
    then some (if is_empty origin then codes "*" else origin)
    else none

pub record CorsHeaders : Type 0 where
  pub origin : Option Text
  pub methods : Text
  pub headers : Text
  pub max_age : Text

unfoldable pub cors_headers : (allowed_origins : List Text) → (origin : Text) → CorsHeaders
cors_headers allowed_origins origin = record {
  origin = allow_origin allowed_origins origin;
  methods = codes "GET, POST, OPTIONS";
  headers = codes "Content-Type, Authorization";
  max_age = codes "86400";
}

-- `http.MethodOptions` is answered here.
unfoldable pub is_preflight : (method : Text) → Bool
is_preflight method = text_eq method (codes "OPTIONS")
