-- ===== src/Service/Origins.antt =====
-- main.go and handler/websocket.go: the two checks of a request's origin.
use modigo_runner.Base.{
  ◌≡◌, false, ◌||◌, List, [], ◌∷◌, any, none, some, Text, codes, text_eq, text_eq_iff, is_empty,
  arith, if◌then◌else◌, refl,
}
use modigo_runner.Session.{check_origin}
use modigo_runner.Service.Cors.{origin_allowed, allow_origin}

text_eq_comm : (s t : Text) → text_eq s t ≡ text_eq t s
text_eq_comm s t = ground (arith, text_eq_iff s t, text_eq_iff t s)

origin_allowed-any :
    (allowed : List Text) (origin : Text)
    → origin_allowed allowed origin
      ≡ (any (λ o. text_eq o (codes "*")) allowed || any (text_eq origin) allowed)
unfolding origin_allowed
origin_allowed-any [] origin = refl
origin_allowed-any (o ∷ os) origin =
    let rest = origin_allowed-any os origin in
    let same = text_eq_comm o origin in rw (rest, same) (ground arith)

-- A browser's page is treated alike by both checks, whatever the list of origins: the header that
-- lets the page read answers names its origin if it may open a WebSocket, and is missing if it may not
-- (for a request that names its origin).
pub allow_origin-check_origin :
    (allowed : List Text) (origin : Text)
    → is_empty origin ≡ false
    → allow_origin allowed origin ≡ (if check_origin allowed origin then some origin else none)
unfolding allow_origin check_origin
allow_origin-check_origin allowed origin h =
    rw (origin_allowed-any allowed origin, h) (ground (arith, h))
