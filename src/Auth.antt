-- ===== src/Auth.antt =====
-- auth/middleware.go: who a request comes from, by the token it carries.
-- The signature (HMAC-SHA256), base64url and the readers of JSON are the parameter `Codec`; the clock
-- in seconds is the parameter `now`.
pub mod Token
pub mod Gate
mod Examples
use modigo_runner.Base.{
  ℕ, ◌+◌, ◌%◌, ◌^◌, ℤ, pos, ltb_ℤ, Bool, true, false, not, ◌&&◌, List, [], ◌∷◌, ◌++◌, Option, none,
  some, Text, codes, text_eq, is_empty, split, has_prefix, trim_prefix, trim_space, if◌then◌else◌,
  Result, ok, err,
}

-- "Claims represents the JWT payload".
pub record Claims : Type 0 where
  pub user_id : Text
  pub sub : Text
  pub customer_id : Text
  pub plan : Text
  pub exp : ℤ
  pub iat : ℤ

-- `header["alg"]`, an `interface{}`: a text, or something else as `%v` prints it.
pub data Algorithm : Type 0 where
  named : Text → Algorithm
  unnamed : (printed : Text) → Algorithm

pub record Codec : Type 0 where
  pub hmac : (secret : Text) → (message : Text) → Text
  pub encode : Text → Text
  pub decode : Text → Option Text
  pub parse_header : Text → Option Algorithm
  pub parse_claims : Text → Option Claims

-- The parts of a request that may hold a token: two headers and the query.
pub record Credentials : Type 0 where
  pub authorization : Text
  pub protocol : Text
  pub query_token : Text

-- The values of the request's context under the keys of this package.
pub record Context : Type 0 where
  pub user_id : Option Text
  pub customer_id : Option Text
  pub plan : Option Text
  pub auth_method : Option Text

abbrev pub empty_context : Context
empty_context = record { user_id = none; customer_id = none; plan = none; auth_method = none }

unfoldable pub value_or_empty : Option Text → Text
value_or_empty none = []
value_or_empty (some v) = v

unfoldable pub get_user_id : Context → Text
get_user_id ctx = value_or_empty ctx.user_id

unfoldable pub get_customer_id : Context → Text
get_customer_id ctx = value_or_empty ctx.customer_id

unfoldable pub get_plan : Context → Text
get_plan ctx = value_or_empty ctx.plan

abbrev pub period : ℕ
period = b'.'

abbrev pub hs256 : Text
hs256 = codes "HS256"

unfoldable pub check_algorithm : Algorithm → Option Text
check_algorithm (named alg) =
    if text_eq alg hs256 then none else some (codes "unsupported algorithm: " ++ alg)
check_algorithm (unnamed printed) = some (codes "unsupported algorithm: " ++ printed)

-- "Normalize user_id"
unfoldable pub normalize : Claims → Claims
normalize c = if is_empty c.user_id then record c { user_id = c.sub } else c

unfoldable pub check_claims : (now : ℤ) → Claims → Result Claims
check_claims now c =
    let c1 = normalize c in
    if ltb_ℤ (pos 0) c.exp && ltb_ℤ c.exp now
    then err (codes "token expired")
    else if is_empty c1.user_id
    then err (codes "no user_id in token")
    else ok c1

-- `strings.SplitN(s, sep, 2)[0]`
unfoldable pub first_part : List Text → Text
first_part [] = []
first_part (p ∷ ps) = p

unfoldable pub bearer_token : Text → Text
bearer_token header =
    if has_prefix header (codes "Bearer ") then trim_prefix header (codes "Bearer ") else []

unfoldable pub protocol_token : Text → Text
protocol_token proto = if is_empty proto then [] else trim_space (first_part (split proto b','))

unfoldable pub find_token : Credentials → Text
find_token r =
    let token1 = bearer_token r.authorization in
    let token2 = if is_empty token1 then protocol_token r.protocol else token1 in
    if is_empty token2 then r.query_token else token2

unfoldable pub signature : Codec → (secret : Text) → (header payload : Text) → Text
signature k secret header payload = k.encode (k.hmac secret (header ++ period ∷ payload))

module _ (k : Codec) (now : ℤ) (secret : Text) where
  unfoldable pub check_header : Text → Option Text
  check_header header = elim (k.decode header) [
    | none ↦ some (codes "invalid token header")
    | some bytes ↦ elim (k.parse_header bytes) [
      | none ↦ some (codes "invalid token header")
      | some alg ↦ check_algorithm alg
    ]
  ]

  unfoldable pub read_claims : Text → Result Claims
  read_claims payload = elim (k.decode payload) [
    | none ↦ err (codes "invalid token payload")
    | some bytes ↦ elim (k.parse_claims bytes) [
      | none ↦ err (codes "invalid token payload")
      | some c ↦ check_claims now c
    ]
  ]

  unfoldable pub validate_parts : List Text → Result Claims
  validate_parts (header ∷ payload ∷ sig ∷ []) = elim (check_header header) [
    | some e ↦ err e
    | none ↦
        if not (text_eq sig (signature k secret header payload))
        then err (codes "invalid token signature")
        else read_claims payload
  ]
  validate_parts _ = err (codes "invalid token format")

  unfoldable pub validate_jwt : Text → Result Claims
  validate_jwt token = validate_parts (split token period)

  unfoldable pub extract_claims : Credentials → Result Claims
  extract_claims r =
      let token = find_token r in
      if is_empty token then err (codes "authentication required") else validate_jwt token

unfoldable pub optional : Text → Option Text → Option Text
optional v old = if is_empty v then old else some v

unfoldable pub with_claims : Claims → Context → Context
with_claims c ctx = record {
  user_id = some c.user_id;
  customer_id = optional c.customer_id ctx.customer_id;
  plan = optional c.plan ctx.plan;
  auth_method = some (codes "jwt");
}

abbrev pub error_body : Text → Text
error_body e = codes "{\"error\":\"" ++ e ++ codes "\"}"

-- `authFailures.Add(1)` on a `uint64`.
unfoldable pub count_failure : ℕ → ℕ
count_failure n = (n + 1) % 2 ^ 64

-- The middleware around a handler: the state is the count of refusals with the handler's own, and
-- `refuse` is `http.Error`.
module _ {S R : Type 0} (next : Context → S → S × R)
    (refuse : (status : ℕ) → (body : Text) → R) where
  unfoldable pub protect :
      Codec → (now : ℤ) → (secret : Text) → Context → Credentials → ℕ × S → (ℕ × S) × R
  protect k now secret ctx r (failures, s) =
      let (s0, reply0) = next (record ctx { auth_method = some (codes "none") }) s in
      if is_empty secret then ((failures, s0), reply0) else elim (extract_claims k now secret r) [
        | err e ↦ ((count_failure failures, s), refuse 401 (error_body e))
        | ok c ↦ let (s1, reply) = next (with_claims c ctx) s in ((failures, s1), reply)
      ]
