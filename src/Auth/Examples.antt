-- ===== src/Auth/Examples.antt =====
-- A token under a toy encoding: each byte is moved beyond the dot.
use modigo_runner.Base.{
  ℕ, ◌+◌, ◌-◌, ◌≡◌, refl, ap, ◌↔◌, ◌⊎◌, inr, pos, true, [], ◌∷◌, ◌++◌, none, some, Text, codes,
  text_eq, arith, is_free, if◌then◌else◌, ok, has_prefix, trim_prefix, split, trim_space,
}
use modigo_runner.Auth.{
  Claims, Codec, Algorithm, Credentials, Context, empty_context, hs256, value_or_empty, get_user_id,
  get_customer_id, get_plan, check_algorithm, normalize, check_claims, first_part, bearer_token,
  protocol_token, find_token, check_header, read_claims, validate_parts, validate_jwt,
  extract_claims, signature, optional, with_claims, error_body, count_failure, protect, period,
}
use modigo_runner.Auth.Token.{Genuine, validate_jwt_iff}
use modigo_runner.Auth.Gate.{issue, Faithful, with_bearer, Passed, protect-cases, issue-protect}

auth_code : Unit {0}
unfolding value_or_empty get_user_id get_customer_id get_plan check_algorithm normalize check_claims
    first_part bearer_token protocol_token find_token check_header read_claims validate_parts
    validate_jwt extract_claims signature optional with_claims count_failure protect has_prefix
    trim_prefix split trim_space text_eq
auth_code = tt

abbrev encode : Text → Text
encode [] = []
encode (c ∷ s) = (c + 47) ∷ encode s

abbrev decode : Text → Text
decode [] = []
decode (c ∷ s) = (c - 47) ∷ decode s

decode-encode : (s : Text) → decode (encode s) ≡ s
decode-encode [] = refl
decode-encode (c ∷ s) = ground (arith, decode-encode s)

encode-free : (s : Text) → is_free period (encode s) ≡ true
encode-free [] = refl
encode-free (c ∷ s) = ground (arith, encode-free s)

abbrev claims : Claims
claims = record {
  user_id = [];
  sub = codes "ada";
  customer_id = codes "acme";
  plan = [];
  exp = pos 2000;
  iat = pos 1000;
}

abbrev ada : Claims
ada = record claims { user_id = codes "ada" }

abbrev codec : Codec
codec = record {
  hmac = λ secret message. secret ++ message;
  encode = encode;
  decode = λ s. some (decode s);
  parse_header = λ bytes. if text_eq bytes (codes "h") then some (Algorithm.named hs256) else none;
  parse_claims = λ bytes. if text_eq bytes (codes "c") then some claims else none;
}

codec-Faithful : Faithful codec
codec-Faithful = record {
  decode-encode = λ bytes. ap some (decode-encode bytes);
  encode-free = encode-free;
}

abbrev secret : Text
secret = codes "s3"

abbrev token : Text
token = issue codec secret (codes "h") (codes "c")

abbrev credentials : Credentials
credentials = record { authorization = []; protocol = codes "x.y, chat"; query_token = [] }

-- A handler that counts its calls and answers the user.
abbrev count_call : Context → ℕ → ℕ × Text
count_call ctx n = (n + 1, get_user_id ctx)

abbrev refuse_with : ℕ → Text → Text
refuse_with status body = status ∷ body

forged_rejected :
    protect count_call refuse_with codec (pos 1500) secret empty_context credentials (0, 0)
    ≡ ((1, 0), 401 ∷ error_body (codes "invalid token format"))
unfolding auth_code
forged_rejected = refl

expired_rejected :
    protect count_call refuse_with codec
      (pos 2001)
      secret
      empty_context
      (with_bearer token credentials)
      (7, 0)
    ≡ ((8, 0), 401 ∷ error_body (codes "token expired"))
unfolding auth_code
expired_rejected = refl

validate_jwt_iff_example :
    (validate_jwt codec (pos 1500) secret token ≡ ok ada)
    ↔ Genuine codec (pos 1500) secret token ada
validate_jwt_iff_example = validate_jwt_iff codec (pos 1500) secret token ada

protect-cases_example :
    ((c : Claims) × Genuine codec (pos 1500) secret (find_token credentials) c
      × Passed count_call empty_context c
          (0, 0)
          (protect count_call refuse_with codec (pos 1500) secret empty_context credentials (0, 0)))
    ⊎ (((c : Claims) → Genuine codec (pos 1500) secret (find_token credentials) c → ⊥)
        × ((e : Text) × (protect count_call refuse_with codec
                (pos 1500)
                secret
                empty_context
                credentials
                (0, 0)
              ≡ ((count_failure 0, 0), refuse_with 401 (error_body e)))))
protect-cases_example =
    protect-cases count_call refuse_with codec (pos 1500) secret empty_context credentials (0, 0)
      refl

issue-protect_example :
    protect count_call refuse_with codec
      (pos 1500)
      secret
      empty_context
      (with_bearer token credentials)
      (0, 0)
    ≡ ((0, 1), codes "ada")
unfolding get_user_id with_claims value_or_empty text_eq
issue-protect_example =
    issue-protect count_call refuse_with codec (pos 1500) secret (codes "h") (codes "c") claims
      empty_context credentials 0 0 codec-Faithful refl refl (inr (ground arith)) refl refl
