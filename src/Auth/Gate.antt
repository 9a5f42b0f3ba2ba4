-- ===== src/Auth/Gate.antt =====
-- auth/middleware.go: which requests reach the handler behind the middleware, and as whom.
use modigo_runner.Base.{
  ℕ, ◌≡◌, ◌↔◌, refl, sym, ap, subst, ◌∙◌, ◌⊎◌, inl, inr, ℤ, true, false, [], ◌∷◌, ◌++◌, some, Text,
  codes, is_empty, is_free, Bool-cases, Result-cases, has_prefix, trim_prefix, split-three_iff, ok,
}
use modigo_runner.Auth.{
  Claims, Codec, Algorithm, Credentials, Context, period, hs256, signature, bearer_token,
  find_token, extract_claims, get_user_id, with_claims, count_failure, error_body, protect,
  value_or_empty,
}
use modigo_runner.Auth.Token.{Current, Genuine, subject, validate_jwt_iff}

-- A token as it is issued: a header and a payload in JSON, encoded, and signed.
abbrev pub issue : Codec → (secret : Text) → (header payload : Text) → Text
issue k secret header payload =
    let h = k.encode header in
    let p = k.encode payload in h ++ period ∷ (p ++ period ∷ signature k secret h p)

-- What base64url is for: it is read back, and its texts have no dot.
pub record Faithful (k : Codec) : Type 0 where
  pub decode-encode : (bytes : Text) → k.decode (k.encode bytes) ≡ some bytes
  pub encode-free : (bytes : Text) → is_free period (k.encode bytes) ≡ true

module _ (k : Codec) (now : ℤ) (secret : Text) where
  issue-Genuine :
      (header payload : Text) (issued : Claims)
      → Faithful k
      → k.parse_header header ≡ some (Algorithm.named hs256)
      → k.parse_claims payload ≡ some issued
      → Current now issued
      → is_empty (subject issued) ≡ false
      → Genuine k now secret
          (issue k secret header payload)
          (record issued { user_id = subject issued })
  unfolding signature
  issue-Genuine header payload issued f alg claims current user = record {
    header = k.encode header;
    payload = k.encode payload;
    parts =
        (split-three_iff (issue k secret header payload) period (k.encode header) (k.encode payload)
            (signature k secret (k.encode header) (k.encode payload))).1
          (refl, f.encode-free header, f.encode-free payload, f.encode-free _);
    header_ok = record { bytes = header; decodes = f.decode-encode header; parses = alg };
    payload_ok = record {
      bytes = payload;
      issued = issued;
      decodes = f.decode-encode payload;
      parses = claims;
      accepted = record { current = current; named = user; normal = refl };
    };
  }

-- A client that sends the token in the header `Authorization`.
abbrev pub with_bearer : Text → Credentials → Credentials
with_bearer token r = record r { authorization = codes "Bearer " ++ token }

find_token-with_bearer :
    (token : Text) (r : Credentials)
    → is_empty token ≡ false
    → find_token (with_bearer token r) ≡ token
unfolding find_token bearer_token has_prefix trim_prefix
find_token-with_bearer token r h = rw (h, h) refl

is_empty-append : (s : Text) (c : ℕ) (t : Text) → is_empty (s ++ c ∷ t) ≡ false
is_empty-append [] c t = refl
is_empty-append (d ∷ s) c t = refl

module _ (k : Codec) (now : ℤ) (secret : Text) where
  Genuine-not_empty :
      (token : Text) (claims : Claims) → Genuine k now secret token claims → is_empty token ≡ false
  Genuine-not_empty token claims g =
      let (e, _, _, _) =
        (split-three_iff token period g.header g.payload (signature k secret g.header g.payload)).0
          g.parts in
      ap is_empty e ∙ is_empty-append g.header period _

  extract_claims_iff :
      (r : Credentials) (claims : Claims)
      → (extract_claims k now secret r ≡ ok claims) ↔ Genuine k now secret (find_token r) claims
  unfolding extract_claims
  extract_claims_iff r claims = elim (Bool-cases (is_empty (find_token r))) [
    | inl e ↦ (
      (λ h. cc (rw (e, extract_claims) at h)),
      (λ g. cc (Genuine-not_empty (find_token r) claims g)),
    )
    | inr e ↦ rw (e, extract_claims) (validate_jwt_iff k now secret (find_token r) claims)
  ]

-- The request reached the handler, as the claims' user.
abbrev pub Passed :
    {S R : Type 0} → (Context → S → S × R) → Context → Claims → ℕ × S → (ℕ × S) × R → Type 0
Passed next ctx claims (failures, s) result =
    (get_user_id (with_claims claims ctx) ≡ claims.user_id)
    × (is_empty claims.user_id ≡ false)
    × (result
        ≡ ((failures, (next (with_claims claims ctx) s).0), (next (with_claims claims ctx) s).1))

module _ {S R : Type 0} (next : Context → S → S × R) (refuse : (status : ℕ) → (body : Text) → R)
    (k : Codec) (now : ℤ) (secret : Text) (ctx : Context) (r : Credentials) (st : ℕ × S)
    (set : is_empty secret ≡ false) where
  protect-ok :
      (claims : Claims)
      → extract_claims k now secret r ≡ ok claims
      → Passed next ctx claims st (protect next refuse k now secret ctx r st)
  unfolding protect get_user_id value_or_empty with_claims
  protect-ok claims e =
      let a = ((extract_claims_iff k now secret r claims).0 e).payload_ok.accepted in
      (refl, ap (λ c. is_empty c.user_id) a.normal ∙ a.named, rw (set, e, protect) refl)

  -- With a secret that is not empty, a request either carries a genuine token, and the handler runs
  -- with a user that is not empty, and nothing is counted; or it carries none for any claims, and it
  -- is answered 401 and counted once, and the handler's state is as it was.
  pub protect-cases :
      ((claims : Claims) × Genuine k now secret (find_token r) claims
        × Passed next ctx claims st (protect next refuse k now secret ctx r st))
      ⊎ (((claims : Claims) → Genuine k now secret (find_token r) claims → ⊥)
          × ((e : Text) × (protect next refuse k now secret ctx r st
                ≡ ((count_failure st.0, st.1), refuse 401 (error_body e)))))
  unfolding protect
  protect-cases = elim (Result-cases (extract_claims k now secret r)) [
    | inl (claims, e) ↦
        inl (claims, (extract_claims_iff k now secret r claims).0 e, protect-ok claims e)
    | inr (x, e) ↦ inr (
      (λ claims g. cc ((extract_claims_iff k now secret r claims).1 g)),
      (x, rw (set, e, protect) refl),
    )
  ]

-- A token that is issued with claims that are current and name a user, in the header `Authorization`,
-- lets the request through with the claims' customer and plan and with that user, whatever the other
-- headers hold (for an encoding that is read back and without dots, and JSON that is read as meant).
pub issue-protect :
    {S R : Type 0} (next : Context → S → S × R) (refuse : (status : ℕ) → (body : Text) → R)
    (k : Codec) (now : ℤ) (secret header payload : Text) (issued : Claims) (ctx : Context)
    (r : Credentials) (failures : ℕ) (s : S)
    → Faithful k
    → k.parse_header header ≡ some (Algorithm.named hs256)
    → k.parse_claims payload ≡ some issued
    → Current now issued
    → is_empty (subject issued) ≡ false
    → is_empty secret ≡ false
    → protect next refuse k now secret ctx
        (with_bearer (issue k secret header payload) r)
        (failures, s)
      ≡ (
        (failures, (next (with_claims (record issued { user_id = subject issued }) ctx) s).0),
        (next (with_claims (record issued { user_id = subject issued }) ctx) s).1,
      )
unfolding protect
issue-protect next refuse k now secret header payload issued ctx r failures s f alg claims current
      user set =
    let token = issue k secret header payload in
    let found = find_token-with_bearer token r (is_empty-append (k.encode header) period _) in
    let genuine = issue-Genuine k now secret header payload issued f alg claims current user in
    let taken =
      (extract_claims_iff k now secret (with_bearer token r)
          (record issued { user_id = subject issued })).1
        (subst (λ t. Genuine k now secret t (record issued { user_id = subject issued }))
          (sym found) genuine) in
    rw (set, taken, protect) refl
