-- ===== src/Auth/Token.antt =====
-- auth/middleware.go: which tokens `validateJWT` takes.
use modigo_runner.Base.{
  ◌≡◌, refl, sym, ◌↔◌, ◌⊎◌, ℤ, pos, ◌≤ℤ◌, false, List, [], ◌∷◌, none, some, Bool-cases,
  Option-cases, inl, inr, ap, ◌∙◌, Text, text_eq, text_eq_iff, text_eq_refl, is_empty, arith, split,
  if◌then◌else◌, ok,
}
use modigo_runner.Auth.{
  Claims, Codec, Algorithm, period, hs256, check_algorithm, normalize, check_claims, signature,
  check_header, read_claims, validate_parts, validate_jwt,
}

-- Whom the claims are about.
abbrev pub subject : Claims → Text
subject c = if is_empty c.user_id then c.sub else c.user_id

-- The claims that are issued have no end, or it has not passed.
abbrev pub Current : ℤ → Claims → Type 0
Current now c = (c.exp ≤ℤ pos 0) ⊎ (now ≤ℤ c.exp)

-- The claims are good for a request of `subject`.
pub record Accepted (now : ℤ) (issued claims : Claims) : Type 0 where
  pub current : Current now issued
  pub named : is_empty (subject issued) ≡ false
  pub normal : claims ≡ record issued { user_id = subject issued }

normalize-subject : (c : Claims) → normalize c ≡ record c { user_id = subject c }
unfolding normalize
normalize-subject c = elim (Bool-cases (is_empty c.user_id)) [
  | inl e ↦ rw e refl
  | inr e ↦ rw e refl
]

check_claims→Accepted :
    (now : ℤ) (issued claims : Claims)
    → check_claims now issued ≡ ok claims
    → Accepted now issued claims
unfolding check_claims
check_claims→Accepted now issued claims h =
    let n = normalize-subject issued in
    let same : claims ≡ normalize issued = ground arith in
    record {
      current = ground arith;
      named = sym (ap (λ c. is_empty c.user_id) n) ∙ ground arith;
      normal = same ∙ n;
    }

Accepted→check_claims :
    (now : ℤ) (issued claims : Claims)
    → Accepted now issued claims
    → check_claims now issued ≡ ok claims
unfolding check_claims
Accepted→check_claims now issued claims a =
    let n = normalize-subject issued in
    let some_user : is_empty (normalize issued).user_id ≡ false =
      ap (λ c. is_empty c.user_id) n ∙ a.named in
    let same : normalize issued ≡ claims = n ∙ sym a.normal in ground (arith, a.current)

check_algorithm_iff :
    (alg : Algorithm) → (check_algorithm alg ≡ none) ↔ (alg ≡ Algorithm.named hs256)
unfolding check_algorithm
check_algorithm_iff (Algorithm.named alg) = ground (arith, text_eq_iff alg hs256)
check_algorithm_iff (Algorithm.unnamed printed) = ground arith

pub record HeaderOk (k : Codec) (header : Text) : Type 0 where
  pub bytes : Text
  pub decodes : k.decode header ≡ some bytes
  pub parses : k.parse_header bytes ≡ some (Algorithm.named hs256)

pub record PayloadOk (k : Codec) (now : ℤ) (payload : Text) (claims : Claims) : Type 0 where
  pub bytes : Text
  pub issued : Claims
  pub decodes : k.decode payload ≡ some bytes
  pub parses : k.parse_claims bytes ≡ some issued
  pub accepted : Accepted now issued claims

-- A token in three parts without dots: a header that names HS256, a payload with claims that are
-- good now, and the signature of both under the secret.
pub record Genuine (k : Codec) (now : ℤ) (secret token : Text) (claims : Claims) : Type 0 where
  pub header : Text
  pub payload : Text
  pub parts : split token period ≡ header ∷ payload ∷ signature k secret header payload ∷ []
  pub header_ok : HeaderOk k header
  pub payload_ok : PayloadOk k now payload claims

module _ (k : Codec) (now : ℤ) (secret : Text) where
  check_header→HeaderOk :
      (header : Text) → check_header k now secret header ≡ none → HeaderOk k header
  unfolding check_header
  check_header→HeaderOk header h = elim (Option-cases (k.decode header)) [
    | inl d ↦ cc (rw (d, check_header) at h)
    | inr (bytes, d) ↦ elim (Option-cases (k.parse_header bytes)) [
      | inl q ↦ cc (rw (d, q, check_header) at h)
      | inr (alg, q) ↦ record {
        bytes = bytes;
        decodes = d;
        parses = q ∙ ap some ((check_algorithm_iff alg).0 (rw (d, q, check_header) at h));
      }
    ]
  ]

  HeaderOk→check_header :
      (header : Text) → HeaderOk k header → check_header k now secret header ≡ none
  unfolding check_header
  HeaderOk→check_header header o =
      rw (o.decodes, o.parses, check_header) ((check_algorithm_iff (Algorithm.named hs256)).1 refl)

  read_claims→PayloadOk :
      (payload : Text) (claims : Claims)
      → read_claims k now secret payload ≡ ok claims
      → PayloadOk k now payload claims
  unfolding read_claims
  read_claims→PayloadOk payload claims h = elim (Option-cases (k.decode payload)) [
    | inl d ↦ cc (rw (d, read_claims) at h)
    | inr (bytes, d) ↦ elim (Option-cases (k.parse_claims bytes)) [
      | inl q ↦ cc (rw (d, q, read_claims) at h)
      | inr (issued, q) ↦ record {
        bytes = bytes;
        issued = issued;
        decodes = d;
        parses = q;
        accepted = check_claims→Accepted now issued claims (rw (d, q, read_claims) at h);
      }
    ]
  ]

  PayloadOk→read_claims :
      (payload : Text) (claims : Claims)
      → PayloadOk k now payload claims
      → read_claims k now secret payload ≡ ok claims
  unfolding read_claims
  PayloadOk→read_claims payload claims o =
      rw (o.decodes, o.parses, read_claims) (Accepted→check_claims now o.issued claims o.accepted)

  validate_parts→Genuine :
      (token : Text) (parts : List Text) (claims : Claims)
      → split token period ≡ parts
      → validate_parts k now secret parts ≡ ok claims
      → Genuine k now secret token claims
  unfolding validate_parts
  validate_parts→Genuine token [] claims e h = cc
  validate_parts→Genuine token (p ∷ []) claims e h = cc
  validate_parts→Genuine token (p ∷ q ∷ []) claims e h = cc
  validate_parts→Genuine token (p ∷ q ∷ r ∷ x ∷ xs) claims e h = cc
  validate_parts→Genuine token (header ∷ payload ∷ sig ∷ []) claims e h =
      elim (Option-cases (check_header k now secret header)) [
        | inr (x, c) ↦ cc (rw (c, validate_parts) at h)
        | inl c ↦ elim (Bool-cases (text_eq sig (signature k secret header payload))) [
          | inr b ↦ cc (rw (c, b, validate_parts) at h)
          | inl b ↦ record {
            header = header;
            payload = payload;
            parts =
                e
                ∙ ap (λ x. header ∷ payload ∷ x ∷ [])
                    ((text_eq_iff sig (signature k secret header payload)).0 b);
            header_ok = check_header→HeaderOk header c;
            payload_ok = read_claims→PayloadOk payload claims (rw (c, b, validate_parts) at h);
          }
        ]
      ]

  -- A token is taken with these claims exactly if it is in three parts, of which the first names
  -- HS256, the second holds claims that have not expired and have a user (`user_id`, or else `sub`),
  -- and the third is the signature of the first two under the secret.
  pub validate_jwt_iff :
      (token : Text) (claims : Claims)
      → (validate_jwt k now secret token ≡ ok claims) ↔ Genuine k now secret token claims
  unfolding validate_jwt validate_parts
  validate_jwt_iff token claims = (
    validate_parts→Genuine token (split token period) claims refl,
    (λ g.
        rw
          (
            g.parts,
            validate_jwt,
            validate_parts,
            HeaderOk→check_header g.header g.header_ok,
            text_eq_refl (signature k secret g.header g.payload),
          )
          (PayloadOk→read_claims g.payload claims g.payload_ok)),
  )
