-- ===== src/Auth/Tokens.antt =====
-- internal/auth/token.go and internal/auth/middleware.go. Instants are nanoseconds where the source has a
-- time.Time, and seconds in the claims and for the revocations.
pub mod Soundness
pub mod RoundTrip
mod Examples
use jproxy_go.Common.{
  ℕ, ◌+◌, ◌/◌, Bool, false, ◌&&◌, ◌||◌, not, Option, none, some, List, [], ◌∷◌, ◌++◌, ℤ, pos_part,
  ltb_ℤ, leb_ℤ, pos, ltb, if◌then◌else◌, length, Text, codes, text_eq, is_empty, split_from,
}
use jproxy_go.Auth.Revocations.{Revocations, new_revocations, add, contains_jti}

-- Claims
pub record Claims : Type 0 where
  pub issued_at : ℤ
  pub expires_at : ℤ
  pub jwt_id : Text
  pub user_id : ℤ
  pub username : Text
  pub role : Text

-- The header of a token: Alg and Typ.
pub record Header : Type 0 where
  pub alg : Text
  pub typ : Text

-- What the code takes from encoding/base64, encoding/json and crypto/hmac; `none` is an error.
pub record Codec : Type 0 where
  pub encode : Text → Text
  pub decode : Text → Option Text
  pub marshal_header : Header → Text
  pub unmarshal_header : Text → Option Header
  pub marshal_claims : Claims → Text
  pub unmarshal_claims : Text → Option Claims
  pub mac : Text → Text → Text

-- Manager; `expires_in` is in nanoseconds.
pub record Manager : Type 0 where
  pub secret : Text
  pub expires_in : ℕ
  pub revocations : Revocations

-- The columns of sqlite.SystemUser that Issue reads.
pub record User : Type 0 where
  pub id : ℤ
  pub username : Text
  pub role : Option Text

-- NewManager; the secret is a list of bytes.
unfoldable pub new_manager : Text → ℤ → Option Manager
new_manager secret expires_in =
    if ltb (length secret) 32 || leb_ℤ expires_in (pos 0)
    then none
    else some (record {
      secret = secret;
      expires_in = pos_part expires_in;
      revocations = new_revocations 1024;
    })

abbrev pub jwt_header : Header
jwt_header = record { alg = codes "HS256"; typ = codes "JWT" }

abbrev pub unix : ℕ → ℕ
unix t = t / 1000000000

-- claims.JWTID == "" || … of Verify
unfoldable pub are_sensible : Claims → Bool
are_sensible c =
    not (is_empty c.jwt_id)
    && ltb_ℤ (pos 0) c.user_id
    && not (is_empty c.username)
    && not (is_empty c.role)
    && ltb_ℤ (pos 0) c.issued_at
    && ltb_ℤ c.issued_at c.expires_at

-- Revoke
unfoldable pub revoke : Claims → ℕ → Manager → Manager
revoke c now m = record m {
  revocations = add c.jwt_id (pos_part c.expires_at) (unix now) m.revocations;
}

-- The end of Verify.
unfoldable pub in_time : Claims → ℕ → Revocations → Revocations × Option Claims
in_time c now r =
    if ltb_ℤ (pos now) c.issued_at || leb_ℤ c.expires_at (pos now)
    then (r, none)
    else let looked = contains_jti c.jwt_id now r in (looked.0, if looked.1 then none else some c)

-- bearer; `none` is no token.
unfoldable pub bearer_of : List Text → Option Text
bearer_of (scheme ∷ token ∷ []) =
    if text_eq scheme (codes "Bearer") && not (is_empty token) then some token else none
bearer_of _ = none

unfoldable pub bearer : Text → Option Text
bearer value = bearer_of (split_from 32 [] value)

module _ (codec : Codec) where
  -- sign
  unfoldable pub signing_input : Claims → Text
  signing_input c =
      codec.encode (codec.marshal_header jwt_header) ++ 46 ∷ codec.encode (codec.marshal_claims c)

  unfoldable pub sign : Text → Claims → Text
  sign secret c = signing_input c ++ 46 ∷ codec.encode (codec.mac secret (signing_input c))

  -- The claims that Issue makes.
  unfoldable pub issued_claims : Manager → User → Text → Text → ℕ → Claims
  issued_claims m user role jti now = record {
    issued_at = pos (unix now);
    expires_at = pos (unix (now + m.expires_in));
    jwt_id = jti;
    user_id = user.id;
    username = user.username;
    role = role;
  }

  -- Issue, with the answer of randomID
  unfoldable pub issue : Manager → User → Option Text → ℕ → Option Text
  issue m user random now = elim user.role [
    | none ↦ none
    | some role ↦ elim random [
      | none ↦ none
      | some jti ↦ some (sign m.secret (issued_claims m user role jti now))
    ]
  ]

  -- The tests of the header, of the signature and of the claims, in Verify.
  unfoldable pub is_jwt_header : Text → Bool
  is_jwt_header part = elim (codec.decode part) [
    | none ↦ false
    | some bytes ↦ elim (codec.unmarshal_header bytes) [
      | none ↦ false
      | some h ↦ text_eq h.alg (codes "HS256") && text_eq h.typ (codes "JWT")
    ]
  ]

  unfoldable pub is_signed : Text → Text → Text → Bool
  is_signed secret input part = elim (codec.decode part) [
    | none ↦ false
    | some signature ↦ text_eq signature (codec.mac secret input)
  ]

  unfoldable pub sensible_claims : Text → Option Claims
  sensible_claims part = elim (codec.decode part) [
    | none ↦ none
    | some payload ↦ elim (codec.unmarshal_claims payload) [
      | none ↦ none
      | some c ↦ if are_sensible c then some c else none
    ]
  ]

  unfoldable pub claims_of_parts : Text → List Text → Option Claims
  claims_of_parts secret (h ∷ p ∷ s ∷ []) =
      if is_empty h
        || is_empty p
        || is_empty s
        || not (is_jwt_header h)
        || not (is_signed secret (h ++ 46 ∷ p) s)
      then none
      else sensible_claims p
  claims_of_parts secret _ = none

  -- Verify up to the look at the clock.
  unfoldable pub claims_of : Text → Text → Option Claims
  claims_of secret token = claims_of_parts secret (split_from 46 [] token)

  unfoldable pub verify : Text → ℕ → Manager → Manager × Option Claims
  verify token now m = elim (claims_of m.secret token) [
    | none ↦ (m, none)
    | some c ↦
        let ended = in_time c (unix now) m.revocations in
        (record m { revocations = ended.0 }, ended.1)
  ]

  -- Require: the claims that the next handler gets, and `none` where the request is refused.
  unfoldable pub require : Text → ℕ → Manager → Manager × Option Claims
  require authorization now m = elim (bearer authorization) [
    | none ↦ (m, none)
    | some token ↦ verify token now m
  ]
