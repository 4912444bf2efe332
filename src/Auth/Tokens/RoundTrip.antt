-- ===== src/Auth/Tokens/RoundTrip.antt =====
-- Verify accepts what Issue gives out (internal/auth/token.go).
use mathlib.Core.Path.{subst}
use jproxy_go.Common.{
  ℕ, ◌+◌, ◌≤◌, ◌<◌, ◌≡◌, sym, ap, ◌∙◌, Bool, true, false, ◌&&◌, not, some, [], ◌∷◌, ◌++◌,
  append_assoc, append-nil, arith, ◌≤ℤ◌, ltb_ℤ, pos, ◌==◌, Text, codes, text_eq_refl, is_empty,
  split_from,
}
use jproxy_go.Auth.Tokens.{
  Claims, Header, Codec, Manager, User, jwt_header, unix, are_sensible, in_time, signing_input,
  sign, issued_claims, issue, is_jwt_header, is_signed, sensible_claims, claims_of_parts, claims_of,
  verify,
}
use jproxy_go.Auth.Revocations.{Revocations, contains_jti}
use jproxy_go.Auth.Tokens.Soundness.{verify_claims}

-- A text has no character `c`.
unfoldable pub lacks : ℕ → Text → Bool
lacks c [] = true
lacks c (d ∷ s) = not (d == c) && lacks c s

-- What Issue and Verify rely on: decoding and parsing undo encoding and printing, a code has no dot and
-- is not empty unless what it encodes is, and neither JSON objects nor codes of a MAC are empty.
pub record IsLawful (codec : Codec) : Type 0 where
  pub decode-encode : (s : Text) → codec.decode (codec.encode s) ≡ some s
  pub lacks-encode : (s : Text) → lacks 46 (codec.encode s) ≡ true
  pub encode_filled : (s : Text) → is_empty s ≡ false → is_empty (codec.encode s) ≡ false
  pub unmarshal_header-marshal_header :
      (h : Header) → codec.unmarshal_header (codec.marshal_header h) ≡ some h
  pub unmarshal_claims-marshal_claims :
      (c : Claims) → codec.unmarshal_claims (codec.marshal_claims c) ≡ some c
  pub header_filled : (h : Header) → is_empty (codec.marshal_header h) ≡ false
  pub claims_filled : (c : Claims) → is_empty (codec.marshal_claims c) ≡ false
  pub mac_filled : (secret s : Text) → is_empty (codec.mac secret s) ≡ false

split_from_last :
    (separator : ℕ) (part xs : Text)
    → lacks separator xs ≡ true
    → split_from separator part xs ≡ (part ++ xs) ∷ []
unfolding split_from lacks
split_from_last separator part [] h = ap (λ t. t ∷ []) (sym (append-nil part))
split_from_last separator part (c ∷ xs) h =
    ground (arith, split_from_last separator (part ++ c ∷ []) xs, append_assoc part (c ∷ []) xs)

split_from_next :
    (separator : ℕ) (part xs ys : Text)
    → lacks separator xs ≡ true
    → split_from separator part (xs ++ separator ∷ ys) ≡ (part ++ xs) ∷ split_from separator [] ys
unfolding split_from lacks
split_from_next separator part [] ys h = ground (arith, append-nil part)
split_from_next separator part (c ∷ xs) ys h =
    ground (arith, split_from_next separator (part ++ c ∷ []) xs ys, append_assoc part (c ∷ []) xs)

three_parts :
    (a b c : Text)
    → lacks 46 a ≡ true
    → lacks 46 b ≡ true
    → lacks 46 c ≡ true
    → split_from 46 [] ((a ++ 46 ∷ b) ++ 46 ∷ c) ≡ a ∷ b ∷ c ∷ []
three_parts a b c h i j =
    ap (split_from 46 []) (append_assoc a (46 ∷ b) (46 ∷ c))
    ∙ split_from_next 46 [] a (b ++ 46 ∷ c) h
    ∙ ap (λ r. a ∷ r) (split_from_next 46 [] b c i ∙ ap (λ r. b ∷ r) (split_from_last 46 [] c j))

module _ (codec : Codec) (laws : IsLawful codec) where
  abbrev header_part : Text
  header_part = codec.encode (codec.marshal_header jwt_header)

  abbrev claims_part : Claims → Text
  claims_part c = codec.encode (codec.marshal_claims c)

  abbrev mac_part : Text → Claims → Text
  mac_part secret c = codec.encode (codec.mac secret (signing_input codec c))

  split_from-sign :
      (secret : Text) (c : Claims)
      → split_from 46 [] (sign codec secret c)
        ≡ header_part ∷ claims_part c ∷ mac_part secret c ∷ []
  unfolding sign signing_input
  split_from-sign secret c =
      three_parts header_part (claims_part c) (mac_part secret c)
        (laws.lacks-encode (codec.marshal_header jwt_header))
        (laws.lacks-encode (codec.marshal_claims c))
        (laws.lacks-encode (codec.mac secret (signing_input codec c)))

  is_jwt_header-encode : is_jwt_header codec header_part ≡ true
  unfolding is_jwt_header
  is_jwt_header-encode = ground (
    arith,
    laws.decode-encode (codec.marshal_header jwt_header),
    laws.unmarshal_header-marshal_header jwt_header,
    text_eq_refl (codes "HS256"),
    text_eq_refl (codes "JWT"),
  )

  is_signed-encode :
      (secret input : Text)
      → is_signed codec secret input (codec.encode (codec.mac secret input)) ≡ true
  unfolding is_signed
  is_signed-encode secret input =
      ground
        (arith, laws.decode-encode (codec.mac secret input), text_eq_refl (codec.mac secret input))

  sensible_claims-encode :
      (c : Claims) → are_sensible c ≡ true → sensible_claims codec (claims_part c) ≡ some c
  unfolding sensible_claims
  sensible_claims-encode c h = ground (
    arith,
    laws.decode-encode (codec.marshal_claims c),
    laws.unmarshal_claims-marshal_claims c,
    h,
  )

  signed_parts :
      (secret : Text) (c : Claims)
      → is_signed codec secret (header_part ++ 46 ∷ claims_part c) (mac_part secret c) ≡ true
  unfolding signing_input
  signed_parts secret c = is_signed-encode secret (header_part ++ 46 ∷ claims_part c)

  sensible_issue :
      (m : Manager) (user : User) (role jti : Text) (now : ℕ)
      → ltb_ℤ (pos 0) user.id ≡ true
      → is_empty user.username ≡ false
      → is_empty role ≡ false
      → is_empty jti ≡ false
      → 1000000000 ≤ now
      → 1000000000 ≤ m.expires_in
      → are_sensible (issued_claims codec m user role jti now) ≡ true
  unfolding are_sensible issued_claims
  sensible_issue m user role jti now i u f j n e = ground arith

  in_time_free :
      (c : Claims) (now : ℕ) (r : Revocations)
      → c.issued_at ≤ℤ pos now
      → ltb_ℤ (pos now) c.expires_at ≡ true
      → (contains_jti c.jwt_id now r).1 ≡ false
      → (in_time c now r).1 ≡ some c
  unfolding in_time
  in_time_free c now r i u n = ground (arith, n)

  claims_of-sign :
      (secret : Text) (c : Claims)
      → are_sensible c ≡ true
      → claims_of codec secret (sign codec secret c) ≡ some c
  unfolding claims_of claims_of_parts
  claims_of-sign secret c h =
      ap (claims_of_parts codec secret) (split_from-sign secret c)
      ∙ ground (
        arith,
        laws.encode_filled (codec.marshal_header jwt_header) (laws.header_filled jwt_header),
        laws.encode_filled (codec.marshal_claims c) (laws.claims_filled c),
        laws.encode_filled (codec.mac secret (signing_input codec c))
            (laws.mac_filled secret (signing_input codec c)),
        is_jwt_header-encode,
        signed_parts secret c,
        sensible_claims-encode c h,
      )

  -- The token of a user with an id, a name and a role is accepted from the second it is issued in until the
  -- second it expires, unless it is revoked, and gives the claims of that user back.
  pub verify-issue :
      (m : Manager) (user : User) (role jti token : Text) (now later : ℕ)
      → ltb_ℤ (pos 0) user.id ≡ true
      → is_empty user.username ≡ false
      → user.role ≡ some role
      → is_empty role ≡ false
      → is_empty jti ≡ false
      → 1000000000 ≤ now
      → 1000000000 ≤ m.expires_in
      → issue codec m user (some jti) now ≡ some token
      → unix now ≤ unix later
      → unix later < unix (now + m.expires_in)
      → (contains_jti jti (unix later) m.revocations).1 ≡ false
      → (verify codec token later m).1 ≡ some (issued_claims codec m user role jti now)
  unfolding issue issued_claims
  verify-issue m user role jti token now later i u r f j n e t from to free =
      subst (λ s. (verify codec s later m).1 ≡ some c) (issued_token t)
        (verify_claims codec m (sign codec m.secret c) later c (claims_of-sign m.secret c good)
          ∙ in_time_free c (unix later) m.revocations (omega (arith, from)) (ground (arith, to))
              free)
    where
      c : Claims
      c = issued_claims codec m user role jti now

      good : are_sensible c ≡ true
      good = sensible_issue m user role jti now i u f j n e

      issued_token : issue codec m user (some jti) now ≡ some token → sign codec m.secret c ≡ token
      issued_token h = ground (arith, r)
