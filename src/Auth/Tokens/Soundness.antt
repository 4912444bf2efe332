-- ===== src/Auth/Tokens/Soundness.antt =====
-- Which tokens Verify accepts (internal/auth/token.go).
use mathlib.Core.Path.{subst}
use jproxy_go.Common.{
  ℕ, ◌+◌, ◌≤◌, ◌≡◌, refl, sym, ◌∙◌, inl, inr, true, false, none, some, List, [], ◌∷◌, ◌++◌, arith,
  pos_part, ◌≤ℤ◌, ltb_ℤ, pos, Option-cases, length, All, Text, text_eq_iff, split_from,
}
use jproxy_go.Auth.Revocations.{Revocations, add, contains_jti}
use jproxy_go.Auth.Revocations.Runs.{Event, happen_all, additions, IsApart, contains_jti-happen_all}
use jproxy_go.Auth.Revocations.Memory.{IsValid}
use jproxy_go.Auth.Tokens.{
  Claims, Codec, Manager, unix, are_sensible, revoke, in_time, bearer, is_signed, sensible_claims,
  claims_of_parts, claims_of, verify, require,
}

in_time_lem :
    (c d : Claims) (now : ℕ) (r : Revocations)
    → (in_time c now r).1 ≡ some d
    → (c ≡ d)
      × (c.issued_at ≤ℤ pos now)
      × (ltb_ℤ (pos now) c.expires_at ≡ true)
      × ((contains_jti c.jwt_id now r).1 ≡ false)
unfolding in_time
in_time_lem c d now r h = ground arith

module _ (codec : Codec) where
  -- A token of three parts whose last one is the code of the others, and whose claims these are.
  pub record IsSigned (secret token : Text) (c : Claims) : Type 0 where
    pub header : Text
    pub payload : Text
    pub signature : Text
    pub parts : split_from 46 [] token ≡ header ∷ payload ∷ signature ∷ []
    pub genuine : codec.decode signature ≡ some (codec.mac secret (header ++ 46 ∷ payload))
    pub bytes : Text
    pub decoded : codec.decode payload ≡ some bytes
    pub parsed : codec.unmarshal_claims bytes ≡ some c
    pub sensible : are_sensible c ≡ true

  is_signed_lem :
      (secret input part : Text)
      → is_signed codec secret input part ≡ true
      → codec.decode part ≡ some (codec.mac secret input)
  unfolding is_signed
  is_signed_lem secret input part h = elim (Option-cases (codec.decode part)) [
    | inl undecoded ↦ absurd (ground arith)
    | inr (signature, e) ↦ ground (arith, e, text_eq_iff signature (codec.mac secret input))
  ]

  sensible_claims_lem :
      (part : Text) (c : Claims)
      → sensible_claims codec part ≡ some c
      → (bytes : Text) × (codec.decode part ≡ some bytes)
        × (codec.unmarshal_claims bytes ≡ some c)
        × (are_sensible c ≡ true)
  unfolding sensible_claims
  sensible_claims_lem part c h = elim (Option-cases (codec.decode part)) [
    | inl undecoded ↦ absurd (ground arith)
    | inr (bytes, e) ↦ elim (Option-cases (codec.unmarshal_claims bytes)) [
      | inl unparsed ↦ absurd (ground arith)
      | inr (d, f) ↦ (bytes, e, ground arith, ground arith)
    ]
  ]

  claims_of_parts-IsSigned :
      (secret token : Text) (parts : List Text) (c : Claims)
      → split_from 46 [] token ≡ parts
      → claims_of_parts codec secret parts ≡ some c
      → IsSigned secret token c
  unfolding claims_of_parts
  claims_of_parts-IsSigned secret token [] c e h = absurd (ground arith)
  claims_of_parts-IsSigned secret token (_ ∷ []) c e h = absurd (ground arith)
  claims_of_parts-IsSigned secret token (_ ∷ _ ∷ []) c e h = absurd (ground arith)
  claims_of_parts-IsSigned secret token (_ ∷ _ ∷ _ ∷ _ ∷ _) c e h = absurd (ground arith)
  claims_of_parts-IsSigned secret token (header ∷ p ∷ s ∷ []) c e h =
      let signed : is_signed codec secret (header ++ 46 ∷ p) s ≡ true = ground arith in
      let (bytes, d, f, good) = sensible_claims_lem p c (ground arith) in
      record {
        header = header;
        payload = p;
        signature = s;
        parts = e;
        genuine = is_signed_lem secret (header ++ 46 ∷ p) s signed;
        bytes = bytes;
        decoded = d;
        parsed = f;
        sensible = good;
      }

  claims_of-IsSigned :
      (secret token : Text) (c : Claims)
      → claims_of codec secret token ≡ some c
      → IsSigned secret token c
  unfolding claims_of
  claims_of-IsSigned secret token c h =
      claims_of_parts-IsSigned secret token (split_from 46 [] token) c refl h

  -- What holds of a token that Verify accepts: signed with the secret, its claims sensible, issued by
  -- now, not expired, and not among the revocations in force.
  pub record IsAccepted (m : Manager) (token : Text) (now : ℕ) (c : Claims) : Type 0 where
    pub signed : IsSigned m.secret token c
    pub issued : c.issued_at ≤ℤ pos (unix now)
    pub unexpired : ltb_ℤ (pos (unix now)) c.expires_at ≡ true
    pub not_revoked : (contains_jti c.jwt_id (unix now) m.revocations).1 ≡ false

  pub verify_claims :
      (m : Manager) (token : Text) (now : ℕ) (c : Claims)
      → claims_of codec m.secret token ≡ some c
      → (verify codec token now m).1 ≡ (in_time c (unix now) m.revocations).1
  unfolding verify
  verify_claims m token now c e = ground (arith, e)

  verify_refused :
      (m : Manager) (token : Text) (now : ℕ)
      → claims_of codec m.secret token ≡ none
      → (verify codec token now m).1 ≡ none
  unfolding verify
  verify_refused m token now e = ground (arith, e)

  accepted :
      (m : Manager) (token : Text) (now : ℕ) (c d : Claims)
      → IsSigned m.secret token d
      → (d ≡ c)
        × (d.issued_at ≤ℤ pos (unix now))
        × (ltb_ℤ (pos (unix now)) d.expires_at ≡ true)
        × ((contains_jti d.jwt_id (unix now) m.revocations).1 ≡ false)
      → IsAccepted m token now c
  accepted m token now c d s (same, i, u, n) =
      subst (IsAccepted m token now) same
        (record { signed = s; issued = i; unexpired = u; not_revoked = n })

  -- Verify accepts only tokens that are signed with the manager's secret, with sensible claims that were
  -- issued by now, have not expired and are not revoked.
  pub verify-IsAccepted :
      (m : Manager) (token : Text) (now : ℕ) (c : Claims)
      → (verify codec token now m).1 ≡ some c
      → IsAccepted m token now c
  verify-IsAccepted m token now c h = elim (Option-cases (claims_of codec m.secret token)) [
    | inl refused ↦ absurd (ground (arith, verify_refused m token now refused))
    | inr (d, e) ↦
        accepted m token now c d (claims_of-IsSigned m.secret token d e)
          (in_time_lem d c (unix now) m.revocations (sym (verify_claims m token now d e) ∙ h))
  ]

  -- The middleware passes a request on only with the claims of a bearer token of three parts, the last of
  -- which is the code of the other two under the secret; these claims are sensible, issued by now, not
  -- expired and not revoked.
  pub require-IsAccepted :
      (m : Manager) (authorization : Text) (now : ℕ) (c : Claims)
      → (require codec authorization now m).1 ≡ some c
      → (token : Text) × (bearer authorization ≡ some token) × IsAccepted m token now c
  unfolding require
  require-IsAccepted m authorization now c h = elim (Option-cases (bearer authorization)) [
    | inl no_token ↦ absurd (ground arith)
    | inr (token, e) ↦ (token, e, verify-IsAccepted m token now c (ground (arith, e)))
  ]

  expired_or_revoked :
      (c : Claims) (now later : ℕ) (r : Revocations) (es : List Event)
      → IsValid r
      → are_sensible c ≡ true
      → All (IsApart c.jwt_id (pos_part c.expires_at)) es
      → length r.entries + 1 + additions es ≤ r.limit
      → (in_time c later (happen_all es (add c.jwt_id (pos_part c.expires_at) now r))).1 ≡ none
  unfolding in_time are_sensible
  expired_or_revoked c now later r es v s apart room = ground (
    arith,
    contains_jti-happen_all c.jwt_id (pos_part c.expires_at) now later r es v (ground arith) apart
        room,
  )

  -- The manager after calls that touch its revocations.
  abbrev pub after : List Event → Manager → Manager
  after es m = record m { revocations = happen_all es m.revocations }

  -- The claims of a token are revoked; then other tokens are revoked and tokens are verified, before this
  -- one expires, and all revoked tokens fit the limit. Then the token is not accepted, at any time.
  pub verify-revoke :
      (m : Manager) (token : Text) (c : Claims) (now later : ℕ) (es : List Event)
      → IsValid m.revocations
      → claims_of codec m.secret token ≡ some c
      → All (IsApart c.jwt_id (pos_part c.expires_at)) es
      → length m.revocations.entries + 1 + additions es ≤ m.revocations.limit
      → (verify codec token later (after es (revoke c now m))).1 ≡ none
  unfolding revoke
  verify-revoke m token c now later es v e apart room =
      verify_claims (after es (revoke c now m)) token later c e
      ∙ expired_or_revoked c (unix now) (unix later) m.revocations es v
          (claims_of-IsSigned m.secret token c e).sensible apart room
