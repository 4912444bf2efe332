-- ===== src/Auth/Tokens/Examples.antt =====
-- Tokens of a codec that shifts characters, and prints numbers as characters.
use jproxy_go.Common.{
  ℕ, zero, suc, ◌+◌, ◌-◌, ◌≡◌, refl, ap, true, false, Option, none, some, List, [], ◌∷◌, ◌++◌,
  arith, ℤ, pos, negsuc, length, take, drop, Text, codes, text_eq, is_empty, lookup, split_from,
}
use jproxy_go.Auth.Revocations.{new_revocations, clean_entries, contains_jti}
use jproxy_go.Auth.Revocations.Memory.{IsValid}
use jproxy_go.Auth.Tokens.{
  Claims, Header, Codec, Manager, User, are_sensible, revoke, in_time, bearer_of, bearer,
  signing_input, sign, issued_claims, issue, is_jwt_header, is_signed, sensible_claims,
  claims_of_parts, claims_of, verify, require,
}
use jproxy_go.Auth.Revocations.Runs.{Event, added, looked}
use jproxy_go.Auth.Tokens.Soundness.{IsAccepted, require-IsAccepted, after, verify-revoke}
use jproxy_go.Auth.Tokens.RoundTrip.{lacks, IsLawful, verify-issue}

abbrev shift_up : Text → Text
shift_up [] = []
shift_up (c ∷ s) = (c + 100) ∷ shift_up s

abbrev shift_down : Text → Text
shift_down [] = []
shift_down (c ∷ s) = (c - 100) ∷ shift_down s

abbrev int_code : ℤ → Text → Text
int_code (pos n) rest = 0 ∷ n ∷ rest
int_code (negsuc n) rest = 1 ∷ n ∷ rest

abbrev int_of : ℕ → ℕ → ℤ
int_of zero n = pos n
int_of (suc k) n = negsuc n

abbrev print_claims : Claims → Text
print_claims c = int_code c.issued_at (
    int_code c.expires_at (
      int_code c.user_id
        (length c.jwt_id ∷ (c.jwt_id ++ (length c.username ∷ (c.username ++ c.role))))))

abbrev parse_texts : ℤ → ℤ → ℤ → Text → Text → Option Claims
parse_texts i e u jti [] = none
parse_texts i e u jti (n ∷ rest) = some (record {
  issued_at = i;
  expires_at = e;
  jwt_id = jti;
  user_id = u;
  username = take n rest;
  role = drop n rest;
})

abbrev parse_claims : Text → Option Claims
parse_claims (a ∷ i ∷ b ∷ e ∷ d ∷ u ∷ n ∷ rest) =
    parse_texts (int_of a i) (int_of b e) (int_of d u) (take n rest) (drop n rest)
parse_claims _ = none

abbrev print_header : Header → Text
print_header h = length h.alg ∷ (h.alg ++ h.typ)

abbrev parse_header : Text → Option Header
parse_header [] = none
parse_header (n ∷ rest) = some (record { alg = take n rest; typ = drop n rest })

abbrev shifting : Codec
shifting = record {
  encode = shift_up;
  decode = λ s. some (shift_down s);
  marshal_header = print_header;
  unmarshal_header = parse_header;
  marshal_claims = print_claims;
  unmarshal_claims = parse_claims;
  mac = λ secret s. 7 ∷ s;
}

take_front : (s t : Text) → take (length s) (s ++ t) ≡ s
take_front [] t = refl
take_front (c ∷ s) t = ap (λ r. c ∷ r) (take_front s t)

drop_front : (s t : Text) → drop (length s) (s ++ t) ≡ t
drop_front [] t = refl
drop_front (c ∷ s) t = drop_front s t

shift_down-shift_up : (s : Text) → shift_down (shift_up s) ≡ s
shift_down-shift_up [] = refl
shift_down-shift_up (c ∷ s) = ground (arith, shift_down-shift_up s)

lacks-shift_up : (s : Text) → lacks 46 (shift_up s) ≡ true
unfolding lacks
lacks-shift_up [] = refl
lacks-shift_up (c ∷ s) = ground (arith, lacks-shift_up s)

parse-print : (c : Claims) → parse_claims (print_claims c) ≡ some c
parse-print c = ground (
  arith,
  take_front c.jwt_id (length c.username ∷ (c.username ++ c.role)),
  drop_front c.jwt_id (length c.username ∷ (c.username ++ c.role)),
  take_front c.username c.role,
  drop_front c.username c.role,
)

filled_shift : (s : Text) → is_empty s ≡ false → is_empty (shift_up s) ≡ false
filled_shift [] h = h
filled_shift (c ∷ s) h = refl

shifting-IsLawful : IsLawful shifting
shifting-IsLawful = record {
  decode-encode = λ s. ap some (shift_down-shift_up s);
  lacks-encode = lacks-shift_up;
  encode_filled = filled_shift;
  unmarshal_header-marshal_header =
      λ h. ground (arith, take_front h.alg h.typ, drop_front h.alg h.typ);
  unmarshal_claims-marshal_claims = parse-print;
  header_filled = λ h. refl;
  claims_filled = λ c. ground arith;
  mac_filled = λ secret s. refl;
}

abbrev manager : Manager
manager = record {
  secret = codes "0123456789abcdef0123456789abcdef";
  expires_in = 60000000000;
  revocations = new_revocations 2;
}

abbrev admin : User
admin = record { id = pos 1; username = codes "admin"; role = some (codes "ROLE_ADMIN") }

abbrev admin_claims : Claims
admin_claims = issued_claims shifting manager admin (codes "ROLE_ADMIN") (codes "j") 5000000000

abbrev admin_token : Text
admin_token = sign shifting manager.secret admin_claims

manager-IsValid : IsValid manager.revocations
unfolding new_revocations lookup
manager-IsValid = record { room = omega arith; bounded = omega arith; distinct = tt; named = refl }

admin_issued : issue shifting manager admin (some (codes "j")) 5000000000 ≡ some admin_token
unfolding issue
admin_issued = refl

verify-issue_example : (verify shifting admin_token 30000000000 manager).1 ≡ some admin_claims
unfolding contains_jti clean_entries new_revocations lookup
verify-issue_example =
    verify-issue shifting shifting-IsLawful manager admin (codes "ROLE_ADMIN") (codes "j")
      admin_token 5000000000 30000000000 refl refl refl refl refl (omega arith) (omega arith)
      admin_issued (omega arith) (omega arith) refl

admin_read : claims_of shifting manager.secret admin_token ≡ some admin_claims
unfolding claims_of claims_of_parts is_jwt_header is_signed sensible_claims are_sensible split_from
    sign signing_input issued_claims text_eq
admin_read = refl

admin_let_in :
    (require shifting (codes "Bearer " ++ admin_token) 30000000000 manager).1 ≡ some admin_claims
unfolding require verify bearer bearer_of claims_of claims_of_parts is_jwt_header is_signed
    sensible_claims are_sensible split_from sign signing_input issued_claims text_eq in_time
    contains_jti clean_entries new_revocations lookup
admin_let_in = refl

basic_refused : bearer (codes "Basic x") ≡ none
unfolding bearer bearer_of split_from text_eq
basic_refused = refl

require-IsAccepted_example :
    (token : Text) × (bearer (codes "Bearer " ++ admin_token) ≡ some token)
    × IsAccepted shifting manager token 30000000000 admin_claims
require-IsAccepted_example =
    require-IsAccepted shifting manager (codes "Bearer " ++ admin_token) 30000000000 admin_claims
      admin_let_in

-- Another token is revoked meanwhile, and one is looked for.
abbrev meanwhile : List Event
meanwhile = added (codes "other") 90 21 ∷ looked (codes "other") 22 ∷ []

verify-revoke_example :
    (verify shifting admin_token 30000000000
      (after shifting meanwhile (revoke admin_claims 20000000000 manager))).1
    ≡ none
unfolding new_revocations text_eq issued_claims
verify-revoke_example =
    verify-revoke shifting manager admin_token admin_claims 20000000000 30000000000 meanwhile
      manager-IsValid admin_read ((omega arith, refl, refl), (omega arith, tt)) (omega arith)
