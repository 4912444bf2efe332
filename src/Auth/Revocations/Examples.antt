-- ===== src/Auth/Revocations/Examples.antt =====
-- Two revoked tokens in a list of two.
use jproxy_go.Common.{◌≡◌, refl, List, [], ◌∷◌, arith, ltb, codes, text_eq, lookup, insert, delete}
use jproxy_go.Auth.Revocations.{
  Revocations, clean_entries, earliest_from, make_place, add, contains_jti,
}
use jproxy_go.Auth.Revocations.Runs.{Event, happen_all, contains_jti-happen_all, added, looked}
use jproxy_go.Auth.Revocations.Memory.{IsValid, add-IsValid}

abbrev two_revoked : Revocations
two_revoked = record { entries = (codes "a", 50) ∷ (codes "b", 40) ∷ []; limit = 2 }

two_revoked-IsValid : IsValid two_revoked
unfolding lookup text_eq
two_revoked-IsValid = record {
  room = omega arith;
  bounded = omega arith;
  distinct = (refl, (refl, tt));
  named = refl;
}

first_to_expire_evicted :
    (add (codes "c") 60 10 two_revoked).entries ≡ (codes "a", 50) ∷ (codes "c", 60) ∷ []
unfolding add make_place clean_entries earliest_from insert delete text_eq
first_to_expire_evicted = refl

add-IsValid_example : IsValid (add (codes "c") 60 10 two_revoked)
add-IsValid_example = add-IsValid (codes "c") 60 10 two_revoked two_revoked-IsValid refl

abbrev three_at_most : Revocations
three_at_most = record { entries = (codes "a", 50) ∷ []; limit = 3 }

three_at_most-IsValid : IsValid three_at_most
unfolding lookup text_eq
three_at_most-IsValid = record {
  room = omega arith;
  bounded = omega arith;
  distinct = (refl, tt);
  named = refl;
}

abbrev meanwhile : List Event
meanwhile = added (codes "b") 40 20 ∷ looked (codes "a") 55 ∷ []

contains_jti-happen_all_example :
    (contains_jti (codes "c") 58 (happen_all meanwhile (add (codes "c") 60 10 three_at_most))).1
    ≡ ltb 58 60
unfolding text_eq
contains_jti-happen_all_example =
    contains_jti-happen_all (codes "c") 60 10 58 three_at_most meanwhile three_at_most-IsValid refl
      ((omega arith, refl, refl), (omega arith, tt)) (omega arith)
