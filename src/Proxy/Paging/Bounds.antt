-- ===== src/Proxy/Paging/Bounds.antt =====
-- The sums of the paging loop (internal/proxy/server.go, executeExpandedSearch) within 64 bits.
use mathlib.Core.Path.{subst}
use jproxy_go.Common.{
  ℕ, zero, suc, ◌≡◌, refl, ap, Option, none, some, List, [], ◌∷◌, arith, ℤ, pos_part, neg_part,
  ◌+ℤ◌, ◌-ℤ◌, ◌≤ℤ◌, +ℤ_parts, -ℤ_parts, wrap, max_int, Fits, wrap-Fits, pos, get_elem?, All, Text,
  codes, atoi_pos, atoi_neg, atoi,
}
use jproxy_go.Proxy.Query.{Query, get_param, int_param}
use jproxy_go.Proxy.Paging.{Search, Progress, start_progress}
use jproxy_go.Proxy.Paging.Requests.{IsProgress}

-- No sum of the search leaves the integers of 64 bits.
pub record IsBounded (start : Progress) : Type 0 where
  pub offset_fits : Fits start.offset
  pub limit_fits : Fits start.limit
  pub end_fits : start.offset +ℤ start.limit ≤ℤ max_int

module _ (p : Search) (start s : Progress) (bounded : IsBounded start) (v : IsProgress p start s)
    (count : ℕ) (less : pos count ≤ℤ s.limit) where
  pub offset_wraps : wrap (s.offset +ℤ pos count) ≡ s.offset +ℤ pos count
  offset_wraps = wrap-Fits (s.offset +ℤ pos count) (
    omega (arith, v.forward, bounded.offset_fits.0, +ℤ_parts s.offset (pos count)),
    omega (
      arith,
      less,
      bounded.end_fits,
      ap pos_part v.accounted,
      ap neg_part v.accounted,
      +ℤ_parts s.offset (pos count),
      +ℤ_parts s.offset s.limit,
      +ℤ_parts start.offset start.limit,
    ),
  )

  pub limit_wraps : wrap (s.limit -ℤ pos count) ≡ s.limit -ℤ pos count
  limit_wraps = wrap-Fits (s.limit -ℤ pos count) (
    omega (arith, less, -ℤ_parts s.limit (pos count)),
    omega (
      arith,
      less,
      v.forward,
      bounded.limit_fits.1,
      ap pos_part v.accounted,
      ap neg_part v.accounted,
      -ℤ_parts s.limit (pos count),
      +ℤ_parts s.offset s.limit,
      +ℤ_parts start.offset start.limit,
    ),
  )

pub All-get :
    (P : ℤ → Type 0) (i : ℕ) (xs : List ℤ) (v : ℤ) → All P xs → get_elem? xs i ≡ some v → P v
All-get P i [] v h e = absurd (ground arith)
All-get P zero (x ∷ xs) v h e = subst P (ground arith) h.0
All-get P (suc i) (x ∷ xs) v h e = All-get P i xs v h.1 e

atoi-Fits : (s : Text) (z : ℤ) → atoi s ≡ some z → Fits z
unfolding atoi atoi_pos atoi_neg
atoi-Fits [] z h = absurd (ground arith)
atoi-Fits (c ∷ s) z h = ground arith

read_or-Fits :
    (o : Option ℤ) (default : ℤ)
    → ((z : ℤ) → o ≡ some z → Fits z)
    → Fits default
    → Fits (elim o [ none ↦ default | some v ↦ v ])
read_or-Fits none default read h = h
read_or-Fits (some v) default read h = read v refl

int_param-Fits :
    (q : Query) (key : Text) (default : ℤ) → Fits default → Fits (int_param q key default)
unfolding int_param
int_param-Fits q key default h =
    read_or-Fits (atoi (get_param q key)) default (atoi-Fits (get_param q key)) h

pub start-IsBounded :
    (p : Search) (cached : Option (List ℤ))
    → (start_progress p cached).offset +ℤ (start_progress p cached).limit ≤ℤ max_int
    → IsBounded (start_progress p cached)
unfolding start_progress
start-IsBounded p cached h = record {
  offset_fits = int_param-Fits p.q (codes "offset") (pos 0) (omega arith, omega arith);
  limit_fits = int_param-Fits p.q (codes "limit") (pos 100) (omega arith, omega arith);
  end_fits = h;
}
