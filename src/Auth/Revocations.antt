-- ===== src/Auth/Revocations.antt =====
-- internal/auth/revocation.go. The order in which Go visits the keys of a map is open; a `Map` stands
-- for the entries in one such order, so that a theorem for all maps holds for all orders. Instants are
-- seconds, not before the Unix epoch.
pub mod Earliest
pub mod Memory
pub mod Runs
mod Examples
use jproxy_go.Common.{
  ℕ, Bool, ◌||◌, [], ◌∷◌, ltb, leb, if◌then◌else◌, length, Text, is_empty, Map, insert, delete, has,
}

pub record Revocations : Type 0 where
  pub entries : Map ℕ
  pub limit : ℕ

unfoldable pub new_revocations : ℕ → Revocations
new_revocations limit = record { entries = []; limit = limit }

-- clean
unfoldable pub clean_entries : ℕ → Map ℕ → Map ℕ
clean_entries now [] = []
clean_entries now ((jti, exp) ∷ entries) =
    let rest = clean_entries now entries in if leb exp now then rest else (jti, exp) ∷ rest

-- The loop of add, with earliestJTI and earliestExpiry.
unfoldable pub earliest_from : Text → ℕ → Map ℕ → Text × ℕ
earliest_from jti expiry [] = (jti, expiry)
earliest_from jti expiry ((other, exp) ∷ entries) =
    let replaced = earliest_from other exp entries in
    let kept = earliest_from jti expiry entries in
    if is_empty jti || ltb exp expiry then replaced else kept

-- The eviction of add.
unfoldable pub make_place : ℕ → Map ℕ → Map ℕ
make_place limit entries =
    if leb limit (length entries) then delete (earliest_from [] 0 entries).0 entries else entries

unfoldable pub add : Text → ℕ → ℕ → Revocations → Revocations
add jti exp now r = record r {
  entries = insert jti exp (make_place r.limit (clean_entries now r.entries));
}

unfoldable pub clean : ℕ → Revocations → Revocations
clean now r = record r { entries = clean_entries now r.entries }

unfoldable pub contains_jti : Text → ℕ → Revocations → Revocations × Bool
contains_jti jti now r = (clean now r, has jti (clean_entries now r.entries))
