-- ===== src/Transmissionconfig/Paths.antt =====
-- The normalised path (internal/transmissionconfig/transmissionconfig.go, normalizedPath).
use mathlib.Core.Path.{subst}
use jproxy_go.Common.{
  ℕ, ◌≡◌, refl, sym, ap, ◌∙◌, inl, inr, true, false, [], ◌∷◌, ◌++◌, append_assoc, arith, ◌==◌,
  Bool-cases, length, length-append, Text, codes, text_eq, text_eq_refl, text_eq_iff, trim_suffix,
  has_suffix,
}
use jproxy_go.Transmissionconfig.{
  transmission_rpc, transmission_web, normalized_trimmed, normalized_path,
}

has_suffix-whole : (c : ℕ) (s : Text) → has_suffix (c ∷ s) (c ∷ s) ≡ true
unfolding has_suffix
has_suffix-whole c s = ground (arith, text_eq_refl (c ∷ s))

has_suffix-append : (xs : Text) (c : ℕ) (s : Text) → has_suffix (c ∷ s) (xs ++ c ∷ s) ≡ true
unfolding has_suffix
has_suffix-append [] c s = has_suffix-whole c s
has_suffix-append (x ∷ xs) c s = ground (arith, has_suffix-append xs c s)

-- A text with a suffix is something before it, and the suffix.
has_suffix-front :
    (suffix s : Text) → has_suffix suffix s ≡ true → (front : Text) × (s ≡ front ++ suffix)
unfolding has_suffix
has_suffix-front [] [] h = ([], refl)
has_suffix-front (c ∷ suffix) [] h = absurd (ground arith)
has_suffix-front suffix (c ∷ s) h = elim (Bool-cases (text_eq (c ∷ s) suffix)) [
  | inl here ↦ ([], (text_eq_iff (c ∷ s) suffix).0 here)
  | inr there ↦
      let (front, same) = has_suffix-front suffix s (ground arith) in
      (c ∷ front, ap (λ r. c ∷ r) same)
]

not_longer : (x : ℕ) (front suffix : Text) → text_eq (x ∷ front ++ suffix) suffix ≡ false
not_longer x front suffix = elim (Bool-cases (text_eq (x ∷ front ++ suffix) suffix)) [
  | inl same ↦ absurd (
      omega (
        arith,
        ap length ((text_eq_iff (x ∷ front ++ suffix) suffix).0 same),
        length-append front suffix,
      ))
  | inr other ↦ other
]

-- TrimSuffix removes the suffix.
trim_suffix-append : (front suffix : Text) → trim_suffix suffix (front ++ suffix) ≡ front
unfolding trim_suffix
trim_suffix-append [] [] = refl
trim_suffix-append [] (c ∷ suffix) = ground (arith, text_eq_refl (c ∷ suffix))
trim_suffix-append (x ∷ front) suffix =
    ground (arith, trim_suffix-append front suffix, not_longer x front suffix)

trim_suffix_absent : (suffix s : Text) → has_suffix suffix s ≡ false → trim_suffix suffix s ≡ s
unfolding trim_suffix has_suffix
trim_suffix_absent suffix [] h = refl
trim_suffix_absent suffix (c ∷ s) h = ground (arith, trim_suffix_absent suffix s)

abbrev last_char : Text → ℕ
last_char [] = 0
last_char (c ∷ []) = c
last_char (c ∷ d ∷ s) = last_char (d ∷ s)

last_char-append :
    (front : Text) (c : ℕ) (s : Text) → last_char (front ++ c ∷ s) ≡ last_char (c ∷ s)
last_char-append [] c s = refl
last_char-append (x ∷ []) c s = refl
last_char-append (x ∷ y ∷ front) c s = last_char-append (y ∷ front) c s

-- A text does not have two suffixes that end differently.
other_suffix :
    (c : ℕ) (p : Text) (d : ℕ) (q : Text) (s : Text)
    → has_suffix (c ∷ p) s ≡ true
    → (last_char (c ∷ p) == last_char (d ∷ q)) ≡ false
    → has_suffix (d ∷ q) s ≡ false
other_suffix c p d q s h n = elim (Bool-cases (has_suffix (d ∷ q) s)) [
  | inl both ↦
      let (front, same) = has_suffix-front (c ∷ p) s h in
      let (back, again) = has_suffix-front (d ∷ q) s both in
      absurd (
        ground (
          arith,
          ap last_char same,
          ap last_char again,
          last_char-append front c p,
          last_char-append back d q,
        ))
  | inr other ↦ other
]

web_to_rpc :
    (t : Text)
    → has_suffix transmission_web t ≡ true
    → has_suffix transmission_rpc (trim_suffix (codes "/web") t ++ codes "/rpc") ≡ true
web_to_rpc t h =
    let (front, same) = has_suffix-front transmission_web t h in
    subst (λ u. has_suffix transmission_rpc (trim_suffix (codes "/web") u ++ codes "/rpc") ≡ true)
      (sym (same ∙ sym (append_assoc front (codes "/transmission") (codes "/web"))))
      (subst (λ u. has_suffix transmission_rpc (u ++ codes "/rpc") ≡ true)
        (sym (trim_suffix-append (front ++ codes "/transmission") (codes "/web")))
        (subst (λ u. has_suffix transmission_rpc u ≡ true)
          (sym (append_assoc front (codes "/transmission") (codes "/rpc")))
          (has_suffix-append front 47 (codes "transmission/rpc"))))

normalized_trimmed-rpc : (t : Text) → has_suffix transmission_rpc (normalized_trimmed t) ≡ true
unfolding normalized_trimmed
normalized_trimmed-rpc t = ground (
  arith,
  has_suffix-whole 47 (codes "transmission/rpc"),
  web_to_rpc t,
  text_eq_iff t transmission_rpc,
  has_suffix-append t 47 (codes "transmission/rpc"),
)

normalized_trimmed_kept :
    (s : Text) → has_suffix transmission_rpc s ≡ true → normalized_trimmed s ≡ s
unfolding normalized_trimmed
normalized_trimmed_kept s h = ground (
  arith,
  other_suffix 47 (codes "transmission/rpc") 47 (codes "transmission/web") s h refl,
  text_eq_iff s transmission_web,
  has_suffix-whole 47 (codes "transmission/web"),
)

ends_rpc : (value : Text) → has_suffix transmission_rpc (normalized_path value) ≡ true
unfolding normalized_path
ends_rpc value = normalized_trimmed-rpc (trim_suffix (codes "/") value)

normalized_path_kept : (s : Text) → has_suffix transmission_rpc s ≡ true → normalized_path s ≡ s
unfolding normalized_path
normalized_path_kept s h =
    let no_slash =
      trim_suffix_absent (codes "/") s
        (other_suffix 47 (codes "transmission/rpc") 47 [] s h refl) in
    ap normalized_trimmed no_slash ∙ normalized_trimmed_kept s h

-- Every path is normalised to an RPC path, which ends in /transmission/rpc, and a path that ends so is
-- left as it is, so that to normalise again changes nothing.
pub normalized_path-normalized_path :
    (value : Text)
    → (has_suffix transmission_rpc (normalized_path value) ≡ true)
      × (normalized_path (normalized_path value) ≡ normalized_path value)
normalized_path-normalized_path value =
    (ends_rpc value, normalized_path_kept (normalized_path value) (ends_rpc value))
