-- ===== src/Downloader/Qbittorrent/Operations/Cookies.antt =====
-- The cookies that the client of qBittorrent sends: where they come from, and how often a request is sent.
use jproxy_go.Common.{
  ℕ, suc, ◌+◌, ◌≤◌, ◌≡◌, refl, Bool, true, false, ◌&&◌, ◌||◌, none, some, List, [], ◌∷◌, ◌++◌,
  arith, ◌==◌, if◌then◌else◌, Text, codes, text_eq, text_eq_refl, is_empty, has_suffix, Result, ok,
  err,
}
use jproxy_go.Downloader.{Failure, is_success, then_with}
use jproxy_go.Downloader.Qbittorrent.{
  Cookie, Session, no_cookie, Request, Outcome, Exchange, Client, Env, choose_cookie, answered,
  failed,
}
use jproxy_go.Downloader.Qbittorrent.Operations.{forget}

abbrev same_cookie : Cookie → Cookie → Bool
same_cookie a b = text_eq a.name b.name && text_eq a.value b.value

unfoldable pub has_cookie : Cookie → List Cookie → Bool
has_cookie c [] = false
has_cookie c (d ∷ ds) = same_cookie c d || has_cookie c ds

-- Whether an answer is a success with a cookie.
unfoldable pub gives : Cookie → Outcome → Bool
gives c (answered r) = is_success r.status && has_cookie c r.cookies
gives c (failed e) = false

-- Whether an answer under a revision of the configuration gave a cookie.
unfoldable pub is_given : Cookie → ℕ → List Exchange → Bool
is_given c revision [] = false
is_given c revision (x ∷ log) =
    (x.revision == revision && gives c x.outcome) || is_given c revision log

unfoldable pub carries_given : Exchange → List Exchange → Bool
carries_given x log = elim x.request.cookie [ none ↦ true | some c ↦ is_given c x.revision log ]

-- Whether every request carries no cookie, or one that was given before it under its own revision.
unfoldable pub all_given : List Exchange → Bool
all_given [] = true
all_given (x ∷ log) = carries_given x log && all_given log

-- Whether a cookie may be sent under a revision.
abbrev pub may_send : Cookie → ℕ → List Exchange → Bool
may_send c revision log = is_empty c.value || is_given c revision log

unfoldable pub is_honest : {W : Type 0} → Client W → Bool
is_honest c = all_given c.log && may_send c.session.cookie c.session.revision c.log

-- A request of login, by its path.
unfoldable pub is_login : Request → Bool
is_login q = has_suffix (codes "/api/v2/auth/login") q.target.path

-- The requests that are not login's.
unfoldable pub asked : List Exchange → ℕ
asked [] = 0
asked (x ∷ log) = if is_login x.request then asked log else suc (asked log)

has_suffix_itself : (s : Text) → has_suffix s s ≡ true
unfolding has_suffix
has_suffix_itself [] = refl
has_suffix_itself (c ∷ s) = ground (arith, text_eq_refl (c ∷ s))

pub has_suffix-append : (s suffix : Text) → has_suffix suffix (s ++ suffix) ≡ true
unfolding has_suffix
has_suffix-append [] suffix = has_suffix_itself suffix
has_suffix-append (c ∷ s) suffix = ground (arith, has_suffix-append s suffix)

-- A measure of the world that nothing raises.
pub record IsOnward {W : Type 0} (env : Env W) (left : W → ℕ) : Type 0 where
  pub at_snapshot : (w : W) → left (env.snapshot w).1 ≤ left w
  pub at_send : (q : Request) (w : W) → left (env.send q w).1 ≤ left w
  pub at_admit : (n : ℕ) (w : W) → left (env.admit n w).1 ≤ left w
  pub at_wait : (w : W) → left (env.wait w).1 ≤ left w

-- A client becomes another one with at most so many more requests besides those of login, and stays honest.
pub record IsStep {W : Type 0} (left : W → ℕ) (n : ℕ) (c d : Client W) : Type 0 where
  pub stays : is_honest c ≡ true → is_honest d ≡ true
  pub sends : asked d.log ≤ n + asked c.log
  pub onward : left d.world ≤ left c.world

choose_cookie_given :
    (saved : Cookie) (cs : List Cookie)
    → (has_cookie (choose_cookie saved cs) cs || same_cookie (choose_cookie saved cs) saved) ≡ true
unfolding choose_cookie has_cookie
choose_cookie_given saved [] = ground (arith, text_eq_refl saved.name, text_eq_refl saved.value)
choose_cookie_given saved (c ∷ cs) = ground (
  arith,
  choose_cookie_given c cs,
  choose_cookie_given saved cs,
  text_eq_refl c.name,
  text_eq_refl c.value,
)

-- A cookie that login keeps is in the answer.
pub chosen :
    (cs : List Cookie)
    → (is_empty (choose_cookie no_cookie cs).value || has_cookie (choose_cookie no_cookie cs) cs)
      ≡ true
unfolding text_eq
chosen cs = ground (arith, choose_cookie_given no_cookie cs)

-- What is known of a value, if there is one.
abbrev pub Gives : {W A : Type 0} → (A → Client W → Type 0) → Result Failure A × Client W → Type 0
Gives Q r = elim r.0 [ ok a ↦ Q a r.1 | err _ ↦ Unit {0} ]

pub Gives-nothing : {W A : Type 0} (r : Result Failure A × Client W) → Gives (λ _ _. Unit {0}) r
Gives-nothing (ok a, c) = tt
Gives-nothing (err e, c) = tt

module _ {W : Type 0} {left : W → ℕ} where
  pub IsStep-refl : (n : ℕ) (c : Client W) → IsStep left n c c
  IsStep-refl n c = record { stays = λ h. h; sends = omega arith; onward = omega arith }

  pub IsStep-trans :
      {m n : ℕ} {a b c : Client W} → IsStep left m a b → IsStep left n b c → IsStep left (m + n) a c
  IsStep-trans p q = record {
    stays = λ h. q.stays (p.stays h);
    sends = omega (arith, p.sends, q.sends);
    onward = omega (arith, p.onward, q.onward);
  }

  pub weaken : {m n : ℕ} {c d : Client W} → IsStep left m c d → m ≤ n → IsStep left n c d
  weaken p h = record { stays = p.stays; sends = omega (arith, p.sends, h); onward = p.onward }

  pub then_with-IsStep :
      {A B : Type 0} {m n : ℕ} (Q : A → Client W → Type 0) (c : Client W)
      (r : Result Failure A × Client W) (next : A → Client W → Result Failure B × Client W)
      → IsStep left m c r.1
      → Gives Q r
      → ((a : A) (d : Client W) → Q a d → IsStep left n d (next a d).1)
      → IsStep left (m + n) c (then_with r next).1
  unfolding then_with
  then_with-IsStep {n = n} Q c (err e, d) next p given q = IsStep-trans p (IsStep-refl n d)
  then_with-IsStep Q c (ok a, d) next p given q = IsStep-trans p (q a d given)

  pub world-IsStep :
      (c : Client W) (w : W) → left w ≤ left c.world → IsStep left 0 c (record c { world = w })
  unfolding is_honest
  world-IsStep c w h = record { stays = λ k. k; sends = omega arith; onward = h }

  pub forget-IsStep : (saved : Session) (c : Client W) → IsStep left 0 c (forget saved c)
  unfolding forget is_honest
  forget-IsStep saved c = record {
    stays = λ h. ground arith;
    sends = ground arith;
    onward = ground arith;
  }
