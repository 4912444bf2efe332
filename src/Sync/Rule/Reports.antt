-- ===== src/Sync/Rule/Reports.antt =====
-- What a synchronisation of rules reports, and what it hands to the store.
use jproxy_go.Common.{
  ℕ, suc, ◌≡◌, refl, ap, Bool, true, false, ◌||◌, Option, none, some, List, [], ◌∷◌, arith, ℤ, pos,
  negsuc, if◌then◌else◌, length, Text, Result, ◌>>=◌, ok, err,
}
use jproxy_go.Sync.Rule.{
  Domain, RemoteRule, RuleInput, Failure, AuthorReport, remote_status, is_valid_rule, input_of,
  inputs_of, Batch, Parts, Sync, failed_with, commit, sync_fetched, sync_author, sync_authors,
  remote, transaction,
}

-- The status that the store gives a rule.
abbrev pub status_of : Option ℤ → ℤ
status_of none = pos 1
status_of (some s) = s

status_of-remote_status : (s : ℤ) → status_of (remote_status s) ≡ s
unfolding remote_status
status_of-remote_status (pos n) = ground arith
status_of-remote_status (negsuc n) = ground arith

module _ (groups_of : Text → Option ℕ) where
  -- The rule passes the validation for its author.
  abbrev pub IsValidInput : Text → RuleInput → Type 0
  IsValidInput author input =
      is_valid_rule groups_of author input (status_of input.valid_status) ≡ true

  input_of-IsValidInput :
      (author : Text) (r : RemoteRule) (input : RuleInput)
      → input_of groups_of author r ≡ ok input
      → IsValidInput author input
  unfolding input_of
  input_of-IsValidInput author r input h = grind (arith, status_of-remote_status)

  -- The rules became these inputs, one for each, in their order, and each is valid.
  abbrev pub AreInputs : Text → List RemoteRule → List RuleInput → Type 0
  AreInputs author [] [] = Unit
  AreInputs author (r ∷ rs) (input ∷ inputs) =
      (input_of groups_of author r ≡ ok input)
      × IsValidInput author input
      × AreInputs author rs inputs
  AreInputs author _ _ = ⊥

  -- Some rule is refused.
  abbrev pub some_refused : Text → List RemoteRule → Bool
  some_refused author [] = false
  some_refused author (r ∷ rs) =
      elim (input_of groups_of author r) [ ok _ ↦ false | err _ ↦ true ] || some_refused author rs

  -- What the rules of an author give.
  abbrev IsConverted : Text → List RemoteRule → Result Failure (List RuleInput) → Type 0
  IsConverted author rs (ok inputs) = (some_refused author rs ≡ false) × AreInputs author rs inputs
  IsConverted author rs (err f) = some_refused author rs ≡ true

  one_more-IsConverted :
      (author : Text) (r : RemoteRule) (rs : List RemoteRule) (first : Result Failure RuleInput)
      (rest : Result Failure (List RuleInput))
      → input_of groups_of author r ≡ first
      → IsConverted author rs rest
      → IsConverted author (r ∷ rs) (first >>= λ input. rest >>= λ inputs. ok (input ∷ inputs))
  one_more-IsConverted author r rs (err f) rest here others = ground (arith, here)
  one_more-IsConverted author r rs (ok input) (err f) here others = ground (arith, here)
  one_more-IsConverted author r rs (ok input) (ok inputs) here others =
      (ground (arith, here, others.0), (here, input_of-IsValidInput author r input here, others.1))

  inputs_of-IsConverted :
      (author : Text) (rs : List RemoteRule) → IsConverted author rs (inputs_of groups_of author rs)
  unfolding inputs_of
  inputs_of-IsConverted author [] = (refl, tt)
  inputs_of-IsConverted author (r ∷ rs) =
      one_more-IsConverted author r rs (input_of groups_of author r) (inputs_of groups_of author rs)
        refl (inputs_of-IsConverted author rs)

  module _ {W E : Type 0} (parts : Parts W E) (domain : Domain) where
    -- The author is reported as failed, and nothing is handed to the store.
    abbrev pub IsLeftOut : Text → Sync W → AuthorReport → Sync W → Type 0
    IsLeftOut author s r t = (t.log ≡ s.log) × ((f : Failure) × (r ≡ failed_with author f))

    abbrev pub batch_of : Text → List RuleInput → Batch
    batch_of author inputs = record { domain = domain; author = author; inputs = inputs }

    -- One batch with all rules of the author is handed to the store in this world; the report has their
    -- number, if the transaction was committed.
    abbrev pub IsHanded : W → Text → List RemoteRule → Sync W → AuthorReport → Sync W → Type 0
    IsHanded w author rules s r t =
        (inputs : List RuleInput) × AreInputs author rules inputs
        × (t.log ≡ batch_of author inputs ∷ s.log)
        × (r ≡ (
            if (parts.in_transaction (batch_of author inputs) w).0
            then record { author = author; committed = length rules; failure = none }
            else failed_with author transaction))

    -- What comes of the answer of the client for an author, and the world after it.
    abbrev pub IsAnswered :
        Text → Result E (List RemoteRule) × W → Sync W → AuthorReport → Sync W → Type 0
    IsAnswered author (err e, w) s r t = IsLeftOut author s r t
    IsAnswered author (ok rules, w) s r t =
        (some_refused author rules ≡ true → IsLeftOut author s r t)
        × (some_refused author rules ≡ false → IsHanded w author rules s r t)

    -- The reports and the end of a synchronisation of these authors, one after the other.
    abbrev pub AreAnswered : List Text → Sync W → List AuthorReport → Sync W → Type 0
    AreAnswered [] s [] t = t ≡ s
    AreAnswered (author ∷ authors) s (r ∷ rs) t =
        (u : Sync W) × IsAnswered author (parts.rules domain author s.world) s r u
        × AreAnswered authors u rs t
    AreAnswered _ s _ t = ⊥

    length-AreInputs :
        (author : Text) (rs : List RemoteRule) (inputs : List RuleInput)
        → AreInputs author rs inputs
        → length inputs ≡ length rs
    length-AreInputs author [] [] h = refl
    length-AreInputs author (r ∷ rs) (input ∷ inputs) h =
        ap suc (length-AreInputs author rs inputs h.2)
    length-AreInputs author [] (input ∷ inputs) h = absurd h
    length-AreInputs author (r ∷ rs) [] h = absurd h

    committed-IsHanded :
        (author : Text) (rules : List RemoteRule) (inputs : List RuleInput) (s : Sync W)
        → AreInputs author rules inputs
        → let done = commit groups_of parts domain author (ok inputs) s in
          IsHanded s.world author rules s done.0 done.1
    unfolding commit
    committed-IsHanded author rules inputs s are =
        (inputs, are, refl, ground (arith, length-AreInputs author rules inputs are))

    commit-IsAnswered :
        (author : Text) (rules : List RemoteRule) (inputs : Result Failure (List RuleInput))
        (s : Sync W)
        → IsConverted author rules inputs
        → let done = commit groups_of parts domain author inputs s in
          IsAnswered author (ok rules, s.world) s done.0 done.1
    unfolding commit
    commit-IsAnswered author rules (err f) s refused =
        ((λ _. (refl, (f, refl))), (λ fine. absurd (ground (arith, refused))))
    commit-IsAnswered author rules (ok inputs) s (fine, are) = (
      (λ refused. absurd (ground (arith, fine))),
      (λ _. committed-IsHanded author rules inputs s are),
    )

    sync_fetched-IsAnswered :
        (author : Text) (fetched : Result E (List RemoteRule)) (s : Sync W)
        → let done = sync_fetched groups_of parts domain author fetched s in
          IsAnswered author (fetched, s.world) s done.0 done.1
    unfolding sync_fetched
    sync_fetched-IsAnswered author (err e) s = (refl, (remote, refl))
    sync_fetched-IsAnswered author (ok rules) s =
        commit-IsAnswered author rules (inputs_of groups_of author rules) s
          (inputs_of-IsConverted author rules)

    -- An answer is about the log that was there before, whatever the world was.
    at_log :
        (author : Text) (fetched : Result E (List RemoteRule)) (w v : W) (s : Sync W)
        (r : AuthorReport) (u : Sync W)
        → IsAnswered author (fetched, v) (record s { world = w }) r u
        → IsAnswered author (fetched, v) s r u
    at_log author (err e) w v s r u h = h
    at_log author (ok rules) w v s r u h = h

    -- Whatever the client and the store answer, a synchronisation of rules reports on every author, in
    -- their order. An author whose rules could not be fetched, or of whom a rule is refused, is reported
    -- as failed, with no rule committed, and nothing is handed to the store. For any other author one batch
    -- is handed over, with all the rules, in their order, each of them valid; and the report has their
    -- number if the transaction was committed, and its failure if not.
    pub sync_authors_lem :
        (authors : List Text) (s : Sync W)
        → let done = sync_authors groups_of parts domain authors s in
          AreAnswered authors s done.0 done.1
    unfolding sync_authors sync_author
    sync_authors_lem [] s = refl
    sync_authors_lem (author ∷ authors) s =
        let fetched = parts.rules domain author s.world in
        let t : Sync W = record s { world = fetched.1 } in
        let first = sync_fetched groups_of parts domain author fetched.0 t in
        (
          first.1,
          at_log author fetched.0 fetched.1 fetched.1 s first.0 first.1
              (sync_fetched-IsAnswered author fetched.0 t),
          sync_authors_lem authors first.1,
        )
