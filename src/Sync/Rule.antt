-- ===== src/Sync/Rule.antt =====
-- internal/sync/rule: validation.go, types.go and service.go. The client of the remote rules and the store are
-- a type of worlds with their answers; the log of what was handed to the store is not in the code. Package
-- regexp is a parameter: how many groups an expression has, and `none` if it does not compile.
pub mod Reports
mod Examples
use jproxy_go.Common.{
  ℕ, ◌-◌, Bool, true, false, ◌&&◌, ◌||◌, not, Option, none, some, List, [], ◌∷◌, ℤ, leb_ℤ, eq_ℤ,
  pos, negsuc, ltb, ◌==◌, if◌then◌else◌, length, Text, codes, text_eq, is_empty, trim_space, mem,
  contains, replace_all, is_digit, split_from, Result, ◌>>=◌, or_fail, check, ok, err,
}

pub data Domain : Type 0 where
  sonarr : Domain
  radarr : Domain

-- remoteRule
pub record RemoteRule : Type 0 where
  pub id : Option Text
  pub token : Option Text
  pub priority : Option ℤ
  pub regex : Option Text
  pub replacement : Option Text
  pub offset : Option ℤ
  pub example : Option Text
  pub remark : Option Text
  pub author : Option Text
  pub valid_status : Option ℤ

-- sqlite.SonarrRuleInput and sqlite.RadarrRuleInput; no status stands for a valid rule.
pub record RuleInput : Type 0 where
  pub id : Text
  pub token : Text
  pub priority : ℤ
  pub regex : Text
  pub replacement : Text
  pub offset : ℤ
  pub example : Text
  pub remark : Text
  pub author : Text
  pub valid_status : Option ℤ

-- Failure
pub data Failure : Type 0 where
  remote : Failure
  invalid_payload : Failure
  transaction : Failure

-- AuthorReport; FailureNone is `none`.
pub record AuthorReport : Type 0 where
  pub author : Text
  pub committed : ℕ
  pub failure : Option Failure

-- Succeeded
unfoldable pub succeeded : List AuthorReport → Bool
succeeded [] = true
succeeded (r ∷ rs) = elim r.failure [ none ↦ succeeded rs | some _ ↦ false ]

-- The loop of normalizeAuthors over the parts; `none` is errInvalidAuthors.
unfoldable pub author_names : List Text → Option (List Text)
author_names [] = some []
author_names (part ∷ parts) =
    let author = trim_space part in
    let rest = author_names parts in
    if is_empty author || contains (codes "/") author || contains (codes "\\") author
    then none
    else elim rest [ none ↦ none | some authors ↦ some (author ∷ authors) ]

-- normalizeAuthors
unfoldable pub normalize_authors : Text → Option (List Text)
normalize_authors value =
    let trimmed = trim_space value in
    if is_empty trimmed
    then some []
    else if text_eq trimmed (codes "ALL")
    then some (codes "ALL" ∷ [])
    else author_names (split_from 44 [] trimmed)

-- validToken
unfoldable pub valid_token : Text → Bool
valid_token token = mem token (
    codes "title"
    ∷ codes "season"
    ∷ codes "episode"
    ∷ codes "language"
    ∷ codes "resolution"
    ∷ codes "quality"
    ∷ codes "group"
    ∷ codes "cleanTitle"
    ∷ codes "year"
    ∷ [])

-- validReplacement
unfoldable pub valid_replacement : Text → ℕ → Bool
valid_replacement [] groups = true
valid_replacement (c ∷ []) groups = true
valid_replacement (c ∷ d ∷ s) groups =
    not (c == 36 && is_digit d && ltb groups (d - 48)) && valid_replacement (d ∷ s) groups

-- remoteStatus
unfoldable pub remote_status : ℤ → Option ℤ
remote_status status = if eq_ℤ status (pos 1) then none else some status

abbrev pub fits_32 : ℤ → Bool
fits_32 n = leb_ℤ (negsuc 2147483647) n && leb_ℤ n (pos 2147483647)

module _ (groups_of : Text → Option ℕ) where
  -- The tests of value on a rule all of whose fields are there.
  unfoldable pub is_valid_rule : Text → RuleInput → ℤ → Bool
  is_valid_rule author rule status =
      not (is_empty rule.id)
      && not (is_empty rule.token)
      && not (is_empty rule.regex)
      && not (is_empty rule.example)
      && not (is_empty rule.remark)
      && text_eq rule.author author
      && (eq_ℤ status (pos 1) || eq_ℤ status (pos 0))
      && fits_32 rule.priority
      && fits_32 rule.offset
      && valid_token rule.token
      && elim (groups_of (replace_all rule.regex (codes "{cleanTitle}") (codes "placeholder"))) [
        | none ↦ false
        | some groups ↦ valid_replacement rule.replacement groups
      ]

  -- The methods sonarr and radarr, with value
  unfoldable pub input_of : Text → RemoteRule → Result Failure RuleInput
  input_of author r = do
    id ← or_fail r.id invalid_payload
    token ← or_fail r.token invalid_payload
    priority ← or_fail r.priority invalid_payload
    regex ← or_fail r.regex invalid_payload
    replacement ← or_fail r.replacement invalid_payload
    offset ← or_fail r.offset invalid_payload
    example ← or_fail r.example invalid_payload
    remark ← or_fail r.remark invalid_payload
    name ← or_fail r.author invalid_payload
    status ← or_fail r.valid_status invalid_payload
    let rule : RuleInput = record {
      id = id;
      token = token;
      priority = priority;
      regex = regex;
      replacement = replacement;
      offset = offset;
      example = example;
      remark = remark;
      author = name;
      valid_status = remote_status status;
    }
    _ ← check (is_valid_rule author rule status) invalid_payload
    ok rule

  -- The loop of syncSonarrAuthor and of syncRadarrAuthor.
  unfoldable pub inputs_of : Text → List RemoteRule → Result Failure (List RuleInput)
  inputs_of author [] = ok []
  inputs_of author (r ∷ rs) = do
    input ← input_of author r
    rest ← inputs_of author rs
    ok (input ∷ rest)

-- What was handed to the store: the domain, the author and the rules.
pub record Batch : Type 0 where
  pub domain : Domain
  pub author : Text
  pub inputs : List RuleInput

-- The client and the store; a transaction answers whether it was committed.
pub record Parts (W E : Type 0) : Type 0 where
  pub authors : W → Result E (List Text) × W
  pub rules : Domain → Text → W → Result E (List RemoteRule) × W
  pub in_transaction : Batch → W → Bool × W

pub record Sync (W : Type 0) : Type 0 where
  pub log : List Batch
  pub world : W

abbrev pub failed_with : Text → Failure → AuthorReport
failed_with author f = record { author = author; committed = 0; failure = some f }

module _ {W E : Type 0} (groups_of : Text → Option ℕ) (parts : Parts W E) (domain : Domain) where
  -- The end of syncSonarrAuthor and of syncRadarrAuthor.
  unfoldable pub commit : Text → Result Failure (List RuleInput) → Sync W → AuthorReport × Sync W
  commit author (err f) s = (failed_with author f, s)
  commit author (ok inputs) s =
      let batch : Batch = record { domain = domain; author = author; inputs = inputs } in
      let done = parts.in_transaction batch s.world in
      (
        if done.0
            then record { author = author; committed = length inputs; failure = none }
            else failed_with author transaction,
        record { log = batch ∷ s.log; world = done.1 },
      )

  unfoldable pub sync_fetched : Text → Result E (List RemoteRule) → Sync W → AuthorReport × Sync W
  sync_fetched author (err e) s = (failed_with author remote, s)
  sync_fetched author (ok rules) s = commit author (inputs_of groups_of author rules) s

  -- syncAuthor
  unfoldable pub sync_author : Text → Sync W → AuthorReport × Sync W
  sync_author author s =
      let fetched = parts.rules domain author s.world in
      sync_fetched author fetched.0 (record s { world = fetched.1 })

  -- The loop of sync.
  unfoldable pub sync_authors : List Text → Sync W → List AuthorReport × Sync W
  sync_authors [] s = ([], s)
  sync_authors (author ∷ authors) s =
      let first = sync_author author s in
      let rest = sync_authors authors first.1 in (first.0 ∷ rest.0, rest.1)

-- The errors of sync: errInvalidAuthors, and an error of the client.
pub data SyncError (E : Type 0) : Type 0 where
  invalid_authors : SyncError E
  no_authors : E → SyncError E

module _ {W E : Type 0} (groups_of : Text → Option ℕ) (parts : Parts W E) (domain : Domain) where
  -- sync, from the authors.
  unfoldable pub sync_named :
      Result E (List Text) → Sync W → Result (SyncError E) (List AuthorReport) × Sync W
  sync_named (err e) s = (err (no_authors e), s)
  sync_named (ok authors) s =
      let done = sync_authors groups_of parts domain authors s in (ok done.0, done.1)

  abbrev is_all : List Text → Bool
  is_all (author ∷ []) = text_eq author (codes "ALL")
  is_all _ = false

  -- sync
  unfoldable pub sync : Text → W → Result (SyncError E) (List AuthorReport) × Sync W
  sync value w = elim (normalize_authors value) [
    | none ↦ (err invalid_authors, record { log = []; world = w })
    | some authors ↦
        let known = parts.authors w in
        if is_all authors
        then sync_named known.0 (record { log = []; world = known.1 })
        else sync_named (ok authors) (record { log = []; world = w })
  ]
