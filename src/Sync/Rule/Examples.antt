-- ===== src/Sync/Rule/Examples.antt =====
-- Two authors, of whom one has a rule with an unknown token.
use jproxy_go.Common.{
  ℕ, suc, ◌≡◌, refl, true, Option, none, some, List, [], ◌∷◌, pos, if◌then◌else◌, Text, codes,
  text_eq, is_space, trim_space, mem, starts_with, index, contains, replace_all_from, replace_all,
  split_from, ok,
}
use jproxy_go.Sync.Rule.{
  RemoteRule, author_names, normalize_authors, valid_token, valid_replacement, is_valid_rule,
  input_of, inputs_of, Parts, Sync, failed_with, commit, sync_fetched, sync_author, sync_authors,
  sonarr, invalid_payload,
}
use jproxy_go.Sync.Rule.Reports.{AreAnswered, sync_authors_lem}

abbrev rule_of : Text → Text → RemoteRule
rule_of author token = record {
  id = some (codes "1");
  token = some token;
  priority = some (pos 0);
  regex = some (codes "x");
  replacement = some (codes "$1");
  offset = some (pos 0);
  example = some (codes "e");
  remark = some (codes "r");
  author = some author;
  valid_status = some (pos 1);
}

abbrev one_group : Text → Option ℕ
one_group s = some 1

-- The world counts the transactions.
abbrev counting : Parts ℕ Text
counting = record {
  authors = λ w. (ok [], w);
  rules = λ _ author w. (
    ok (rule_of author (if text_eq author (codes "a") then codes "title" else codes "t") ∷ []),
    w,
  );
  in_transaction = λ _ w. (true, suc w);
}

abbrev two_authors : List Text
two_authors = codes "b" ∷ codes "a" ∷ []

one_committed :
    let done =
      sync_authors one_group counting sonarr two_authors (record { log = []; world = 0 }) in
    (done.0
      ≡ failed_with (codes "b") invalid_payload
        ∷ record { author = codes "a"; committed = 1; failure = none }
        ∷ [])
    × (done.1.world ≡ 1)
unfolding sync_authors sync_author sync_fetched inputs_of input_of is_valid_rule commit text_eq
    valid_token mem valid_replacement replace_all replace_all_from starts_with
one_committed = (refl, refl)

two_names : normalize_authors (codes " a , b") ≡ some (codes "a" ∷ codes "b" ∷ [])
unfolding normalize_authors author_names trim_space is_space split_from contains index starts_with
    text_eq
two_names = refl

sync_authors_lem_example :
    let s : Sync ℕ = record { log = []; world = 0 } in
    let done = sync_authors one_group counting sonarr two_authors s in
    AreAnswered one_group counting sonarr two_authors s done.0 done.1
sync_authors_lem_example =
    sync_authors_lem one_group counting sonarr two_authors (record { log = []; world = 0 })
