-- ===== src/Proxy/Patterns.antt =====
-- The regular expressions of internal/proxy/format.go. Each ends with `$`, so that its leftmost match
-- is the longest matching suffix; a function here tells whether a whole text matches.
use jproxy_go.Common.{
  ◌≡◌, refl, Bool, false, ◌&&◌, ◌||◌, [], ◌∷◌, ◌++◌, arith, ℤ, pos, leb, ◌==◌, if◌then◌else◌, Text,
  trim_space, is_digit, some_digits, decimal_from,
}

-- yearRE: a space, 19 or 20, and two digits
unfoldable pub year_matches : Text → Bool
year_matches (s ∷ x ∷ y ∷ a ∷ b ∷ []) =
    s == 32 && (x == 49 && y == 57 || x == 50 && y == 48) && is_digit a && is_digit b
year_matches _ = false

-- \d{1,3}|1[0-8]\d{2}
unfoldable pub number_matches : Text → Bool
number_matches (a ∷ []) = is_digit a
number_matches (a ∷ b ∷ []) = is_digit a && is_digit b
number_matches (a ∷ b ∷ c ∷ []) = is_digit a && is_digit b && is_digit c
number_matches (a ∷ b ∷ c ∷ d ∷ []) = a == 49 && leb 48 b && leb b 56 && is_digit c && is_digit d
number_matches _ = false

-- 0* before a number
unfoldable pub padded_matches : Text → Bool
unfolding number_matches
padded_matches [] = false
padded_matches (c ∷ s) = number_matches (c ∷ s) || c == 48 && padded_matches s

-- episodeRE
unfoldable pub episode_matches : Text → Bool
unfolding padded_matches
episode_matches [] = false
episode_matches (c ∷ s) = c == 32 && padded_matches s

-- \d* and a space before \d+
unfoldable pub season_rest_matches : Text → Bool
season_rest_matches [] = false
season_rest_matches (c ∷ s) =
    let rest = season_rest_matches s in if c == 32 then some_digits s else is_digit c && rest

-- S\d+ and a space before \d+
unfoldable pub season_matches : Text → Bool
unfolding season_rest_matches
season_matches (x ∷ c ∷ s) = x == 83 && is_digit c && season_rest_matches s
season_matches _ = false

-- seasonEpisodeRE
unfoldable pub season_episode_matches : Text → Bool
unfolding season_matches
season_episode_matches [] = false
season_episode_matches (c ∷ s) = c == 32 && (season_matches s || some_digits s)

-- ReplaceAllString(s, "") for a pattern that ends with `$`
unfoldable pub cut_suffix : (Text → Bool) → Text → Text
cut_suffix matches [] = []
cut_suffix matches (c ∷ s) =
    let rest = cut_suffix matches s in if matches (c ∷ s) then [] else c ∷ rest

-- FindString(s) for a pattern that ends with `$`
unfoldable pub find_suffix : (Text → Bool) → Text → Text
find_suffix matches [] = []
find_suffix matches (c ∷ s) =
    let rest = find_suffix matches s in if matches (c ∷ s) then c ∷ s else rest

unfoldable pub remove_year : Text → Text
unfolding cut_suffix year_matches
remove_year s = cut_suffix year_matches (trim_space s)

unfoldable pub remove_episode : Text → Text
unfolding cut_suffix episode_matches
remove_episode s = cut_suffix episode_matches (trim_space s)

unfoldable pub remove_season_episode : Text → Text
unfolding cut_suffix season_episode_matches
remove_season_episode s = cut_suffix season_episode_matches (trim_space s)

-- radarrSearchYear; strconv.ParseInt of the empty text is 0, with an error that is not looked at.
unfoldable pub radarr_search_year : Text → ℤ
unfolding find_suffix year_matches decimal_from
radarr_search_year search_key =
    pos (decimal_from 0 (trim_space (find_suffix year_matches (trim_space search_key))))

-- What a pattern cuts off is what it finds.
pub cut_suffix-find_suffix :
    (matches : Text → Bool) (s : Text) → cut_suffix matches s ++ find_suffix matches s ≡ s
unfolding cut_suffix find_suffix
cut_suffix-find_suffix matches [] = refl
cut_suffix-find_suffix matches (c ∷ s) = ground (arith, cut_suffix-find_suffix matches s)
