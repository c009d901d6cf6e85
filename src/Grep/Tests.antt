-- ===== src/Grep/Tests.antt =====
-- The theorem about user/grep.c at a concrete input.
use project_priv.Prelude.{[], ◌∷◌, ◌≡◌, ◌↔◌, true, false, refl}
use project_priv.Grep.{match, match_loop, matchhere, matchstar, match_one, at_end}
use project_priv.Grep.Pattern.{Occurs}
use project_priv.Grep.Matcher.{match_iff}

-- `b.*d$` in `abcd`
match_iff_example :
    (match (98 ∷ 46 ∷ 42 ∷ 100 ∷ 36 ∷ []) (97 ∷ 98 ∷ 99 ∷ 100 ∷ []) ≡ true)
    ↔ Occurs (98 ∷ 46 ∷ 42 ∷ 100 ∷ 36 ∷ []) (97 ∷ 98 ∷ 99 ∷ 100 ∷ [])
match_iff_example = match_iff (98 ∷ 46 ∷ 42 ∷ 100 ∷ 36 ∷ []) (97 ∷ 98 ∷ 99 ∷ 100 ∷ [])

star_found : match (98 ∷ 46 ∷ 42 ∷ 100 ∷ 36 ∷ []) (97 ∷ 98 ∷ 99 ∷ 100 ∷ []) ≡ true
unfolding match match_loop matchhere matchstar match_one at_end
star_found = refl

-- `^b` does not occur in `ab`.
rooted_not_found : match (94 ∷ 98 ∷ []) (97 ∷ 98 ∷ []) ≡ false
unfolding match match_loop matchhere matchstar match_one at_end
rooted_not_found = refl
