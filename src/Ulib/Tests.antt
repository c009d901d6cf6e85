-- ===== src/Ulib/Tests.antt =====
-- The functions of user/ulib.c at concrete inputs.
use project_priv.Prelude.{◌≡◌, refl, [], ◌∷◌, some, get_or}
use project_priv.Strings.{Memory}
use project_priv.Ulib.{atoi, atoi_loop, is_digit, strchr}

-- "12" and "1a"
abbrev two_strings : Memory
two_strings a = get_or (49 ∷ 50 ∷ 0 ∷ 49 ∷ 97 ∷ 0 ∷ []) a 0

atoi_first : atoi 4 two_strings 0 ≡ some 12
unfolding atoi atoi_loop is_digit
atoi_first = refl

atoi_second : atoi 4 two_strings 3 ≡ some 1
unfolding atoi atoi_loop is_digit
atoi_second = refl

strchr_found : strchr 4 two_strings 3 97 ≡ some (some 4)
unfolding strchr
strchr_found = refl
