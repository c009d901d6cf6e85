-- ===== src/Uprintf/Tests.antt =====
-- Numbers that are printed.
use project_priv.Prelude.{
  ◌-◌, ◌≡◌, refl, sym, ap, subst, [], ◌∷◌, some, true, false, arith, get_or, length, u32,
}
use project_priv.Strings.{Memory}
use project_priv.Ulib.{atoi}
use project_priv.Uprintf.{digits_loop, printint}
use project_priv.Uprintf.Decimal.{Text, atoi-printint}

-- -42
printint_negative : printint (u32 - 42) 10 true ≡ 45 ∷ 52 ∷ 50 ∷ []
unfolding printint digits_loop
printint_negative = refl

-- "907"
abbrev printed : Memory
printed a = get_or (57 ∷ 48 ∷ 55 ∷ []) a 0

printint_printed : printint 907 10 false ≡ 57 ∷ 48 ∷ 55 ∷ []
unfolding printint digits_loop
printint_printed = refl

Text-printed : Text printed 0 (57 ∷ 48 ∷ 55 ∷ [])
unfolding Text
Text-printed = (refl, (refl, (refl, refl)))

atoi-printint_example : atoi 10 printed 0 ≡ some 907
atoi-printint_example =
    atoi-printint 907 10 0 printed (omega arith)
      (subst (Text printed 0) (sym printint_printed) Text-printed)
      (omega (arith, ap length printint_printed))
