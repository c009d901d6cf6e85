-- ===== src/Sh/Tests.antt =====
-- The parser at concrete lines.
use project_priv.Prelude.{ℕ, ◌-◌, ◌≡◌, ◌≢◌, refl, [], ◌∷◌, get_or}
use project_priv.Sh.{
  Cmd, exec_cmd, redir_cmd, pipe_cmd, list_cmd, back_cmd, parsed, out_of_fuel, and_then, in_set,
  skip_loop, is_word, word_end, token_at, gettoken, peek, redirs_loop, parseredirs, add_arg,
  exec_loop, backs_loop, parseline, parsepipe, parseexec, parseblock, nulterminate, parse_text,
  parsecmd,
}
use project_priv.Sh.Commands.{Each, Fits}
use project_priv.Sh.Ends.{InMemory, parsecmd_ends, parsecmd-Fits, parsecmd-InMemory}

-- "a>f|(b;c)&" at 100
abbrev line : ℕ → ℕ
line x = get_or (97 ∷ 62 ∷ 102 ∷ 124 ∷ 40 ∷ 98 ∷ 59 ∷ 99 ∷ 41 ∷ 38 ∷ 0 ∷ []) (x - 100) 0

-- a > f | (b ; c) &
abbrev line_cmd : Cmd
line_cmd = back_cmd (
    pipe_cmd (redir_cmd (exec_cmd ((100, 101) ∷ [])) 102 103 0x601 1)
      (list_cmd (exec_cmd ((105, 106) ∷ [])) (exec_cmd ((107, 108) ∷ []))))

parsecmd-line : parsecmd line 100 10 ≡ parsed (line_cmd, nulterminate line_cmd line) 110
unfolding parsecmd parse_text parseline parsepipe parseexec parseblock and_then peek gettoken
    token_at skip_loop word_end is_word in_set redirs_loop parseredirs add_arg exec_loop backs_loop
parsecmd-line = refl

parsecmd_ends_example : parsecmd line 100 10 ≢ out_of_fuel
parsecmd_ends_example = parsecmd_ends line 100 10 refl

parsecmd-Fits_example : Fits 9 line_cmd
parsecmd-Fits_example =
    parsecmd-Fits line 100 10 line_cmd (nulterminate line_cmd line) 110 refl parsecmd-line

parsecmd-InMemory_example : Each (InMemory line 100 110 (nulterminate line_cmd line)) line_cmd
parsecmd-InMemory_example =
    parsecmd-InMemory line 100 10 line_cmd (nulterminate line_cmd line) 110 refl parsecmd-line
