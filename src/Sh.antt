-- ===== src/Sh.antt =====
-- user/sh.c: the parser of command lines.
-- A command line is the bytes `text` up to the address `es` of its final 0, and a string in it is the two
-- addresses between which it stands. A panic prints a message and ends the shell's child.
mod Words
mod Lex
mod Commands
mod Parse
mod Memory
mod Ends
mod Tests
use project_priv.Prelude.{
  ℕ, zero, suc, ◌+◌, ◌-◌, ◌*◌, List, [], ◌∷◌, ◌++◌, Bool, true, false, not, ◌==◌, ◌&&◌, ◌||◌,
  if◌then◌else◌, update,
}

pub data Cmd : Type 0 where
  exec_cmd : (argv : List (ℕ × ℕ)) → Cmd
  redir_cmd : Cmd → (file efile mode fd : ℕ) → Cmd
  pipe_cmd : (left right : Cmd) → Cmd
  list_cmd : (left right : Cmd) → Cmd
  back_cmd : Cmd → Cmd

-- What a parser does: it makes something and stops at an address, or panics, or has used up its fuel.
pub data Outcome {ℓ} (A : Type ℓ) : Type ℓ where
  parsed : A → ℕ → Outcome A
  panics : Outcome A
  out_of_fuel : Outcome A

pub and_then {ℓ} : {A B : Type ℓ} → Outcome A → (A → ℕ → Outcome B) → Outcome B
and_then (parsed a p) f = f a p
and_then panics f = panics
and_then out_of_fuel f = out_of_fuel

abbrev pub max_args : ℕ
max_args = 10

-- `strchr` of a string that has no 0, for a character in it.
pub in_set : List ℕ → ℕ → Bool
in_set [] c = false
in_set (x ∷ xs) c = c == x || in_set xs c

-- " \t\r\n\v"
abbrev pub whitespace : List ℕ
whitespace = 32 ∷ 9 ∷ 13 ∷ 10 ∷ 11 ∷ []

-- "<|>&;()"
abbrev pub symbols : List ℕ
symbols = 60 ∷ 124 ∷ 62 ∷ 38 ∷ 59 ∷ 40 ∷ 41 ∷ []

-- `while(s < es && strchr(whitespace, *s)) s++`, with `k` bytes left.
pub skip_loop : (k : ℕ) → (text : ℕ → ℕ) → (s : ℕ) → ℕ
skip_loop zero text s = s
skip_loop (suc k) text s =
    let rest = skip_loop k text (s + 1) in if in_set whitespace (text s) then rest else s

abbrev pub skip : (text : ℕ → ℕ) → (es s : ℕ) → ℕ
skip text es s = skip_loop (es - s) text s

pub is_word : ℕ → Bool
is_word c = not (in_set whitespace c) && not (in_set symbols c)

-- The loop over the characters of a word.
pub word_end : (k : ℕ) → (text : ℕ → ℕ) → (s : ℕ) → ℕ
word_end zero text s = s
word_end (suc k) text s = let rest = word_end k text (s + 1) in if is_word (text s) then rest else s

-- What `gettoken` returns: 0, a symbol, '+' for ">>" or 'a' for a word.
pub record Token : Type 0 where
  pub ret : ℕ
  pub q : ℕ
  pub eq : ℕ
  pub ps : ℕ

-- The switch of `gettoken`: its result, and the end of the token.
pub token_at : (text : ℕ → ℕ) → (es s : ℕ) → ℕ × ℕ
token_at text es s =
    let c = text s in
    if c == 0
    then (0, s)
    else if in_set (124 ∷ 40 ∷ 41 ∷ 59 ∷ 38 ∷ 60 ∷ []) c
    then (c, s + 1)
    else if c == 62
    then (if text (s + 1) == 62 then (43, s + 2) else (62, s + 1))
    else (97, word_end (es - s) text s)

pub gettoken : (text : ℕ → ℕ) → (es ps : ℕ) → Token
gettoken text es ps =
    let s = skip text es ps in
    let r = token_at text es s in record { ret = r.0; q = s; eq = r.1; ps = skip text es r.1 }

-- Whether the next character is of `toks`, and where it is.
pub peek : (text : ℕ → ℕ) → (es : ℕ) → (toks : List ℕ) → (ps : ℕ) → Bool × ℕ
peek text es toks ps = let s = skip text es ps in (not (text s == 0) && in_set toks (text s), s)

-- The token after `peek` has found one.
abbrev pub next_token : (text : ℕ → ℕ) → (es ps : ℕ) → ℕ
next_token text es ps = (gettoken text es ps).ps

-- O_RDONLY, O_WRONLY|O_CREATE|O_TRUNC, O_WRONLY|O_CREATE
abbrev pub redirected : (tok : ℕ) → (file : Token) → Cmd → Cmd
redirected tok file cmd =
    if tok == 60
    then redir_cmd cmd file.q file.eq 0 0
    else if tok == 62
    then redir_cmd cmd file.q file.eq 0x601 1
    else if tok == 43
    then redir_cmd cmd file.q file.eq 0x201 1
    else cmd

-- The loop of `parseredirs`.
pub redirs_loop : (k : ℕ) → (text : ℕ → ℕ) → (es : ℕ) → Cmd → (ps : ℕ) → Outcome Cmd
redirs_loop zero text es cmd ps = out_of_fuel
redirs_loop (suc k) text es cmd ps =
    let (more, p) = peek text es (60 ∷ 62 ∷ []) ps in
    elim more [
      | false ↦ parsed cmd p
      | true ↦
          let tok = gettoken text es p in
          let file = gettoken text es tok.ps in
          elim (file.ret == 97) [
            | false ↦ panics
            | true ↦ redirs_loop k text es (redirected tok.ret file cmd) file.ps
          ]
    ]

pub parseredirs : (text : ℕ → ℕ) → (es : ℕ) → Cmd → (ps : ℕ) → Outcome Cmd
parseredirs text es cmd ps = redirs_loop (es - ps + 1) text es cmd ps

-- `cmd->argv[argc] = q; cmd->eargv[argc] = eq` for the command that the redirections of `ret` end in.
pub add_arg : (q eq : ℕ) → Cmd → Cmd
add_arg q eq (exec_cmd argv) = exec_cmd (argv ++ ((q, eq) ∷ []))
add_arg q eq (redir_cmd cmd file efile mode fd) = redir_cmd (add_arg q eq cmd) file efile mode fd
add_arg q eq (pipe_cmd left right) = pipe_cmd left right
add_arg q eq (list_cmd left right) = list_cmd left right
add_arg q eq (back_cmd cmd) = back_cmd cmd

-- The loop of `parseexec`, with `left` places in `argv`.
pub exec_loop : (left : ℕ) → (text : ℕ → ℕ) → (es : ℕ) → (ret : Cmd) → (ps : ℕ) → Outcome Cmd
exec_loop zero text es ret ps = panics
exec_loop (suc left) text es ret ps =
    let (stop, p) = peek text es (124 ∷ 41 ∷ 38 ∷ 59 ∷ []) ps in
    let t = gettoken text es p in
    elim stop [
      | true ↦ parsed ret p
      | false ↦ elim (t.ret == 0) [
        | true ↦ parsed ret t.ps
        | false ↦ elim (t.ret == 97) [
          | false ↦ panics
          | true ↦ elim (left == 0) [
            | true ↦ panics
            | false ↦
                and_then (parseredirs text es (add_arg t.q t.eq ret) t.ps) (exec_loop left text es)
          ]
        ]
      ]
    ]

-- The loop of `parseline` over '&'.
pub backs_loop : (k : ℕ) → (text : ℕ → ℕ) → (es : ℕ) → Cmd → (ps : ℕ) → Outcome Cmd
backs_loop zero text es cmd ps = out_of_fuel
backs_loop (suc k) text es cmd ps =
    let (more, p) = peek text es (38 ∷ []) ps in
    elim more [
      | false ↦ parsed cmd p
      | true ↦ backs_loop k text es (back_cmd cmd) (next_token text es p)
    ]

mutual
  pub parseline : (fuel : ℕ) → (text : ℕ → ℕ) → (es ps : ℕ) → Outcome Cmd
  parseline zero text es ps = out_of_fuel
  parseline (suc k) text es ps = and_then (parsepipe k text es ps) λ cmd p.
      and_then (backs_loop (es - p + 1) text es cmd p) λ cmd2 p2.
        let (more, p3) = peek text es (59 ∷ []) p2 in
        elim more [
          | false ↦ parsed cmd2 p3
          | true ↦
              and_then (parseline k text es (next_token text es p3))
                λ right p4. parsed (list_cmd cmd2 right) p4
        ]

  pub parsepipe : (fuel : ℕ) → (text : ℕ → ℕ) → (es ps : ℕ) → Outcome Cmd
  parsepipe zero text es ps = out_of_fuel
  parsepipe (suc k) text es ps = and_then (parseexec k text es ps) λ cmd p.
      let (more, p2) = peek text es (124 ∷ []) p in
      elim more [
        | false ↦ parsed cmd p2
        | true ↦
            and_then (parsepipe k text es (next_token text es p2))
              λ right p3. parsed (pipe_cmd cmd right) p3
      ]

  pub parseexec : (fuel : ℕ) → (text : ℕ → ℕ) → (es ps : ℕ) → Outcome Cmd
  parseexec zero text es ps = out_of_fuel
  parseexec (suc k) text es ps =
      let (block, p) = peek text es (40 ∷ []) ps in
      elim block [
        | true ↦ parseblock k text es p
        | false ↦ and_then (parseredirs text es (exec_cmd []) p) (exec_loop max_args text es)
      ]

  pub parseblock : (fuel : ℕ) → (text : ℕ → ℕ) → (es ps : ℕ) → Outcome Cmd
  parseblock zero text es ps = out_of_fuel
  parseblock (suc k) text es ps =
      let (opens, p) = peek text es (40 ∷ []) ps in
      elim opens [
        | false ↦ panics
        | true ↦ and_then (parseline k text es (next_token text es p)) λ cmd p2.
            let (closes, p3) = peek text es (41 ∷ []) p2 in
            elim closes [ false ↦ panics | true ↦ parseredirs text es cmd (next_token text es p3) ]
      ]

-- The zeros that `nulterminate` stores for a list of arguments.
pub end_args : List (ℕ × ℕ) → (ℕ → ℕ) → ℕ → ℕ
end_args [] text = text
end_args ((q, eq) ∷ argv) text = end_args argv (update text eq 0)

pub nulterminate : Cmd → (ℕ → ℕ) → ℕ → ℕ
nulterminate (exec_cmd argv) text = end_args argv text
nulterminate (redir_cmd cmd file efile mode fd) text = update (nulterminate cmd text) efile 0
nulterminate (pipe_cmd left right) text = nulterminate right (nulterminate left text)
nulterminate (list_cmd left right) text = nulterminate right (nulterminate left text)
nulterminate (back_cmd cmd) text = nulterminate cmd text

-- `len` is what `strlen` gives. Each of the four functions calls the next, and then the text is shorter.
pub parse_text : (text : ℕ → ℕ) → (s len : ℕ) → Outcome Cmd
parse_text text s len =
    let es = s + len in
    and_then (parseline (4 * len + 4) text es s)
      λ cmd p. let p2 = skip text es p in if p2 == es then parsed cmd p2 else panics

-- The command, and the memory in which its strings end.
pub parsecmd : (text : ℕ → ℕ) → (s len : ℕ) → Outcome (Cmd × (ℕ → ℕ))
parsecmd text s len =
    and_then (parse_text text s len) λ cmd p. parsed (cmd, nulterminate cmd text) p
