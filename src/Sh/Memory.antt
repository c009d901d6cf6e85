-- ===== src/Sh/Memory.antt =====
-- What `nulterminate` does to memory.
use Prim.{tt}
use mathlib.Core.Bool.{false≢true}
use project_priv.Prelude.{
  ℕ, ◌<◌, ◌≡◌, sym, ap, ◌∙◌, List, [], ◌∷◌, true, arith, inl, inr, ℕ_discrete, update, update_self,
  update_ne,
}
use project_priv.Sh.{
  Cmd, exec_cmd, redir_cmd, pipe_cmd, list_cmd, back_cmd, is_word, end_args, nulterminate,
}
use project_priv.Sh.Words.{IsToken}
use project_priv.Sh.Commands.{EachArg, Each}

-- The words of the line are still there.
abbrev pub Kept : (text : ℕ → ℕ) → (es : ℕ) → (m : ℕ → ℕ) → Type 0
Kept text es m = (x : ℕ) → x < es → is_word (text x) ≡ true → m x ≡ text x

Kept-update :
    (text : ℕ → ℕ) (start es q eq : ℕ) (m : ℕ → ℕ)
    → IsToken text start es q eq
    → Kept text es m
    → Kept text es (update m eq 0)
Kept-update text start es q eq m t k x h w = elim (ℕ_discrete x eq) [
  | no n ↦ update_ne m eq 0 x n ∙ k x h w
  | yes e ↦ elim t.ends [
    | inl end ↦ absurd (omega (arith, e, end))
    | inr no_word ↦ absurd (false≢true (sym no_word ∙ ap (λ (z : ℕ). is_word (text z)) (sym e) ∙ w))
  ]
]

end_args-Kept :
    (text : ℕ → ℕ) (start es : ℕ) (argv : List (ℕ × ℕ)) (m : ℕ → ℕ)
    → EachArg (IsToken text start es) argv
    → Kept text es m
    → Kept text es (end_args argv m)
unfolding end_args
end_args-Kept text start es [] m t k = k
end_args-Kept text start es ((q, eq) ∷ argv) m (t, ts) k =
    end_args-Kept text start es argv (update m eq 0) ts (Kept-update text start es q eq m t k)

pub nulterminate-Kept :
    (text : ℕ → ℕ) (start es : ℕ) (cmd : Cmd) (m : ℕ → ℕ)
    → Each (IsToken text start es) cmd
    → Kept text es m
    → Kept text es (nulterminate cmd m)
unfolding nulterminate
nulterminate-Kept text start es (exec_cmd argv) m t k = end_args-Kept text start es argv m t k
nulterminate-Kept text start es (redir_cmd cmd file efile mode fd) m (t, u) k =
    Kept-update text start es file efile (nulterminate cmd m) u
      (nulterminate-Kept text start es cmd m t k)
nulterminate-Kept text start es (pipe_cmd left right) m (t, u) k =
    nulterminate-Kept text start es right (nulterminate left m) u
      (nulterminate-Kept text start es left m t k)
nulterminate-Kept text start es (list_cmd left right) m (t, u) k =
    nulterminate-Kept text start es right (nulterminate left m) u
      (nulterminate-Kept text start es left m t k)
nulterminate-Kept text start es (back_cmd cmd) m t k = nulterminate-Kept text start es cmd m t k

-- A zero stays.
update_zero : (m : ℕ → ℕ) (e x : ℕ) → m x ≡ 0 → update m e 0 x ≡ 0
update_zero m e x h = elim (ℕ_discrete x e) [
  | yes q ↦ ap (update m e 0) q ∙ update_self m e 0
  | no n ↦ update_ne m e 0 x n ∙ h
]

end_args_zero : (argv : List (ℕ × ℕ)) (m : ℕ → ℕ) (x : ℕ) → m x ≡ 0 → end_args argv m x ≡ 0
unfolding end_args
end_args_zero [] m x h = h
end_args_zero ((q, eq) ∷ argv) m x h = end_args_zero argv (update m eq 0) x (update_zero m eq x h)

nulterminate_zero : (cmd : Cmd) (m : ℕ → ℕ) (x : ℕ) → m x ≡ 0 → nulterminate cmd m x ≡ 0
unfolding nulterminate
nulterminate_zero (exec_cmd argv) m x h = end_args_zero argv m x h
nulterminate_zero (redir_cmd cmd file efile mode fd) m x h =
    update_zero (nulterminate cmd m) efile x (nulterminate_zero cmd m x h)
nulterminate_zero (pipe_cmd left right) m x h =
    nulterminate_zero right (nulterminate left m) x (nulterminate_zero left m x h)
nulterminate_zero (list_cmd left right) m x h =
    nulterminate_zero right (nulterminate left m) x (nulterminate_zero left m x h)
nulterminate_zero (back_cmd cmd) m x h = nulterminate_zero cmd m x h

EachArg-map :
    (P Q : ℕ → ℕ → Type 0) (l : List (ℕ × ℕ))
    → ((q e : ℕ) → P q e → Q q e)
    → EachArg P l
    → EachArg Q l
EachArg-map P Q [] f h = tt
EachArg-map P Q ((q, e) ∷ l) f (h, hs) = (f q e h, EachArg-map P Q l f hs)

pub Each-map :
    (P Q : ℕ → ℕ → Type 0) (cmd : Cmd) → ((q e : ℕ) → P q e → Q q e) → Each P cmd → Each Q cmd
Each-map P Q (exec_cmd argv) f h = EachArg-map P Q argv f h
Each-map P Q (redir_cmd cmd file efile mode fd) f (h, g) = (Each-map P Q cmd f h, f file efile g)
Each-map P Q (pipe_cmd left right) f (h, g) = (Each-map P Q left f h, Each-map P Q right f g)
Each-map P Q (list_cmd left right) f (h, g) = (Each-map P Q left f h, Each-map P Q right f g)
Each-map P Q (back_cmd cmd) f h = Each-map P Q cmd f h

-- A string of the line that a 0 ends.
abbrev pub Ended : (P : ℕ → ℕ → Type 0) → (m : ℕ → ℕ) → ℕ → ℕ → Type 0
Ended P m q e = P q e × (m e ≡ 0)

end_args-Ended :
    (P : ℕ → ℕ → Type 0) (argv : List (ℕ × ℕ)) (m : ℕ → ℕ)
    → EachArg P argv
    → EachArg (Ended P (end_args argv m)) argv
unfolding end_args
end_args-Ended P [] m h = tt
end_args-Ended P ((q, e) ∷ argv) m (h, hs) = (
  (h, end_args_zero argv (update m e 0) e (update_self m e 0)),
  end_args-Ended P argv (update m e 0) hs,
)

pub nulterminate-Ended :
    (P : ℕ → ℕ → Type 0) (cmd : Cmd) (m : ℕ → ℕ)
    → Each P cmd
    → Each (Ended P (nulterminate cmd m)) cmd
unfolding nulterminate
nulterminate-Ended P (exec_cmd argv) m h = end_args-Ended P argv m h
nulterminate-Ended P (redir_cmd cmd file efile mode fd) m (h, g) =
    let m1 = nulterminate cmd m in
    (
      Each-map (Ended P m1) (Ended P (update m1 efile 0)) cmd
          (λ q e u. (u.0, update_zero m1 efile e u.1)) (nulterminate-Ended P cmd m h),
      (g, update_self m1 efile 0),
    )
nulterminate-Ended P (pipe_cmd left right) m (h, g) =
    let m1 = nulterminate left m in
    (
      Each-map (Ended P m1) (Ended P (nulterminate right m1)) left
          (λ q e u. (u.0, nulterminate_zero right m1 e u.1)) (nulterminate-Ended P left m h),
      nulterminate-Ended P right m1 g,
    )
nulterminate-Ended P (list_cmd left right) m (h, g) =
    let m1 = nulterminate left m in
    (
      Each-map (Ended P m1) (Ended P (nulterminate right m1)) left
          (λ q e u. (u.0, nulterminate_zero right m1 e u.1)) (nulterminate-Ended P left m h),
      nulterminate-Ended P right m1 g,
    )
nulterminate-Ended P (back_cmd cmd) m h = nulterminate-Ended P cmd m h
