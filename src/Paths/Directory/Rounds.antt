-- ===== src/Paths/Directory/Rounds.antt =====
-- `namex` ends: its loop needs no more rounds than the path has characters.
use project_priv.Prelude.{
  ℕ, zero, suc, ◌<◌, ◌≡◌, refl, ap, fun_ext, inl, inr, Option-cases, List, [], ◌∷◌, Option, some,
  Bool, length, arith,
}
use project_priv.Fs.{Superblock, Disk}
use project_priv.Fs.Table.{Itable}
use project_priv.Paths.{skip_slashes, after_element, first_element, skipelem}
use project_priv.Paths.Elements.{length-skip_slashes, skip_slashes_head, shorter}
use project_priv.Paths.Directory.{Walk, enter, walk}

-- The path that `skipelem` leaves is shorter.
skipelem_shorter :
    (path rest : List ℕ) (name name1 : ℕ → ℕ)
    → skipelem path name ≡ some (rest, name1)
    → length rest < length path
unfolding skipelem first_element
skipelem_shorter path rest name name1 e = go (skip_slashes path) refl e
  where
    go :
        (p : List ℕ)
        → skip_slashes path ≡ p
        → first_element p name ≡ some (rest, name1)
        → length rest < length path
    go [] q e = cc
    go (c ∷ p) q e =
        let left : skip_slashes (after_element (c ∷ p)) ≡ rest = cc in
        let start = skip_slashes_head path c p q in
        omega (
          arith,
          ap (length {A = ℕ}) left,
          ap (length {A = ℕ}) q,
          length-skip_slashes path,
          length-skip_slashes (after_element (c ∷ p)),
          shorter c p start,
        )

-- With more rounds than the path has characters, the loop of `namex` does not run out of them: its
-- result does not depend on how many there are, nor on what it would be if none were left.
pub walk_lem :
    (sb : Superblock) (out other : Option Walk) (parent : Bool) (k j : ℕ) (path : List ℕ) (ip : ℕ)
    (name : ℕ → ℕ) (t : Itable) (s : Disk)
    → length path < k
    → length path < j
    → walk sb out parent k path ip name t s ≡ walk sb other parent j path ip name t s
unfolding walk
walk_lem sb out other parent zero j path ip name t s h g = absurd (omega arith)
walk_lem sb out other parent (suc k) zero path ip name t s h g = absurd (omega arith)
walk_lem sb out other parent (suc k) (suc j) path ip name t s h g =
    elim (Option-cases (skipelem path name)) [
      | inl e ↦ rw (walk, e) refl
      | inr ((rest, name1), e) ↦
          let less = skipelem_shorter path rest name name1 e in
          let same : walk sb out parent k rest ≡ walk sb other parent j rest = fun_ext (λ i.
            fun_ext (λ n. fun_ext (λ t1. fun_ext (λ s1.
              walk_lem sb out other parent k j rest i n t1 s1 (omega arith) (omega arith))))) in
          rw (walk, e)
            (ap
              (λ (next : ℕ → (ℕ → ℕ) → Itable → Disk → Option Walk).
                enter sb parent rest next ip name1 t s)
              same)
    ]
