-- ===== src/Paths/Elements.antt =====
-- The names that a loop of `skipelem` goes through are the parts of the path between slashes.
use project_priv.Prelude.{
  ℕ, zero, suc, ◌+◌, ◌≤◌, ◌<◌, ◌≡◌, ◌≢◌, List, [], ◌∷◌, map, none, some, true, false, ◌==◌, leb,
  take, length, update, refl, sym, ap, ap₂, ◌∙◌, Bool-cases, inl, inr, arith, update_self,
  update_ne, ne→==,
}
use project_priv.Fs.{dirsiz}
use project_priv.Strings.Compare.{text}
use project_priv.Paths.{
  slash, skip_slashes, element, after_element, copy_name, set_name, first_element, skipelem,
}

-- A path as the strings between its slashes, some of which are empty.
unfoldable pub prepend : ℕ → List (List ℕ) → List (List ℕ)
prepend c [] = (c ∷ []) ∷ []
prepend c (w ∷ ws) = (c ∷ w) ∷ ws

unfoldable pub split : List ℕ → List (List ℕ)
split [] = [] ∷ []
split (c ∷ path) = elim (c == slash) [ true ↦ [] ∷ split path | false ↦ prepend c (split path) ]

unfoldable pub non_empty : List (List ℕ) → List (List ℕ)
non_empty [] = []
non_empty ([] ∷ ws) = non_empty ws
non_empty ((c ∷ w) ∷ ws) = (c ∷ w) ∷ non_empty ws

-- The names that `while((path = skipelem(path, name)) != 0)` goes through, in at most `k` rounds.
pub names : (k : ℕ) → List ℕ → (ℕ → ℕ) → List (List ℕ)
names zero path name = []
names (suc k) path name = elim (skipelem path name) [
  | none ↦ []
  | some (rest, name1) ↦ text name1 0 dirsiz ∷ names k rest name1
]

-- No character of a string is 0.
unfoldable pub NoZero : List ℕ → Type 0
NoZero [] = Unit
NoZero (c ∷ path) = (c ≢ 0) × NoZero path

non_empty_skip : (path : List ℕ) → non_empty (split (skip_slashes path)) ≡ non_empty (split path)
unfolding split skip_slashes non_empty
non_empty_skip [] = refl
non_empty_skip (c ∷ path) = elim (Bool-cases (c == slash)) [
  | inl e ↦ rw (skip_slashes, split, e) (non_empty_skip path)
  | inr e ↦ rw (skip_slashes, e) refl
]

-- What is left of the parts after the first.
others : List ℕ → List (List ℕ)
others [] = []
others (c ∷ path) = elim (c == slash) [ true ↦ split path | false ↦ others path ]

split_first : (path : List ℕ) → split path ≡ element path ∷ others path
unfolding split element others prepend
split_first [] = refl
split_first (c ∷ path) = elim (Bool-cases (c == slash)) [
  | inl e ↦ rw (split, element, others, e) refl
  | inr e ↦ rw (split, element, others, e) (ap (prepend c) (split_first path))
]

others_after : (path : List ℕ) → non_empty (split (after_element path)) ≡ non_empty (others path)
unfolding split after_element others non_empty
others_after [] = refl
others_after (c ∷ path) = elim (Bool-cases (c == slash)) [
  | inl e ↦ rw (after_element, others, e) (rw (split, e) refl)
  | inr e ↦ rw (after_element, others, e) (others_after path)
]

-- The characters of `s` stand in a memory from `a` on.
Spells : (ℕ → ℕ) → ℕ → List ℕ → Type 0
Spells m a [] = Unit
Spells m a (c ∷ s) = (m a ≡ c) × Spells m (a + 1) s

Spells-take : (n : ℕ) (m : ℕ → ℕ) (a : ℕ) (s : List ℕ) → Spells m a s → Spells m a (take n s)
unfolding Spells
Spells-take zero m a s h = tt
Spells-take (suc n) m a [] h = tt
Spells-take (suc n) m a (c ∷ s) (e, h) = (e, Spells-take n m (a + 1) s h)

Spells-update :
    (m : ℕ → ℕ) (a n v : ℕ) (s : List ℕ)
    → a + length s ≤ n
    → Spells m a s
    → Spells (update m n v) a s
unfolding Spells
Spells-update m a n v [] l h = tt
Spells-update m a n v (c ∷ s) l (e, h) =
    (update_ne m n v a (λ q. omega (arith, q)) ∙ e, Spells-update m (a + 1) n v s (omega arith) h)

copy_name_below : (i j : ℕ) (s : List ℕ) (name : ℕ → ℕ) → j < i → copy_name i s name j ≡ name j
unfolding copy_name
copy_name_below i j [] name h = refl
copy_name_below i j (c ∷ s) name h =
    copy_name_below (i + 1) j s (update name i c) (omega arith)
    ∙ update_ne name i c j (λ q. omega (arith, q))

copy_name-Spells : (i : ℕ) (s : List ℕ) (name : ℕ → ℕ) → Spells (copy_name i s name) i s
unfolding copy_name Spells
copy_name-Spells i [] name = tt
copy_name-Spells i (c ∷ s) name = (
  copy_name_below (i + 1) i s (update name i c) (omega arith) ∙ update_self name i c,
  copy_name-Spells (i + 1) s (update name i c),
)

text-Spells :
    (m : ℕ → ℕ) (a n : ℕ) (s : List ℕ)
    → Spells m a (take n s)
    → NoZero s
    → (length s < n → m (a + length s) ≡ 0)
    → text m a n ≡ take n s
unfolding Spells NoZero
text-Spells m a zero s h z last = refl
text-Spells m a (suc n) [] h z last =
    let stop : m a ≡ 0 = sym (ap m (omega arith)) ∙ last (omega arith) in rw stop refl
text-Spells m a (suc n) (c ∷ s) (e, h) (nz, z) last =
    let there : (m a == 0) ≡ false = ne→== (m a) 0 (λ q. nz (sym e ∙ q)) in
    rw (there, e)
      (ap (λ (l : List ℕ). c ∷ l)
        (text-Spells m (a + 1) n s h z (λ l. ap m (omega arith) ∙ last (omega arith))))

text-set_name :
    (s : List ℕ) (name : ℕ → ℕ) → NoZero s → text (set_name s name) 0 dirsiz ≡ take dirsiz s
unfolding set_name
text-set_name s name z = elim (Bool-cases (leb dirsiz (length s))) [
  | inl e ↦
      rw (set_name, e)
        (text-Spells (copy_name 0 (take dirsiz s) name) 0 dirsiz s
          (copy_name-Spells 0 (take dirsiz s) name) z (λ l. absurd (ground (arith, e))))
  | inr e ↦
      rw (set_name, e)
        (text-Spells (update (copy_name 0 s name) (length s) 0) 0 dirsiz s
          (Spells-take dirsiz (update (copy_name 0 s name) (length s) 0) 0 s (
            Spells-update (copy_name 0 s name) 0 (length s) 0 s (omega arith)
              (copy_name-Spells 0 s name)))
          z
          (λ l.
            ap (update (copy_name 0 s name) (length s) 0) (omega arith)
            ∙ update_self (copy_name 0 s name) (length s) 0))
]

pub length-skip_slashes : (path : List ℕ) → length (skip_slashes path) ≤ length path
unfolding skip_slashes
length-skip_slashes [] = omega arith
length-skip_slashes (c ∷ path) = elim (Bool-cases (c == slash)) [
  | inl e ↦ rw (skip_slashes, e) (omega (arith, length-skip_slashes path))
  | inr e ↦ rw (skip_slashes, e) (omega arith)
]

length-after_element : (path : List ℕ) → length (after_element path) ≤ length path
unfolding after_element
length-after_element [] = omega arith
length-after_element (c ∷ path) = elim (Bool-cases (c == slash)) [
  | inl e ↦ rw (after_element, e) (omega arith)
  | inr e ↦ rw (after_element, e) (omega (arith, length-after_element path))
]

skip_slashes-NoZero : (path : List ℕ) → NoZero path → NoZero (skip_slashes path)
unfolding skip_slashes NoZero
skip_slashes-NoZero [] z = tt
skip_slashes-NoZero (c ∷ path) (nz, z) = elim (Bool-cases (c == slash)) [
  | inl e ↦ rw (skip_slashes, e) (skip_slashes-NoZero path z)
  | inr e ↦ rw (skip_slashes, e) (nz, z)
]

element-NoZero : (path : List ℕ) → NoZero path → NoZero (element path)
unfolding element NoZero
element-NoZero [] z = tt
element-NoZero (c ∷ path) (nz, z) = elim (Bool-cases (c == slash)) [
  | inl e ↦ rw (element, e) tt
  | inr e ↦ rw (element, e) (nz, element-NoZero path z)
]

after_element-NoZero : (path : List ℕ) → NoZero path → NoZero (after_element path)
unfolding after_element NoZero
after_element-NoZero [] z = tt
after_element-NoZero (c ∷ path) (nz, z) = elim (Bool-cases (c == slash)) [
  | inl e ↦ rw (after_element, e) (nz, z)
  | inr e ↦ rw (after_element, e) (after_element-NoZero path z)
]

pub skip_slashes_head :
    (path : List ℕ) (c : ℕ) (rest : List ℕ) → skip_slashes path ≡ c ∷ rest → (c == slash) ≡ false
unfolding skip_slashes
skip_slashes_head [] c rest e = cc
skip_slashes_head (x ∷ path) c rest e = elim (Bool-cases (x == slash)) [
  | inl h ↦ skip_slashes_head path c rest (sym (rw (skip_slashes, h) refl) ∙ e)
  | inr h ↦
      let same : x ∷ path ≡ c ∷ rest = sym (rw (skip_slashes, h) refl) ∙ e in
      ground (arith, same, h)
]

-- The rounds of the loop from a path that is past its leading slashes.
abbrev rounds : (k : ℕ) → List ℕ → (ℕ → ℕ) → List (List ℕ)
rounds k p name = elim (first_element p name) [
  | none ↦ []
  | some (rest, name1) ↦ text name1 0 dirsiz ∷ names k rest name1
]

abbrev parts : List ℕ → List (List ℕ)
parts path = map (take dirsiz) (non_empty (split path))

parts_first :
    (c : ℕ) (path : List ℕ)
    → (c == slash) ≡ false
    → parts (c ∷ path)
      ≡ take dirsiz (element (c ∷ path)) ∷ parts (skip_slashes (after_element (c ∷ path)))
unfolding element non_empty
parts_first c path e =
    let start : element (c ∷ path) ≡ c ∷ element path = rw (element, e) refl in
    let tail : non_empty (others (c ∷ path))
        ≡ non_empty (split (skip_slashes (after_element (c ∷ path)))) =
      sym (non_empty_skip (after_element (c ∷ path)) ∙ others_after (c ∷ path)) in
    ap (λ (l : List (List ℕ)). map (take dirsiz) (non_empty l)) (split_first (c ∷ path))
    ∙ ap (λ (w : List ℕ). map (take dirsiz) (non_empty (w ∷ others (c ∷ path)))) start
    ∙ ap (λ (l : List (List ℕ)). take dirsiz (c ∷ element path) ∷ map (take dirsiz) l) tail
    ∙ ap (λ (w : List ℕ). take dirsiz w ∷ parts (skip_slashes (after_element (c ∷ path))))
        (sym start)

pub shorter :
    (c : ℕ) (path : List ℕ) → (c == slash) ≡ false → length (after_element (c ∷ path)) ≤ length path
unfolding after_element
shorter c path e = rw (after_element, e) (length-after_element path)

rounds-parts :
    (k : ℕ) (p : List ℕ) (name : ℕ → ℕ)
    → ((q : List ℕ) (name1 : ℕ → ℕ) → length q < length p → NoZero q → names k q name1 ≡ parts q)
    → ((c : ℕ) (rest : List ℕ) → p ≡ c ∷ rest → (c == slash) ≡ false)
    → NoZero p
    → rounds k p name ≡ parts p
unfolding first_element split non_empty
rounds-parts k [] name later start z = refl
rounds-parts k (c ∷ path) name later start z =
    let e = start c path refl in
    let rest = skip_slashes (after_element (c ∷ path)) in
    ap₂ (λ (w : List ℕ) (l : List (List ℕ)). w ∷ l)
      (text-set_name (element (c ∷ path)) name (element-NoZero (c ∷ path) z))
      (later rest (set_name (element (c ∷ path)) name)
        (omega (arith, length-skip_slashes (after_element (c ∷ path)), shorter c path e))
        (skip_slashes-NoZero (after_element (c ∷ path)) (after_element-NoZero (c ∷ path) z)))
    ∙ sym (parts_first c path e)

-- The loop of `skipelem` over a path, with rounds for more than its characters, ends after the non-empty
-- parts of the path between slashes, and these are in order the names it goes through, each cut to
-- `DIRSIZ` characters.
pub names_lem :
    (k : ℕ) (path : List ℕ) (name : ℕ → ℕ)
    → length path < k
    → NoZero path
    → names k path name ≡ map (take dirsiz) (non_empty (split path))
unfolding names skipelem
names_lem zero path name h z = absurd (omega arith)
names_lem (suc k) path name h z =
    rounds-parts k (skip_slashes path) name
      (λ q name1 l zq. names_lem k q name1 (omega (arith, length-skip_slashes path)) zq)
      (skip_slashes_head path) (skip_slashes-NoZero path z)
    ∙ ap (map (take dirsiz)) (non_empty_skip path)
