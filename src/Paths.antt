-- ===== src/Paths.antt =====
-- kernel/fs.c: how a path is cut into names. A path is its characters up to the terminating 0, and a name
-- is an array of `DIRSIZ` bytes.
mod Elements
mod Directory
pub mod Calls
mod Tests
use project_priv.Prelude.{
  ℕ, zero, suc, ◌+◌, List, [], ◌∷◌, Option, none, some, Bool, true, false, not, ◌==◌, if◌then◌else◌,
  leb, take, length, update,
}
use project_priv.Fs.{dirsiz}

abbrev pub slash : ℕ
slash = 47

-- `while(*path == '/') path++`
pub skip_slashes : List ℕ → List ℕ
skip_slashes [] = []
skip_slashes (c ∷ path) = elim (c == slash) [ true ↦ skip_slashes path | false ↦ c ∷ path ]

-- The characters that `while(*path != '/' && *path != 0) path++` passes, and what it leaves.
pub element : List ℕ → List ℕ
element [] = []
element (c ∷ path) = elim (c == slash) [ true ↦ [] | false ↦ c ∷ element path ]

pub after_element : List ℕ → List ℕ
after_element [] = []
after_element (c ∷ path) = elim (c == slash) [ true ↦ c ∷ path | false ↦ after_element path ]

-- `memmove` of characters to the name, from place `i` on.
pub copy_name : ℕ → List ℕ → (ℕ → ℕ) → ℕ → ℕ
copy_name i [] name = name
copy_name i (c ∷ s) name = copy_name (i + 1) s (update name i c)

-- The name that a run of characters leaves in the array.
pub set_name : List ℕ → (ℕ → ℕ) → ℕ → ℕ
set_name s name =
    if leb dirsiz (length s)
    then copy_name 0 (take dirsiz s) name
    else update (copy_name 0 s name) (length s) 0

-- `skipelem` past the leading slashes; `none` is its result 0.
pub first_element : List ℕ → (ℕ → ℕ) → Option (List ℕ × (ℕ → ℕ))
first_element [] name = none
first_element (c ∷ path) name =
    some (skip_slashes (after_element (c ∷ path)), set_name (element (c ∷ path)) name)

pub skipelem : List ℕ → (ℕ → ℕ) → Option (List ℕ × (ℕ → ℕ))
skipelem path name = first_element (skip_slashes path) name
