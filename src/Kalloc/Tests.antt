-- ===== src/Kalloc/Tests.antt =====
-- The theorems about kernel/kalloc.c at concrete inputs.
use Prim.{tt}
use project_priv.Prelude.{ℕ, ◌≡◌, refl, [], ◌∷◌, List, some, arith}
use project_priv.Kalloc.{Kmem, kalloc, kinit}
use project_priv.Kalloc.Chain.{Free, Given, IsPage, In, kalloc_lem, kinit_lem}

-- Where a kernel could end, and a page after it.
abbrev end_of_kernel : ℕ
end_of_kernel = 0x80020f10

abbrev page : ℕ
page = 0x80022000

page-IsPage : IsPage end_of_kernel page
page-IsPage = record { aligned = omega arith; above = omega arith; below = omega arith }

abbrev no_page : Kmem
no_page = record { freelist = 0; next = λ a. 0 }

abbrev one_page : Kmem
one_page = record { freelist = page; next = λ a. 0 }

kalloc_lem_example : Given end_of_kernel (page ∷ []) (kalloc one_page)
kalloc_lem_example =
    kalloc_lem end_of_kernel (page ∷ []) one_page (omega arith) (refl, page-IsPage, tt, refl)

kinit_lem_example :
    (after : Kmem) × (pages : List ℕ) × (kinit end_of_kernel (λ a. 5) ≡ some after)
    × Free end_of_kernel pages after
    × ((q : ℕ) → IsPage end_of_kernel q → In q pages)
kinit_lem_example = kinit_lem end_of_kernel (λ a. 5)
