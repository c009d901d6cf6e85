-- ===== src/Kalloc/Chain.antt =====
-- The free list as a list of pages, none of them twice.
use Prim.{tt}
use project_priv.Prelude.{
  ℕ, zero, suc, ◌+◌, ◌*◌, ◌/◌, ◌%◌, ◌<◌, ◌≤◌, ◌≡◌, ◌≢◌, ◌⊎◌, inl, inr, refl, sym, List, [], ◌∷◌,
  Option, some, Bool-cases, leb, update, update_self, update_ne, arith, ℕ_discrete, ne→==, eq→==,
  subst,
}
use project_priv.Kalloc.{
  Kmem, page_size, phystop, filled, kfree, kalloc, page_round_up, free_pages, freerange, kinit,
}

abbrev pub NotIn : ℕ → List ℕ → Type 0
NotIn p [] = Unit {0}
NotIn p (x ∷ xs) = (x ≢ p) × NotIn p xs

abbrev pub In : ℕ → List ℕ → Type 0
In p [] = ⊥
In p (x ∷ xs) = (x ≡ p) ⊎ In p xs

-- A page that `kfree` takes.
pub record IsPage (kernel_end p : ℕ) : Type 0 where
  pub aligned : p % page_size ≡ 0
  pub above : kernel_end ≤ p
  pub below : p < phystop

-- The list from `p` on has just these pages, all different.
abbrev pub Chain : (kernel_end : ℕ) → (ℕ → ℕ) → ℕ → List ℕ → Type 0
Chain kernel_end next p [] = p ≡ 0
Chain kernel_end next p (x ∷ xs) =
    (p ≡ x) × IsPage kernel_end x × NotIn x xs × Chain kernel_end next (next x) xs

abbrev pub Free : (kernel_end : ℕ) → List ℕ → Kmem → Type 0
Free kernel_end l k = Chain kernel_end k.next k.freelist l

Chain-update :
    (kernel_end : ℕ) (next : ℕ → ℕ) (p q v : ℕ) (l : List ℕ)
    → NotIn q l
    → Chain kernel_end next p l
    → Chain kernel_end (update next q v) p l
Chain-update kernel_end next p q v [] h c = c
Chain-update kernel_end next p q v (x ∷ xs) (ne, h) (e, page, n, c) =
    (e, page, n, rw (update_ne next q v x ne) (Chain-update kernel_end next (next x) q v xs h c))

-- Freeing an address that `kfree` takes and that is not on the free list does not panic and puts it at the
-- front of the list; no other page comes or goes.
pub kfree_lem :
    (kernel_end p : ℕ) (l : List ℕ) (k : Kmem)
    → IsPage kernel_end p
    → NotIn p l
    → Free kernel_end l k
    → (after : Kmem) × (kfree kernel_end p k ≡ some after) × Free kernel_end (p ∷ l) after
unfolding kfree
kfree_lem kernel_end p l k page h c = (
  record { freelist = p; next = update (update k.next p (filled 1)) p k.freelist },
  ground (arith, page.aligned, page.above, page.below),
  (
    refl,
    page,
    h,
    rw (update_self (update k.next p (filled 1)) p k.freelist) (
        Chain-update kernel_end (update k.next p (filled 1)) k.freelist p k.freelist l h
          (Chain-update kernel_end k.next k.freelist p (filled 1) l h c)),
  ),
)

-- What `kalloc` gives: the null pointer when no page is free, and else a page that is then not free.
abbrev pub Given : (kernel_end : ℕ) → List ℕ → ℕ × Kmem → Type 0
Given kernel_end [] (r, k) = (r ≡ 0) × Free kernel_end [] k
Given kernel_end (x ∷ xs) (r, k) = (r ≡ x) × NotIn r xs × Free kernel_end xs k

-- When the end of the kernel is not 0, `kalloc` gives the first free page, takes it off the free list, where it does not occur again, and
-- leaves the other free pages; when there is none, it gives the null pointer.
pub kalloc_lem :
    (kernel_end : ℕ) (l : List ℕ) (k : Kmem)
    → 0 < kernel_end
    → Free kernel_end l k
    → Given kernel_end l (kalloc k)
unfolding kalloc
kalloc_lem kernel_end [] k h c = rw (eq→== k.freelist 0 c) (c, c)
kalloc_lem kernel_end (x ∷ xs) k h (e, page, n, c) =
    let nonzero : k.freelist ≢ 0 = λ z. omega (arith, page.above, z, e) in
    rw (ne→== k.freelist 0 nonzero) (
      e,
      subst (λ y. NotIn y xs) (sym e) n,
      subst (λ y. Chain kernel_end (update k.next y (filled 5)) (k.next y) xs) (sym e)
          (Chain-update kernel_end k.next (k.next x) x (filled 5) xs n c),
    )

abbrev Below : ℕ → List ℕ → Type 0
Below p [] = Unit {0}
Below p (x ∷ xs) = (x < p) × Below p xs

Below-NotIn : (p : ℕ) (l : List ℕ) → Below p l → NotIn p l
Below-NotIn p [] h = tt
Below-NotIn p (x ∷ xs) (h, t) = ((λ e. omega (arith, h, e)), Below-NotIn p xs t)

Below-le : (p q : ℕ) (l : List ℕ) → p ≤ q → Below p l → Below q l
Below-le p q [] h b = tt
Below-le p q (x ∷ xs) h (b, t) = (omega (arith, b), Below-le p q xs h t)

-- After `free_pages` from `p` on, the pages of `l` and all from `p` to `pa_end` are free.
record Freed (kernel_end p pa_end : ℕ) (l : List ℕ) (r : Option Kmem) : Type 0 where
  after : Kmem
  pages : List ℕ
  result : r ≡ some after
  free : Free kernel_end pages after
  old : (q : ℕ) → In q l → In q pages
  new : (q : ℕ) → q % page_size ≡ 0 → p ≤ q → q + page_size ≤ pa_end → In q pages

free_pages-Freed :
    (n kernel_end p pa_end : ℕ) (l : List ℕ) (k : Kmem)
    → p % page_size ≡ 0
    → kernel_end ≤ p
    → pa_end ≤ phystop
    → pa_end < p + (n + 1) * page_size
    → Below p l
    → Free kernel_end l k
    → Freed kernel_end p pa_end l (free_pages n kernel_end p pa_end k)
unfolding free_pages
free_pages-Freed zero kernel_end p pa_end l k a b c d h f = record {
  after = k;
  pages = l;
  result = refl;
  free = f;
  old = λ q i. i;
  new = λ q m i j. absurd (omega arith);
}
free_pages-Freed (suc n) kernel_end p pa_end l k a b c d h f =
    elim (Bool-cases (leb (p + page_size) pa_end)) [
      | inr e ↦ record {
        after = k;
        pages = l;
        result = rw (free_pages, e) refl;
        free = f;
        old = λ q i. i;
        new = λ q m i j. absurd (ground (arith, e, i, j));
      }
      | inl e ↦
          let room : p + page_size ≤ pa_end = ground (arith, e) in
          let (k1, freed, f1) =
            kfree_lem kernel_end p l k (record { aligned = a; above = b; below = omega arith })
              (Below-NotIn p l h) f in
          let rest =
            free_pages-Freed n kernel_end (p + page_size) pa_end (p ∷ l) k1 (omega arith)
              (omega arith) c (omega arith)
              (omega arith, Below-le p (p + page_size) l (omega arith) h) f1 in
          record {
            after = rest.after;
            pages = rest.pages;
            result = rw (free_pages, e) (rw freed rest.result);
            free = rest.free;
            old = λ q i. rest.old q (inr i);
            new = λ q m i j. elim (ℕ_discrete p q) [
              | yes same ↦ rest.old q (inl same)
              | no other ↦ rest.new q m (omega arith) j
            ];
          }
    ]

-- `kinit` does not panic, and then every page from the end of the kernel to the end of memory is free, once,
-- and nothing else is.
pub kinit_lem :
    (kernel_end : ℕ) (junk : ℕ → ℕ)
    → (after : Kmem) × (pages : List ℕ) × (kinit kernel_end junk ≡ some after)
      × Free kernel_end pages after
      × ((q : ℕ) → IsPage kernel_end q → In q pages)
unfolding kinit freerange
kinit_lem kernel_end junk =
    let r =
      free_pages-Freed (phystop / page_size) kernel_end (page_round_up kernel_end) phystop []
        (record { freelist = 0; next = junk }) (omega arith) (omega arith) (omega arith)
        (omega arith) tt refl in
    (
      r.after,
      r.pages,
      r.result,
      r.free,
      λ q page.
          r.new q page.aligned (omega (arith, page.aligned, page.above))
            (omega (arith, page.aligned, page.below)),
    )
