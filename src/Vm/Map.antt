-- ===== src/Vm/Map.antt =====
-- `mappages` of kernel/vm.c.
use mathlib.Core.Bool.{false≢true}
use project_priv.Prelude.{
  ◌>>=◌, ℕ, zero, suc, ◌+◌, ◌-◌, ◌*◌, ◌/◌, ◌%◌, ◌^◌, ◌≤◌, ◌<◌, ◌≡◌, ◌≢◌, inl, inr, refl, sym, ap,
  ◌∙◌, subst, [], none, some, Bool, true, false, arith, dec_lt, eq→==, ne→==,
}
use project_priv.Kalloc.{page_size}
use project_priv.Vm.{Ram, u64, maxva, vpn, is_valid, leaf_pte, walk_from, walk, map_loop, mappages}
use project_priv.Vm.Table.{Labels, IsTable, entry}
use project_priv.Vm.Walk.{Grown, full, found, walk-cases}
use project_priv.Vm.Range.{walk_below, mapped, mapped_in, mapped_out}
use project_priv.Vm.Page.{OneMapped, one_page}

-- What the loop does from an address on: it maps `n` of the `k` pages.
pub record Maps (k : ℕ) (L : Labels) (m : Ram) (root a last pa perm : ℕ) : Type 0 where
  pub count : ℕ
  pub ok : Bool
  pub labels : Labels
  pub ram : Ram
  pub result : map_loop k m root a last pa perm ≡ some (ok, ram)
  pub whole : ok ≡ true → count ≡ k
  pub short : ok ≡ false → (count < k) × (ram.free ≡ [])
  pub table : IsTable labels ram
  pub is_root : labels root ≡ some (2, 0)
  pub entries :
      (va : ℕ) → va < maxva → entry 2 ram root va ≡ mapped count a pa perm va (entry 2 m root va)

-- Nothing is mapped.
map_full :
    (k : ℕ) (L : Labels) (m : Ram) (root a last pa perm : ℕ) (L' : Labels) (m' : Ram)
    → L root ≡ some (2, 0)
    → a < maxva
    → Grown L m L' m'
    → m'.free ≡ []
    → walk_from 2 m root a true ≡ (none, m')
    → Maps (suc k) L m root a last pa perm
unfolding map_loop
map_full k L m root a last pa perm L' m' at below g free run = record {
  count = 0;
  ok = false;
  labels = L';
  ram = m';
  result =
      let whole_walk : walk m root a true ≡ some (none, m') =
        walk_below m root a true below ∙ ap some run in
      rw (map_loop, whole_walk) refl;
  whole = λ e. absurd (false≢true e);
  short = λ e. (omega arith, free);
  table = g.table;
  is_root = g.extends root (2, 0) at;
  entries = λ va h.
      g.entries 2 root 0 va at
      ∙ sym (
          mapped_out 0 a pa perm va (entry 2 m root va)
            (elim (dec_lt va a) [ yes l ↦ inl l | no l ↦ inr (omega (arith, l)) ]));
}

-- The loop at a page that is mapped, if it is the last and if it is not.
map_last :
    (k : ℕ) (L : Labels) (m : Ram) (root a pa perm : ℕ) (o : OneMapped L m root a pa perm)
    → a < maxva
    → map_loop (suc k) m root a a pa perm ≡ some (true, o.ram)
unfolding map_loop
map_last k L m root a pa perm o below =
    let whole_walk : walk m root a true ≡ some (some o.place, o.walked) =
      walk_below m root a true below ∙ ap some o.run in
    rw (map_loop, whole_walk, ◌>>=◌, o.free_slot, eq→== a a refl)
      (ap (λ (r : Ram). some (true, r)) o.stored)

map_next :
    (k : ℕ) (L : Labels) (m : Ram) (root a last pa perm : ℕ) (o : OneMapped L m root a pa perm)
    → a < maxva
    → a ≢ last
    → map_loop (suc k) m root a last pa perm
      ≡ map_loop k o.ram root (a + page_size) last (pa + page_size) perm
unfolding map_loop
map_next k L m root a last pa perm o below n =
    let whole_walk : walk m root a true ≡ some (some o.place, o.walked) =
      walk_below m root a true below ∙ ap some o.run in
    rw (map_loop, whole_walk, ◌>>=◌, o.free_slot, ne→== a last n)
      (ap (λ (r : Ram). map_loop k r root (a + page_size) last (pa + page_size) perm) o.stored)

-- The first page and then `n` more.
mapped_suc :
    (n a pa perm va old : ℕ)
    → a % page_size ≡ 0
    → mapped n (a + page_size) (pa + page_size) perm va (mapped 1 a pa perm va old)
      ≡ mapped (suc n) a pa perm va old
mapped_suc n a pa perm va old al = elim (dec_lt va a) [
  | yes l ↦
      mapped_out n (a + page_size) (pa + page_size) perm va (mapped 1 a pa perm va old)
        (inl (omega arith))
      ∙ mapped_out 1 a pa perm va old (inl l)
      ∙ sym (mapped_out (suc n) a pa perm va old (inl l))
  | no l ↦ elim (dec_lt va (a + page_size)) [
    | yes in_first ↦
        mapped_out n (a + page_size) (pa + page_size) perm va (mapped 1 a pa perm va old)
          (inl in_first)
        ∙ mapped_in 1 a pa perm va old (omega (arith, l)) (omega arith)
        ∙ sym (mapped_in (suc n) a pa perm va old (omega (arith, l)) (omega arith))
    | no past ↦ elim (dec_lt va (a + page_size * suc n)) [
      | yes u ↦
          let same : pa + page_size + (va / page_size - (a + page_size) / page_size) * page_size
              ≡ pa + (va / page_size - a / page_size) * page_size =
            omega (arith, past, al) in
          mapped_in n (a + page_size) (pa + page_size) perm va (mapped 1 a pa perm va old)
            (omega (arith, past)) (omega arith)
          ∙ ap (λ (z : ℕ). leaf_pte z perm) same
          ∙ sym (mapped_in (suc n) a pa perm va old (omega (arith, l)) u)
      | no u ↦
          mapped_out n (a + page_size) (pa + page_size) perm va (mapped 1 a pa perm va old)
            (inr (omega (arith, u)))
          ∙ mapped_out 1 a pa perm va old (inr (omega (arith, past)))
          ∙ sym (mapped_out (suc n) a pa perm va old (inr (omega (arith, u))))
    ]
  ]
]

last_Maps :
    (L : Labels) (m : Ram) (root a pa perm : ℕ) (o : OneMapped L m root a pa perm)
    → a < maxva
    → Maps 1 L m root a a pa perm
last_Maps L m root a pa perm o below = record {
  count = 1;
  ok = true;
  labels = o.labels;
  ram = o.ram;
  result = map_last 0 L m root a pa perm o below;
  whole = λ e. refl;
  short = λ e. absurd (false≢true (sym e));
  table = o.table;
  is_root = o.is_root;
  entries = o.entries;
}

next_Maps :
    (k : ℕ) (L : Labels) (m : Ram) (root a last pa perm : ℕ) (o : OneMapped L m root a pa perm)
    → a % page_size ≡ 0
    → a < maxva
    → a ≢ last
    → Maps (suc k) o.labels o.ram root (a + page_size) last (pa + page_size) perm
    → Maps (suc (suc k)) L m root a last pa perm
next_Maps k L m root a last pa perm o al below n r = record {
  count = suc r.count;
  ok = r.ok;
  labels = r.labels;
  ram = r.ram;
  result = map_next (suc k) L m root a last pa perm o below n ∙ r.result;
  whole = λ e. ap suc (r.whole e);
  short = λ e. (omega (arith, (r.short e).0), (r.short e).1);
  table = r.table;
  is_root = r.is_root;
  entries = λ va h.
      r.entries va h
      ∙ ap (mapped r.count (a + page_size) (pa + page_size) perm va) (o.entries va h)
      ∙ mapped_suc r.count a pa perm va (entry 2 m root va) al;
}

pub map_loop-Maps :
    (k : ℕ) (L : Labels) (m : Ram) (root a last pa perm : ℕ)
    → IsTable L m
    → L root ≡ some (2, 0)
    → a % page_size ≡ 0
    → a + page_size * suc k ≤ maxva
    → last ≡ a + page_size * k
    → pa % page_size ≡ 0
    → pa + page_size * suc k ≤ 2 ^ 56
    → perm < 1024
    → ((va : ℕ) → a ≤ va → va < a + page_size * suc k → is_valid (entry 2 m root va) ≡ false)
    → Maps (suc k) L m root a last pa perm
map_loop-Maps zero L m root a last pa perm v at al room end pal proom pperm empty =
    let below : a < maxva = omega arith in
    let top : vpn 3 a ≡ 0 = omega arith in
    let here : a ≡ last = omega (arith, end) in
    elim (walk-cases L 2 m root a v (at ∙ ap (λ (z : ℕ). some (2, z)) (sym top))) [
      | full L' m' g free run ↦ map_full 0 L m root a last pa perm L' m' at below g free run
      | found L' m' s g f run ↦
          subst (λ (z : ℕ). Maps 1 L m root a z pa perm) here
            (last_Maps L m root a pa perm
              (one_page L m root a pa perm L' m' s at al below pal (omega arith) pperm
                (empty a (omega arith) (omega arith)) g f run)
              below)
    ]
map_loop-Maps (suc k) L m root a last pa perm v at al room end pal proom pperm empty =
    let below : a < maxva = omega arith in
    let top : vpn 3 a ≡ 0 = omega arith in
    elim (walk-cases L 2 m root a v (at ∙ ap (λ (z : ℕ). some (2, z)) (sym top))) [
      | full L' m' g free run ↦ map_full (suc k) L m root a last pa perm L' m' at below g free run
      | found L' m' s g f run ↦
          let o =
            one_page L m root a pa perm L' m' s at al below pal (omega arith) pperm
              (empty a (omega arith) (omega arith)) g f run in
          next_Maps k L m root a last pa perm o al below (λ e. omega (arith, e, end))
            (map_loop-Maps k o.labels o.ram root (a + page_size) last (pa + page_size) perm o.table
              o.is_root (omega (arith, al)) (omega arith) (omega (arith, end)) (omega (arith, pal))
              (omega arith) pperm
              (λ va h l.
                ap (λ (w : ℕ). is_valid w)
                  (o.entries va (omega arith)
                    ∙ mapped_out 1 a pa perm va (entry 2 m root va) (inr (omega (arith, h))))
                ∙ empty va (omega arith) (omega arith)))
    ]

mappages_run :
    (m : Ram) (root va size pa perm : ℕ)
    → va % page_size ≡ 0
    → size % page_size ≡ 0
    → size ≢ 0
    → mappages m root va size pa perm
      ≡ map_loop (size / page_size) m root va ((va + size + u64 - page_size) % u64) pa perm
unfolding mappages
mappages_run m root va size pa perm al whole nz =
    rw (mappages, eq→== (va % page_size) 0 al, eq→== (size % page_size) 0 whole, ne→== size 0 nz)
      refl

-- On a sound page table, `mappages` of one or more pages of page-aligned addresses below MAXVA,
-- none of which has a valid entry, to page-aligned physical addresses below 2^56, with flags below
-- 2^10, does not panic. When it returns 0, the addresses of these pages have the entries of the
-- pages from `pa` on with `perm` and PTE_V, and no other address has another entry; when it returns
-- -1, this is so of the first pages only, and no page is free. The page table is sound again.
pub mappages_lem :
    (L : Labels) (m : Ram) (root va n pa perm : ℕ)
    → IsTable L m
    → L root ≡ some (2, 0)
    → va % page_size ≡ 0
    → 0 < n
    → va + page_size * n ≤ maxva
    → pa % page_size ≡ 0
    → pa + page_size * n ≤ 2 ^ 56
    → perm < 1024
    → ((x : ℕ) → va ≤ x → x < va + page_size * n → is_valid (entry 2 m root x) ≡ false)
    → (ok : Bool) × (count : ℕ) × (L' : Labels) × (m' : Ram) × (mappages m root va
          (page_size * n)
          pa
          perm
        ≡ some (ok, m'))
      × (ok ≡ true → count ≡ n)
      × (ok ≡ false → (count < n) × (m'.free ≡ []))
      × IsTable L' m'
      × (L' root ≡ some (2, 0))
      × ((x : ℕ) → x < maxva → entry 2 m' root x ≡ mapped count va pa perm x (entry 2 m root x))
mappages_lem L m root va zero pa perm v at al some_pages room pal proom pperm empty =
    absurd (omega arith)
mappages_lem L m root va (suc k) pa perm v at al some_pages room pal proom pperm empty =
    let last = (va + page_size * suc k + u64 - page_size) % u64 in
    let pages : page_size * suc k / page_size ≡ suc k = omega arith in
    let r =
      map_loop-Maps k L m root va last pa perm v at al room (omega arith) pal proom pperm empty in
    (
      r.ok,
      r.count,
      r.labels,
      r.ram,
      mappages_run m root va (page_size * suc k) pa perm al (omega arith) (λ e. omega (arith, e))
          ∙ ap (λ (z : ℕ). map_loop z m root va last pa perm) pages
          ∙ r.result,
      r.whole,
      r.short,
      r.table,
      r.is_root,
      r.entries,
    )
