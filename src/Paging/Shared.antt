-- ===== src/Paging/Shared.antt =====
-- A page in the same two megabytes as a mapped one needs no new table.
use red_x_os.Common.{
  ℕ, ◌/◌, ◌^◌, ◌≡◌, ◌⊎◌, ◌∙◌, refl, sym, ap, arith, Bool, true, false, Option, none, some, List, [],
  ◌∷◌, inl, inr,
}
use red_x_os.Common.Ram.{Ram, load64}
use red_x_os.Bitmap.{Bitmap}
use red_x_os.Paging.{
  TableMan, p_flag, get, get_addr, entry_at, indexer, next_table, set_page, map_page,
}
use red_x_os.Paging.Index.{indexer_digits}
use red_x_os.Paging.Walk.{follow, walk, walk-none, walk-some, translate}
use red_x_os.Paging.MapPage.{map_levels}
use red_x_os.Paging.Tree.{Tree}
use red_x_os.Paging.Console.{PageLocked, Clear}
use red_x_os.Paging.Translate.{checked_tables, map_page-levels, checked-translate}

Option-cases : (o : Option ℕ) → (o ≡ none) ⊎ ((n : ℕ) × (o ≡ some n))
Option-cases none = inl refl
Option-cases (some n) = inr (n, refl)

-- A walk that arrives goes through an entry that leads on.
walk-first :
    (m : Ram) (table i : ℕ) (is : List ℕ) (x : ℕ)
    → walk m table (i ∷ is) ≡ some x
    → (next : ℕ) × (follow m table i ≡ some next) × (walk m next is ≡ some x)
walk-first m table i is x arrives = elim (Option-cases (follow m table i)) [
  | inl e ↦ absurd (cc (walk-none m table i is e, arrives))
  | inr (next, e) ↦ (next, e, sym (walk-some m table i is next e) ∙ arrives)
]

-- An entry that leads on is present.
chosen-some :
    (b : Bool) (a next : ℕ)
    → (elim b as (λ c. Option ℕ) [ true ↦ some a | false ↦ none ]) ≡ some next
    → (b ≡ true) × (a ≡ next)
chosen-some true a next e = (refl, cc)
chosen-some false a next e = cc

next_table-present :
    (table i next : ℕ) (s : TableMan)
    → follow s.ram table i ≡ some next
    → next_table table i s ≡ (next, s)
unfolding next_table
next_table-present table i next s leads =
    let pde = load64 s.ram (entry_at table i) in
    let c = chosen-some (get p_flag pde) (get_addr pde) next leads in
    rw (next_table, c.0) (ap (λ (a : ℕ). (a, s)) c.1)

levels-shared :
    (v v' p x : ℕ) (s : TableMan)
    → translate s.ram s.dir_addr v ≡ some x
    → (indexer v').pdp_i ≡ (indexer v).pdp_i
    → (indexer v').pd_i ≡ (indexer v).pd_i
    → (indexer v').pt_i ≡ (indexer v).pt_i
    → (map_levels v' p s).pdi ≡ s.pdi
unfolding set_page
levels-shared v v' p x s arrives e1 e2 e3 =
    let i = indexer v in
    let w1 = walk-first s.ram s.dir_addr i.pdp_i (i.pd_i ∷ i.pt_i ∷ i.p_i ∷ []) x arrives in
    let w2 = walk-first s.ram w1.0 i.pd_i (i.pt_i ∷ i.p_i ∷ []) x w1.2 in
    let w3 = walk-first s.ram w2.0 i.pt_i (i.p_i ∷ []) x w2.2 in
    let n1 = next_table-present s.dir_addr i.pdp_i w1.0 s w1.1 in
    let n2 = next_table-present w1.0 i.pd_i w2.0 s w2.1 in
    let n3 = next_table-present w2.0 i.pt_i w3.0 s w3.1 in
    rw (map_levels, e1, e2, e3, n1, n2, n3) refl

-- Mapping a page in the two megabytes around one that the processor finds adds no table.
pub map_page-shared :
    (b : Bitmap) (v v' p x : ℕ) (s : TableMan)
    → Tree s
    → PageLocked b p s ⊎ Clear s
    → translate s.ram s.dir_addr v ≡ some x
    → v / 2 ^ 21 ≡ v' / 2 ^ 21
    → (map_page b v' p s).pdi ≡ s.pdi
map_page-shared b v v' p x s t may arrives near =
    let d = indexer_digits v in
    let d' = indexer_digits v' in
    rw (map_page-levels b v' p s) (
      levels-shared v v' p x (checked_tables b v' p s) (checked-translate t b v' p may v ∙ arrives)
        (omega (arith, d, d', near)) (omega (arith, d, d', near)) (omega (arith, d, d', near)))
