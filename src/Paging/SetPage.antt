-- ===== src/Paging/SetPage.antt =====
-- `set_page`: the last entry of `map`, in a table of the last level.
use red_x_os.Common.{
  ℕ, zero, suc, ◌+◌, ◌*◌, ◌/◌, ◌%◌, ◌^◌, ◌≤◌, ◌<◌, ◌≡◌, ◌⊎◌, ◌∙◌, refl, sym, ap, arith, Option,
  none, some, ◌==◌, ◌&&◌, if◌then◌else◌, inl, inr, Bool-cases, List, [], ◌∷◌, length,
}
use red_x_os.Common.Ram.{Ram, load64, store64, load64-lt, store64-HoldsBytes, store64_apart}
use red_x_os.Paging.{TableMan, entry_at, set_page}
use red_x_os.Paging.Entered.{entered, entered-lt, get-entered, get_addr-entered}
use red_x_os.Paging.Walk.{target, follow, walk, walk-none, walk-some}
use red_x_os.Paging.Tree.{Tree, Child, table_at}
use red_x_os.Paging.NewTable.{load64-entry, target_present}
use red_x_os.Paging.Grown.{AllBelow}
use red_x_os.Common.Ram.{store64_apart}

-- The page that an entry for `p` leads to: the address has 40 bits.
abbrev pub frame : ℕ → ℕ
frame p = p / 4096 * 4096 % 2 ^ 40

module _ {s : TableMan} (t : Tree s) (n i p : ℕ) (used : n ≤ s.pdi) (hi : i < 512)
    (last : t.level n ≡ 3) where
  pde : ℕ
  pde = load64 s.ram (entry_at (table_at s n) i)

  pub with_page : Ram
  with_page = store64 (entry_at (table_at s n) i) (entered p pde) s.ram

  abbrev pub paged : TableMan
  paged = record s { ram = with_page }

  pub set_page-paged : set_page (table_at s n) i p s ≡ paged
  unfolding set_page with_page pde
  set_page-paged = refl

  word : pde < 2 ^ 64
  unfolding pde
  word = load64-lt s.ram (entry_at (table_at s n) i) t.bytes

  pub follow_paged :
      (n' i' : ℕ)
      → i' < 512
      → follow with_page (table_at s n') i'
        ≡ (if n == n' && (i == i') then some (frame p) else follow s.ram (table_at s n') i')
  unfolding with_page
  follow_paged n' i' h =
      let stored =
        load64-entry s.dir_addr n i n' i' (entered p pde) s.ram hi h (entered-lt p pde word) in
      elim (Bool-cases (n == n' && (i == i'))) [
        | inl e ↦ rw e (
            ap (λ (w : ℕ). target w) (stored ∙ rw e refl)
            ∙ target_present (entered p pde) (get-entered p pde word)
            ∙ ap (λ (a : ℕ). some a) (get_addr-entered p pde word))
        | inr e ↦ rw e (ap (λ (w : ℕ). target w) (stored ∙ rw e refl))
      ]

  pub with_page_outside :
      (x : ℕ) → (x < s.dir_addr) ⊎ (s.dir_addr + s.dir_size ≤ x) → with_page x ≡ s.ram x
  unfolding with_page
  with_page_outside x away =
      store64_apart (entry_at (table_at s n) i) (entered p pde) s.ram x (omega (arith, t.inside))

  pub other_table :
      (n' j : ℕ)
      → t.level n' < 3
      → j < 512
      → follow with_page (table_at s n') j ≡ follow s.ram (table_at s n') j
  other_table n' j h hj = elim (Bool-cases (n == n' && (i == j))) [
    | inr e ↦ follow_paged n' j hj ∙ rw e refl
    | inl e ↦ let same : n ≡ n' = ground (arith, e) in absurd (omega (arith, ap t.level same))
  ]

  pub children_paged :
      (n' j : ℕ)
      → n' ≤ s.pdi
      → j < 512
      → t.level n' < 3
      → (follow with_page (table_at s n') j ≡ none) ⊎ Child paged t.level t.parent t.slot n' j
  children_paged n' j h hj up = elim (t.children n' j h hj up) [
    | inl nothing ↦ inl (other_table n' j up hj ∙ nothing)
    | inr k ↦ inr (record {
      c = k.c;
      used = k.used;
      below = k.below;
      from = k.from;
      place = k.place;
      leads = other_table n' j up hj ∙ k.leads;
    })
  ]

  pub paged-Tree : Tree paged
  unfolding with_page
  paged-Tree = record {
    bytes = store64-HoldsBytes (entry_at (table_at s n) i) (entered p pde) s.ram t.bytes;
    aligned = t.aligned;
    top = t.top;
    small = t.small;
    inside = t.inside;
    level = t.level;
    parent = t.parent;
    slot = t.slot;
    root = t.root;
    children = children_paged;
  }

  -- The table that stands `k` levels above table `n`, and the indices that lead from it to the entry.
  abbrev pub above : ℕ → ℕ
  above zero = n
  above (suc k) = t.parent (above k)

  abbrev pub path : ℕ → List ℕ
  path zero = i ∷ []
  path (suc k) = t.slot (above k) ∷ path k

  -- A walk finds what it found before, unless it goes to the entry.
  pub walk-paged :
      (k n' : ℕ) (is : List ℕ)
      → n' ≤ s.pdi
      → t.level n' + k ≡ 3
      → length is ≡ suc k
      → AllBelow is
      → (walk with_page (table_at s n') is ≡ walk s.ram (table_at s n') is)
        ⊎ ((n' ≡ above k) × (is ≡ path k))
  walk-paged k n' [] h e len b = absurd (omega (arith, len))
  walk-paged zero n' (j ∷ j' ∷ is) h e len b = absurd (omega (arith, len))
  walk-paged zero n' (j ∷ []) h e len b = elim (Bool-cases (n == n' && (i == j))) [
    | inl here ↦
        let same_n : n' ≡ n = ground (arith, here) in
        let same_i : j ≡ i = ground (arith, here) in inr (same_n, ap (λ (x : ℕ). x ∷ []) same_i)
    | inr other ↦
        let same : follow with_page (table_at s n') j ≡ follow s.ram (table_at s n') j =
          follow_paged n' j b.0 ∙ rw other refl in
        inl (ap (λ (x : Option ℕ). elim x [ none ↦ none | some next ↦ some next ]) same)
  ]
  walk-paged (suc k) n' (j ∷ is) h e len b = elim (t.children n' j h b.0 (omega arith)) [
    | inl nothing ↦ inl (
        walk-none with_page (table_at s n') j is (other_table n' j (omega arith) b.0 ∙ nothing)
        ∙ sym (walk-none s.ram (table_at s n') j is nothing))
    | inr c ↦ elim (walk-paged k c.c is c.used (omega (arith, c.below)) (omega (arith, len)) b.1) [
      | inl same ↦ inl (
          walk-some with_page (table_at s n') j is (table_at s c.c)
            (other_table n' j (omega arith) b.0 ∙ c.leads)
          ∙ same
          ∙ sym (walk-some s.ram (table_at s n') j is (table_at s c.c) c.leads))
      | inr there ↦
          let up : n' ≡ t.parent (above k) = sym c.from ∙ ap t.parent there.0 in
          let at_slot : j ≡ t.slot (above k) = sym c.place ∙ ap t.slot there.0 in
          let rest : is ≡ path k = there.1 in inr (up, rw (at_slot, rest) refl)
    ]
  ]
