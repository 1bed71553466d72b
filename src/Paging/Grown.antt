-- ===== src/Paging/Grown.antt =====
-- The tree with a new table in it, and that it maps no page that was not mapped.
use red_x_os.Common.{
  ℕ, suc, ◌+◌, ◌*◌, ◌≤◌, ◌<◌, ◌≡◌, ◌⊎◌, ◌∙◌, refl, sym, ap, arith, Option, none, some, true, false,
  ◌==◌, ◌&&◌, if◌then◌else◌, inl, inr, Bool-cases, List, [], ◌∷◌, length,
}
use native.Mathlib.Decide.{dec_lt}
use red_x_os.Common.Ram.{HoldsBytes}
use red_x_os.Paging.{TableMan}
use red_x_os.Paging.Walk.{follow, walk, walk-none, walk-some}
use red_x_os.Paging.Tree.{Tree, Child, table_at}
use red_x_os.Paging.NewTable.{grown, with_table-HoldsBytes, follow_now, follow_new}

-- All indices are below 512.
abbrev pub AllBelow : List ℕ → Type 0
AllBelow [] = Unit {0}
AllBelow (i ∷ is) = (i < 512) × AllBelow is

module _ {s : TableMan} (t : Tree s) (n i : ℕ) (used : n ≤ s.pdi) (hi : i < 512)
    (high : t.level n < 3) (room : (s.pdi + 2) * 4096 ≤ s.dir_size)
    (absent : follow s.ram (table_at s n) i ≡ none) where
  abbrev pub g : TableMan
  g = grown t n i used hi high room

  abbrev pub level' : ℕ → ℕ
  level' k = if k == s.pdi + 1 then suc (t.level n) else t.level k

  abbrev pub parent' : ℕ → ℕ
  parent' k = if k == s.pdi + 1 then n else t.parent k

  abbrev pub slot' : ℕ → ℕ
  slot' k = if k == s.pdi + 1 then i else t.slot k

  old_child :
      (n' i' : ℕ)
      → n' ≤ s.pdi
      → i' < 512
      → (n == n' && (i == i')) ≡ false
      → Child s t.level t.parent t.slot n' i'
      → Child g level' parent' slot' n' i'
  old_child n' i' h h' other k = record {
    c = k.c;
    used = omega (arith, k.used);
    below = ground (arith, k.used, k.below);
    from = ground (arith, k.used, k.from);
    place = ground (arith, k.used, k.place);
    leads = follow_now t n i used hi high room n' i' h h' ∙ rw other k.leads;
  }

  new_child : Child g level' parent' slot' n i
  new_child = record {
    c = s.pdi + 1;
    used = omega arith;
    below = ground arith;
    from = ground arith;
    place = ground arith;
    leads =
        let here : (n == n && (i == i)) ≡ true = ground arith in
        follow_now t n i used hi high room n i used hi ∙ rw here refl;
  }

  -- An entry of a table that was there.
  old_entry :
      (n' i' : ℕ)
      → n' ≤ s.pdi
      → i' < 512
      → (follow s.ram (table_at s n') i' ≡ none) ⊎ Child s t.level t.parent t.slot n' i'
      → (follow g.ram (table_at s n') i' ≡ none) ⊎ Child g level' parent' slot' n' i'
  old_entry n' i' h h' before = elim (Bool-cases (n == n' && (i == i'))) [
    | inl e ↦
        let same_n : n ≡ n' = ground (arith, e) in
        let same_i : i ≡ i' = ground (arith, e) in inr (rw (← same_n, ← same_i) new_child)
    | inr e ↦ elim before [
      | inl nothing ↦ inl (follow_now t n i used hi high room n' i' h h' ∙ rw e nothing)
      | inr k ↦ inr (old_child n' i' h h' e k)
    ]
  ]

  pub children' :
      (n' i' : ℕ)
      → n' ≤ s.pdi + 1
      → i' < 512
      → level' n' < 3
      → (follow g.ram (table_at s n') i' ≡ none) ⊎ Child g level' parent' slot' n' i'
  children' n' i' h h' up = elim (dec_lt s.pdi n') [
    | yes p ↦
        let last : n' ≡ s.pdi + 1 = omega arith in
        inl (rw last (follow_new t n i used hi high room i' h'))
    | no p ↦
        old_entry n' i' (omega arith) h' (t.children n' i' (omega arith) h' (ground (arith, up)))
  ]

  pub bytes' : HoldsBytes g.ram
  bytes' = with_table-HoldsBytes t n i used hi high room

  pub inside' : (s.pdi + 1 + 1) * 4096 ≤ s.dir_size
  inside' = omega (arith, room)

  pub root' : level' 0 ≡ 0
  root' = ground (arith, t.root)

  abbrev pub grown-Tree : Tree g
  grown-Tree = record {
    bytes = bytes';
    aligned = t.aligned;
    top = t.top;
    small = t.small;
    inside = inside';
    level = level';
    parent = parent';
    slot = slot';
    root = root';
    children = children';
  }

  leaf : (n' j : ℕ) → t.level n' ≡ 3 → (n == n' && (i == j)) ≡ false
  leaf n' j e = elim (Bool-cases (n == n' && (i == j))) [
    | inr other ↦ other
    | inl here ↦
        let same_n : n ≡ n' = ground (arith, here) in absurd (omega (arith, ap t.level same_n))
  ]

  -- A walk down from any table in use finds what it found before: the new table leads nowhere.
  pub walk-grown :
      (is : List ℕ) (n' : ℕ)
      → n' ≤ s.pdi
      → t.level n' + length is ≡ 4
      → AllBelow is
      → walk g.ram (table_at s n') is ≡ walk s.ram (table_at s n') is
  unfolding new_child
  walk-grown [] n' h e b = refl
  walk-grown (j ∷ []) n' h e b =
      let other : (n == n' && (i == j)) ≡ false = leaf n' j (omega arith) in
      let same : follow g.ram (table_at s n') j ≡ follow s.ram (table_at s n') j =
        follow_now t n i used hi high room n' j h b.0 ∙ rw other refl in
      ap (λ (x : Option ℕ). elim x [ none ↦ none | some next ↦ some next ]) same
  walk-grown (j ∷ j' ∷ is) n' h e b = elim (Bool-cases (n == n' && (i == j))) [
    | inl here ↦
        let same_n : n' ≡ n = ground (arith, here) in
        let same_i : j ≡ i = ground (arith, here) in
        rw (same_n, same_i)
          (walk-some g.ram (table_at s n) i (j' ∷ is) (table_at s (s.pdi + 1)) new_child.leads
            ∙ walk-none g.ram (table_at s (s.pdi + 1)) j' is
                (follow_new t n i used hi high room j' b.1.0)
            ∙ sym (walk-none s.ram (table_at s n) i (j' ∷ is) absent))
    | inr other ↦ elim (t.children n' j h b.0 (omega arith)) [
      | inl nothing ↦
          walk-none g.ram (table_at s n') j (j' ∷ is)
            (follow_now t n i used hi high room n' j h b.0 ∙ rw other nothing)
          ∙ sym (walk-none s.ram (table_at s n') j (j' ∷ is) nothing)
      | inr k ↦
          walk-some g.ram (table_at s n') j (j' ∷ is) (table_at s k.c)
            (follow_now t n i used hi high room n' j h b.0 ∙ rw other k.leads)
          ∙ walk-grown (j' ∷ is) k.c k.used (omega (arith, k.below)) b.1
          ∙ sym (walk-some s.ram (table_at s n') j (j' ∷ is) (table_at s k.c) k.leads)
    ]
  ]
