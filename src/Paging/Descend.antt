-- ===== src/Paging/Descend.antt =====
-- `next_table`: one level down, with the table that is there or with a new one.
use red_x_os.Common.{
  ℕ, suc, ◌+◌, ◌*◌, ◌≤◌, ◌<◌, ◌≡◌, ◌⊎◌, ◌∙◌, refl, sym, ap, arith, Option, none, some, true, false,
  inl, inr, Bool-cases, List, length, ◌==◌, ◌&&◌,
}
use red_x_os.Common.Ram.{Ram, load64}
use red_x_os.Paging.{TableMan, p_flag, get, get_addr, entry_at, next_table}
use red_x_os.Paging.Walk.{follow, walk}
use red_x_os.Paging.Tree.{Tree, Child, table_at}
use red_x_os.Paging.NewTable.{
  with_table, next_table-absent, target_present, target_absent, follow_now,
}
use red_x_os.Paging.Grown.{AllBelow, grown-Tree, walk-grown}
use red_x_os.Paging.NewTable.{with_table_outside}
use red_x_os.Common.{◌⊎◌}

-- The manager with other tables.
abbrev pub having : TableMan → ℕ → Ram → TableMan
having s pdi ram = record s { pdi = pdi; ram = ram }

-- What `next_table` gives for entry `i` of table `n`: a table one level below that this entry leads to.
-- Entries that led somewhere lead there still, and no walk finds more or less than before.
pub record Descends (s : TableMan) (t : Tree s) (n i : ℕ) : Type 0 where
  pub c : ℕ
  pub pdi : ℕ
  pub ram : Ram
  pub returns : next_table (table_at s n) i s ≡ (table_at s c, having s pdi ram)
  pub tree : Tree (having s pdi ram)
  pub more : s.pdi ≤ pdi
  pub one : pdi ≤ s.pdi + 1
  pub used : c ≤ pdi
  pub below : tree.level c ≡ suc (t.level n)
  pub from : tree.parent c ≡ n
  pub place : tree.slot c ≡ i
  pub same_level : (k : ℕ) → k ≤ s.pdi → tree.level k ≡ t.level k
  pub same_parent : (k : ℕ) → k ≤ s.pdi → tree.parent k ≡ t.parent k
  pub same_slot : (k : ℕ) → k ≤ s.pdi → tree.slot k ≡ t.slot k
  pub leads : follow ram (table_at s n) i ≡ some (table_at s c)
  pub kept :
      (n' i' x : ℕ)
      → n' ≤ s.pdi
      → i' < 512
      → follow s.ram (table_at s n') i' ≡ some x
      → follow ram (table_at s n') i' ≡ some x
  pub walks :
      (is : List ℕ) (n' : ℕ)
      → n' ≤ s.pdi
      → t.level n' + length is ≡ 4
      → AllBelow is
      → walk ram (table_at s n') is ≡ walk s.ram (table_at s n') is
  pub outside : (x : ℕ) → (x < s.dir_addr) ⊎ (s.dir_addr + s.dir_size ≤ x) → ram x ≡ s.ram x

some_inj : (a b : ℕ) → some a ≡ some b → a ≡ b
some_inj a b e = cc

not_both : {o : Option ℕ} (x : ℕ) → o ≡ none → o ≡ some x → ⊥
not_both x e f = cc

module _ {s : TableMan} (t : Tree s) (n i : ℕ) (used : n ≤ s.pdi) (hi : i < 512)
    (high : t.level n < 3) (room : (s.pdi + 2) * 4096 ≤ s.dir_size) where
  present_Descends :
      get p_flag (load64 s.ram (entry_at (table_at s n) i)) ≡ true
      → Child s t.level t.parent t.slot n i
      → Descends s t n i
  unfolding next_table
  present_Descends present k = record {
    c = k.c;
    pdi = s.pdi;
    ram = s.ram;
    returns =
        let pde = load64 s.ram (entry_at (table_at s n) i) in
        let address : get_addr pde ≡ table_at s k.c =
          some_inj (get_addr pde) (table_at s k.c) (sym (target_present pde present) ∙ k.leads) in
        rw present (ap (λ (x : ℕ). (x, s)) address);
    tree = t;
    more = omega arith;
    one = omega arith;
    used = k.used;
    below = k.below;
    from = k.from;
    place = k.place;
    same_level = λ j h. refl;
    same_parent = λ j h. refl;
    same_slot = λ j h. refl;
    leads = k.leads;
    kept = λ n' i' x h h' e. e;
    walks = λ is n' h e b. refl;
    outside = λ x away. refl;
  }

  absent_Descends : get p_flag (load64 s.ram (entry_at (table_at s n) i)) ≡ false → Descends s t n i
  absent_Descends absent =
      let nothing = target_absent (load64 s.ram (entry_at (table_at s n) i)) absent in
      record {
        c = s.pdi + 1;
        pdi = s.pdi + 1;
        ram = with_table t n i used hi high room;
        returns = next_table-absent t n i used hi high room absent;
        tree = grown-Tree t n i used hi high room nothing;
        more = omega arith;
        one = omega arith;
        used = omega arith;
        below = ground arith;
        from = ground arith;
        place = ground arith;
        same_level = λ j h. ground arith;
        same_parent = λ j h. ground arith;
        same_slot = λ j h. ground arith;
        leads =
            let here : (n == n && (i == i)) ≡ true = ground arith in
            follow_now t n i used hi high room n i used hi ∙ rw here refl;
        kept = λ n' i' x h h' e. elim (Bool-cases (n == n' && (i == i'))) [
          | inr other ↦ follow_now t n i used hi high room n' i' h h' ∙ rw other e
          | inl here ↦
              let same_n : n' ≡ n = ground (arith, here) in
              let same_i : i' ≡ i = ground (arith, here) in
              absurd (not_both x nothing (rw (← same_n, ← same_i) e))
        ];
        walks = walk-grown t n i used hi high room nothing;
        outside = with_table_outside t n i used hi high room;
      }

  pub next_table-Descends : Descends s t n i
  next_table-Descends = elim (Bool-cases (get p_flag (load64 s.ram (entry_at (table_at s n) i)))) [
    | inr absent ↦ absent_Descends absent
    | inl present ↦ elim (t.children n i used hi high) [
      | inr k ↦ present_Descends present k
      | inl nothing ↦ absurd (not_both _ nothing (target_present _ present))
    ]
  ]
