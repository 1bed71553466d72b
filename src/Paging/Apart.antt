-- ===== src/Paging/Apart.antt =====
-- A change of memory outside the directory is none to the tables.
use red_x_os.Common.{
  ℕ, ◌+◌, ◌≤◌, ◌<◌, ◌≡◌, ◌∙◌, refl, sym, ap, arith, Option, none, some, inl, inr, List, [], ◌∷◌,
  length,
}
use red_x_os.Common.Ram.{Ram, HoldsBytes, load64_same}
use red_x_os.Paging.{TableMan, entry_at}
use red_x_os.Paging.Walk.{target, follow, walk, walk-none, walk-some, indices, translate}
use red_x_os.Paging.Tree.{Tree, table_at}
use red_x_os.Paging.Grown.{AllBelow}
use red_x_os.Paging.MapPage.{indices-AllBelow}

abbrev pub moved : TableMan → Ram → TableMan
moved s m = record s { ram = m }

module _ {s : TableMan} (t : Tree s) (m : Ram)
    (same : (x : ℕ) → s.dir_addr ≤ x → x < s.dir_addr + s.dir_size → m x ≡ s.ram x) where
  follow_same :
      (n i : ℕ) → n ≤ s.pdi → i < 512 → follow m (table_at s n) i ≡ follow s.ram (table_at s n) i
  follow_same n i h hi =
      ap (λ (w : ℕ). target w)
        (load64_same (entry_at (table_at s n) i) m s.ram
          (λ x p q. same x (omega arith) (omega (arith, t.inside))))

  pub moved-Tree : HoldsBytes m → Tree (moved s m)
  moved-Tree bytes = record {
    bytes = bytes;
    aligned = t.aligned;
    top = t.top;
    small = t.small;
    inside = t.inside;
    level = t.level;
    parent = t.parent;
    slot = t.slot;
    root = t.root;
    children = λ n i h hi up. elim (t.children n i h hi up) [
      | inl nothing ↦ inl (follow_same n i h hi ∙ nothing)
      | inr k ↦ inr (record {
        c = k.c;
        used = k.used;
        below = k.below;
        from = k.from;
        place = k.place;
        leads = follow_same n i h hi ∙ k.leads;
      })
    ];
  }

  walk_same :
      (is : List ℕ) (n : ℕ)
      → n ≤ s.pdi
      → t.level n + length is ≡ 4
      → AllBelow is
      → walk m (table_at s n) is ≡ walk s.ram (table_at s n) is
  walk_same [] n h e b = refl
  walk_same (j ∷ []) n h e b =
      ap (λ (x : Option ℕ). elim x [ none ↦ none | some next ↦ some next ]) (follow_same n j h b.0)
  walk_same (j ∷ j' ∷ is) n h e b = elim (t.children n j h b.0 (omega arith)) [
    | inl nothing ↦
        walk-none m (table_at s n) j (j' ∷ is) (follow_same n j h b.0 ∙ nothing)
        ∙ sym (walk-none s.ram (table_at s n) j (j' ∷ is) nothing)
    | inr k ↦
        walk-some m (table_at s n) j (j' ∷ is) (table_at s k.c) (follow_same n j h b.0 ∙ k.leads)
        ∙ walk_same (j' ∷ is) k.c k.used (omega (arith, k.below)) b.1
        ∙ sym (walk-some s.ram (table_at s n) j (j' ∷ is) (table_at s k.c) k.leads)
  ]

  pub translate_same : (v : ℕ) → translate m s.dir_addr v ≡ translate s.ram s.dir_addr v
  translate_same v =
      let start : s.dir_addr ≡ table_at s 0 = omega arith in
      rw start (walk_same (indices v) 0 (omega arith) (omega (arith, t.root)) (indices-AllBelow v))
