-- ===== src/Paging/MapPage.antt =====
-- `pTableMan::map` against the processor's walk through the tables.
use red_x_os.Common.{
  ℕ, ◌+◌, ◌≤◌, ◌<◌, ◌≡◌, ◌⊎◌, ◌∙◌, refl, ap, arith, some, true, ◌==◌, ◌&&◌, inl, inr, [], ◌∷◌,
}
use red_x_os.Common.Ram.{Ram}
use red_x_os.Paging.{TableMan, indexer, next_table, set_page}
use red_x_os.Paging.Index.{indexer_bounds}
use red_x_os.Paging.Walk.{follow, walk, walk-some, indices}
use red_x_os.Paging.Tree.{Tree, table_at}
use red_x_os.Paging.Grown.{AllBelow}
use red_x_os.Paging.Descend.{Descends, having}
use red_x_os.Paging.SetPage.{
  frame, with_page, set_page-paged, follow_paged, other_table, paged-Tree, with_page_outside,
  walk-paged, path,
}

-- The four levels of `map`, without the check of the lock.
abbrev pub map_levels : ℕ → ℕ → TableMan → TableMan
map_levels v p s =
    let i = indexer v in
    let (pdp, s1) = next_table s.dir_addr i.pdp_i s in
    let (pd, s2) = next_table pdp i.pd_i s1 in
    let (pt, s3) = next_table pd i.pt_i s2 in set_page pt i.p_i p s3

pub indices-AllBelow : (v : ℕ) → AllBelow (indices v)
indices-AllBelow v = let b = indexer_bounds v in (b.0, (b.1, (b.2, (b.3, tt))))

-- What `map` of `v` to `p` makes of the tables.
pub record Maps (s : TableMan) (v p : ℕ) : Type 0 where
  pub pdi : ℕ
  pub ram : Ram
  pub returns : map_levels v p s ≡ having s pdi ram
  pub tree : Tree (having s pdi ram)
  pub more : s.pdi ≤ pdi
  pub three : pdi ≤ s.pdi + 3
  pub here : walk ram (table_at s 0) (indices v) ≡ some (frame p)
  pub there :
      (v' : ℕ)
      → (walk ram (table_at s 0) (indices v') ≡ walk s.ram (table_at s 0) (indices v'))
        ⊎ (indices v' ≡ indices v)
  pub outside : (x : ℕ) → (x < s.dir_addr) ⊎ (s.dir_addr + s.dir_size ≤ x) → ram x ≡ s.ram x

module _ {s : TableMan} (t : Tree s) (v p : ℕ) (d1 : Descends s t 0 ((indexer v).pdp_i))
    (d2 : Descends (having s d1.pdi d1.ram) d1.tree d1.c ((indexer v).pd_i))
    (d3 : Descends (having s d2.pdi d2.ram) d2.tree d2.c ((indexer v).pt_i)) where
  s3 : TableMan
  s3 = having s d3.pdi d3.ram

  last : d3.tree.level d3.c ≡ 3
  last = omega (arith, d3.below, d2.below, d1.below, t.root)

  p_bound : (indexer v).p_i < 512
  p_bound = (indexer_bounds v).3

  ram' : Ram
  ram' = with_page d3.tree d3.c ((indexer v).p_i) p d3.used p_bound last

  -- The tables of the walk, their places and their levels in the last tree.
  levels :
      (d3.tree.level d1.c ≡ 1)
      × (d3.tree.level d2.c ≡ 2)
      × (d3.tree.parent d2.c ≡ d1.c)
      × (d3.tree.slot d1.c ≡ (indexer v).pdp_i)
      × (d3.tree.slot d2.c ≡ (indexer v).pd_i)
  levels =
      let up1 : d1.c ≤ d2.pdi = omega (arith, d1.used, d2.more) in
      (
        omega (arith, d3.same_level d1.c up1, d2.same_level d1.c d1.used, d1.below, t.root),
        omega (arith, d3.same_level d2.c d2.used, d2.below, d1.below, t.root),
        d3.same_parent d2.c d2.used ∙ d2.from,
        d3.same_slot d1.c up1 ∙ d2.same_slot d1.c d1.used ∙ d1.place,
        d3.same_slot d2.c d2.used ∙ d2.place,
      )

  root_level : d3.tree.level 0 < 3
  root_level = omega (arith, d3.tree.root)

  returns' : map_levels v p s ≡ having s d3.pdi ram'
  unfolding ram'
  returns' =
      let i = indexer v in
      let from_root : next_table s.dir_addr i.pdp_i s ≡ (table_at s d1.c, having s d1.pdi d1.ram) =
        (let start : s.dir_addr ≡ table_at s 0 = omega arith in
          ap (λ (x : ℕ). next_table x i.pdp_i s) start ∙ d1.returns) in
      rw (map_levels, from_root, d2.returns, d3.returns)
        (set_page-paged d3.tree d3.c i.p_i p d3.used p_bound last)

  leads1 : follow ram' (table_at s 0) ((indexer v).pdp_i) ≡ some (table_at s d1.c)
  unfolding ram'
  leads1 =
      let b = indexer_bounds v in
      other_table d3.tree d3.c ((indexer v).p_i) p d3.used p_bound last 0 ((indexer v).pdp_i)
        root_level b.0
      ∙ d3.kept 0 ((indexer v).pdp_i) _ (omega arith) b.0
          (d2.kept 0 ((indexer v).pdp_i) _ (omega arith) b.0 d1.leads)

  leads2 : follow ram' (table_at s d1.c) ((indexer v).pd_i) ≡ some (table_at s d2.c)
  unfolding ram'
  leads2 =
      let b = indexer_bounds v in
      other_table d3.tree d3.c ((indexer v).p_i) p d3.used p_bound last d1.c ((indexer v).pd_i)
        (omega (arith, levels)) b.1
      ∙ d3.kept d1.c ((indexer v).pd_i) _ (omega (arith, d1.used, d2.more)) b.1 d2.leads

  leads3 : follow ram' (table_at s d2.c) ((indexer v).pt_i) ≡ some (table_at s d3.c)
  unfolding ram'
  leads3 =
      let b = indexer_bounds v in
      other_table d3.tree d3.c ((indexer v).p_i) p d3.used p_bound last d2.c ((indexer v).pt_i)
        (omega (arith, levels)) b.2
      ∙ d3.leads

  leads4 : follow ram' (table_at s d3.c) ((indexer v).p_i) ≡ some (frame p)
  unfolding ram'
  leads4 =
      let i = (indexer v).p_i in
      let here : (d3.c == d3.c && (i == i)) ≡ true = ground arith in
      follow_paged d3.tree d3.c i p d3.used p_bound last d3.c i p_bound ∙ rw here refl

  here' : walk ram' (table_at s 0) (indices v) ≡ some (frame p)
  here' =
      let i = indexer v in
      walk-some ram' (table_at s 0) i.pdp_i (i.pd_i ∷ i.pt_i ∷ i.p_i ∷ []) (table_at s d1.c) leads1
      ∙ walk-some ram' (table_at s d1.c) i.pd_i (i.pt_i ∷ i.p_i ∷ []) (table_at s d2.c) leads2
      ∙ walk-some ram' (table_at s d2.c) i.pt_i (i.p_i ∷ []) (table_at s d3.c) leads3
      ∙ walk-some ram' (table_at s d3.c) i.p_i [] (frame p) leads4

  -- The path from the directory to the page's entry is the one that the indices name.
  path-indices : path d3.tree d3.c ((indexer v).p_i) p d3.used p_bound last 3 ≡ indices v
  path-indices =
      let top : d3.tree.slot (d3.tree.parent (d3.tree.parent d3.c)) ≡ (indexer v).pdp_i =
        ap d3.tree.slot (ap d3.tree.parent d3.from ∙ levels.2) ∙ levels.3 in
      let middle : d3.tree.slot (d3.tree.parent d3.c) ≡ (indexer v).pd_i =
        ap d3.tree.slot d3.from ∙ levels.4 in
      rw (top, middle, d3.place) refl

  same_before :
      (v' : ℕ) → walk d3.ram (table_at s 0) (indices v') ≡ walk s.ram (table_at s 0) (indices v')
  same_before v' =
      let b = indices-AllBelow v' in
      d3.walks (indices v') 0 (omega arith) (omega (arith, d2.tree.root)) b
      ∙ d2.walks (indices v') 0 (omega arith) (omega (arith, d1.tree.root)) b
      ∙ d1.walks (indices v') 0 (omega arith) (omega (arith, t.root)) b

  there' :
      (v' : ℕ)
      → (walk ram' (table_at s 0) (indices v') ≡ walk s.ram (table_at s 0) (indices v'))
        ⊎ (indices v' ≡ indices v)
  unfolding ram'
  there' v' =
      elim (walk-paged d3.tree d3.c ((indexer v).p_i) p d3.used p_bound last 3 0 (indices v')
        (omega arith) (omega (arith, d3.tree.root)) refl (indices-AllBelow v')) [
          | inl same ↦ inl (same ∙ same_before v')
          | inr hit ↦ inr (hit.1 ∙ path-indices)
        ]

  pub levels-Maps : Maps s v p
  unfolding ram'
  levels-Maps = record {
    pdi = d3.pdi;
    ram = ram';
    returns = returns';
    tree = paged-Tree d3.tree d3.c ((indexer v).p_i) p d3.used p_bound last;
    more = omega (arith, d1.more, d2.more, d3.more);
    three = omega (arith, d1.one, d2.one, d3.one);
    here = here';
    there = there';
    outside = λ x away.
        with_page_outside d3.tree d3.c ((indexer v).p_i) p d3.used p_bound last x away
        ∙ d3.outside x away
        ∙ d2.outside x away
        ∙ d1.outside x away;
  }
