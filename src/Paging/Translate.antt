-- ===== src/Paging/Translate.antt =====
-- `pTableMan::map` refines the map from pages to frames: it changes where one page leads.
use red_x_os.Common.{
  ℕ, ◌+◌, ◌*◌, ◌/◌, ◌%◌, ◌^◌, ◌≤◌, ◌<◌, ◌⊎◌, ◌≡◌, refl, ap, arith, some, ◌==◌, if◌then◌else◌, inl,
  inr, Bool-cases, List, ◌∷◌, ◌∙◌, sym, Option,
}
use red_x_os.Common.Ram.{Ram}
use red_x_os.Renderer.{BasicRenderer}
use red_x_os.Paging.Console.{
  showing, check_locked-showing, PageLocked, Clear, MayMap, printer, Unprinted, checked-Printed,
  checked_directory, checked_outside,
}
use red_x_os.Paging.Apart.{moved-Tree, translate_same}
use red_x_os.Bitmap.{Bitmap}
use red_x_os.Paging.{TableMan, indexer, check_locked, map_page}
use red_x_os.Paging.Index.{indexer_digits, indexer_page}
use red_x_os.Paging.Walk.{indices, translate}
use red_x_os.Paging.Tree.{Tree, Child, table_at}
use red_x_os.Paging.Descend.{next_table-Descends}
use red_x_os.Paging.SetPage.{frame}
use red_x_os.Paging.MapPage.{map_levels, Maps, levels-Maps}
use red_x_os.Common.{◌⊎◌, ◌<◌}

reshown-Child :
    {s : TableMan} {level parent slot : ℕ → ℕ} {n i : ℕ} (r : BasicRenderer)
    → Child s level parent slot n i
    → Child (record s { screen = r }) level parent slot n i
reshown-Child r k = record {
  c = k.c;
  used = k.used;
  below = k.below;
  from = k.from;
  place = k.place;
  leads = k.leads;
}

-- The renderer is no part of the tree.
pub reshown-Tree : {s : TableMan} (r : BasicRenderer) → Tree s → Tree (record s { screen = r })
reshown-Tree r t = record {
  bytes = t.bytes;
  aligned = t.aligned;
  top = t.top;
  small = t.small;
  inside = t.inside;
  level = t.level;
  parent = t.parent;
  slot = t.slot;
  root = t.root;
  children = λ n i h hi up. elim (t.children n i h hi up) [
    | inl nothing ↦ inl nothing
    | inr k ↦ inr (reshown-Child r k)
  ];
}

-- The check of the lock, and the tables as it leaves them.
abbrev pub checked_tables : Bitmap → ℕ → ℕ → TableMan → TableMan
checked_tables b v p s = let s0 = check_locked b v p s in showing s s0.ram s0.screen

pub map_page-levels :
    (b : Bitmap) (v p : ℕ) (s : TableMan)
    → map_page b v p s ≡ map_levels v p (checked_tables b v p s)
unfolding map_page
map_page-levels b v p s = ap (map_levels v p) (check_locked-showing b v p s)

module _ {s : TableMan} (t : Tree s) (b : Bitmap) (v p : ℕ) (may : MayMap b p s) where
  abbrev shown : Ram
  shown = (check_locked b v p s).ram

  pub checked-Tree : Tree (checked_tables b v p s)
  checked-Tree =
      reshown-Tree ((check_locked b v p s).screen) (
        moved-Tree t shown (checked_directory b v p may)
          ((checked-Printed b v p may).bytes t.bytes))

  pub checked-translate : (v' : ℕ) → translate shown s.dir_addr v' ≡ translate s.ram s.dir_addr v'
  checked-translate v' = translate_same t shown (checked_directory b v p may) v'

map_levels-Maps :
    {s : TableMan} (t : Tree s) (v p : ℕ) → (s.pdi + 4) * 4096 ≤ s.dir_size → Maps s v p
map_levels-Maps {s} t v p room =
    let d = indexer_digits v in
    let i = indexer v in
    let d1 =
      next_table-Descends t 0 i.pdp_i (omega arith) (omega (arith, d)) (omega (arith, t.root))
        (omega arith) in
    let d2 =
      next_table-Descends d1.tree d1.c i.pd_i d1.used (omega (arith, d))
        (omega (arith, d1.below, t.root)) (omega (arith, d1.one)) in
    let d3 =
      next_table-Descends d2.tree d2.c i.pt_i d2.used (omega (arith, d))
        (omega (arith, d2.below, d1.below, t.root)) (omega (arith, d1.one, d2.one)) in
    levels-Maps t v p d1 d2 d3

-- The number that the indices make up.
number : List ℕ → ℕ
number (a ∷ b ∷ c ∷ d ∷ is) = ((a * 512 + b) * 512 + c) * 512 + d
number is = 0

number-indices : (v : ℕ) → number (indices v) ≡ v / 4096 % 2 ^ 36
unfolding number
number-indices v = indexer_page v

same_indices : (v v' : ℕ) → v' / 4096 % 2 ^ 36 ≡ v / 4096 % 2 ^ 36 → indices v' ≡ indices v
same_indices v v' e =
    let d = indexer_digits v in
    let d' = indexer_digits v' in
    let e0 : (indexer v').pdp_i ≡ (indexer v).pdp_i = omega (arith, d, d') in
    let e1 : (indexer v').pd_i ≡ (indexer v).pd_i = omega (arith, d, d') in
    let e2 : (indexer v').pt_i ≡ (indexer v).pt_i = omega (arith, d, d') in
    let e3 : (indexer v').p_i ≡ (indexer v).p_i = omega (arith, d, d') in rw (e0, e1, e2, e3) refl

Maps-translate :
    {s : TableMan} {v p : ℕ} (m : Maps s v p) (v' : ℕ)
    → translate m.ram s.dir_addr v' ≡ (
        if v' / 4096 % 2 ^ 36 == v / 4096 % 2 ^ 36
        then some (frame p)
        else translate s.ram s.dir_addr v')
Maps-translate {s} {v} {p} m v' =
    let start : s.dir_addr ≡ table_at s 0 = omega arith in
    elim (Bool-cases (v' / 4096 % 2 ^ 36 == v / 4096 % 2 ^ 36)) [
      | inl e ↦ rw e (rw (start, same_indices v v' (ground (arith, e))) m.here)
      | inr e ↦ rw e (elim (m.there v') [
        | inl same ↦ rw start same
        | inr hit ↦ absurd (ground (arith, e, number-indices v, number-indices v', ap number hit))
      ])
    ]

pub map_page-translate :
    {s : TableMan} (t : Tree s) (b : Bitmap) (v p : ℕ)
    → (s.pdi + 4) * 4096 ≤ s.dir_size
    → PageLocked b p s ⊎ Clear s
    → let s' = map_page b v p s in
      Tree s'
      × ((s'.dir_addr ≡ s.dir_addr) × (s'.pdi ≤ s.pdi + 3) × (printer s' ≡ printer s))
      × ((v' : ℕ)
          → translate s'.ram s'.dir_addr v' ≡ (
              if v' / 4096 % 2 ^ 36 == v / 4096 % 2 ^ 36
              then some (frame p)
              else translate s.ram s.dir_addr v'))
      × ((x : ℕ)
          → (x < s.dir_addr) ⊎ (s.dir_addr + s.dir_size ≤ x)
          → PageLocked b p s ⊎ Unprinted (printer s) x
          → s'.ram x ≡ s.ram x)
map_page-translate {s} t b v p room may =
    let m = map_levels-Maps (checked-Tree t b v p may) v p room in
    let same = ap printer (check_locked-showing b v p s) in
    rw (map_page-levels b v p s, m.returns)
      (
        m.tree,
        (refl, m.three, sym same ∙ (checked-Printed b v p may).same_printer),
        λ v'.
            Maps-translate m v'
            ∙ ap
                (λ (o : Option ℕ).
                  if v' / 4096 % 2 ^ 36 == v / 4096 % 2 ^ 36 then some (frame p) else o)
                (checked-translate t b v p may v'),
        λ x away apart. m.outside x away ∙ checked_outside b v p may x apart,
      )
