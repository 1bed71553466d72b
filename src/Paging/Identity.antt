-- ===== src/Paging/Identity.antt =====
-- Pages that are mapped to themselves.
use red_x_os.Common.{
  ℕ, ◌+◌, ◌*◌, ◌/◌, ◌%◌, ◌^◌, ◌≤◌, ◌<◌, ◌⊎◌, ◌≡◌, ◌∙◌, refl, ap, arith, some, Bool, true, false,
  ◌==◌, ◌||◌, if◌then◌else◌, inl, inr, Bool-cases,
}
use red_x_os.Bitmap.{Bitmap}
use red_x_os.Paging.{TableMan, map_page}
use red_x_os.Paging.Walk.{translate}
use red_x_os.Paging.Tree.{Tree}
use red_x_os.Paging.SetPage.{frame}
use red_x_os.Paging.Grows.{map_page-Grows}
use red_x_os.Paging.Console.{printer, Unprinted, Clear, same_Unprinted, same_Clear}
use red_x_os.Paging.Translate.{map_page-translate}

-- The number of a page, as the tables see it.
abbrev pub page_number : ℕ → ℕ
page_number v = v / 4096 % 2 ^ 36

-- From `s` to `t` the pages whose numbers pass the test were mapped to themselves. Of memory only
-- the directory and what printing writes have changed.
pub record IdentityMaps (test : ℕ → Bool) (s t : TableMan) : Type 0 where
  pub tree : Tree t
  pub clear : Clear t
  pub same_printer : printer t ≡ printer s
  pub same_addr : t.dir_addr ≡ s.dir_addr
  pub same_size : t.dir_size ≡ s.dir_size
  pub outside :
      (x : ℕ)
      → (x < s.dir_addr) ⊎ (s.dir_addr + s.dir_size ≤ x)
      → Unprinted (printer s) x
      → t.ram x ≡ s.ram x
  pub maps :
      (v : ℕ)
      → translate t.ram t.dir_addr v ≡ (
          if test (page_number v)
          then some (page_number v * 4096)
          else translate s.ram s.dir_addr v)

module _ {P : ℕ → Bool} {s t : TableMan} (f : IdentityMaps P s t) (v : ℕ) where
  pub maps_in :
      P (page_number v) ≡ true → translate t.ram t.dir_addr v ≡ some (page_number v * 4096)
  maps_in e =
      f.maps v
      ∙ ap (λ (b : Bool). if b then some (page_number v * 4096) else translate s.ram s.dir_addr v) e

  pub maps_out :
      P (page_number v) ≡ false → translate t.ram t.dir_addr v ≡ translate s.ram s.dir_addr v
  maps_out e =
      f.maps v
      ∙ ap (λ (b : Bool). if b then some (page_number v * 4096) else translate s.ram s.dir_addr v) e

pub IdentityMaps-trans :
    {P Q : ℕ → Bool} {s t u : TableMan}
    → IdentityMaps P s t
    → IdentityMaps Q t u
    → IdentityMaps (λ q. P q || Q q) s u
IdentityMaps-trans {P} {Q} f g = record {
  tree = g.tree;
  clear = g.clear;
  same_printer = g.same_printer ∙ f.same_printer;
  same_addr = g.same_addr ∙ f.same_addr;
  same_size = g.same_size ∙ f.same_size;
  outside = λ x away apart.
      g.outside x (omega (arith, f.same_addr, f.same_size, away))
        (same_Unprinted f.same_printer apart)
      ∙ f.outside x away apart;
  maps = λ v. elim (Bool-cases (Q (page_number v))) [
    | inl e ↦ elim (Bool-cases (P (page_number v))) [
      | inl d ↦ rw d (maps_in g v e)
      | inr d ↦ rw (d, e) (maps_in g v e)
    ]
    | inr e ↦ elim (Bool-cases (P (page_number v))) [
      | inl d ↦ rw d (maps_out g v e ∙ maps_in f v d)
      | inr d ↦ rw (d, e) (maps_out g v e ∙ maps_out f v d)
    ]
  ];
}

-- Nothing was mapped.
pub IdentityMaps-none : {s : TableMan} → Tree s → Clear s → IdentityMaps (λ q. false) s s
IdentityMaps-none t c = record {
  tree = t;
  clear = c;
  same_printer = refl;
  same_addr = refl;
  same_size = refl;
  outside = λ x away apart. refl;
  maps = λ v. refl;
}

-- Tests that agree say the same.
pub IdentityMaps-same :
    {P Q : ℕ → Bool} {s t : TableMan}
    → ((q : ℕ) → P q ≡ Q q)
    → IdentityMaps P s t
    → IdentityMaps Q s t
IdentityMaps-same {P} {Q} same f = record {
  tree = f.tree;
  clear = f.clear;
  same_printer = f.same_printer;
  same_addr = f.same_addr;
  same_size = f.same_size;
  outside = f.outside;
  maps = λ v. f.maps v ∙ rw (same (page_number v)) refl;
}

-- One page.
pub map_page-IdentityMaps :
    (b : Bitmap) (v : ℕ) {s : TableMan}
    → Tree s
    → Clear s
    → v < 2 ^ 40
    → (s.pdi + 4) * 4096 ≤ s.dir_size
    → IdentityMaps (λ q. q == page_number v) s (map_page b v v s)
map_page-IdentityMaps b v {s} t c low room =
    let m = map_page-translate t b v v room (inr c) in
    let size = (map_page-Grows b v v s).same_size in
    record {
      tree = m.0;
      clear = same_Clear m.1.0 size m.1.2 c;
      same_printer = m.1.2;
      same_addr = m.1.0;
      same_size = size;
      outside = λ x away apart. m.3 x away (inr apart);
      maps = λ v'. elim (Bool-cases (page_number v' == page_number v)) [
        | inl e ↦
            let same : frame v ≡ page_number v' * 4096 = ground (arith, e, low) in
            m.2 v' ∙ rw e (ap (λ (x : ℕ). some x) same)
        | inr e ↦ m.2 v' ∙ rw e refl
      ];
    }
