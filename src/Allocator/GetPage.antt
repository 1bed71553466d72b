-- ===== src/Allocator/GetPage.antt =====
-- `getPage` is a next-fit search: from `pageI` to the limit, then once more from the start.
use red_x_os.Common.{ℕ, zero, suc, ◌+◌, ◌-◌, ◌*◌, ◌≤◌, ◌<◌, ◌≡◌, refl, ◌∙◌, arith}
use red_x_os.Common.{true, false, ◌⊎◌, inl, inr, Bool-cases, u64}
use red_x_os.Allocator.{Allocator, locked, lock, Page, page, out_of_ram, page_limit, scan, get_page}
use red_x_os.Allocator.Pages.{span, IsSound}

-- A scan from `pageI` up to `stop` finds the first page that is not locked, and locks it.
record Found (from stop : ℕ) (s : Allocator) (result : Page) : Type 0 where
  at : ℕ
  after : from ≤ at
  before : at < stop
  was_free : locked s at ≡ false
  skipped : (j : ℕ) → from ≤ j → j < at → locked s j ≡ true
  returns : result ≡ page (u64 (at * 4096)) (lock (u64 (at * 4096)) (record s { page_i = at }))

-- Every page from `pageI` up to `stop` is locked.
record Full (from stop : ℕ) (s : Allocator) (result expected : Page) : Type 0 where
  all_locked : (j : ℕ) → from ≤ j → j < stop → locked s j ≡ true
  returns : result ≡ expected

scan_lem :
    (left from stop : ℕ) (otherwise : Allocator → Page) (s : Allocator)
    → from + left ≡ stop
    → let result = scan left otherwise (record s { page_i = from }) in
      Found from stop s result ⊎ Full from stop s result (otherwise (record s { page_i = stop }))
unfolding scan
scan_lem zero from stop otherwise s e =
    let e' : from ≡ stop = omega arith in
    inr (record { all_locked = λ j p q. absurd (omega arith); returns = rw e' })
scan_lem (suc left) from stop otherwise s e = elim (Bool-cases (locked s from)) [
  | inr open_page ↦ inl (record {
    at = from;
    after = omega arith;
    before = omega arith;
    was_free = open_page;
    skipped = λ j p q. absurd (omega arith);
    returns = rw open_page;
  })
  | inl taken ↦ rw taken (elim (scan_lem left (from + 1) stop otherwise s (omega arith)) [
    | inl f ↦ inl (record {
      at = f.at;
      after = omega (arith, f.after);
      before = f.before;
      was_free = f.was_free;
      skipped = λ j p q. ground (arith, taken, f.skipped j);
      returns = f.returns;
    })
    | inr f ↦ inr (record {
      all_locked = λ j p q. ground (arith, taken, f.all_locked j);
      returns = f.returns;
    })
  ])
]

-- `p` is the first page that is not locked, going round from `pageI` to the limit and on from the
-- start. It is returned, locked, and `pageI` stays on it.
pub record GivesPage (s : Allocator) (p : ℕ) : Type 0 where
  pub below_limit : p < page_limit s
  pub was_free : locked s p ≡ false
  pub skipped_up : (j : ℕ) → s.page_i ≤ j → j < p → locked s j ≡ true
  pub skipped_round :
      p < s.page_i → (j : ℕ) → j < page_limit s → (s.page_i ≤ j) ⊎ (j < p) → locked s j ≡ true
  pub returns : get_page s ≡ page (p * 4096) (lock (p * 4096) (record s { page_i = p }))

-- Every page below the limit is locked, and the call ends in the panic with the bits unchanged.
pub record OutOfRam (s : Allocator) : Type 0 where
  pub all_locked : (j : ℕ) → j < page_limit s → locked s j ≡ true
  pub panics : get_page s ≡ out_of_ram (record s { page_i = page_limit s })

module _ {s : Allocator} (sound : IsSound s) (some_bits : 0 < s.bitmap.size) where
  limit_lem : page_limit s + 1 ≡ span s
  limit_lem = omega (arith, sound.small)

  address : (p : ℕ) → p < page_limit s → u64 (p * 4096) ≡ p * 4096
  address p h = omega (arith, sound.small)

  -- The second loop, entered when the first has found nothing.
  second_loop : Allocator → Page
  second_loop t = scan (page_limit t) out_of_ram (record t { page_i = 0 })

  first-GivesPage :
      Found s.page_i (s.page_i + (page_limit s - s.page_i)) s (get_page s) → (p : ℕ) × GivesPage s p
  first-GivesPage f = (
    f.at,
    record {
      below_limit = omega (arith, f.after, f.before);
      was_free = f.was_free;
      skipped_up = f.skipped;
      skipped_round = λ p. absurd (omega (arith, f.after));
      returns = rw (← address f.at (omega (arith, f.after, f.before))) f.returns;
    },
  )

  second-GivesPage :
      ((j : ℕ) → s.page_i ≤ j → j < page_limit s → locked s j ≡ true)
      → Found 0 (page_limit s) s (get_page s)
      → (p : ℕ) × GivesPage s p
  second-GivesPage first f = (
    f.at,
    record {
      below_limit = f.before;
      was_free = f.was_free;
      skipped_up = λ j p q. f.skipped j (omega arith) q;
      skipped_round = λ p j q r. ground (arith, first j, f.skipped j);
      returns = rw (← address f.at f.before) f.returns;
    },
  )

  from_start :
      ((j : ℕ) → s.page_i ≤ j → j < page_limit s → locked s j ≡ true)
      → get_page s ≡ scan (page_limit s) out_of_ram (record s { page_i = 0 })
      → ((p : ℕ) × GivesPage s p) ⊎ OutOfRam s
  from_start first e = elim (scan_lem (page_limit s) 0 (page_limit s) out_of_ram s (omega arith)) [
    | inl f ↦ inl (second-GivesPage first (rw e f))
    | inr g ↦
        inr (record { all_locked = λ j p. g.all_locked j (omega arith) p; panics = e ∙ g.returns })
  ]

  -- From a sound state whose bitmap is not empty, `getPage` either gives the first page that is not
  -- locked, going round from `pageI`, locks it and leaves `pageI` on it or, if every page below the
  -- limit is locked, panics with no lock bit changed.
  pub get_page_lem : ((p : ℕ) × GivesPage s p) ⊎ OutOfRam s
  unfolding get_page second_loop
  get_page_lem =
      let left = page_limit s - s.page_i in
      elim (scan_lem left s.page_i (s.page_i + left) second_loop s refl) [
        | inl f ↦ inl (first-GivesPage f)
        | inr g ↦ from_start (λ j p q. g.all_locked j p (omega arith)) g.returns
      ]
