-- ===== src/Allocator/Ranges.antt =====
-- `locks`, `frees`, `reserves` and `releases`: one call for each page of a range.
use red_x_os.Common.{ℕ, ◌+◌, ◌*◌, ◌/◌, ◌^◌, ◌≤◌, ◌<◌, ◌≡◌, ap, arith, Bool, true, false}
use red_x_os.Common.{◌&&◌, leb, ltb, if◌then◌else◌, add64}
use red_x_os.Common.Loops.{for_range, for_range_inv}
use red_x_os.Bitmap.{Bitmap}
use red_x_os.Allocator.{Allocator, locked, lock, free, reserve, release}
use red_x_os.Allocator.{int_pages, locks, frees, reserves, releases}
use red_x_os.Allocator.Pages.{span, IsSound, Assigns}
use red_x_os.Allocator.Pages.{lock-Assigns, free-Assigns, reserve-Assigns, release-Assigns}
use red_x_os.Allocator.Books.{Keeps, Keeps-refl, Keeps-trans, Assigns-Keeps}

-- From `s` to `t` the `n` bits from `i` on were given the value `v`, as far as the bitmap has
-- them, no other bit changed, and the books were kept.
pub record AssignsRange (v : Bool) (i n : ℕ) (s t : Allocator) : Type 0 where
  pub books : Keeps s t
  pub bits :
      (j : ℕ) → j ≤ span s → locked t j ≡ (if leb i j && ltb j (i + n) then v else locked s j)

extend :
    (v : Bool) (i k : ℕ) {s t u : Allocator}
    → AssignsRange v i k s t
    → Assigns v (i + k) t u
    → AssignsRange v i (k + 1) s u
extend v i k {s} {t} {u} h a = record {
  books = Keeps-trans h.books (Assigns-Keeps a);
  bits = λ j p. ground (arith, h.bits j, a.bits j (rw same p));
}
  where
    same : span t ≡ span s
    same = ap (λ (b : Bitmap). b.size * 8) h.books.same_bitmap

module _ (v : Bool) (i n : ℕ) (body : ℕ → Allocator → Allocator)
    (one : (k : ℕ) (t : Allocator) → k < n → IsSound t → Assigns v (i + k) t (body k t)) where
  for_range-AssignsRange : (s : Allocator) → IsSound s → AssignsRange v i n s (for_range n 0 body s)
  for_range-AssignsRange s sound =
      for_range_inv (λ k t. AssignsRange v i k s t) body n 0 n s (omega arith)
        (λ k t p q h. extend v i k h (one k t q h.books.sound))
        (record { books = Keeps-refl sound; bits = λ j p. ground arith })

int_pages_lem : (k : ℕ) → k < 2 ^ 19 → int_pages k ≡ k * 4096
unfolding int_pages
int_pages_lem k h = ground arith

module _ (a n : ℕ) {s : Allocator} (sound : IsSound s) (top : a + n * 4096 ≤ 2 ^ 64) where
  nth_page : (k : ℕ) → k < n → add64 a (k * 4096) / 4096 ≡ a / 4096 + k
  nth_page k h = omega arith

  -- `locks` locks the `n` pages from the one at `a` on, as far as the bitmap has them, changes no
  -- other page's lock bit and keeps the books, from a sound state and when the range does not pass
  -- the end of the address space.
  pub locks-AssignsRange : AssignsRange true (a / 4096) n s (locks a n s)
  unfolding locks
  locks-AssignsRange =
      for_range-AssignsRange true (a / 4096) n (λ i. lock (add64 a (i * 4096)))
        (λ k t h q. rw (← nth_page k h) (lock-Assigns (add64 a (k * 4096)) q)) s sound

  -- For more than 2 ^ 19 pages the `i * 4096` of the other three leaves the range of an `int`.
  module _ (fits : n ≤ 2 ^ 19) where
    nth_int_page : (k : ℕ) → k < n → add64 a (int_pages k) / 4096 ≡ a / 4096 + k
    nth_int_page k h = rw (int_pages_lem k (omega arith)) (omega arith)

    -- `frees` unlocks the `n` pages from the one at `a` on, as far as the bitmap has them, changes no
    -- other page's lock bit and keeps the books, from a sound state, for at most 2 ^ 19 pages, and
    -- when the range does not pass the end of the address space.
    pub frees-AssignsRange : AssignsRange false (a / 4096) n s (frees a n s)
    unfolding frees
    frees-AssignsRange =
        for_range-AssignsRange false (a / 4096) n (λ i. free (add64 a (int_pages i)))
          (λ k t h q. rw (← nth_int_page k h) (free-Assigns (add64 a (int_pages k)) q)) s sound

    -- `reserves` locks the `n` pages from the one at `a` on, as far as the bitmap has them, changes no
    -- other page's lock bit and keeps the books, from a sound state, for at most 2 ^ 19 pages, and
    -- when the range does not pass the end of the address space.
    pub reserves-AssignsRange : AssignsRange true (a / 4096) n s (reserves a n s)
    unfolding reserves
    reserves-AssignsRange =
        for_range-AssignsRange true (a / 4096) n (λ i. reserve (add64 a (int_pages i)))
          (λ k t h q. rw (← nth_int_page k h) (reserve-Assigns (add64 a (int_pages k)) q)) s sound

    -- `releases` unlocks the `n` pages from the one at `a` on, as far as the bitmap has them, changes
    -- no other page's lock bit and keeps the books, from a sound state, for at most 2 ^ 19 pages, and
    -- when the range does not pass the end of the address space.
    pub releases-AssignsRange : AssignsRange false (a / 4096) n s (releases a n s)
    unfolding releases
    releases-AssignsRange =
        for_range-AssignsRange false (a / 4096) n (λ i. release (add64 a (int_pages i)))
          (λ k t h q. rw (← nth_int_page k h) (release-Assigns (add64 a (int_pages k)) q)) s sound
