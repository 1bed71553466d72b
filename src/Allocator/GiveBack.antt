-- ===== src/Allocator/GiveBack.antt =====
-- `getPage` after `free`: the page that came back is given again.
use red_x_os.Common.{ℕ, ◌*◌, ◌/◌, ◌≤◌, ◌<◌, ◌≡◌, arith, true, false}
use red_x_os.Common.{inl, inr, ap}
use red_x_os.Bitmap.{Bitmap}
use red_x_os.Allocator.{Allocator, locked, page, page_limit}
use red_x_os.Allocator.{lock, free, get_page}
use red_x_os.Allocator.Pages.{span, IsSound, lock-Assigns, free-Assigns, Assigns}
use red_x_os.Allocator.GetPage.{GivesPage, get_page_lem}
use red_x_os.Allocator.Calls.{page_i-Keeps}

page_i-lock : (a : ℕ) (s : Allocator) → (lock a s).page_i ≡ s.page_i
unfolding lock
page_i-lock a s = ground arith

page_i-free : (p : ℕ) (s : Allocator) → s.page_i ≡ p → (free (p * 4096) s).page_i ≡ p
unfolding free
page_i-free p s e = ground arith

page_index : (p : ℕ) → p * 4096 / 4096 ≡ p
page_index p = omega arith

-- If the page on which `pageI` stands is not locked, it is the one that is given.
given_here :
    (p q : ℕ) {f : Allocator}
    → f.page_i ≡ p
    → p < page_limit f
    → locked f p ≡ false
    → GivesPage f q
    → q ≡ p
given_here p q here inside open_page g = ground (
  arith,
  g.skipped_up p,
  λ (z : q < p). g.skipped_round (omega arith) p inside (inl (omega arith)),
)

gives_here :
    (p : ℕ) {f : Allocator}
    → IsSound f
    → 0 < f.bitmap.size
    → f.page_i ≡ p
    → p < page_limit f
    → locked f p ≡ false
    → get_page f ≡ page (p * 4096) (lock (p * 4096) (record f { page_i = p }))
gives_here p h b here inside open_page = elim (get_page_lem h b) [
  | inl (q, g) ↦ rw (← given_here p q here inside open_page g) g.returns
  | inr g ↦ absurd (ground (arith, g.all_locked p inside))
]

-- A locked page `p` on which `pageI` stands, freed and then given again.
module _ (p : ℕ) {t : Allocator} (h : IsSound t) (some_bits : 0 < t.bitmap.size)
    (here : t.page_i ≡ p) (inside : p < page_limit t) (taken : locked t p ≡ true) where
  freeing : Assigns false p t (free (p * 4096) t)
  freeing = rw page_index at (free-Assigns (p * 4096) h)

  again : Allocator
  again = lock (p * 4096) (record (free (p * 4096) t) { page_i = p })

  locking : Assigns true p (record (free (p * 4096) t) { page_i = p }) again
  unfolding again
  locking = rw page_index at (lock-Assigns (p * 4096) (page_i-Keeps p freeing.sound).sound)

  span-free : span (free (p * 4096) t) ≡ span t
  span-free = ap (λ (b : Bitmap). b.size * 8) freeing.same_bitmap

  given_back :
      (u : Allocator) × (get_page (free (p * 4096) t) ≡ page (p * 4096) u)
      × ((j : ℕ) → j ≤ span t → locked u j ≡ locked t j)
  unfolding again
  given_back = (
    again,
    gives_here p freeing.sound (rw freeing.same_bitmap some_bits) (page_i-free p t here)
        (omega (arith, span-free, h.small))
        (ground (arith, freeing.bits p (omega (arith, h.small)))),
    λ j q. ground (arith, taken, freeing.bits j q, locking.bits j (rw span-free q)),
  )

given_back_first :
    (p : ℕ) {s : Allocator}
    → IsSound s
    → 0 < s.bitmap.size
    → GivesPage s p
    → let t = lock (p * 4096) (record s { page_i = p }) in
      (u : Allocator) × (get_page (free (p * 4096) t) ≡ page (p * 4096) u)
      × ((j : ℕ) → j ≤ span t → locked u j ≡ locked t j)
given_back_first p {s} h b g =
    let k : Assigns true p (record s { page_i = p }) (lock (p * 4096) (record s { page_i = p })) =
      rw page_index at (lock-Assigns (p * 4096) (page_i-Keeps p h).sound) in
    given_back p k.sound (rw k.same_bitmap b) (page_i-lock (p * 4096) (record s { page_i = p }))
      (rw k.same_bitmap g.below_limit)
      (ground (arith, k.bits p (omega (arith, g.below_limit, h.small))))

-- A page that `getPage` gave and `free` took back is the page that the next `getPage` gives; the
-- lock bits are then what they were after the first call. The state is sound at the start, and the
-- bitmap is not empty.
pub get_page-free :
    {s : Allocator} (a : ℕ) (t : Allocator)
    → IsSound s
    → 0 < s.bitmap.size
    → get_page s ≡ page a t
    → (u : Allocator) × (get_page (free a t) ≡ page a u)
      × ((j : ℕ) → j ≤ span t → locked u j ≡ locked t j)
get_page-free {s} a t h b e = elim (get_page_lem h b) [
  | inl (p, g) ↦
      let a_is : a ≡ p * 4096 = ground (arith, g.returns, e) in
      let t_is : t ≡ lock (p * 4096) (record s { page_i = p }) = ground (arith, g.returns, e) in
      rw (a_is, t_is) (given_back_first p h b g)
  | inr g ↦ absurd (ground (arith, g.panics, e))
]
