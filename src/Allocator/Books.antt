-- ===== src/Allocator/Books.antt =====
-- The books that the allocator keeps: its byte counts against the number of lock bits that are set.
use red_x_os.Common.{ℕ, ◌+◌, ◌*◌, ◌%◌, ◌^◌, ◌≤◌, ◌<◌, ◌≡◌, ◌⊎◌, refl, ap, ◌∙◌}
use red_x_os.Common.{arith, Bool, ◌==◌, if◌then◌else◌}
use red_x_os.Common.Count.{count, count_one, count_same, weight}
use red_x_os.Bitmap.{Bitmap}
use red_x_os.Allocator.{Allocator, locked}
use red_x_os.Allocator.Pages.{span, IsSound, Assigns}

-- How many pages of the bitmap are locked.
abbrev pub locked_pages : Allocator → ℕ
locked_pages s = count (locked s) (span s + 1)

-- From `s` to `t` the bitmap stayed where it is, no other memory changed, used and reserved memory together grew by 4096
-- bytes for each page that became locked, and free memory shrank by as much, modulo 2 ^ 64.
pub record Keeps (s t : Allocator) : Type 0 where
  pub sound : IsSound t
  pub same_bitmap : t.bitmap ≡ s.bitmap
  pub frame :
      (x : ℕ) → (x < s.bitmap.buffer) ⊎ (s.bitmap.buffer + s.bitmap.size < x) → t.ram x ≡ s.ram x
  pub held :
      (t.used_mem + t.reserved_mem + 4096 * locked_pages s) % 2 ^ 64
      ≡ (s.used_mem + s.reserved_mem + 4096 * locked_pages t) % 2 ^ 64
  pub spare :
      (t.free_mem + 4096 * locked_pages t) % 2 ^ 64 ≡ (s.free_mem + 4096 * locked_pages s) % 2 ^ 64

pub Keeps-refl : {s : Allocator} → IsSound s → Keeps s s
Keeps-refl h = record {
  sound = h;
  same_bitmap = refl;
  frame = λ x p. refl;
  held = refl;
  spare = refl;
}

pub Keeps-trans : {s t u : Allocator} → Keeps s t → Keeps t u → Keeps s u
Keeps-trans h k = record {
  sound = k.sound;
  same_bitmap = k.same_bitmap ∙ h.same_bitmap;
  frame = λ x p. k.frame x (rw h.same_bitmap p) ∙ h.frame x p;
  held = omega (arith, h.held, k.held);
  spare = omega (arith, h.spare, k.spare);
}

-- The number of locked pages after bit `i`, and no other, was given the value `v`.
module _ (s t : Allocator) (i : ℕ) (v : Bool) (same : t.bitmap ≡ s.bitmap)
    (bits : (j : ℕ) → j ≤ span s → locked t j ≡ (if i == j then v else locked s j)) where
  same_span : span t + 1 ≡ span s + 1
  same_span = ap (λ (b : Bitmap). b.size * 8 + 1) same

  locked_pages_inside :
      i ≤ span s → locked_pages t + weight (locked s i) ≡ locked_pages s + weight v
  locked_pages_inside h = rw same_span (
      ground (
        arith,
        bits i h,
        count_one (locked s) (locked t) i (span s + 1) (omega arith)
            (λ j p q. ground (arith, bits j)),
      ))

  locked_pages_outside : span s < i → locked_pages t ≡ locked_pages s
  locked_pages_outside h =
      rw same_span (count_same (locked s) (locked t) (span s + 1) (λ j p. ground (arith, bits j)))

pub Assigns-Keeps : {v : Bool} {i : ℕ} {s t : Allocator} → Assigns v i s t → Keeps s t
Assigns-Keeps {v} {i} {s} {t} a = record {
  sound = a.sound;
  same_bitmap = a.same_bitmap;
  frame = a.frame;
  held = ground (
    arith,
    a.held,
    a.held_outside,
    locked_pages_inside s t i v a.same_bitmap a.bits,
    locked_pages_outside s t i v a.same_bitmap a.bits,
  );
  spare = ground (
    arith,
    a.spare,
    a.spare_outside,
    locked_pages_inside s t i v a.same_bitmap a.bits,
    locked_pages_outside s t i v a.same_bitmap a.bits,
  );
}
