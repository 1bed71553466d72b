-- ===== src/Allocator/Pages.antt =====
-- What an operation on one page does: the one lock bit it assigns, and the counters.
use red_x_os.Common.{ℕ, ◌+◌, ◌*◌, ◌/◌, ◌%◌, ◌^◌, ◌≤◌, ◌<◌, ◌≡◌, ◌⊎◌, arith, Bool, true, false}
use red_x_os.Common.{leb, ◌==◌, if◌then◌else◌}
use red_x_os.Common.Ram.{Ram, HoldsBytes}
use red_x_os.Common.Count.{weight}
use red_x_os.Bitmap
use red_x_os.Bitmap.{Bitmap}
use red_x_os.Bitmap.Laws.{set-byte, test-set, set-HoldsBytes}
use red_x_os.Allocator.{Allocator, locked, lock, free, reserve, release}

-- The indices that the bitmap's guards let through: up to `span`, which is one too many.
abbrev pub span : Allocator → ℕ
span s = s.bitmap.size * 8

-- Memory holds bytes, the counters are 64-bit words, and every page has a 64-bit address.
pub record IsSound (s : Allocator) : Type 0 where
  pub bytes : HoldsBytes s.ram
  pub small : span s < 2 ^ 52
  pub free_word : s.free_mem < 2 ^ 64
  pub used_word : s.used_mem < 2 ^ 64
  pub reserved_word : s.reserved_mem < 2 ^ 64

set_returns :
    (b : Bitmap) (i : ℕ) (v : Bool) (m : Ram)
    → b.size * 8 < 2 ^ 64
    → (Bitmap.set b i v m).0 ≡ leb i (b.size * 8)
unfolding Bitmap.set
set_returns b i v m h = ground arith

-- Beyond the span nothing reads as locked.
pub not_locked_outside : (s : Allocator) (j : ℕ) → span s < 2 ^ 52 → span s < j → locked s j ≡ false
unfolding Bitmap.test
not_locked_outside s j small h = ground arith

-- From `s` to `t` bit `i` was given the value `v`, if the bitmap has it, and no other bit and
-- no memory but the bitmap's changed.
-- Each page that became locked moved 4096 bytes from free memory to used or reserved memory, each
-- page that became free moved them back, modulo 2 ^ 64.
pub record Assigns (v : Bool) (i : ℕ) (s t : Allocator) : Type 0 where
  pub sound : IsSound t
  pub same_bitmap : t.bitmap ≡ s.bitmap
  pub bits : (j : ℕ) → j ≤ span s → locked t j ≡ (if i == j then v else locked s j)
  pub held :
      i ≤ span s
      → (t.used_mem + t.reserved_mem + 4096 * weight (locked s i)) % 2 ^ 64
        ≡ (s.used_mem + s.reserved_mem + 4096 * weight v) % 2 ^ 64
  pub spare :
      i ≤ span s
      → (t.free_mem + 4096 * weight v) % 2 ^ 64 ≡ (s.free_mem + 4096 * weight (locked s i)) % 2 ^ 64
  pub frame :
      (x : ℕ) → (x < s.bitmap.buffer) ⊎ (s.bitmap.buffer + s.bitmap.size < x) → t.ram x ≡ s.ram x
  pub held_outside : span s < i → t.used_mem + t.reserved_mem ≡ s.used_mem + s.reserved_mem
  pub spare_outside : span s < i → t.free_mem ≡ s.free_mem

module _ (a : ℕ) {s : Allocator} (sound : IsSound s) where
  pub lock-IsSound : IsSound (lock a s)
  unfolding lock
  lock-IsSound = record {
    bytes = λ x.
        ground (arith, sound.bytes x, set-HoldsBytes s.bitmap (a / 4096) true s.ram sound.bytes x);
    small = ground arith;
    free_word = ground arith;
    used_word = ground arith;
    reserved_word = ground arith;
  }

  pub lock-Assigns : Assigns true (a / 4096) s (lock a s)
  unfolding lock
  lock-Assigns = record {
    sound = lock-IsSound;
    same_bitmap = ground arith;
    bits = λ j h. ground (
      arith,
      set_returns s.bitmap (a / 4096) true s.ram,
      test-set s.bitmap (a / 4096) j true s.ram sound.bytes,
    );
    frame = λ x h. ground (arith, set-byte s.bitmap (a / 4096) true s.ram x sound.bytes);
    held = λ h. ground (arith, set_returns s.bitmap (a / 4096) true s.ram);
    spare = λ h. ground (arith, set_returns s.bitmap (a / 4096) true s.ram);
    held_outside = λ h. ground (arith, set_returns s.bitmap (a / 4096) true s.ram);
    spare_outside = λ h. ground (arith, set_returns s.bitmap (a / 4096) true s.ram);
  }

  pub free-IsSound : IsSound (free a s)
  unfolding free
  free-IsSound = record {
    bytes = λ x.
        ground (arith, sound.bytes x, set-HoldsBytes s.bitmap (a / 4096) false s.ram sound.bytes x);
    small = ground arith;
    free_word = ground arith;
    used_word = ground arith;
    reserved_word = ground arith;
  }

  pub free-Assigns : Assigns false (a / 4096) s (free a s)
  unfolding free
  free-Assigns = record {
    sound = free-IsSound;
    same_bitmap = ground arith;
    bits = λ j h. ground (
      arith,
      set_returns s.bitmap (a / 4096) false s.ram,
      test-set s.bitmap (a / 4096) j false s.ram sound.bytes,
    );
    frame = λ x h. ground (arith, set-byte s.bitmap (a / 4096) false s.ram x sound.bytes);
    held = λ h. ground (arith, set_returns s.bitmap (a / 4096) false s.ram);
    spare = λ h. ground (arith, set_returns s.bitmap (a / 4096) false s.ram);
    held_outside = λ h. ground (arith, set_returns s.bitmap (a / 4096) false s.ram);
    spare_outside = λ h. ground (arith, set_returns s.bitmap (a / 4096) false s.ram);
  }

  pub reserve-IsSound : IsSound (reserve a s)
  unfolding reserve
  reserve-IsSound = record {
    bytes = λ x.
        ground (arith, sound.bytes x, set-HoldsBytes s.bitmap (a / 4096) true s.ram sound.bytes x);
    small = ground arith;
    free_word = ground arith;
    used_word = ground arith;
    reserved_word = ground arith;
  }

  pub reserve-Assigns : Assigns true (a / 4096) s (reserve a s)
  unfolding reserve
  reserve-Assigns = record {
    sound = reserve-IsSound;
    same_bitmap = ground arith;
    bits = λ j h. ground (
      arith,
      set_returns s.bitmap (a / 4096) true s.ram,
      test-set s.bitmap (a / 4096) j true s.ram sound.bytes,
    );
    frame = λ x h. ground (arith, set-byte s.bitmap (a / 4096) true s.ram x sound.bytes);
    held = λ h. ground (arith, set_returns s.bitmap (a / 4096) true s.ram);
    spare = λ h. ground (arith, set_returns s.bitmap (a / 4096) true s.ram);
    held_outside = λ h. ground (arith, set_returns s.bitmap (a / 4096) true s.ram);
    spare_outside = λ h. ground (arith, set_returns s.bitmap (a / 4096) true s.ram);
  }

  pub release-IsSound : IsSound (release a s)
  unfolding release
  release-IsSound = record {
    bytes = λ x.
        ground (arith, sound.bytes x, set-HoldsBytes s.bitmap (a / 4096) false s.ram sound.bytes x);
    small = ground arith;
    free_word = ground arith;
    used_word = ground arith;
    reserved_word = ground arith;
  }

  pub release-Assigns : Assigns false (a / 4096) s (release a s)
  unfolding release
  release-Assigns = record {
    sound = release-IsSound;
    same_bitmap = ground arith;
    bits = λ j h. ground (
      arith,
      set_returns s.bitmap (a / 4096) false s.ram,
      test-set s.bitmap (a / 4096) j false s.ram sound.bytes,
    );
    frame = λ x h. ground (arith, set-byte s.bitmap (a / 4096) false s.ram x sound.bytes);
    held = λ h. ground (arith, set_returns s.bitmap (a / 4096) false s.ram);
    spare = λ h. ground (arith, set_returns s.bitmap (a / 4096) false s.ram);
    held_outside = λ h. ground (arith, set_returns s.bitmap (a / 4096) false s.ram);
    spare_outside = λ h. ground (arith, set_returns s.bitmap (a / 4096) false s.ram);
  }
