-- ===== src/Kernel/Locked.antt =====
-- The pages that `memoryInit` locks as the kernel's own.
use red_x_os.Common.{
  ℕ, ◌+◌, ◌*◌, ◌/◌, ◌^◌, ◌≤◌, ◌≡◌, ◌∙◌, ap, arith, Bool, ◌==◌, ◌&&◌, ◌||◌, leb, ltb, add64,
}
use red_x_os.Bitmap.{Bitmap}
use red_x_os.Allocator.{Allocator, locked, lock, locks}
use red_x_os.Allocator.Pages.{span, IsSound, lock-Assigns}
use red_x_os.Allocator.Books.{Keeps, Keeps-trans, Assigns-Keeps}
use red_x_os.Allocator.Ranges.{locks-AssignsRange}
use red_x_os.Allocator.Statics.{SameSize, lock-SameSize, locks-SameSize}
use red_x_os.Kernel.{KernelParameters}
use red_x_os.Kernel.Memory.{lock_own}
use red_x_os.Kernel.OwnRanges.{Low}

-- `n` pages from the one at `a` on.
abbrev pub pages_at : ℕ → ℕ → ℕ → Bool
pages_at a n j = leb (a / 4096) j && ltb j (a / 4096 + n)

-- What `memoryInit` locks: the kernel with two pages more than it fills, the stack, the directory and
-- the frame buffer with one page more, and the pages of the parameters. It locks no page of the bitmap,
-- though it maps them as well.
abbrev pub locks_own : ℕ → ℕ → KernelParameters → ℕ → Bool
locks_own start size p j =
    pages_at start (size / 4096 + 2) j
    || pages_at p.stack (p.stack_size / 4096 + 1) j
    || pages_at p.page_directory_address (p.page_directory_size / 4096 + 1) j
    || pages_at p.buffer.base_addr (p.buffer.size / 4096 + 1) j
    || (p.at / 4096 == j)
    || (p.buffer_at / 4096 == j)
    || (p.font_at / 4096 == j)
    || (p.font.buffer / 4096 == j)
    || (p.font_header / 4096 == j)

-- From `s` to `t` the pages that pass the test were locked, and the books kept.
pub record Locks (test : ℕ → Bool) (s t : Allocator) : Type 0 where
  pub books : Keeps s t
  pub bits : (j : ℕ) → j ≤ span s → locked t j ≡ (test j || locked s j)
  pub same_size : SameSize s t

Locks-trans :
    {P Q : ℕ → Bool} {s t u : Allocator} → Locks P s t → Locks Q t u → Locks (λ j. P j || Q j) s u
Locks-trans {P} {Q} {s} {t} f g =
    let same : span t ≡ span s = ap (λ (b : Bitmap). b.size * 8) f.books.same_bitmap in
    record {
      books = Keeps-trans f.books g.books;
      bits = λ j h. ground (arith, g.bits j (rw same h), f.bits j h);
      same_size = g.same_size ∙ f.same_size;
    }

one-Locks : (a : ℕ) {s : Allocator} → IsSound s → Locks (λ j. a / 4096 == j) s (lock a s)
one-Locks a {s} sound =
    let d = lock-Assigns a sound in
    record {
      books = Assigns-Keeps d;
      bits = λ j h. ground (arith, d.bits j h);
      same_size = lock-SameSize a s;
    }

range-Locks :
    (a n : ℕ) {s : Allocator}
    → IsSound s
    → a + n * 4096 ≤ 2 ^ 64
    → Locks (pages_at a n) s (locks a n s)
range-Locks a n {s} sound top =
    let d = locks-AssignsRange a n sound top in
    record {
      books = d.books;
      bits = λ j h. ground (arith, d.bits j h);
      same_size = locks-SameSize a n s;
    }

pub lock_own-Locks :
    (start size : ℕ) (p : KernelParameters) (b : Bitmap) {s : Allocator}
    → IsSound s
    → Low start size p b
    → Locks (locks_own start size p) s (lock_own start size p s)
unfolding lock_own
lock_own-Locks start size p b {s} sound low =
    let count0 : add64 (add64 (size / 0x1000) 1) 1 ≡ size / 4096 + 2 = omega (arith, low.kernel) in
    let count1 : add64 (p.stack_size / 0x1000) 1 ≡ p.stack_size / 4096 + 1 =
      omega (arith, low.stack) in
    let count2 : add64 (p.page_directory_size / 0x1000) 1 ≡ p.page_directory_size / 4096 + 1 =
      omega (arith, low.directory) in
    let count3 : add64 (p.buffer.size / 0x1000) 1 ≡ p.buffer.size / 4096 + 1 =
      omega (arith, low.framebuffer) in
    let f0 = range-Locks start (size / 4096 + 2) sound (omega (arith, low.kernel)) in
    let f1 =
      range-Locks p.stack (p.stack_size / 4096 + 1) f0.books.sound (omega (arith, low.stack)) in
    let f2 =
      range-Locks p.page_directory_address (p.page_directory_size / 4096 + 1) f1.books.sound
        (omega (arith, low.directory)) in
    let f3 =
      range-Locks p.buffer.base_addr (p.buffer.size / 4096 + 1) f2.books.sound
        (omega (arith, low.framebuffer)) in
    let g0 = one-Locks p.at f3.books.sound in
    let g1 = one-Locks p.buffer_at g0.books.sound in
    let g2 = one-Locks p.font_at g1.books.sound in
    let g3 = one-Locks p.font.buffer g2.books.sound in
    let g4 = one-Locks p.font_header g3.books.sound in
    let ranges = Locks-trans (Locks-trans (Locks-trans f0 f1) f2) f3 in
    let singles = Locks-trans (Locks-trans (Locks-trans (Locks-trans ranges g0) g1) g2) g3 in
    rw (lock_own, count0, count1, count2, count3) (Locks-trans singles g4)
