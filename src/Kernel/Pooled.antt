-- ===== src/Kernel/Pooled.antt =====
-- One round of `getPool`: a page from the allocator, mapped at `VAI`.
use red_x_os.Common.{
  ℕ, ◌+◌, ◌*◌, ◌/◌, ◌%◌, ◌^◌, ◌≤◌, ◌<◌, ◌≡◌, ◌⊎◌, ◌∙◌, refl, ap, arith, Option, some, Bool, true,
  false, ◌==◌, add64, if◌then◌else◌, inl,
}
use red_x_os.Common.Ram.{Ram}
use red_x_os.Bitmap
use red_x_os.Bitmap.{Bitmap}
use red_x_os.Allocator.{Allocator, locked, lock, page_limit, page_align}
use red_x_os.Paging.Console.{PageLocked}
use red_x_os.Allocator.Pages.{IsSound, Assigns, span, lock-Assigns}
use red_x_os.Allocator.GetPage.{GivesPage}
use red_x_os.Paging.Walk.{translate}
use red_x_os.Paging.Tree.{Tree}
use red_x_os.Paging.SetPage.{frame}
use red_x_os.Paging.Apart.{moved-Tree, translate_same}
use red_x_os.Paging.Translate.{map_page-translate, reshown-Tree}
use red_x_os.Kernel.{Kernel, running}
use red_x_os.Kernel.Pool.{map_at, take_page, next_line, skip_page, pool_round}
use red_x_os.Paging.Grows.{map_page-Grows}
use red_x_os.Paging.Identity.{page_number}
use red_x_os.Kernel.Identity.{tables_of, HasRoom}

-- The allocator, on the kernel's memory.
abbrev pub alloc_of : {D : Type 0} → Kernel D → Allocator
alloc_of k = record k.allocator { ram = k.ram }

-- Whether a page is locked, and where the processor finds a page.
abbrev pub is_locked : {D : Type 0} → Kernel D → ℕ → Bool
is_locked k q = locked (alloc_of k) q

abbrev pub finds : {D : Type 0} → Kernel D → ℕ → Option ℕ
finds k v = translate k.ram k.tables.dir_addr v

-- The allocator is sound, the tables form a tree, and the two keep their state apart.
pub record Works {D : Type 0} (k : Kernel D) : Type 0 where
  pub sound : IsSound (alloc_of k)
  pub some_bits : 0 < k.allocator.bitmap.size
  pub tree : Tree (tables_of k)
  pub apart :
      (k.allocator.bitmap.buffer + k.allocator.bitmap.size < k.tables.dir_addr)
      ⊎ (k.tables.dir_addr + k.tables.dir_size ≤ k.allocator.bitmap.buffer)

pub test_same :
    (b : Bitmap) (m m' : Ram) (q : ℕ)
    → m (b.buffer + q / 8) ≡ m' (b.buffer + q / 8)
    → Bitmap.test b m q ≡ Bitmap.test b m' q
unfolding Bitmap.test
test_same b m m' q e = rw e refl

-- One round: page `p` was free, is locked now, and stands at `VAI`. Nothing else changed.
pub record OnePage {D : Type 0} (k k' : Kernel D) (p : ℕ) : Type 0 where
  pub below : p < page_limit (alloc_of k)
  pub was_free : is_locked k p ≡ false
  pub works : Works k'
  pub same_bitmap : k'.allocator.bitmap ≡ k.allocator.bitmap
  pub locks :
      (q : ℕ)
      → q < page_limit (alloc_of k)
      → is_locked k' q ≡ (if p == q then true else is_locked k q)
  pub maps :
      (v : ℕ)
      → finds k' v
        ≡ (if page_number v == page_number k.vai then some (p * 4096 % 2 ^ 40) else finds k v)
  pub moves : k'.vai ≡ add64 k.vai 0x1000
  pub same_size : k'.tables.dir_size ≡ k.tables.dir_size
  pub three : k'.tables.pdi ≤ k.tables.pdi + 3
  pub same_ports : k'.ports ≡ k.ports
  pub same_registers : k'.registers ≡ k.registers

module _ {D : Type 0} (k : Kernel D) (w : Works k) (p : ℕ) (g : GivesPage (alloc_of k) p) where
  -- After the page was taken.
  abbrev pub taken : Allocator
  taken = lock (p * 4096) (record (alloc_of k) { page_i = p })

  abbrev pub k1 : Kernel D
  k1 = record k { allocator = taken; ram = taken.ram }

  take_page-k1 : take_page k ≡ running (p * 4096) k1
  unfolding take_page
  take_page-k1 = rw (take_page, g.returns) refl

  assigns : Assigns true p (record (alloc_of k) { page_i = p }) taken
  assigns =
      let number : p * 4096 / 4096 ≡ p = omega arith in
      let sound' : IsSound (record (alloc_of k) { page_i = p }) = record {
        bytes = w.sound.bytes;
        small = w.sound.small;
        free_word = w.sound.free_word;
        used_word = w.sound.used_word;
        reserved_word = w.sound.reserved_word;
      } in
      rw number at (lock-Assigns (p * 4096) sound')

  tree1 : Tree (tables_of k1)
  tree1 =
      moved-Tree w.tree taken.ram (λ x low high. assigns.frame x (omega (arith, w.apart)))
        assigns.sound.bytes

  finds1 : (v : ℕ) → finds k1 v ≡ finds k v
  finds1 v =
      translate_same w.tree taken.ram (λ x low high. assigns.frame x (omega (arith, w.apart))) v

  abbrev pub k3 : Kernel D
  k3 = skip_page (next_line (map_at k.vai (p * 4096) k1))

  pub round-k3 : pool_round k ≡ running tt k3
  unfolding pool_round
  round-k3 = rw (pool_round, take_page-k1) refl

  pub pool_round-OnePage : HasRoom k → OnePage k k3 p
  unfolding map_at page_align
  pool_round-OnePage room =
      let within : p ≤ span (alloc_of k) = omega (arith, w.sound.small, g.below_limit) in
      let page : page_align (p * 4096) / 0x1000 ≡ p = omega arith in
      let now_locked : locked taken p ≡ true = ground (arith, assigns.bits p within) in
      let quiet : PageLocked taken.bitmap (p * 4096) (tables_of k1) =
        ap (λ (q : ℕ). Bitmap.test taken.bitmap taken.ram q) page ∙ now_locked in
      let mapped = map_page-translate tree1 taken.bitmap k.vai (p * 4096) room (inl quiet) in
      let same_size : k3.tables.dir_size ≡ k.tables.dir_size =
        (map_page-Grows taken.bitmap k.vai (p * 4096) (tables_of k1)).same_size in
      let bits = ap (λ (b : Bitmap). b.size) assigns.same_bitmap in
      let place = ap (λ (b : Bitmap). b.buffer) assigns.same_bitmap in
      record {
        below = g.below_limit;
        was_free = g.was_free;
        works = record {
          sound = record {
            bytes = mapped.0.bytes;
            small = assigns.sound.small;
            free_word = assigns.sound.free_word;
            used_word = assigns.sound.used_word;
            reserved_word = assigns.sound.reserved_word;
          };
          some_bits = omega (arith, bits, w.some_bits);
          tree = reshown-Tree k3.basic_render mapped.0;
          apart = omega (arith, bits, place, w.apart, mapped.1.0, same_size);
        };
        same_bitmap = assigns.same_bitmap;
        locks = λ q h.
            let within : q ≤ span (alloc_of k) = omega (arith, w.sound.small, h) in
            test_same taken.bitmap k3.ram taken.ram q (
              mapped.3 (taken.bitmap.buffer + q / 8) (omega (arith, within, bits, place, w.apart))
                (inl quiet))
            ∙ assigns.bits q within;
        maps = λ v.
            let fr : frame (p * 4096) ≡ p * 4096 % 2 ^ 40 = omega arith in
            mapped.2 v
            ∙ ap
                (λ (o : Option ℕ).
                  if page_number v == page_number k.vai then some (frame (p * 4096)) else o)
                (finds1 v)
            ∙ ap (λ (x : ℕ). if page_number v == page_number k.vai then some x else finds k v) fr;
        moves = refl;
        same_size = same_size;
        three = mapped.1.1;
        same_ports = refl;
        same_registers = refl;
      }
