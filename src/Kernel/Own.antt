-- ===== src/Kernel/Own.antt =====
-- The pages that `memoryInit` maps, all to themselves.
use red_x_os.Common.{ℕ, ◌+◌, arith, ◌||◌, add64}
use red_x_os.Paging.Tree.{Tree}
use red_x_os.Paging.Console.{Clear}
use red_x_os.Bitmap.{Bitmap}
use red_x_os.Kernel.{Kernel, KernelParameters}
use red_x_os.Kernel.Pool.{map_at}
use red_x_os.Kernel.Memory.{map_own}
use red_x_os.Kernel.Identity.{tables_of}
use red_x_os.Kernel.Room.{MapsFew, MapsFew-trans, RoomFor, map_at-MapsFew}
use red_x_os.Kernel.OwnRanges.{in_ranges, in_singles, Low, stretches_of, range_step}
use red_x_os.Kernel.OwnStages.{stage1, stage2, stage3, stage4, stage5, mapping_singles, own-singles}

module _ {D : Type 0} (start size : ℕ) (p : KernelParameters) where
  -- Each single page in its turn, the last one first.
  singles :
      (b : Bitmap) (j : Kernel D)
      → Low start size p b
      → Tree (tables_of j)
      → Clear (tables_of j)
      → RoomFor 5 (tables_of j)
      → MapsFew (in_singles p) 5 (tables_of j) (tables_of (mapping_singles p j))
  singles b j0 low tree0 clear0 room =
      let j1 = map_at p.at p.at j0 in
      let j2 = map_at p.buffer_at p.buffer_at j1 in
      let j3 = map_at p.font_at p.font_at j2 in
      let j4 = map_at p.font.buffer p.font.buffer j3 in
      let f1 = map_at-MapsFew p.at j0 tree0 clear0 low.parameters (omega (arith, room)) in
      let f2 =
        map_at-MapsFew p.buffer_at j1 f1.maps.tree f1.maps.clear low.buffer
          (omega (arith, f1.few, f1.maps.same_size, room)) in
      let g2 = MapsFew-trans f1 f2 in
      let f3 =
        map_at-MapsFew p.font_at j2 f2.maps.tree f2.maps.clear low.font
          (omega (arith, g2.few, g2.maps.same_size, room)) in
      let g3 = MapsFew-trans g2 f3 in
      let f4 =
        map_at-MapsFew p.font.buffer j3 f3.maps.tree f3.maps.clear low.glyphs
          (omega (arith, g3.few, g3.maps.same_size, room)) in
      let g4 = MapsFew-trans g3 f4 in
      let f5 =
        map_at-MapsFew p.font_header j4 f4.maps.tree f4.maps.clear low.font_header
          (omega (arith, g4.few, g4.maps.same_size, room)) in
      MapsFew-trans g4 f5

  module _ (k : Kernel D) (low : Low start size p k.allocator.bitmap) (t : Tree (tables_of k))
      (c : Clear (tables_of k))
      (room : RoomFor (stretches_of start size p k.allocator.bitmap) (tables_of k)) where
    -- If the tables form a tree, what `map` prints keeps apart from the directory, the ranges end
    -- and the single pages stand below 2 ^ 40, and the directory has room for three tables for each
    -- two megabytes of a range and for each single page, then the loops and calls of `memoryInit`
    -- map the pages of the kernel, the stack, the page directory, the bitmap, the frame buffer and
    -- the parameters to themselves, and leave every other page where it was; the tables form a tree
    -- again, of which no more than that were added, and of memory nothing is changed outside the
    -- directory and what the warnings print to.
    pub map_own-MapsFew :
        MapsFew
          (λ q. in_ranges start size p k.allocator.bitmap q || in_singles p q)
          (stretches_of start size p k.allocator.bitmap)
          (tables_of k)
          (tables_of (map_own start size p k))
    map_own-MapsFew =
        let b = k.allocator.bitmap in
        let f1 =
          range_step start (add64 (add64 start size) 0x1000) (start + size + 4096) k t c
            (omega (arith, low.kernel)) low.kernel (omega (arith, room)) in
        let f2 =
          range_step p.stack (add64 (add64 p.stack p.stack_size) 0x1000)
            (p.stack + p.stack_size + 4096) (stage1 start size p k) f1.maps.tree f1.maps.clear
            (omega (arith, low.stack)) low.stack (omega (arith, f1.few, f1.maps.same_size, room)) in
        let g2 = MapsFew-trans f1 f2 in
        let f3 =
          range_step p.page_directory_address (add64 p.page_directory_address p.page_directory_size)
            (p.page_directory_address + p.page_directory_size) (stage2 start size p k) f2.maps.tree
            f2.maps.clear (omega (arith, low.directory)) low.directory
            (omega (arith, g2.few, g2.maps.same_size, room)) in
        let g3 = MapsFew-trans g2 f3 in
        let f4 =
          range_step b.buffer (add64 (add64 b.buffer b.size) 0x1000) (b.buffer + b.size + 4096)
            (stage3 start size p k) f3.maps.tree f3.maps.clear (omega (arith, low.bitmap))
            low.bitmap (omega (arith, g3.few, g3.maps.same_size, room)) in
        let g4 = MapsFew-trans g3 f4 in
        let f5 =
          range_step p.buffer.base_addr (add64 (add64 p.buffer.base_addr p.buffer.size) 0x1000)
            (p.buffer.base_addr + p.buffer.size + 4096) (stage4 start size p k) f4.maps.tree
            f4.maps.clear (omega (arith, low.framebuffer)) low.framebuffer
            (omega (arith, g4.few, g4.maps.same_size, room)) in
        let g5 = MapsFew-trans g4 f5 in
        rw (own-singles start size p k) (
          MapsFew-trans g5 (
            singles b (stage5 start size p k) low f5.maps.tree f5.maps.clear
              (omega (arith, g5.few, g5.maps.same_size, room))))
