-- ===== src/Kernel/OwnStages.antt =====
-- The steps by which `memoryInit` maps pages to themselves.
use red_x_os.Common.{ℕ, ◌≡◌, ◌∙◌, refl, ap, add64}
use red_x_os.Bitmap.{Bitmap}
use red_x_os.Kernel.{Kernel, KernelParameters}
use red_x_os.Kernel.Pool.{map_at}
use red_x_os.Kernel.Memory.{map_range, map_own}
use red_x_os.Kernel.OwnRanges.{map_range-retabled, retabled}

module _ {D : Type 0} where
  retabled_trans : (k j i : Kernel D) → j ≡ retabled k j → i ≡ retabled j i → i ≡ retabled k i
  retabled_trans k j i p q = q ∙ ap (λ (x : Kernel D). retabled x i) p

  abbrev pub mapping_singles : KernelParameters → Kernel D → Kernel D
  mapping_singles p j =
      let j1 = map_at p.font_at p.font_at (map_at p.buffer_at p.buffer_at (map_at p.at p.at j)) in
      map_at p.font_header p.font_header (map_at p.font.buffer p.font.buffer j1)

  module _ (start size : ℕ) (p : KernelParameters) (k : Kernel D) where
    abbrev pub stage1 : Kernel D
    stage1 = map_range start (add64 (add64 start size) 0x1000) k

    abbrev pub stage2 : Kernel D
    stage2 = map_range p.stack (add64 (add64 p.stack p.stack_size) 0x1000) stage1

    abbrev pub stage3 : Kernel D
    stage3 =
        map_range p.page_directory_address (add64 p.page_directory_address p.page_directory_size)
          stage2

    abbrev mapping_bitmap : Bitmap → Kernel D
    mapping_bitmap b = map_range b.buffer (add64 (add64 b.buffer b.size) 0x1000) stage3

    abbrev mapping_screen : Kernel D → Kernel D
    mapping_screen j =
        map_range p.buffer.base_addr (add64 (add64 p.buffer.base_addr p.buffer.size) 0x1000) j

    abbrev pub stage4 : Kernel D
    stage4 = mapping_bitmap k.allocator.bitmap

    abbrev pub stage5 : Kernel D
    stage5 = mapping_screen stage4

    stage3-retabled : stage3 ≡ retabled k stage3
    stage3-retabled =
        let first = map_range-retabled start (add64 (add64 start size) 0x1000) k in
        let second =
          map_range-retabled p.stack (add64 (add64 p.stack p.stack_size) 0x1000) stage1 in
        let third =
          map_range-retabled p.page_directory_address
            (add64 p.page_directory_address p.page_directory_size) stage2 in
        retabled_trans k stage2 stage3 (retabled_trans k stage1 stage2 first second) third

    stage5-retabled : stage5 ≡ retabled k stage5
    stage5-retabled =
        let b = k.allocator.bitmap in
        let fourth = map_range-retabled b.buffer (add64 (add64 b.buffer b.size) 0x1000) stage3 in
        let fifth =
          map_range-retabled p.buffer.base_addr
            (add64 (add64 p.buffer.base_addr p.buffer.size) 0x1000) stage4 in
        retabled_trans k stage4 stage5 (retabled_trans k stage3 stage4 stage3-retabled fourth) fifth

    same_bitmap : stage3.allocator.bitmap ≡ k.allocator.bitmap
    same_bitmap = ap (λ (j : Kernel D). j.allocator.bitmap) stage3-retabled

    pub own-singles : map_own start size p k ≡ mapping_singles p stage5
    unfolding map_own
    own-singles =
        ap (λ (b : Bitmap). mapping_singles p (mapping_screen (mapping_bitmap b))) same_bitmap

    -- What `memoryInit` maps changes the tables, memory and the renderer alone.
    pub map_own-retabled : map_own start size p k ≡ retabled k (map_own start size p k)
    unfolding map_at
    map_own-retabled =
        rw own-singles (retabled_trans k stage5 (mapping_singles p stage5) stage5-retabled refl)
