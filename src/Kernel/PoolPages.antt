-- ===== src/Kernel/PoolPages.antt =====
-- Pools of pages: one more round, in front of the others.
use red_x_os.Common.{
  ℕ, zero, suc, ◌+◌, ◌-◌, ◌*◌, ◌/◌, ◌%◌, ◌^◌, ◌≤◌, ◌<◌, ◌≡◌, ◌≢◌, ◌∙◌, sym, ap, arith, Option, some,
  Bool, true, false, ◌==◌, ◌&&◌, leb, ltb, if◌then◌else◌, inl, inr, Bool-cases,
}
use red_x_os.Bitmap.{Bitmap}
use red_x_os.Allocator.{page_limit}
use red_x_os.Paging.Identity.{page_number}
use red_x_os.Kernel.{Kernel}
use red_x_os.Kernel.Pooled.{alloc_of, is_locked, finds, Works, OnePage}

-- The pages from that of `VAI` on, in number `n`.
abbrev pub pool_index : {D : Type 0} → Kernel D → ℕ → ℕ
pool_index k q = q - k.vai / 4096

abbrev pub in_pool : {D : Type 0} → Kernel D → ℕ → ℕ → Bool
in_pool k n q = leb (k.vai / 4096) q && ltb q (k.vai / 4096 + n)

-- After `n` rounds: page number `i` of the pool is `frames i`, which was free, is locked now, and is
-- no other page of the pool. What was locked is locked, and the other pages stay where they were.
pub record Pooled {D : Type 0} (n : ℕ) (k k' : Kernel D) : Type 0 where
  pub frames : ℕ → ℕ
  pub were_free : (i : ℕ) → i < n → is_locked k (frames i) ≡ false
  pub are_locked : (i : ℕ) → i < n → is_locked k' (frames i) ≡ true
  pub distinct : (i j : ℕ) → i < j → j < n → frames i ≢ frames j
  pub below : (i : ℕ) → i < n → frames i < page_limit (alloc_of k)
  pub keeps : (q : ℕ) → q < page_limit (alloc_of k) → is_locked k q ≡ true → is_locked k' q ≡ true
  pub maps :
      (v : ℕ)
      → finds k' v ≡ (
          if in_pool k n (page_number v)
          then some (frames (pool_index k (page_number v)) * 4096 % 2 ^ 40)
          else finds k v)
  pub works : Works k'
  pub moves : k'.vai ≡ k.vai + n * 4096
  pub same_bitmap : k'.allocator.bitmap ≡ k.allocator.bitmap
  pub same_ports : k'.ports ≡ k.ports
  pub same_registers : k'.registers ≡ k.registers

-- The frames of a pool whose first page is `p`.
abbrev prepend : ℕ → (ℕ → ℕ) → ℕ → ℕ
prepend p f zero = p
prepend p f (suc i) = f i

not_both : {b : Bool} → b ≡ true → b ≡ false → ⊥
not_both e f = cc

module _ {D : Type 0} {n p : ℕ} {k m k' : Kernel D} (first : OnePage k m p) (rest : Pooled n m k')
    (high : k.vai + suc n * 4096 ≤ 2 ^ 48) where
  same_limit : page_limit (alloc_of m) ≡ page_limit (alloc_of k)
  same_limit =
      ap (λ (b : Bitmap). page_limit (record (alloc_of k) { bitmap = b })) first.same_bitmap

  next_vai : m.vai ≡ k.vai + 4096
  next_vai = omega (arith, first.moves)

  -- What was locked before the first round is locked after it, and so is its own page.
  still : (q : ℕ) → q < page_limit (alloc_of k) → is_locked k q ≡ true → is_locked m q ≡ true
  still q h e = ground (arith, first.locks q h, e)

  own : is_locked m p ≡ true
  own = ground (arith, first.locks p first.below)

  free_before :
      (q : ℕ) → q < page_limit (alloc_of k) → is_locked m q ≡ false → is_locked k q ≡ false
  free_before q h e = elim (Bool-cases (is_locked k q)) [
    | inl f ↦ absurd (not_both (still q h f) e)
    | inr f ↦ f
  ]

  extend_free : (i : ℕ) → i < suc n → is_locked k (prepend p rest.frames i) ≡ false
  extend_free zero h = first.was_free
  extend_free (suc i) h =
      free_before (rest.frames i) (omega (arith, rest.below i, same_limit))
        (rest.were_free i (omega arith))

  extend_below : (i : ℕ) → i < suc n → prepend p rest.frames i < page_limit (alloc_of k)
  extend_below zero h = first.below
  extend_below (suc i) h = omega (arith, rest.below i, same_limit)

  extend_locked : (i : ℕ) → i < suc n → is_locked k' (prepend p rest.frames i) ≡ true
  extend_locked zero h = rest.keeps p (omega (arith, first.below, same_limit)) own
  extend_locked (suc i) h = rest.are_locked i (omega arith)

  extend_distinct :
      (i j : ℕ) → i < j → j < suc n → prepend p rest.frames i ≢ prepend p rest.frames j
  extend_distinct i zero h h' = absurd (omega arith)
  extend_distinct zero (suc j) h h' =
      λ e. not_both (ap (λ (q : ℕ). is_locked m q) (sym e) ∙ own) (rest.were_free j (omega arith))
  extend_distinct (suc i) (suc j) h h' = rest.distinct i j (omega arith) (omega arith)

  abbrev chosen : ℕ → Bool → Option ℕ
  chosen v b =
      if b
      then some (prepend p rest.frames (pool_index k (page_number v)) * 4096 % 2 ^ 40)
      else finds k v

  abbrev pool_frame : ℕ → Option ℕ
  pool_frame v = chosen v (in_pool k (suc n) (page_number v))

  -- Where a page stands: among the later ones, at `VAI`, or not in the pool.
  later : (v : ℕ) → in_pool m n (page_number v) ≡ true → finds k' v ≡ pool_frame v
  later v e =
      let inside : in_pool k (suc n) (page_number v) ≡ true = ground (arith, next_vai, e) in
      let index : pool_index k (page_number v) ≡ suc (pool_index m (page_number v)) =
        ground (arith, next_vai, e) in
      rest.maps v
      ∙ ap
          (λ (b : Bool).
            if b
            then some (rest.frames (pool_index m (page_number v)) * 4096 % 2 ^ 40)
            else finds m v)
          e
      ∙ sym (ap (λ (i : ℕ). some (prepend p rest.frames i * 4096 % 2 ^ 40)) index)
      ∙ sym (ap (λ (b : Bool). chosen v b) inside)

  outside : (v : ℕ) → in_pool m n (page_number v) ≡ false → finds k' v ≡ finds m v
  outside v e =
      rest.maps v
      ∙ ap
          (λ (b : Bool).
            if b
            then some (rest.frames (pool_index m (page_number v)) * 4096 % 2 ^ 40)
            else finds m v)
          e

  now :
      (v : ℕ)
      → in_pool m n (page_number v) ≡ false
      → (page_number v == page_number k.vai) ≡ true
      → finds k' v ≡ pool_frame v
  now v e d =
      let inside : in_pool k (suc n) (page_number v) ≡ true = ground (arith, d) in
      let index : pool_index k (page_number v) ≡ 0 = ground (arith, d) in
      outside v e
      ∙ first.maps v
      ∙ ap (λ (b : Bool). if b then some (p * 4096 % 2 ^ 40) else finds k v) d
      ∙ sym (ap (λ (i : ℕ). some (prepend p rest.frames i * 4096 % 2 ^ 40)) index)
      ∙ sym (ap (λ (b : Bool). chosen v b) inside)

  never :
      (v : ℕ)
      → in_pool m n (page_number v) ≡ false
      → (page_number v == page_number k.vai) ≡ false
      → finds k' v ≡ pool_frame v
  never v e d =
      let away : in_pool k (suc n) (page_number v) ≡ false = ground (arith, next_vai, e, d) in
      outside v e
      ∙ first.maps v
      ∙ ap (λ (b : Bool). if b then some (p * 4096 % 2 ^ 40) else finds k v) d
      ∙ sym (ap (λ (b : Bool). chosen v b) away)

  extend_maps :
      (v : ℕ)
      → finds k' v ≡ (
          if in_pool k (suc n) (page_number v)
          then some (prepend p rest.frames (pool_index k (page_number v)) * 4096 % 2 ^ 40)
          else finds k v)
  extend_maps v =
      let q = page_number v in
      elim (Bool-cases (in_pool m n q)) [
        | inl e ↦ later v e
        | inr e ↦ elim (Bool-cases (q == page_number k.vai)) [
          | inl d ↦ now v e d
          | inr d ↦ never v e d
        ]
      ]

  pub extend : Pooled (suc n) k k'
  extend = record {
    frames = prepend p rest.frames;
    were_free = extend_free;
    are_locked = extend_locked;
    distinct = extend_distinct;
    below = extend_below;
    keeps = λ q h e. rest.keeps q (omega (arith, same_limit)) (still q h e);
    maps = extend_maps;
    works = rest.works;
    moves = omega (arith, rest.moves, next_vai);
    same_bitmap = rest.same_bitmap ∙ first.same_bitmap;
    same_ports = rest.same_ports ∙ first.same_ports;
    same_registers = rest.same_registers ∙ first.same_registers;
  }
