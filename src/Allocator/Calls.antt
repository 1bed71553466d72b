-- ===== src/Allocator/Calls.antt =====
-- What clients do with the allocator: calls in any order.
use red_x_os.Common.{ℕ, ◌*◌, ◌<◌, ◌≡◌, refl, arith}
use red_x_os.Common.{List, [], ◌∷◌, inl, inr, add64}
use red_x_os.Common.Loops.{for_range_inv}
use red_x_os.Allocator.{Allocator, Page, page, out_of_ram, page_limit}
use red_x_os.Allocator.{lock, locks, free, frees, get_page, int_pages}
use red_x_os.Allocator.Pages.{IsSound, lock-Assigns, free-Assigns}
use red_x_os.Allocator.Books.{Keeps, Keeps-refl, Keeps-trans, Assigns-Keeps}
use red_x_os.Allocator.GetPage.{get_page_lem}

-- The public operations that change the state.
pub data Call : Type 0 where
  lock_page : ℕ → Call
  lock_pages : ℕ → ℕ → Call
  free_page : ℕ → Call
  free_pages : ℕ → ℕ → Call
  get : Call

-- A machine that halted makes no more calls.
pub data Machine : Type 0 where
  running : Allocator → Machine
  halted : Allocator → Machine

pub call : Call → Allocator → Machine
call (lock_page a) s = running (lock a s)
call (lock_pages a n) s = running (locks a n s)
call (free_page a) s = running (free a s)
call (free_pages a n) s = running (frees a n s)
call get s = elim (get_page s) [ page a t ↦ running t | out_of_ram t ↦ halted t ]

pub run : List Call → Machine → Machine
unfolding call
run [] m = m
run (c ∷ cs) (halted s) = halted s
run (c ∷ cs) (running s) = run cs (call c s)

abbrev pub state : Machine → Allocator
state (running s) = s
state (halted s) = s

locks-Keeps : (a n : ℕ) {s : Allocator} → IsSound s → Keeps s (locks a n s)
unfolding locks
locks-Keeps a n {s} h =
    for_range_inv (λ k t. Keeps s t) (λ i. lock (add64 a (i * 4096))) n 0 n s (omega arith)
      (λ k t p q r. Keeps-trans r (Assigns-Keeps (lock-Assigns (add64 a (k * 4096)) r.sound)))
      (Keeps-refl h)

frees-Keeps : (a n : ℕ) {s : Allocator} → IsSound s → Keeps s (frees a n s)
unfolding frees
frees-Keeps a n {s} h =
    for_range_inv (λ k t. Keeps s t) (λ i. free (add64 a (int_pages i))) n 0 n s (omega arith)
      (λ k t p q r. Keeps-trans r (Assigns-Keeps (free-Assigns (add64 a (int_pages k)) r.sound)))
      (Keeps-refl h)

-- `pageI` is no part of the books.
pub page_i-Keeps : {s : Allocator} (p : ℕ) → IsSound s → Keeps s (record s { page_i = p })
page_i-Keeps p h = record {
  sound = record {
    bytes = h.bytes;
    small = h.small;
    free_word = h.free_word;
    used_word = h.used_word;
    reserved_word = h.reserved_word;
  };
  same_bitmap = refl;
  frame = λ x q. refl;
  held = refl;
  spare = refl;
}

page_state : Page → Allocator
page_state (page a t) = t
page_state (out_of_ram t) = t

call-get : (s : Allocator) → state (call get s) ≡ page_state (get_page s)
unfolding call page_state
call-get s = ground arith

get-Keeps : {s : Allocator} → IsSound s → 0 < s.bitmap.size → Keeps s (state (call get s))
unfolding page_state
get-Keeps {s} h some_bits = rw call-get (elim (get_page_lem h some_bits) [
  | inl (p, g) ↦ rw g.returns (
      Keeps-trans (page_i-Keeps p h)
        (Assigns-Keeps (lock-Assigns (p * 4096) (page_i-Keeps p h).sound)))
  | inr g ↦ rw g.panics (page_i-Keeps (page_limit s) h)
])

call-Keeps : (c : Call) {s : Allocator} → IsSound s → 0 < s.bitmap.size → Keeps s (state (call c s))
unfolding call
call-Keeps (lock_page a) h b = Assigns-Keeps (lock-Assigns a h)
call-Keeps (lock_pages a n) h b = locks-Keeps a n h
call-Keeps (free_page a) h b = Assigns-Keeps (free-Assigns a h)
call-Keeps (free_pages a n) h b = frees-Keeps a n h
call-Keeps get h b = get-Keeps h b

machine-Keeps :
    (cs : List Call) (m : Machine)
    → IsSound (state m)
    → 0 < (state m).bitmap.size
    → Keeps (state m) (state (run cs m))
unfolding run
machine-Keeps [] m h b = Keeps-refl h
machine-Keeps (c ∷ cs) (halted s) h b = Keeps-refl h
machine-Keeps (c ∷ cs) (running s) h b =
    let first = call-Keeps c h b in
    Keeps-trans first (machine-Keeps cs (call c s) first.sound (rw first.same_bitmap b))

-- Any sequence of `lock`, `locks`, `free`, `frees` and `getPage` keeps the books: used and reserved
-- memory change by 4096 bytes for each page that changed its lock bit and free memory by as much
-- the other way, modulo 2 ^ 64, the bitmap stays where it is, and no memory outside it and the byte
-- behind it is written. The state is sound at the start, and the bitmap is not empty.
pub run-Keeps :
    (cs : List Call) {s : Allocator}
    → IsSound s
    → 0 < s.bitmap.size
    → Keeps s (state (run cs (running s)))
run-Keeps cs {s} h b = machine-Keeps cs (running s) h b
