-- ===== src/Paging/Walk.antt =====
-- How the processor finds a page: the specification that `map` is held against.
use red_x_os.Common.{ℕ, ◌≡◌, ap, true, false, Option, none, some, List, [], ◌∷◌}
use red_x_os.Common.Ram.{Ram, load64}
use red_x_os.Paging.{p_flag, get, get_addr, entry_at, indexer}

-- Where entry `index` of a table leads.
abbrev pub target : ℕ → Option ℕ
target pde = elim (get p_flag pde) [ true ↦ some (get_addr pde) | false ↦ none ]

abbrev pub follow : Ram → ℕ → ℕ → Option ℕ
follow m table index = target (load64 m (entry_at table index))

abbrev pub walk : Ram → ℕ → List ℕ → Option ℕ
walk m table [] = some table
walk m table (i ∷ is) = elim (follow m table i) [ none ↦ none | some next ↦ walk m next is ]

-- The indices of an address, from the directory down.
abbrev pub indices : ℕ → List ℕ
indices v = let i = indexer v in i.pdp_i ∷ i.pd_i ∷ i.pt_i ∷ i.p_i ∷ []

-- The page to which the tables below `dir` map the page of `v`, if any.
abbrev pub translate : Ram → ℕ → ℕ → Option ℕ
translate m dir v = walk m dir (indices v)

module _ (m : Ram) (table i : ℕ) (is : List ℕ) where
  pub walk-none : follow m table i ≡ none → walk m table (i ∷ is) ≡ none
  walk-none e = ap (λ (o : Option ℕ). elim o [ none ↦ none | some next ↦ walk m next is ]) e

  pub walk-some : (next : ℕ) → follow m table i ≡ some next → walk m table (i ∷ is) ≡ walk m next is
  walk-some next e = ap (λ (o : Option ℕ). elim o [ none ↦ none | some t ↦ walk m t is ]) e
