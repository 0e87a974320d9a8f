-- ===== src/Mbtcp/Tables.antt =====
-- The four tables of the Modbus device.
use cursus.Prelude.{
  ℕ, zero, suc, ◌+◌, ◌≤◌, ◌<◌, ◌≡◌, refl, ap, ◌∙◌, none, some, [], ◌∷◌, get_elem?, arith, All,
}
use cursus.Wire.{Text}
use cursus.Mbtcp.Server.{Block, range_from, block, init}

get_elem?-range_from : (start n i : ℕ) → i < n → get_elem? (range_from start n) i ≡ some (start + i)
unfolding range_from
get_elem?-range_from start zero i h = absurd (omega arith)
get_elem?-range_from start (suc n) zero h = ap some (omega arith)
get_elem?-range_from start (suc n) (suc i) h =
    get_elem?-range_from (suc start) n i (omega arith) ∙ ap some (omega arith)

get_elem?-range_from_end : (start n i : ℕ) → n ≤ i → get_elem? (range_from start n) i ≡ none
unfolding range_from
get_elem?-range_from_end start zero i h = refl
get_elem?-range_from_end start (suc n) zero h = absurd (omega arith)
get_elem?-range_from_end start (suc n) (suc i) h =
    get_elem?-range_from_end (suc start) n i (omega arith)

-- The block holds at each index below the size the index, and nothing from there on.
abbrev pub IsNumbered : ℕ → Block → Type 0
IsNumbered size b =
    ((i : ℕ) → i < size → get_elem? b.values i ≡ some i)
    × ((i : ℕ) → size ≤ i → get_elem? b.values i ≡ none)

block-IsNumbered : (size : ℕ) → IsNumbered size (block size)
unfolding block
block-IsNumbered size = (
  λ i h. get_elem?-range_from 0 size i h ∙ ap some (omega arith),
  λ i h. get_elem?-range_from_end 0 size i h,
)

-- Whatever the size: each of the four tables of a new server starts at address 1, and holds at each
-- index below the size the index, and nothing from the size on.
pub init-IsNumbered :
    (ip : Text) (port size : ℕ)
    → (let context = (init ip port size).context in
        let tables =
          context.input_registers ∷ context.holding_registers ∷ context.discrete_inputs
          ∷ context.coils ∷ [] in
        All (λ (b : Block). (b.address ≡ 1) × IsNumbered size b) tables)
unfolding init block
init-IsNumbered ip port size =
    let table = block-IsNumbered size in
    ((refl, table), ((refl, table), ((refl, table), ((refl, table), tt))))
