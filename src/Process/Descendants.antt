-- ===== src/Process/Descendants.antt =====
-- The second stage of `get_child_processes` (process_handling.c): from the table of all processes,
-- the descendants of one of them, breadth first, in an array as long as the table.
pub mod Forest
pub mod Search
pub mod Loop
pub mod Correct
use runwhenidle.Prelude.{
  ℕ, zero, suc, ◌+◌, Bool, true, false, Option, none, some, List, [], ◌∷◌, ◌++◌, map, ltb, length,
  get_or, if◌then◌else◌,
}
use runwhenidle.Prelude.Int.{ℤ, ◌==ℤ◌}
use runwhenidle.System.{Outcome, value, crashed, out_of_fuel}

pub record ProcessInfo : Type 0 where
  pub process_id : ℤ
  pub parent_process_id : ℤ

abbrev pub ids : List ProcessInfo → List ℤ
ids = map (λ p. p.process_id)

-- The inner loop over the table: `found` is `descendants[0 .. known_descendants - 1)`, and a write
-- past the end of the array is `none`.
pub add_children : ℕ → ℤ → List ProcessInfo → List ProcessInfo → Option (List ProcessInfo)
add_children capacity checked [] found = some found
add_children capacity checked (p ∷ ps) found = elim (p.parent_process_id ==ℤ checked) [
  | true ↦ elim (ltb (length found) capacity) [
    | true ↦ add_children capacity checked ps (found ++ p ∷ [])
    | false ↦ none
  ]
  | false ↦ add_children capacity checked ps found
]

-- The outer loop. The array comes from malloc, so a slot that was not written holds anything; a
-- read or a write past its end, that of the last marker included, is undefined.
module _ (garbage : ℕ → ℤ) (table : List ProcessInfo) where
  pub search : ℕ → ℕ → ℤ → List ProcessInfo → Outcome (List ProcessInfo)
  search zero index checked found = out_of_fuel
  search (suc fuel) index checked found = elim (ltb index (length found + 1)) [
    | true ↦ elim (add_children (length table) checked table found) [
      | none ↦ crashed
      | some found' ↦ elim (ltb index (length table)) [
        | true ↦ search fuel (index + 1) (get_or (ids found') index (garbage index)) found'
        | false ↦ crashed
      ]
    ]
    | false ↦ if ltb (length found) (length table) then value found else crashed
  ]

  pub descendants : ℤ → Outcome (List ProcessInfo)
  descendants initial_parent_process_id = search (length table + 1) 0 initial_parent_process_id []
