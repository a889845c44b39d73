-- ===== src/Process/Descendants/Correct.antt =====
-- The search returns the descendants, each once, within the array and within its fuel.
use runwhenidle.Prelude.{
  ℕ, zero, suc, ◌+◌, ◌≤◌, ◌<◌, ◌≡◌, ◌↔◌, ◌∙◌, ap, subst, inl, inr, List, [], ◌∷◌, ◌++◌, arith,
  length, length-append, length-map,
}
use runwhenidle.Prelude.Int.{ℤ}
use runwhenidle.Prelude.Distinct.{Distinct}
use runwhenidle.System.{value}
use runwhenidle.Process.Descendants.{ProcessInfo, ids, search, descendants}
use runwhenidle.Process.Descendants.Forest.{Descendant, child, below, IsForest}
use runwhenidle.Process.Descendants.Search.{children, add_children_lem}
use mathlib.Core.List.{Memᴰ, append-nil}
use mathlib.Core.List.Memᴰ
use runwhenidle.Process.Descendants.Loop.{
  pid_of, room, Inv, Inv-start, Inv-next, next, fits, index_fits,
}

module _ (table : List ProcessInfo) (root : ℤ) (forest : IsForest table root) where
  -- What the search returns.
  pub record IsAnswer (found : List ProcessInfo) : Type 0 where
    pub exact : (p : ProcessInfo) → Memᴰ p found ↔ Descendant table root p
    pub once : Distinct (root ∷ ids found)
    pub fits_array : length found < length table

  IsAnswer-done :
      (index : ℕ) (checked : ℤ) (found : List ProcessInfo)
      (inv : Inv table root forest index checked found)
      → inv.pending ≡ []
      → IsAnswer found
  IsAnswer-done index checked found inv empty = record {
    exact = λ p. (inv.sound p, complete);
    once = inv.distinct;
    fits_array = room table root forest found inv.distinct.1 inv.sound;
  }
    where
      all_done : root ∷ ids found ≡ inv.done
      all_done = subst (λ l. root ∷ ids found ≡ inv.done ++ l) empty inv.split ∙ append-nil inv.done

      complete : {p : ProcessInfo} → Descendant table root p → Memᴰ p found
      complete (child {p} m e) =
          inv.closed p m (subst (Memᴰ p.parent_process_id) all_done (Memᴰ.head e))
      complete (below {p} {q} d m e) = inv.closed p m (
          subst (Memᴰ p.parent_process_id) all_done
            (Memᴰ.tail (Memᴰ.cast e (Memᴰ.map pid_of (complete d)))))

  sizes :
      {index : ℕ} {checked : ℤ} {found : List ProcessInfo}
      (inv : Inv table root forest index checked found)
      → index + length inv.pending ≡ length found + 1
  sizes {found} inv = omega (
    arith,
    ap length inv.split,
    length-append inv.done inv.pending,
    length-map pid_of found,
    inv.index_eq,
  )

  module _ (garbage : ℕ → ℤ) where
    search_step :
        (fuel index : ℕ) (checked : ℤ) (found : List ProcessInfo)
        (inv : Inv table root forest index checked found) (rest : List ℤ)
        (now : inv.pending ≡ checked ∷ rest)
        → search garbage table (suc fuel) index checked found
          ≡ search garbage table fuel
              (index + 1)
              (next table root forest garbage index checked found inv rest now)
              (found ++ children checked table)
    unfolding search
    search_step fuel index checked found inv rest now = ground (
      arith,
      add_children_lem (length table) checked table found,
      length-append found (children checked table),
      fits table root forest garbage index checked found inv rest now,
      index_fits table root forest garbage index checked found inv rest now,
    )

    search_ends :
        (fuel index : ℕ) (checked : ℤ) (found : List ProcessInfo)
        → Inv table root forest index checked found
        → length table + 1 ≤ fuel + index
        → (answer : List ProcessInfo) × (search garbage table fuel index checked found
            ≡ value answer)
          × IsAnswer answer
    unfolding search
    search_ends zero index checked found inv h =
        absurd (omega (arith, sizes inv, room table root forest found inv.distinct.1 inv.sound))
    search_ends (suc fuel) index checked found inv h = elim inv.current [
      | inl empty ↦ (
        found,
        ground (
          arith,
          sizes inv,
          ap length empty,
          room table root forest found inv.distinct.1 inv.sound,
        ),
        IsAnswer-done index checked found inv empty,
      )
      | inr (rest, now) ↦
          let (answer, e, ok) =
            search_ends fuel (index + 1)
              (next table root forest garbage index checked found inv rest now)
              (found ++ children checked table)
              (Inv-next table root forest garbage index checked found inv rest now) (omega arith) in
          (answer, search_step fuel index checked found inv rest now ∙ e, ok)
    ]

-- On a forest the search returns: with every descendant and nothing else, each id once and never
-- that of the process itself, and with fewer entries than the array has, so that the marker behind
-- the last one fits too.
pub descendants_correct :
    (garbage : ℕ → ℤ) (table : List ProcessInfo) (root : ℤ)
    → IsForest table root
    → (answer : List ProcessInfo) × (descendants garbage table root ≡ value answer)
      × ((p : ProcessInfo) → Memᴰ p answer ↔ Descendant table root p)
      × Distinct (root ∷ ids answer)
      × (length answer < length table)
unfolding descendants
descendants_correct garbage table root forest =
    let (answer, e, ok) =
      search_ends table root forest garbage (length table + 1) 0 root []
        (Inv-start table root forest) (omega arith) in
    (answer, e, ok.exact, ok.once, ok.fits_array)
