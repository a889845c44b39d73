-- ===== src/Process/Descendants/Search.antt =====
-- The inner loop of the search appends the children of one process, as long as they fit.
use runwhenidle.Prelude.{
  ℕ, ◌+◌, ◌≤◌, ◌≡◌, refl, sym, ◌∙◌, ap, ◌⊎◌, inl, inr, Bool, true, false, some, List, [], ◌∷◌, ◌++◌,
  arith, length, length-append,
}
use runwhenidle.Prelude.Int.{ℤ, ◌==ℤ◌, ==ℤ_iff}
use runwhenidle.Prelude.Distinct.{Distinct}
use runwhenidle.Process.Descendants.{ProcessInfo, ids, add_children}
use mathlib.Core.List.{Memᴰ, append-nil, append_assoc}
use mathlib.Core.List.Memᴰ

abbrev keep_if : Bool → ProcessInfo → List ProcessInfo → List ProcessInfo
keep_if true p ps = p ∷ ps
keep_if false p ps = ps

-- the processes of a list whose parent is `c`, in the order of the list
pub children : ℤ → List ProcessInfo → List ProcessInfo
children c [] = []
children c (p ∷ ps) = keep_if (p.parent_process_id ==ℤ c) p (children c ps)

pub add_children_lem :
    (capacity : ℕ) (c : ℤ) (ps found : List ProcessInfo)
    → length found + length (children c ps) ≤ capacity
    → add_children capacity c ps found ≡ some (found ++ children c ps)
unfolding add_children children
add_children_lem capacity c [] found h = ap some (sym (append-nil found))
add_children_lem capacity c (p ∷ ps) found h = ground (
  arith,
  add_children_lem capacity c ps (found ++ p ∷ []),
  add_children_lem capacity c ps found,
  length-append found (p ∷ []),
  append_assoc found (p ∷ []) (children c ps),
)

mem-keep_if :
    (b : Bool) (p q : ProcessInfo) (ps : List ProcessInfo)
    → Memᴰ p (keep_if b q ps)
    → (b ≡ true) × (p ≡ q) ⊎ Memᴰ p ps
mem-keep_if true p q ps (Memᴰ.head e) = inl (refl, e)
mem-keep_if true p q ps (Memᴰ.tail m) = inr m
mem-keep_if false p q ps m = inr m

keep_if-tail :
    (b : Bool) (p q : ProcessInfo) (ps : List ProcessInfo) → Memᴰ p ps → Memᴰ p (keep_if b q ps)
keep_if-tail true p q ps m = Memᴰ.tail m
keep_if-tail false p q ps m = m

keep_if-head :
    (b : Bool) (p q : ProcessInfo) (ps : List ProcessInfo)
    → b ≡ true
    → p ≡ q
    → Memᴰ p (keep_if b q ps)
keep_if-head true p q ps h e = Memᴰ.head e
keep_if-head false p q ps h e = cc

pub mem-children :
    (c : ℤ) (p : ProcessInfo) (ps : List ProcessInfo)
    → Memᴰ p (children c ps)
    → Memᴰ p ps × (p.parent_process_id ≡ c)
unfolding children
mem-children c p [] m = absurd (Memᴰ.not-nil m)
mem-children c p (q ∷ ps) m = elim (mem-keep_if (q.parent_process_id ==ℤ c) p q (children c ps) m) [
  | inl (t, e) ↦
      (Memᴰ.head e, ap (λ r. r.parent_process_id) e ∙ (==ℤ_iff q.parent_process_id c).0 t)
  | inr n ↦ let (listed, e) = mem-children c p ps n in (Memᴰ.tail listed, e)
]

pub children-mem :
    (c : ℤ) (p : ProcessInfo) (ps : List ProcessInfo)
    → Memᴰ p ps
    → p.parent_process_id ≡ c
    → Memᴰ p (children c ps)
unfolding children
children-mem c p [] m h = absurd (Memᴰ.not-nil m)
children-mem c p (q ∷ ps) (Memᴰ.head e) h =
    keep_if-head (q.parent_process_id ==ℤ c) p q (children c ps)
      ((==ℤ_iff q.parent_process_id c).1 (ap (λ r. r.parent_process_id) (sym e) ∙ h)) e
children-mem c p (q ∷ ps) (Memᴰ.tail m) h =
    keep_if-tail (q.parent_process_id ==ℤ c) p q (children c ps) (children-mem c p ps m h)

Distinct-keep_if :
    (b : Bool) (p : ProcessInfo) (ps : List ProcessInfo)
    → ¬ Memᴰ p.process_id (ids ps)
    → Distinct (ids ps)
    → Distinct (ids (keep_if b p ps))
Distinct-keep_if true p ps n d = (n, d)
Distinct-keep_if false p ps n d = d

mem-ids-children :
    (c i : ℤ) (ps : List ProcessInfo) → Memᴰ i (ids (children c ps)) → Memᴰ i (ids ps)
mem-ids-children c i ps m =
    let (p, listed, e) = Memᴰ.of_map (λ (q : ProcessInfo). q.process_id) (children c ps) m in
    Memᴰ.cast (sym e) (Memᴰ.map (λ q. q.process_id) (mem-children c p ps listed).0)

pub Distinct-children :
    (c : ℤ) (ps : List ProcessInfo) → Distinct (ids ps) → Distinct (ids (children c ps))
unfolding children
Distinct-children c [] d = d
Distinct-children c (p ∷ ps) d =
    Distinct-keep_if (p.parent_process_id ==ℤ c) p (children c ps)
      (λ m. d.0 (mem-ids-children c p.process_id ps m)) (Distinct-children c ps d.1)
