-- ===== src/Process/Descendants/Forest.antt =====
-- What the descendants of a process are, and what a table of processes must satisfy.
use runwhenidle.Prelude.{ℕ, ◌<◌, ◌≡◌, List}
use runwhenidle.Prelude.Int.{ℤ}
use runwhenidle.Prelude.Distinct.{Distinct}
use runwhenidle.Process.Descendants.{ProcessInfo, ids}
use mathlib.Core.List.{Memᴰ}

-- `p` is listed in the table, and a chain of parents leads from it to `root`.
pub data Descendant (table : List ProcessInfo) (root : ℤ) : ProcessInfo → Type 0 where
  child : {p : ProcessInfo} → Memᴰ p table → p.parent_process_id ≡ root → Descendant table root p
  below :
      {p q : ProcessInfo}
      → Descendant table root q
      → Memᴰ p table
      → p.parent_process_id ≡ q.process_id
      → Descendant table root p

-- A snapshot of /proc: the ids are distinct, a parent is older than its children, and some process,
-- such as the program itself, is not below `root`.
pub record IsForest (table : List ProcessInfo) (root : ℤ) : Type 0 where
  pub distinct_ids : Distinct (ids table)
  pub age : ℤ → ℕ
  pub age_grows : (p : ProcessInfo) → Memᴰ p table → age p.parent_process_id < age p.process_id
  pub outside : ProcessInfo
  pub outside_listed : Memᴰ outside table
  pub outside_free : ¬ Descendant table root outside

pub Descendant-mem :
    {table : List ProcessInfo} {root : ℤ} {p : ProcessInfo} → Descendant table root p → Memᴰ p table
Descendant-mem (child m e) = m
Descendant-mem (below d m e) = m
