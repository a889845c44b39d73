-- ===== src/Examples/Processes.antt =====
-- The theorems on processes, where the program watches process 7.
use runwhenidle.Prelude.{ℕ, [], arith, ◌<◌, ◌≡◌, ◌↔◌, some, List, ◌∷◌, length}
use mathlib.Core.List.{Memᴰ}
use runwhenidle.Prelude.Int.{pos}
use runwhenidle.Prelude.Distinct.{Distinct}
use runwhenidle.System.{value}
use runwhenidle.Process.Descendants.{ProcessInfo, ids, descendants}
use runwhenidle.Process.Descendants.Forest.{Descendant}
use runwhenidle.Process.Descendants.Correct.{descendants_correct}
use runwhenidle.Process.Stat.{parse_stat, file_contents}
use runwhenidle.Process.Stat.Format.{stat_line, HasNoEnd, parse_stat-stat_line}
use runwhenidle.Examples.Kernel.{table, IsForest-7}

descendants_correct_example :
    (answer : List ProcessInfo) × (descendants (λ _. pos 0) table (pos 7) ≡ value answer)
    × ((p : ProcessInfo) → Memᴰ p answer ↔ Descendant table (pos 7) p)
    × Distinct (pos 7 ∷ ids answer)
    × (length answer < length table)
descendants_correct_example = descendants_correct (λ _. pos 0) table (pos 7) IsForest-7

-- The name that the source gives as an example.
abbrev sd_pam : List ℕ
sd_pam = b'(' ∷ b's' ∷ b'd' ∷ b'-' ∷ b'p' ∷ b'a' ∷ b'm' ∷ b')' ∷ []

sd_pam-HasNoEnd : HasNoEnd sd_pam
sd_pam-HasNoEnd = (
  (λ e q. omega (arith, e)),
  (
    (λ e q. omega (arith, e)),
    (
      (λ e q. omega (arith, e)),
      (
        (λ e q. omega (arith, e)),
        (
          (λ e q. omega (arith, e)),
          ((λ e q. omega (arith, e)), ((λ e q. omega (arith, e)), ((λ e q. omega (arith, q)), tt))),
        ),
      ),
    ),
  ),
)

parse_stat-stat_line_example :
    parse_stat (file_contents (λ _. 255) (stat_line 2534 sd_pam b'S' 2508 (b'2' ∷ [])))
    ≡ value (some (pos 2508))
parse_stat-stat_line_example =
    parse_stat-stat_line (λ _. 255) 2534 sd_pam b'S' 2508 (b'2' ∷ []) (omega arith) (omega arith)
      (omega arith) sd_pam-HasNoEnd ((λ e. omega (arith, e)), tt)
