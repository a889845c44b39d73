-- ===== src/Process/Signals/Quiet.antt =====
-- Sending signals makes no call of the Wayland library.
use runwhenidle.Prelude.{ℕ, String, Bool, true, false, Option, none, some, List, [], ◌∷◌}
use runwhenidle.Prelude.Int.{ℤ, pos, ◌==ℤ◌}
use runwhenidle.System.{
  Os, Prog, pure, PauseMethod, unknown, sigtstp_method, sigstop_method, Mute, Mute-bind, mute_rules,
}
use runwhenidle.Process.Descendants.{ProcessInfo}
use runwhenidle.Process.Table.Quiet.{get_child_processes-Mute}
use runwhenidle.Process.Signals.{
  for_each_process, handle_kill_error, check_kill, send_signal_to_pid, pause_by, pause_command,
  resume_command, pause_command_recursively, resume_command_recursively,
}

end_or-Mute :
    (b : Bool) (m : Prog (Unit {0}))
    → Mute m
    → Mute (elim b as (λ _. Prog (Unit {0})) [ true ↦ pure tt | false ↦ m ])
end_or-Mute true m q = search mute_rules
end_or-Mute false m q = q

for_each-Mute :
    (act : ℤ → Prog (Unit {0}))
    → ((p : ℤ) → Mute (act p))
    → (ps : List ProcessInfo) → Mute (for_each_process act ps)
unfolding for_each_process
for_each-Mute act quiet [] = search mute_rules
for_each-Mute act quiet (p ∷ ps) =
    end_or-Mute (p.process_id ==ℤ pos 0) _
      (Mute-bind _ _ (quiet p.process_id) (λ _. for_each-Mute act quiet ps))

module _ (os : Os) where
  check_kill-Mute :
      (pid : ℤ) (name : String) (result : Option ℕ) → Mute (check_kill os pid name result)
  unfolding check_kill handle_kill_error
  check_kill-Mute pid name none = search mute_rules
  check_kill-Mute pid name (some errno) = search mute_rules

  pub send_signal-Mute :
      (pid : ℤ) (signal : ℕ) (name : String) → Mute (send_signal_to_pid os pid signal name)
  unfolding send_signal_to_pid
  send_signal-Mute pid signal name = search (mute_rules, check_kill-Mute) depth 40

  pause_by-Mute : (method : PauseMethod) (pid : ℤ) → Mute (pause_by os method pid)
  unfolding pause_by
  pause_by-Mute sigtstp_method pid = search send_signal-Mute
  pause_by-Mute sigstop_method pid = search send_signal-Mute
  pause_by-Mute unknown pid = search mute_rules

  pause_command-Mute : (pid : ℤ) → Mute (pause_command os pid)
  unfolding pause_command
  pause_command-Mute pid = search (mute_rules, pause_by-Mute) depth 40

  resume_command-Mute : (pid : ℤ) → Mute (resume_command os pid)
  unfolding resume_command
  resume_command-Mute pid = search (mute_rules, send_signal-Mute)

  pub pause_recursively-Mute : (pid : ℤ) → Mute (pause_command_recursively os pid)
  unfolding pause_command_recursively
  pause_recursively-Mute pid = Mute-bind _ _ (pause_command-Mute pid) λ _.
      Mute-bind _ _ (get_child_processes-Mute os pid)
        λ ps. for_each-Mute (pause_command os) pause_command-Mute ps

  pub resume_recursively-Mute : (pid : ℤ) → Mute (resume_command_recursively os pid)
  unfolding resume_command_recursively
  resume_recursively-Mute pid = Mute-bind _ _ (resume_command-Mute pid) λ _.
      Mute-bind _ _ (get_child_processes-Mute os pid)
        λ ps. for_each-Mute (resume_command os) resume_command-Mute ps
