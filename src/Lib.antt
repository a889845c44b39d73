-- ===== src/Lib.antt =====
-- Verification library of runwhenidle, which pauses a command while the user is active and lets it
-- run while the user is idle.
--
-- The parts of the program, and where they are modelled:
--   * System: the kernel and the C streams (a function that answers each call from the calls before
--     it), the global variables of main.c, output_settings.h and pause_methods.h, C code as
--     functions of the state with `exit`, undefined behaviour and used-up fuel as outcomes, and the
--     rules for proofs about them. tty_utils.c is fprintf_error of System/Effects.
--   * Libc: strtol, sscanf and printf with "%d" and strtok, from the C standard, over bytes.
--   * Process/Stat, Process/Table and Process/Descendants: get_child_processes and
--     read_parent_process_id of process_handling.c; Process/Signals: pausing and resuming one
--     process and a tree of them; Process/Exit: waiting for the command and the check for its end.
--   * Monitor/Time: time_utils.c and integer conversions of main.c; Monitor/Signals: signalfd,
--     handle_interruption and the loop that waits for the command; Monitor/Activity: pausing and
--     resuming by idle time, and the Wayland callbacks; Monitor/X11: the polling loop of main.
--   * Arguments: arguments_parsing.c, over what getopt_long returns.
--   * Environment: environment_guessing.c, file_utils.c and string_utils.c, over what the kernel says
--     of files and with the environment as a record of the variables that matter.
--   * Descriptors: descriptor_utils.c.
--   * Wayland: wayland.c, over the client library and the compositor as questions that are answered
--     from the calls before; Wayland/Objects says which objects of the library live.
--   * Monitor/IdleLoop: run_wayland_idle_event_loop of main.c, from the array for poll() over the
--     stages of a round to the clean-up; Process/Starting: run_shell_command of process_handling.c.
--   * Sleeping: sleep_utils.c, which nothing calls.
--   * Main: main, from the command line and the signals over the command and the Wayland session to
--     the polling loop.
--   * Examples: the theorems at concrete inputs, in a kernel with three processes.
-- main runs the Wayland session, whose loop runs the callbacks of the idle notification, and where
-- this fails the polling loop. Both call the activity decisions, those call the tree of signals, and
-- this reads /proc anew each time. Functions keep the names of the source; where one is long, its stages are
-- functions of their own, and the loop variables that they share are their arguments.
--
-- Bytes and unsigned numbers are natural numbers, with the reduction of `int` and of `long long`
-- written out where the source converts. Times of the monotonic clock are not negative. A signal
-- counts as delivered where kill returns 0. Memory that was not written holds whatever the kernel's
-- answers say. The search for descendants has fuel for one round more than the table has entries,
-- and it is proved to be enough; the loops that run as long as the command does take a number of
-- rounds, and what is stated of them holds for every number.
--
-- The hypotheses on the kernel are those of Process.Table.Snapshot.ProcWorks: memory can be had,
-- stat lines can be parsed, and what is read of /proc is a forest of processes with numbers other
-- than 0, with some process outside the tree that is watched. Process.Stat.Format shows that a stat
-- line in the kernel's format can be parsed. The theorems on the event loop and on main ask in
-- addition that the read of a timer is not interrupted (Descriptors.Silence.ReadsAtOnce), as that of
-- a descriptor that does not block; a retry that is interrupted each time would use up the retries.
-- Those on main ask that XScreenSaverAllocInfo succeeds (`has_info`): its result is used without a
-- test, and the model crashes where it is NULL. They also take the process to watch as `root`: a fork
-- and the --pid arguments give no other id (Main.Starting.ForksAs, Arguments.Options.Untouched.IsPid).
--
-- Not modelled: the generated protocol files, whose code is tables and wrappers. The kernel, the
-- Wayland client library, X11, getpwuid and getopt_long are parameters. A number from the clock or
-- from a pointer is not reduced to a width, nor is the number of entries of the process table, which
-- would take 2^30 processes to leave an `int`, and a Wayland object is the address that the library
-- gave for it.
mod Prelude
pub mod System
pub mod Libc
pub mod Arguments
pub mod Descriptors
pub mod Environment
mod Examples
pub mod Process
pub mod Monitor
pub mod Wayland
pub mod Main
pub mod Sleeping
