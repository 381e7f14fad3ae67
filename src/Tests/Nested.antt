-- ===== src/Tests/Nested.antt =====
-- A program starts a second one, and both end.
use snoop_diggity_d_os.Prelude.{◌≡◌, update, refl, arith, true, pos, some}
use snoop_diggity_d_os.Strings.{strlen, strcpy, strncmp, char_diff}
use snoop_diggity_d_os.Fs.{
  read_dentry_by_name, find_dentry, read_data, seek, copy_bytes, next_block, bad_block,
}
use snoop_diggity_d_os.Pids.{get_available_pid, scan_pids, all_pids_available, mark_pid_used}
use snoop_diggity_d_os.Execute.{
  System, started, split_loop, split_command, child_system, user_context, start_process, load_file,
  internal_execute,
}
use snoop_diggity_d_os.Scheduler.{pcb_address, current_pcb}
use snoop_diggity_d_os.Execute.Start.{guarded}
use snoop_diggity_d_os.Execute.Halt.{after_leave}
use snoop_diggity_d_os.Execute.Leave.{returns, halt, halt_excep, leave_process, resume_execute}
use snoop_diggity_d_os.Execute.Keeps.{IsRunning}
use snoop_diggity_d_os.Execute.Nested.{Works, Does, dies, starts, works, runs, IsReturned}
use snoop_diggity_d_os.Execute.Nested.Ends.{nested_programs-halt}
use snoop_diggity_d_os.Terminals.Keys.Keeps.{Keeps}
use snoop_diggity_d_os.Interrupts.Exceptions.{Handled, page_fault, exception_handler}
use snoop_diggity_d_os.Interrupts.Faults.{exception_handler-returns}
use snoop_diggity_d_os.Tests.Terminals.{two_terminals}
use snoop_diggity_d_os.Tests.Programs.{
  program, image, unset, system, command, argument, running, program_runs,
}

-- the program with pid 1 on its kernel stack
abbrev working : System
working = record running {
  pcbs = update running.pcbs (pcb_address 1) (record (running.pcbs (pcb_address 1)) {
    fd_array = (running.pcbs (pcb_address 1)).fd_array;
  });
  directories = update running.directories 1 (running.directories 1);
  tables = update running.tables 1 (running.tables 1);
  interrupts = true;
  esp = 0x7FDE00;
  ebp = 0x7FDE40;
}

abbrev second : System
second = child_system unset (guarded working) true program argument 0 2

second_runs :
    internal_execute unset working command 0 ≡ started second (user_context unset image program)
unfolding internal_execute get_available_pid scan_pids strlen split_command split_loop strcpy
    load_file read_dentry_by_name find_dentry strncmp char_diff read_data bad_block seek copy_bytes
    next_block start_process all_pids_available child_system mark_pid_used
second_runs = refl

-- the second program is ended by an exception, and the first one halts
abbrev resumed : System
resumed = (after_leave second 2 256).0

second_dies : halt_excep second 256 ≡ returns resumed (pos 256)
unfolding halt_excep child_system current_pcb leave_process resume_execute all_pids_available
    mark_pid_used
second_dies = refl

on-Works : Works 1 running working
on-Works = record {
  memory = running.memory;
  fds = (running.pcbs (pcb_address 1)).fd_array;
  directory = running.directories 1;
  table = running.tables 1;
  interrupts = true;
  esp = 0x7FDE00;
  ebp = 0x7FDE40;
  own_memory = λ a h. refl;
  result = refl;
}

first_pid : get_available_pid 1 ≡ pos 1
unfolding get_available_pid scan_pids
first_pid = refl

second_pid : get_available_pid working.pid_avail ≡ pos 2
unfolding get_available_pid scan_pids child_system mark_pid_used all_pids_available
second_pid = refl

-- what the first program does
first-Does : Does unset 1 running resumed
first-Does = runs (works starts on-Works) (
    dies second second command (user_context unset image program) 2 (pos 256) (omega arith)
      second_pid second_runs starts second_dies)

shell-IsRunning : IsRunning 0 (system 1)
shell-IsRunning = record {
  low = omega arith;
  six = omega arith;
  is_used = refl;
  at = refl;
  own = refl;
}

nested_programs-halt_example :
    (t : System) × (halt unset resumed 5 ≡ returns t (pos 5)) × IsReturned 0 (system 1) t
nested_programs-halt_example =
    nested_programs-halt unset (system 1) running resumed command (user_context unset image program)
      1 0 shell-IsRunning (omega arith) first_pid program_runs first-Does 5 (omega arith)

exception_handler-returns_example :
    (h : Handled) × (t : System) × (exception_handler page_fault two_terminals resumed 1 ≡ some h)
    × Keeps two_terminals h.terminals
    × (h.halted ≡ returns t (pos 256))
    × IsReturned 0 (system 1) t
exception_handler-returns_example =
    exception_handler-returns unset (system 1) running resumed command
      (user_context unset image program) 1 0 page_fault two_terminals shell-IsRunning (omega arith)
      first_pid program_runs first-Does
