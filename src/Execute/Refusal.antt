-- ===== src/Execute/Refusal.antt =====
-- All ends of internal_execute of student-distrib/syscalls.c, and what a refused call has changed.
use snoop_diggity_d_os.Prelude.{ℕ, ◌≡◌, ◌≢◌, none, false, negsuc}
use snoop_diggity_d_os.Scheduler.{current_pcb}
use snoop_diggity_d_os.Execute.{System}

-- The block of the kernel at the call for the first shell: pid -1 and no parent; the rest is as before.
pub record IsFirst (s s' : System) : Type 0 where
  pub pid : (s'.pcbs (current_pcb s.esp0)).pid ≡ negsuc 0
  pub parent_pcb : (s'.pcbs (current_pcb s.esp0)).parent_pcb ≡ 0
  pub args : (s'.pcbs (current_pcb s.esp0)).args ≡ none
  pub ret_val : (s'.pcbs (current_pcb s.esp0)).ret_val ≡ 0
  pub esp0 : (s'.pcbs (current_pcb s.esp0)).esp0 ≡ 0
  pub fd_array : (s'.pcbs (current_pcb s.esp0)).fd_array ≡ (s.pcbs (current_pcb s.esp0)).fd_array
  pub owned_by_terminal :
      (s'.pcbs (current_pcb s.esp0)).owned_by_terminal
      ≡ (s.pcbs (current_pcb s.esp0)).owned_by_terminal
  pub flags : (s'.pcbs (current_pcb s.esp0)).flags ≡ (s.pcbs (current_pcb s.esp0)).flags
  pub ebp_k : (s'.pcbs (current_pcb s.esp0)).ebp_k ≡ (s.pcbs (current_pcb s.esp0)).ebp_k
  pub esp_k : (s'.pcbs (current_pcb s.esp0)).esp_k ≡ (s.pcbs (current_pcb s.esp0)).esp_k

-- The state once interrupts are off: but for the block of the current process when no pid is in use,
-- nothing else has changed.
pub record IsGuarded (s s' : System) : Type 0 where
  pub interrupts : s'.interrupts ≡ false
  pub first : s.pid_avail ≡ 0 → IsFirst s s'
  pub later : s.pid_avail ≢ 0 → (a : ℕ) → s'.pcbs a ≡ s.pcbs a
  pub other_blocks : (a : ℕ) → a ≢ current_pcb s.esp0 → s'.pcbs a ≡ s.pcbs a
  pub pid_avail : s'.pid_avail ≡ s.pid_avail
  pub esp0 : s'.esp0 ≡ s.esp0
  pub terminal_pid : s'.terminal_pid ≡ s.terminal_pid
  pub terminal_state : s'.terminal_state ≡ s.terminal_state
  pub memory : s'.memory ≡ s.memory
  pub directories : s'.directories ≡ s.directories
  pub tables : s'.tables ≡ s.tables
  pub directory : s'.directory ≡ s.directory
  pub esp : s'.esp ≡ s.esp
  pub ebp : s'.ebp ≡ s.ebp
  pub frames : s'.frames ≡ s.frames
  pub image : s'.image ≡ s.image
