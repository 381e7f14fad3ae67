-- ===== src/Pids.antt =====
-- The process identifiers of student-distrib/scheduling.c: the bitmap `pid_avail`, a 32-bit word
-- with a bit set for each pid in use. A function that changes it returns the new word beside its
-- result.
pub mod Table
pub mod Set
use snoop_diggity_d_os.Prelude.{
  ℕ, zero, suc, ◌+◌, ◌-◌, ◌*◌, ◌/◌, ◌%◌, ◌^◌, Bool, true, false, ◌&&◌, ◌||◌, not, ℤ, pos, negsuc,
  failure, success, ◌==◌, ltb, leb, if◌then◌else◌, bit_and, bit_or,
}

abbrev pub max_num_procs : ℕ
max_num_procs = 6

-- the word at boot
abbrev pub initial_pid_avail : ℕ
initial_pid_avail = 0

unfoldable pub all_pids_available : ℕ → Bool
all_pids_available pid_avail = pid_avail == 0

-- the loop of get_available_pid, `rounds` before its end, with `current` the bit of pid `i`
unfoldable pub scan_pids : ℕ → ℕ → ℕ → ℕ → ℤ
scan_pids zero i current pid_avail = failure
scan_pids (suc rounds) i current pid_avail =
    let rest = scan_pids rounds (i + 1) (current * 2 % 2 ^ 32) pid_avail in
    if bit_and pid_avail current == 0 then pos i else rest

unfoldable pub get_available_pid : ℕ → ℤ
unfolding scan_pids
get_available_pid pid_avail = scan_pids max_num_procs 0 1 pid_avail

-- pid >= 0 && pid < MAX_NUM_PROCS
abbrev pub valid_pid : ℤ → Bool
valid_pid (pos pid) = ltb pid max_num_procs
valid_pid (negsuc n) = false

abbrev pid_bit : ℤ → ℕ
pid_bit (pos pid) = 2 ^ pid
pid_bit (negsuc n) = 0

unfoldable pub mark_pid_used : ℕ → ℤ → ℕ × ℤ
mark_pid_used pid_avail pid =
    if valid_pid pid then (bit_or pid_avail (pid_bit pid), success) else (pid_avail, failure)

-- `~(1 << pid)` on 32 bits
unfoldable pub mark_pid_free : ℕ → ℤ → ℕ × ℤ
mark_pid_free pid_avail pid =
    if valid_pid pid
    then (bit_and pid_avail (2 ^ 32 - 1 - pid_bit pid), success)
    else (pid_avail, failure)

-- is_pid_used; FAILURE as a `uint8_t` is 255
unfoldable pub is_pid_used : ℕ → ℤ → ℕ
is_pid_used pid_avail (negsuc n) = 255
is_pid_used pid_avail (pos pid) =
    if leb max_num_procs pid then 255 else bit_and pid_avail (2 ^ pid) / 2 ^ pid % 256

-- block_address_for_process; FAILURE as a `uint32_t` is 2 ^ 32 - 1
unfoldable pub block_address_for_process : ℤ → ℕ
block_address_for_process (negsuc n) = 2 ^ 32 - 1
block_address_for_process (pos pid) =
    if ltb pid max_num_procs then 0x800000 + 0x400000 * pid else 2 ^ 32 - 1
