-- ===== src/Tests/User.antt =====
-- cat and ls on a disk with the directory "." and a text file "a", the shell, and the counter.
use snoop_diggity_d_os.Prelude.{
  ◌+◌, ◌%◌, ◌≡◌, refl, List, ℕ, [], ◌∷◌, ◌==◌, if◌then◌else◌, arith, pos, none, some, ◌++◌, inl,
  inr, negsuc, replicate, codes,
}
use snoop_diggity_d_os.Fs.{Dentry, Image, ok, bad_block, read_dentry_by_name, find_dentry}
use snoop_diggity_d_os.Fs.Blocks.{HasBlocks}
use snoop_diggity_d_os.Strings.{strlen, strncmp, strncpy, pad, char_diff}
use snoop_diggity_d_os.Descriptors.{closed_file, execute_fds, getargs}
use snoop_diggity_d_os.User.{exits, cat, ls, literal}
use snoop_diggity_d_os.User.Kernel.{Drivers, Process, kernel}
use snoop_diggity_d_os.User.Access.{IsText}
use snoop_diggity_d_os.User.Listing.{HasNames}
use snoop_diggity_d_os.User.Cat.Shows.{IsRegular, cat-shows}
use snoop_diggity_d_os.User.Ls.Shows.{ls-shows}
use snoop_diggity_d_os.User.Counter.{counter}
use snoop_diggity_d_os.User.Counter.Counts.{IsCount, HasStdout}
use snoop_diggity_d_os.User.Counter.Choice.{asked, counter-counts}
use snoop_diggity_d_os.User.Shell.{shell}
use snoop_diggity_d_os.User.Shell.Session.{Session, session, HasNoNul}
use snoop_diggity_d_os.User.Shell.Commands.{IsTyped, shell-commands}

abbrev dot : Dentry
dot = record { filename = b'.' ∷ replicate 31 0; filetype = 1; inode = 0; reserved = [] }

abbrev letters : Dentry
letters = record { filename = b'a' ∷ replicate 31 0; filetype = 2; inode = 1; reserved = [] }

-- The file has 5 bytes in block 2, which are letters.
abbrev disk : Image
disk = record {
  direntries = 2;
  inodes = 3;
  datablocks = 8;
  files = dot ∷ letters ∷ [];
  words = λ i. if i == 1024 then 5 else if i == 1025 then 2 else 0;
  bytes = λ i. 97 + i % 26;
}

-- A machine whose other calls fail to return.
abbrev no_drivers : Drivers
no_drivers = record {
  read_rtc = λ p buf n. none;
  write_rtc = λ p buf n. none;
  read_terminal = λ p buf n. none;
  execute = λ p command. none;
}

-- A new process with the argument "a".
abbrev process : Process
process = record {
  files = execute_fds (λ _. closed_file);
  args = b'a' ∷ replicate 1023 0;
  place = 0x08001000;
  shown = [];
}

given : getargs process.args process.place (replicate 1024 7) (pos 1024) ≡ ok process.args
unfolding getargs strlen strncpy pad
given = refl

names_file : read_dentry_by_name disk process.args ≡ ok letters
unfolding read_dentry_by_name find_dentry strncmp char_diff
names_file = refl

names_dot : read_dentry_by_name disk (literal ".") ≡ ok dot
unfolding read_dentry_by_name find_dentry strncmp char_diff
names_dot = refl

blocks : HasBlocks disk 1 5
unfolding bad_block
blocks k h = let z : k ≡ 0 = omega arith in rw z refl

regular : IsRegular disk 0x500000 letters
unfolding bad_block
regular = record {
  filetype = refl;
  address = omega arith;
  valid = omega arith;
  small = omega arith;
  sized = omega arith;
  blocks = blocks;
  start = refl;
}

text : IsText disk 1
text i h = omega arith

cat-shows_example :
    (p' : Process) × (cat (kernel disk 0x500000 no_drivers) 2 process (replicate 1024 7)
      ≡ exits 0 p')
    × (p'.shown ≡ codes "cdefg")
cat-shows_example =
    cat-shows disk 0x500000 1 no_drivers (λ _. closed_file) process (replicate 1024 7) process.args
      letters refl refl given names_file regular text (omega arith)

names : HasNames disk.files
names = (refl, λ e. ground (arith, e), (refl, λ e. ground (arith, e), tt))

ls-shows_example :
    (p' : Process) × (ls (kernel disk 0x500000 no_drivers) 3 process (replicate 33 7) ≡ exits 0 p')
    × (p'.shown ≡ codes ".\na\n")
ls-shows_example =
    ls-shows disk 0x500000 3 no_drivers (λ _. closed_file) process (replicate 33 7) dot refl refl
      names_dot refl refl names (omega arith) (omega arith)

-- "ls", an empty line, "exit" and a line that nobody reads
abbrev lines : List (List ℕ)
lines = codes "ls" ∷ ([] ∷ (codes "exit" ∷ (codes "cat" ∷ [])))

exit_text : HasNoNul (codes "exit")
exit_text = (
  λ e. ground (arith, e),
  (λ e. ground (arith, e), (λ e. ground (arith, e), (λ e. ground (arith, e), tt))),
)

typed : IsTyped lines
typed = (
  (λ e. ground (arith, e), (λ e. ground (arith, e), tt)),
  omega arith,
  inr (tt, omega arith, inr (exit_text, omega arith, inl refl)),
)

-- a session in which every command is unknown
shell-commands_example :
    (s : Session) × (shell
        (session (λ command. negsuc 0))
        4
        (record { lines = lines; ran = [] })
        (replicate 1024 7)
      ≡ exits 0 s)
    × (s.ran ≡ codes "ls" ∷ [])
shell-commands_example =
    shell-commands (λ command. negsuc 0) 4 lines (replicate 1024 7) typed (omega arith)

abbrev typing : Drivers
typing = record no_drivers {
  read_terminal = λ p buf n. some (pos 2, b'0' ∷ (b'\n' ∷ replicate 1022 7), p);
}

can_write : HasStdout process
unfolding execute_fds
can_write = record { page = refl; stdout = refl; stdout_used = refl }

counter-counts_example :
    (p' : Process) × (text : List ℕ) × (counter
        (kernel disk 0x500000 typing)
        process
        (replicate 1024 7)
      ≡ exits 0 p')
    × (p'.shown ≡ (asked process).shown ++ text)
    × IsCount 100 0 text
unfolding execute_fds
counter-counts_example =
    counter-counts disk 0x500000 typing 0 7 (replicate 1024 7) (replicate 1021 7) process
      (asked process) can_write refl refl (omega arith) refl
      (record { page = refl; stdout = refl; stdout_used = refl })
