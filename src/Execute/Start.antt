-- ===== src/Execute/Start.antt =====
-- How internal_execute of student-distrib/syscalls.c ends, and what the program that it starts finds
-- in its memory.
use mathlib.Core.Path.{subst}
use snoop_diggity_d_os.Prelude.{
  ℕ, ◌≤◌, ◌≢◌, leb→le, Bool, ◌<◌, ◌≡◌, ◌⊎◌, refl, List, some, true, false, ◌==◌, leb, arith,
  Bool-cases, Option-cases, inl, inr, ==→eq, ℤ, pos, negsuc,
}
use snoop_diggity_d_os.Strings.{strlen}
use snoop_diggity_d_os.Fs.{Dentry, Outcome, ok, fails, fault, read_dentry_by_name, read_data}
use snoop_diggity_d_os.Pids.{all_pids_available, get_available_pid}
use snoop_diggity_d_os.Execute.{
  System, Unset, Executed, refused, faults, Split, first_process, split_command, is_executable,
  overwrite, start_process, load_file, internal_execute, max_execute_arg_size,
}

ℤ-cases : (z : ℤ) → ((n : ℕ) × (z ≡ pos n)) ⊎ ((n : ℕ) × (z ≡ negsuc n))
ℤ-cases (pos n) = inl (n, refl)
ℤ-cases (negsuc n) = inr (n, refl)

Outcome-cases {ℓ} :
    {A : Type ℓ} (o : Outcome A) → ((a : A) × (o ≡ ok a)) ⊎ ((o ≡ fails) ⊎ (o ≡ fault))
Outcome-cases (ok a) = inl (a, refl)
Outcome-cases fails = inr (inl refl)
Outcome-cases fault = inr (inr refl)

-- The state after the guard of the interrupts and the first process's block.
abbrev pub guarded : System → System
guarded s = first_process (record s { interrupts = false })

pub guarded_same :
    (s : System)
    → ((guarded s).image ≡ s.image)
      × ((guarded s).pid_avail ≡ s.pid_avail)
      × ((guarded s).memory ≡ s.memory)
      × ((guarded s).directories ≡ s.directories)
      × ((guarded s).tables ≡ s.tables)
guarded_same s = elim (Bool-cases (all_pids_available s.pid_avail)) [
  | inl first ↦ rw first (refl, refl, refl, refl, refl)
  | inr later ↦ rw later (refl, refl, refl, refl, refl)
]

-- The program that a command starts: a process identifier is free, the command is short enough,
-- and its name is that of a regular file that begins as an executable does.
pub record Program (unset : Unset) (s : System) (command : List ℕ) : Type 0 where
  pub pid : ℕ
  pub len : ℕ
  pub split : Split
  pub entry : Dentry
  pub available : get_available_pid s.pid_avail ≡ pos pid
  pub short : len < 128
  pub parts : split_command unset.commandstring command len ≡ some split
  pub found : read_dentry_by_name s.image split.commandstring ≡ ok entry
  pub regular : entry.filetype ≡ 2
  pub elf : is_executable (overwrite (read_data s.image entry.inode 0 4).written unset.magic) ≡ true

-- Why internal_execute refuses a command.
pub data Refusal (unset : Unset) (s : System) (command : List ℕ) : Type 0 where
  no_pid : (n : ℕ) → get_available_pid s.pid_avail ≡ negsuc n → Refusal unset s command
  too_long : (len : ℕ) → strlen command ≡ some len → 128 ≤ len → Refusal unset s command
  no_file :
      (len : ℕ) (split : Split)
      → split_command unset.commandstring command len ≡ some split
      → read_dentry_by_name s.image split.commandstring ≡ fails
      → Refusal unset s command
  no_program :
      (len : ℕ) (split : Split) (entry : Dentry)
      → split_command unset.commandstring command len ≡ some split
      → read_dentry_by_name s.image split.commandstring ≡ ok entry
      → (entry.filetype ≢ 2)
        ⊎ (is_executable (overwrite (read_data s.image entry.inode 0 4).written unset.magic)
            ≡ false)
      → Refusal unset s command

-- How internal_execute ends: it refuses, it reads out of bounds, or it starts the program.
abbrev pub EndsAs : Unset → System → List ℕ → ℕ → Executed → Type 0
EndsAs unset s command flags e =
    (Refusal unset s command × (e ≡ refused (guarded s)))
    ⊎ ((e ≡ faults)
        ⊎ ((p : Program unset s command) × (e
              ≡ start_process unset (guarded s) s.interrupts p.entry p.split.argstring flags
                  p.pid)))

module _ (unset : Unset) (s : System) (command : List ℕ) (flags pid len : ℕ) (split : Split) where
  -- the image is not changed by the guard
  found_image :
      (entry : Dentry)
      → read_dentry_by_name (guarded s).image split.commandstring ≡ ok entry
      → read_dentry_by_name s.image split.commandstring ≡ ok entry
  found_image entry found =
      subst (λ i. read_dentry_by_name i split.commandstring ≡ ok entry) (guarded_same s).0 found

  elf_image :
      (entry : Dentry) (b : Bool)
      → is_executable (overwrite (read_data (guarded s).image entry.inode 0 4).written unset.magic)
        ≡ b
      → is_executable (overwrite (read_data s.image entry.inode 0 4).written unset.magic) ≡ b
  elf_image entry b e =
      subst (λ i. is_executable (overwrite (read_data i entry.inode 0 4).written unset.magic) ≡ b)
        (guarded_same s).0 e

  load_file-EndsAs :
      get_available_pid (guarded s).pid_avail ≡ pos pid
      → len < 128
      → split_command unset.commandstring command len ≡ some split
      → EndsAs unset s command flags (load_file unset (guarded s) s.interrupts split flags pid)
  unfolding load_file
  load_file-EndsAs available short parts =
      elim (Outcome-cases (read_dentry_by_name (guarded s).image split.commandstring)) [
        | inr (inl missing) ↦ inl (
          no_file len split parts (
              subst (λ i. read_dentry_by_name i split.commandstring ≡ fails) (guarded_same s).0
                missing),
          rw (load_file, missing) refl,
        )
        | inr (inr lost) ↦ inr (inl (rw (load_file, lost) refl))
        | inl (entry, found) ↦ elim (Bool-cases (entry.filetype == 2)) [
          | inr other ↦ inl (
            no_program len split entry parts (found_image entry found)
                (inl (ground (arith, other))),
            rw (load_file, found, other) refl,
          )
          | inl regular ↦
              elim (Bool-cases (
                is_executable
                  (overwrite (read_data (guarded s).image entry.inode 0 4).written unset.magic))) [
                    | inr not_elf ↦ inl (
                      no_program len split entry parts (found_image entry found)
                          (inr (elf_image entry false not_elf)),
                      rw (load_file, found, regular, not_elf) refl,
                    )
                    | inl elf ↦ inr (
                        inr (
                          record {
                            pid = pid;
                            len = len;
                            split = split;
                            entry = entry;
                            available =
                                subst (λ w. get_available_pid w ≡ pos pid) (guarded_same s).1
                                  available;
                            short = short;
                            parts = parts;
                            found = found_image entry found;
                            regular = ==→eq _ _ regular;
                            elf = elf_image entry true elf;
                          },
                          rw (load_file, found, regular, elf) refl,
                        ))
                  ]
        ]
      ]

pub internal_execute-EndsAs :
    (unset : Unset) (s : System) (command : List ℕ) (flags : ℕ)
    → EndsAs unset s command flags (internal_execute unset s command flags)
unfolding internal_execute
internal_execute-EndsAs unset s command flags =
    elim (ℤ-cases (get_available_pid (guarded s).pid_avail)) [
      | inr (n, full) ↦ inl (
        no_pid n (subst (λ w. get_available_pid w ≡ negsuc n) (guarded_same s).1 full),
        rw (internal_execute, full) refl,
      )
      | inl (pid, available) ↦ elim (Option-cases (strlen command)) [
        | inl endless ↦ inr (inl (rw (internal_execute, available, endless) refl))
        | inr (len, terminated) ↦ elim (Bool-cases (leb max_execute_arg_size len)) [
          | inl long ↦ inl (
            too_long len terminated (leb→le max_execute_arg_size len long),
            rw (internal_execute, available, terminated, long) refl,
          )
          | inr short ↦ elim (Option-cases (split_command unset.commandstring command len)) [
            | inl overrun ↦
                inr (inl (rw (internal_execute, available, terminated, short, overrun) refl))
            | inr (split, parts) ↦
                rw (internal_execute, available, terminated, short, parts)
                  (load_file-EndsAs unset s command flags pid len split available (ground arith)
                    parts)
          ]
        ]
      ]
    ]
