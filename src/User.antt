-- ===== src/User.antt =====
-- Programs of the disk image, in syscalls/: functions of ece391support.c and the programs cat, ls,
-- hello and testprint. They call the kernel through a record of calls over a state `W`; none is a
-- fault in the kernel. A buffer is the list of its bytes from its first on.
pub mod Kernel
pub mod Access
pub mod Cat
pub mod Listing
pub mod Ls
pub mod Shell
pub mod Counter
use mathlib.Core.Option
use Prim.Native.String.{String}
use snoop_diggity_d_os.Prelude.{
  ℕ, zero, suc, ◌+◌, List, [], ◌∷◌, ◌++◌, Option, none, some, ℤ, pos, negsuc, sub_ℕ, ◌==◌, not,
  if◌then◌else◌, codes, set,
}

-- The calls of ece391syscall.h that the programs use: what a call returns, the new contents of its
-- buffer, and the state.
pub record Calls (W : Type 0) : Type 0 where
  pub ece391_getargs : W → List ℕ → ℕ → Option (ℤ × List ℕ × W)
  pub ece391_open : W → List ℕ → Option (ℤ × W)
  pub ece391_execute : W → List ℕ → Option (ℤ × W)
  pub ece391_read : W → ℤ → List ℕ → ℕ → Option (ℤ × List ℕ × W)
  pub ece391_write : W → ℤ → List ℕ → ℤ → Option (ℤ × W)

-- How main ends: the status that it returns, a fault, or no end within its fuel.
pub data Ends (W : Type 0) : Type 0 where
  exits : ℕ → W → Ends W
  faults : Ends W
  runs_on : Ends W

-- ece391_strlen
unfoldable pub ece391_strlen : List ℕ → Option ℕ
ece391_strlen [] = none
ece391_strlen (c ∷ s) = let rest = ece391_strlen s in if c == 0 then some 0 else Option.map suc rest

-- ece391_strcmp
unfoldable pub ece391_strcmp : List ℕ → List ℕ → Option ℤ
ece391_strcmp [] s₂ = none
ece391_strcmp (a ∷ s₁) [] = none
ece391_strcmp (a ∷ s₁) (b ∷ s₂) =
    let rest = ece391_strcmp s₁ s₂ in
    if not (a == b) then some (sub_ℕ a b) else (if a == 0 then some (pos 0) else rest)

-- a literal, with its NUL
abbrev pub literal : String → List ℕ
literal s = codes s ++ (0 ∷ [])

module _ {W : Type 0} (sys : Calls W) where
  -- ece391_fdputs, which drops what the call returns
  unfoldable pub ece391_fdputs : W → ℤ → List ℕ → Option W
  ece391_fdputs w fd s = elim (ece391_strlen s) [
    | none ↦ none
    | some n ↦ elim (sys.ece391_write w fd s (pos n)) [ none ↦ none | some (ret, w') ↦ some w' ]
  ]

  -- ece391_fdputs (1, s); return status
  unfoldable pub complain : W → String → ℕ → Ends W
  complain w s status = elim (ece391_fdputs w (pos 1) (literal s)) [
    | none ↦ faults
    | some w' ↦ exits status w'
  ]

  -- main of ece391testprint.c
  unfoldable pub testprint : W → Ends W
  testprint w = complain w "Hello, if this ran, the program was correct. Yay!\n" 0

  -- main of ece391hello.c behind the read, for its result; below -1 it would write in front of the
  -- array
  unfoldable pub hello_name : W → ℤ → List ℕ → Ends W
  hello_name w (negsuc zero) buf = complain w "Can't read name from keyboard.\n" 3
  hello_name w (negsuc (suc n)) buf = faults
  hello_name w (pos cnt) buf = elim (ece391_fdputs w (pos 1) (literal "Hello, ")) [
    | none ↦ faults
    | some w₁ ↦ elim (ece391_fdputs w₁ (pos 1) (set buf cnt 0)) [
      | none ↦ faults
      | some w₂ ↦ exits 0 w₂
    ]
  ]

  -- main of ece391hello.c
  unfoldable pub hello : W → List ℕ → Ends W
  hello w buf = elim (ece391_fdputs w (pos 1) (literal "Hi, what's your name? ")) [
    | none ↦ faults
    | some w₁ ↦ elim (sys.ece391_read w₁ (pos 0) buf 1023) [
      | none ↦ faults
      | some (cnt, buf', w₂) ↦ hello_name w₂ cnt buf'
    ]
  ]

  -- the write at the end of the loops of cat and ls, with the rest of the loop
  unfoldable pub write_on : (W → Ends W) → W → List ℕ → ℤ → Ends W
  write_on rest w buf cnt = elim (sys.ece391_write w (pos 1) buf cnt) [
    | none ↦ faults
    | some (pos n, w') ↦ rest w'
    | some (negsuc zero, w') ↦ exits 3 w'
    | some (negsuc (suc n), w') ↦ rest w'
  ]

  -- the body of the loop of cat, with the rest of the loop, for the count that the read returned
  unfoldable pub cat_count : (W → List ℕ → Ends W) → W → ℤ → List ℕ → Ends W
  cat_count rest w (pos zero) buf = exits 0 w
  cat_count rest w (negsuc zero) buf = complain w "file read failed\n" 3
  cat_count rest w cnt buf = write_on (λ w'. rest w' buf) w buf cnt

  -- the loop of cat
  unfoldable pub cat_loop : ℕ → W → ℤ → List ℕ → Ends W
  cat_loop zero w fd buf = runs_on
  cat_loop (suc fuel) w fd buf = elim (sys.ece391_read w fd buf 1024) [
    | none ↦ faults
    | some (cnt, buf', w') ↦ cat_count (λ w₁ buf₁. cat_loop fuel w₁ fd buf₁) w' cnt buf'
  ]

  -- main of ece391cat.c behind getargs
  unfoldable pub cat_file : ℕ → W → List ℕ → Ends W
  cat_file fuel w buf = elim (sys.ece391_open w buf) [
    | none ↦ faults
    | some (negsuc zero, w') ↦ complain w' "file not found\n" 2
    | some (fd, w') ↦ cat_loop fuel w' fd buf
  ]

  -- main of ece391cat.c, with `buf` the bytes that the array on its stack holds at first
  unfoldable pub cat : ℕ → W → List ℕ → Ends W
  cat fuel w buf = elim (sys.ece391_getargs w buf 1024) [
    | none ↦ faults
    | some (pos zero, buf', w') ↦ cat_file fuel w' buf'
    | some (ret, buf', w') ↦ complain w' "could not read arguments\n" 3
  ]

  -- the body of the loop of ls, for the count that the read returned; a count below -1 would write
  -- in front of the array
  unfoldable pub ls_count : (W → List ℕ → Ends W) → W → ℤ → List ℕ → Ends W
  ls_count rest w (pos zero) buf = exits 0 w
  ls_count rest w (pos (suc n)) buf =
      let buf' = set buf (suc n) b'\n' in write_on (λ w'. rest w' buf') w buf' (pos (suc n + 1))
  ls_count rest w (negsuc zero) buf = complain w "directory entry read failed\n" 3
  ls_count rest w (negsuc (suc n)) buf = faults

  -- the loop of ls
  unfoldable pub ls_loop : ℕ → W → ℤ → List ℕ → Ends W
  ls_loop zero w fd buf = runs_on
  ls_loop (suc fuel) w fd buf = elim (sys.ece391_read w fd buf 32) [
    | none ↦ faults
    | some (cnt, buf', w') ↦ ls_count (λ w₁ buf₁. ls_loop fuel w₁ fd buf₁) w' cnt buf'
  ]

  -- main of ece391ls.c
  unfoldable pub ls : ℕ → W → List ℕ → Ends W
  ls fuel w buf = elim (sys.ece391_open w (literal ".")) [
    | none ↦ faults
    | some (negsuc zero, w') ↦ complain w' "directory open failed\n" 2
    | some (fd, w') ↦ ls_loop fuel w' fd buf
  ]
