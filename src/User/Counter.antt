-- ===== src/User/Counter.antt =====
-- main of syscalls/ece391counter.c, with ece391_itoa and ece391_strrev of ece391support.c. A buffer of
-- these two is a function on offsets, as for itoa and strrev of the kernel.
pub mod Numbers
pub mod Counts
pub mod Choice
use snoop_diggity_d_os.Prelude.{
  ℕ, zero, suc, ◌+◌, ◌-◌, ◌/◌, ◌%◌, List, Option, none, some, Bool, ℤ, pos, negsuc, ltb, leb, ◌==◌,
  ◌&&◌, ◌||◌, if◌then◌else◌, set, get_or, update, elements,
}
use snoop_diggity_d_os.Format.{lookup}
use snoop_diggity_d_os.User.{
  Calls, Ends, exits, faults, ece391_strlen, ece391_fdputs, literal, complain,
}

-- the loop of ece391_strrev, at most `rounds` times
unfoldable ece391_swap : ℕ → ℕ → ℕ → (ℕ → ℕ) → ℕ → ℕ
ece391_swap zero beg end s = s
ece391_swap (suc rounds) beg end s =
    let rest = ece391_swap rounds (beg + 1) (end - 1) (update (update s end (s beg)) beg (s end)) in
    if ltb beg end then rest else s

-- ece391_strrev; none when no NUL is in the `size` bytes of the buffer
unfoldable ece391_strrev : ℕ → (ℕ → ℕ) → Option (ℕ → ℕ)
ece391_strrev size s = elim (ece391_strlen (elements s size 0)) [
  | none ↦ none
  | some len ↦ some (if leb len 1 then s else ece391_swap len 0 (len - 1) s)
]

-- the loop of ece391_itoa with `newbuf` at offset `i`: the buffer and the offset behind the digits
unfoldable ece391_digits : ℕ → ℕ → ℕ → (ℕ → ℕ) → ℕ → Option ((ℕ → ℕ) × ℕ)
ece391_digits zero newval radix buf i = if ltb 0 newval then none else some (buf, i)
ece391_digits (suc rounds) newval radix buf i =
    let rest =
      ece391_digits rounds (newval / radix) radix (update buf i (lookup (newval % radix)))
        (i + 1) in
    if ltb 0 newval then rest else some (buf, i)

-- ece391_itoa; a `uint32_t` has at most 32 digits to any radix
unfoldable ece391_itoa : ℕ → ℕ → (ℕ → ℕ) → ℕ → Option (ℕ → ℕ)
ece391_itoa size value buf radix =
    if value == 0
    then some (update (update buf 0 48) 1 0)
    else elim (ece391_digits 32 value radix buf 0) [
      | none ↦ none
      | some (digits, end) ↦ ece391_strrev size (update digits end 0)
    ]

-- the test of the line that was typed, of `n` characters
abbrev pub wrong_choice : ℕ → List ℕ → Bool
wrong_choice n buf =
    ltb 2 n || ((n == 2) && (ltb (get_or buf 0 0) b'0' || ltb b'2' (get_or buf 0 0)))

-- the switch; `max` is 0 before it
abbrev pub max_for : ℕ → ℕ
max_for c = if c == b'0' then 100 else if c == b'1' then 10000 else if c == b'2' then 100000 else 0

module _ {W : Type 0} (sys : Calls W) where
  -- the body of the loop: a number and a line break
  unfoldable put_number : W → (ℕ → ℕ) → Option W
  put_number w text = elim (ece391_fdputs sys w (pos 1) (elements text 1024 0)) [
    | none ↦ none
    | some w₁ ↦ ece391_fdputs sys w₁ (pos 1) (literal "\n")
  ]

  -- the loop, with `rounds` = max - i
  unfoldable count_loop : ℕ → ℕ → W → (ℕ → ℕ) → Ends W
  count_loop zero i w buf = exits 0 w
  count_loop (suc rounds) i w buf = elim (ece391_itoa 1024 (i + 1) buf 10) [
    | none ↦ faults
    | some text ↦ elim (put_number w text) [
      | none ↦ faults
      | some w₁ ↦ count_loop rounds (i + 1) w₁ text
    ]
  ]

  -- main of ece391counter.c behind the read; below -1 it would write behind the array
  unfoldable counter_choice : W → ℤ → List ℕ → Ends W
  counter_choice w (negsuc zero) buf = complain sys w "Can't read the number from keyboard.\n" 3
  counter_choice w (negsuc (suc n)) buf = faults
  counter_choice w (pos cnt) buf =
      let buf' = set buf cnt 0 in
      elim (ece391_strlen buf') [
        | none ↦ faults
        | some n ↦
            let counts = count_loop (max_for (get_or buf' 0 0)) 0 w (λ i. get_or buf' i 0) in
            if wrong_choice n buf' then complain sys w "Wrong Choice!\n" 0 else counts
      ]

  -- main of ece391counter.c
  pub counter : W → List ℕ → Ends W
  counter w buf =
      elim (ece391_fdputs sys w (pos 1)
        (literal "Enter the Test Number: (0): 100, (1): 10000, (2): 100000\n")) [
          | none ↦ faults
          | some w₁ ↦ elim (sys.ece391_read w₁ (pos 0) buf 1023) [
            | none ↦ faults
            | some (cnt, buf', w₂) ↦ counter_choice w₂ cnt buf'
          ]
        ]
