-- ===== src/User/Counter/Counts.antt =====
-- The loop of the counter (syscalls/ece391counter.c) on the kernel's calls: what it shows.
use mathlib.Core.List.{append-nil, append_assoc}
use snoop_diggity_d_os.Prelude.{
  ℕ, zero, suc, ◌+◌, ◌^◌, ◌<◌, ◌≤◌, ◌≡◌, ◌≢◌, refl, sym, ◌∙◌, ap, List, [], ◌∷◌, ◌++◌, some, pos,
  ◌==◌, true, false, elements, arith,
}
use snoop_diggity_d_os.Strings.{c_string}
use snoop_diggity_d_os.Format.Digits.{IsNumeral, itoa-IsNumeral, lookup_positive, digit_of}
use snoop_diggity_d_os.Fs.{Image}
use snoop_diggity_d_os.Descriptors.{terminal_table, in_use, outside_user}
use snoop_diggity_d_os.User.{exits, ece391_strlen, ece391_fdputs, literal}
use snoop_diggity_d_os.User.Kernel.{Drivers, Process, kernel}
use snoop_diggity_d_os.User.Access.{sys_write-stdout}
use snoop_diggity_d_os.User.Counter.{ece391_itoa, put_number, count_loop}
use snoop_diggity_d_os.User.Counter.Numbers.{ece391_itoa-itoa}

-- A text that counts: `k` lines, with the decimal numerals of the numbers behind `i` in order.
unfoldable pub IsCount : ℕ → ℕ → List ℕ → Type 0
IsCount zero i text = text ≡ []
IsCount (suc k) i text =
    (r : ℕ → ℕ) × (n : ℕ) × (rest : List ℕ) × IsNumeral 10 r n (i + 1)
    × (text ≡ elements r n 0 ++ (b'\n' ∷ rest))
    × IsCount k (i + 1) rest

-- The process can write on its terminal.
pub record HasStdout (p : Process) : Type 0 where
  pub page : outside_user p.place ≡ false
  pub stdout : (p.files 1).fops_jmp_table ≡ terminal_table
  pub stdout_used : in_use (p.files 1) ≡ true

ece391_strlen-elements :
    (k size i : ℕ) (r : ℕ → ℕ)
    → ((j : ℕ) → i ≤ j → j < i + k → r j ≢ 0)
    → r (i + k) ≡ 0
    → k < size
    → (ece391_strlen (elements r size i) ≡ some k)
      × (c_string k (elements r size i) ≡ elements r k i)
unfolding ece391_strlen
ece391_strlen-elements k zero i r text ends room = absurd (omega arith)
ece391_strlen-elements zero (suc size) i r text ends room =
    let origin : i + 0 ≡ i = omega arith in let here = rw origin at ends in (rw here refl, refl)
ece391_strlen-elements (suc k) (suc size) i r text ends room =
    let here = text i (omega arith) (omega arith) in
    let some_byte : (r i == 0) ≡ false = ground (arith, here) in
    let step : i + suc k ≡ i + 1 + k = omega arith in
    let (len, copy) =
      ece391_strlen-elements k size (i + 1) r (λ j low high. text j (omega arith) (omega arith))
        (rw step at ends) (omega arith) in
    (rw (some_byte, len) refl, rw some_byte (ap (λ l. r i ∷ l) copy))

numeral-text : (r : ℕ → ℕ) (n v m : ℕ) → IsNumeral 10 r n v → m < n → r m ≢ 0
numeral-text r n v m d h e = lookup_positive (digit_of (r m)) (sym (d.digits m h).0 ∙ e)

-- ece391_fdputs of a program with a terminal
pub fdputs-stdout :
    (img : Image) (base : ℕ) (drivers : Drivers) (n : ℕ) (text : List ℕ) (p : Process)
    → HasStdout p
    → ece391_strlen text ≡ some n
    → ece391_fdputs (kernel img base drivers) p (pos 1) text
      ≡ some (record p { shown = p.shown ++ c_string n text })
unfolding ece391_fdputs
fdputs-stdout img base drivers n text p v len =
    rw
      (len, ece391_fdputs, sys_write-stdout img base drivers n text p v.page v.stdout_used v.stdout)
      refl

break-strlen : ece391_strlen (literal "\n") ≡ some 1
unfolding ece391_strlen
break-strlen = refl

pub HasStdout-shown :
    (p : Process) (shown : List ℕ) → HasStdout p → HasStdout (record p { shown = shown })
HasStdout-shown p shown v = record { page = v.page; stdout = v.stdout; stdout_used = v.stdout_used }

-- the process after a number and a line break
abbrev after_number : (ℕ → ℕ) → ℕ → Process → Process
after_number r n p = record p { shown = p.shown ++ elements r n 0 ++ (b'\n' ∷ []) }

put_number-shows :
    (img : Image) (base : ℕ) (drivers : Drivers) (r : ℕ → ℕ) (n v : ℕ) (p : Process)
    → HasStdout p
    → IsNumeral 10 r n v
    → n ≤ 32
    → put_number (kernel img base drivers) p r ≡ some (after_number r n p)
unfolding put_number
put_number-shows img base drivers r n v p out d fits =
    let origin : 0 + n ≡ n = omega arith in
    let (len, copy) =
      ece391_strlen-elements n 1024 0 r (λ j low high. numeral-text r n v j d (omega arith))
        (rw origin d.ends) (omega arith) in
    let number = fdputs-stdout img base drivers n (elements r 1024 0) p out len in
    let p₁ = record p { shown = p.shown ++ elements r n 0 } in
    let ends =
      fdputs-stdout img base drivers 1 (literal "\n") p₁ (HasStdout-shown p p₁.shown out)
        break-strlen in
    rw (number, put_number, copy, ends) refl

ece391_itoa-IsNumeral :
    (v : ℕ) (buf : ℕ → ℕ)
    → v < 2 ^ 32
    → (r : ℕ → ℕ) × (n : ℕ) × (ece391_itoa 1024 v buf 10 ≡ some r) × (n ≤ 32) × IsNumeral 10 r n v
ece391_itoa-IsNumeral v buf small =
    let (r, n, run, fits, d) =
      itoa-IsNumeral 1024 v 10 buf (omega arith) (omega arith) small (omega arith) in
    (r, n, ece391_itoa-itoa 1024 v buf 10 ∙ run, fits, d)

-- The loop shows a text that counts, and ends.
unfoldable pub CountEnds : Image → ℕ → Drivers → ℕ → ℕ → (ℕ → ℕ) → Process → Type 0
CountEnds img base drivers rounds i buf p =
    (p' : Process) × (text : List ℕ) × (count_loop (kernel img base drivers) rounds i p buf
      ≡ exits 0 p')
    × (p'.shown ≡ p.shown ++ text)
    × IsCount rounds i text

pub count_loop-CountEnds :
    (img : Image) (base : ℕ) (drivers : Drivers) (rounds i : ℕ) (buf : ℕ → ℕ) (p : Process)
    → HasStdout p
    → i + rounds < 2 ^ 32
    → CountEnds img base drivers rounds i buf p
unfolding CountEnds count_loop IsCount
count_loop-CountEnds img base drivers zero i buf p v small =
    (p, [], refl, sym (append-nil p.shown), refl)
count_loop-CountEnds img base drivers (suc rounds) i buf p v small =
    let (r, n, run, fits, d) = ece391_itoa-IsNumeral (i + 1) buf (omega arith) in
    let p₁ = after_number r n p in
    let puts = put_number-shows img base drivers r n (i + 1) p v d fits in
    let (p', rest, loops, shows, counts) =
      count_loop-CountEnds img base drivers rounds (i + 1) r p₁ (HasStdout-shown p p₁.shown v)
        (omega arith) in
    (
      p',
      elements r n 0 ++ (b'\n' ∷ rest),
      rw (run, count_loop, puts) loops,
      shows
          ∙ append_assoc (p.shown ++ elements r n 0) (b'\n' ∷ []) rest
          ∙ append_assoc p.shown (elements r n 0) (b'\n' ∷ rest),
      (r, n, rest, d, refl, counts),
    )
