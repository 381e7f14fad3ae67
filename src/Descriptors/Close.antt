-- ===== src/Descriptors/Close.antt =====
-- close on the fd_array of a process (student-distrib/syscalls.c).
use mathlib.Core.Path.{subst}
use snoop_diggity_d_os.Prelude.{
  ◌⊎◌, ℕ, ◌<◌, ◌≤◌, ◌≡◌, ◌≢◌, refl, sym, true, false, ◌&&◌, ltb, leb, ◌==◌, update, ℤ, pos, negsuc,
  arith, Bool-cases, inl, inr,
}
use snoop_diggity_d_os.Fs.{Outcome, ok, fails, fault}
use snoop_diggity_d_os.Descriptors.{Fops, no_table, FileInfo, close}
use snoop_diggity_d_os.Descriptors.Valid.{IsValid, call_through-has_table, IsValid-update}

-- What close makes of a valid array for a descriptor of its index or above, for each of its results.
abbrev pub ClosesAt : (ℕ → FileInfo) → ℕ → Outcome ((ℕ → FileInfo) × Fops) → Type 0
ClosesAt files fd (ok (after, calls)) =
    (2 ≤ fd)
    × (fd < 8)
    × ((files fd).flags ≢ 0)
    × (calls ≡ (files fd).fops_jmp_table)
    × ((after fd).flags ≡ 0)
    × ((j : ℕ) → j ≢ fd → after j ≡ files j)
    × IsValid after
ClosesAt files fd fails = (fd < 2) ⊎ ((8 ≤ fd) ⊎ ((files fd).flags ≡ 0))
ClosesAt files fd fault = ⊥

-- What close makes of a valid array, for every `int`: a negative descriptor is refused.
abbrev pub Closes : (ℕ → FileInfo) → ℤ → Outcome ((ℕ → FileInfo) × Fops) → Type 0
Closes files (pos fd) r = ClosesAt files fd r
Closes files (negsuc n) r = r ≡ fails

close-negative : (files : ℕ → FileInfo) → (n : ℕ) → close files (negsuc n) ≡ fails
unfolding close
close-negative files n = refl

close-out :
    (files : ℕ → FileInfo)
    → (fd : ℕ) → (leb 2 fd && ltb fd 8) ≡ false
    → close files (pos fd) ≡ fails
unfolding close
close-out files fd h = rw (h, close)

close-flags :
    (files : ℕ → FileInfo)
    → (fd : ℕ) → (leb 2 fd && ltb fd 8) ≡ true
    → ((files fd).flags == 0) ≡ true
    → close files (pos fd) ≡ fails
unfolding close
close-flags files fd within closed = rw (within, closed, close)

abbrev closed_fd : (ℕ → FileInfo) → ℕ → (ℕ → FileInfo) × Fops
closed_fd files fd = (update files fd (record (files fd) { flags = 0 }), (files fd).fops_jmp_table)

close-call :
    (files : ℕ → FileInfo)
    → (fd : ℕ) → (leb 2 fd && ltb fd 8) ≡ true
    → ((files fd).flags == 0) ≡ false
    → (files fd).fops_jmp_table ≢ no_table
    → close files (pos fd) ≡ ok (closed_fd files fd)
unfolding close
close-call files fd within opened has_table =
    rw (within, opened, close) (call_through-has_table (files fd).fops_jmp_table _ has_table)

close-ClosesAt :
    (files : ℕ → FileInfo) → (fd : ℕ) → IsValid files → ClosesAt files fd (close files (pos fd))
close-ClosesAt files fd v = elim (Bool-cases (leb 2 fd && ltb fd 8)) [
  | inr out ↦ subst (ClosesAt files fd) (sym (close-out files fd out)) (ground arith)
  | inl within ↦ elim (Bool-cases ((files fd).flags == 0)) [
    | inl closed ↦
        subst (ClosesAt files fd) (sym (close-flags files fd within closed)) (ground arith)
    | inr opened ↦
        (let flags : (files fd).flags ≢ 0 = ground arith in
          let low : 2 ≤ fd = ground arith in
          let high : fd < 8 = ground arith in
          let frame : (j : ℕ) → j ≢ fd → (closed_fd files fd).0 j ≡ files j = λ j n. ground arith in
          subst (ClosesAt files fd)
            (sym (close-call files fd within opened (v.tables fd high flags)))
            (
              low,
              high,
              flags,
              refl,
              ground arith,
              frame,
              IsValid-update files fd _ low (λ f. absurd (f refl)) v,
            ))
  ]
]

-- On a valid array and for any `int` close never calls through NULL. It fails only for a negative
-- descriptor, which it always refuses, stdin, stdout, an index past the array or a descriptor without
-- flags; otherwise it clears the flags of the descriptor, calls the close function of its table,
-- changes no other descriptor and leaves a valid array.
pub close-Closes :
    (files : ℕ → FileInfo) → (fd : ℤ) → IsValid files → Closes files fd (close files fd)
close-Closes files (pos fd) v = close-ClosesAt files fd v
close-Closes files (negsuc n) v = close-negative files n
