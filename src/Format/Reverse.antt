-- ===== src/Format/Reverse.antt =====
-- strrev of student-distrib/lib.c.
use snoop_diggity_d_os.Prelude.{
  ℕ, zero, suc, ◌+◌, ◌-◌, ◌*◌, ◌<◌, ◌≡◌, ◌≢◌, refl, ◌∙◌, some, ltb, ltb→lt, leb, ◌==◌, ◌&&◌,
  if◌then◌else◌, update, elements, arith, Bool-cases, inl, inr, true, false,
}
use snoop_diggity_d_os.Strings.{strlen}
use snoop_diggity_d_os.Format.{swap_loop, strrev}

module _ (s : ℕ → ℕ) (beg end j : ℕ) (more : beg < end) where
  abbrev swapped : ℕ → ℕ
  swapped = update (update s end (s beg)) beg (s end)

  swap_step :
      (if leb (beg + 1) j && leb j (end - 1) then swapped (beg + 1 + (end - 1) - j) else swapped j)
      ≡ (if leb beg j && leb j end then s (beg + end - j) else s j)
  swap_step = elim (Bool-cases (j == beg)) [
    | inl first ↦
        let out : (leb (beg + 1) j && leb j (end - 1)) ≡ false = ground arith in
        let within : (leb beg j && leb j end) ≡ true = ground arith in
        let other : beg + end - j ≡ end = ground arith in rw (out, within, first, other) refl
    | inr later ↦ elim (Bool-cases (j == end)) [
      | inl last ↦
          let out : (leb (beg + 1) j && leb j (end - 1)) ≡ false = ground arith in
          let within : (leb beg j && leb j end) ≡ true = ground arith in
          let other : beg + end - j ≡ beg = ground arith in
          rw (out, within, later, last, other) refl
      | inr earlier ↦ elim (Bool-cases (leb beg j && leb j end)) [
        | inl within ↦
            let inner : (leb (beg + 1) j && leb j (end - 1)) ≡ true = ground arith in
            let same : beg + 1 + (end - 1) - j ≡ beg + end - j = ground arith in
            let not_first : (beg + end - j == beg) ≡ false = ground arith in
            let not_last : (beg + end - j == end) ≡ false = ground arith in
            rw (inner, within, same, not_first, not_last) refl
        | inr outside ↦
            let out : (leb (beg + 1) j && leb j (end - 1)) ≡ false = ground arith in
            rw (out, outside, later, earlier) refl
      ]
    ]
  ]

swap_loop-at :
    (rounds beg end : ℕ) (s : ℕ → ℕ) (j : ℕ)
    → end < beg + 2 * rounds + 1
    → swap_loop rounds beg end s j ≡ (if leb beg j && leb j end then s (beg + end - j) else s j)
unfolding swap_loop
swap_loop-at zero beg end s j h = elim (Bool-cases (leb beg j && leb j end)) [
  | inl inside ↦ (let e : beg + end - j ≡ j = ground arith in rw (inside, e) refl)
  | inr outside ↦ rw outside refl
]
swap_loop-at (suc rounds) beg end s j h =
    let rest =
      swap_loop-at rounds (beg + 1) (end - 1) (update (update s end (s beg)) beg (s end)) j in
    elim (Bool-cases (ltb beg end)) [
      | inl more ↦ rw more (rest (ground arith) ∙ swap_step s beg end j (ltb→lt beg end more))
      | inr done ↦ elim (Bool-cases (leb beg j && leb j end)) [
        | inl inside ↦ (let e : beg + end - j ≡ j = ground arith in rw (done, inside, e) refl)
        | inr outside ↦ rw (done, outside) refl
      ]
    ]

-- strlen of an array, by the offset of its first NUL
pub strlen-elements :
    (s : ℕ → ℕ) (size i n : ℕ)
    → n < size
    → ((m : ℕ) → m < n → s (i + m) ≢ 0)
    → s (i + n) ≡ 0
    → strlen (elements s size i) ≡ some n
unfolding strlen
strlen-elements s zero i n small some_chars nul = absurd (omega arith)
strlen-elements s (suc size) i zero small some_chars nul =
    (let z : (s i == 0) ≡ true = ground arith in rw z refl)
strlen-elements s (suc size) i (suc n) small some_chars nul =
    let first : i + 0 ≡ i = omega arith in
    let nz : (s i == 0) ≡ false = ground (arith, rw first at (some_chars 0 (omega arith))) in
    let next : (m : ℕ) → m < n → s (i + 1 + m) ≢ 0 = λ m h.
      (let e : i + suc m ≡ i + 1 + m = omega arith in rw e at (some_chars (suc m) (omega arith))) in
    let end : i + suc n ≡ i + 1 + n = omega arith in
    let rest = strlen-elements s size (i + 1) n (omega arith) next (rw end at nul) in
    rw (nz, rest) refl

-- strrev of a string of `n` characters in a buffer of `size` bytes puts them in the opposite order and leaves
-- the NUL and the bytes behind it.
pub strrev-at :
    (size n : ℕ) (s : ℕ → ℕ)
    → n < size
    → ((m : ℕ) → m < n → s m ≢ 0)
    → s n ≡ 0
    → (r : ℕ → ℕ) × (strrev size s ≡ some r)
      × ((j : ℕ) → r j ≡ (if ltb j n then s (n - 1 - j) else s j))
unfolding strrev
strrev-at size n s small some_chars nul =
    let len =
      strlen-elements s size 0 n small
        (λ m h. (let e : 0 + m ≡ m = omega arith in rw e (some_chars m h)))
        (let e : 0 + n ≡ n = omega arith in rw e nul) in
    (
      swap_loop n 0 (n - 1) s,
      rw (strrev, len) refl,
      λ j.
          swap_loop-at n 0 (n - 1) s j (omega arith)
          ∙ elim (Bool-cases (ltb j n)) [ inl low ↦ ground arith | inr high ↦ ground arith ],
    )
