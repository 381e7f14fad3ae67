-- ===== src/Execute/Command.antt =====
-- How internal_execute of student-distrib/syscalls.c splits a command into a name and an argument.
use snoop_diggity_d_os.Prelude.{
  ℕ, ◌+◌, ◌<◌, ◌≡◌, ◌≢◌, refl, ap, List, [], ◌∷◌, ◌++◌, Option, none, some, false, ◌==◌,
  if◌then◌else◌, arith, Bool-cases, inl, inr, length, length-append, get_or, set, drop,
}
use mathlib.Core.List.{append_assoc}
use snoop_diggity_d_os.Strings.Copy.{IsTerminated, chars, strcpy-chars}
use snoop_diggity_d_os.Execute.{Split, pointed, split_loop, split_command}

-- The name in a command, up to its first space, and the argument, what follows that space.
abbrev pub name_of : List ℕ → List ℕ
name_of [] = []
name_of (c ∷ w) = if c == 32 then [] else c ∷ name_of w

abbrev pub argument_of : List ℕ → List ℕ
argument_of [] = []
argument_of (c ∷ w) = if c == 32 then w else argument_of w

-- the array after the loop, the index in `argstring`, and the bytes there
abbrev marked : List ℕ → List ℕ → List ℕ
marked [] rest = rest
marked (c ∷ w) rest = if c == 32 then 0 ∷ (w ++ rest) else c ∷ marked w rest

abbrev index_of : ℕ → List ℕ → Option ℕ → Option ℕ
index_of i [] argstring = argstring
index_of i (c ∷ w) argstring = if c == 32 then some (i + 1) else index_of (i + 1) w (some (i + 1))

abbrev pointed_at : List ℕ → List ℕ → List ℕ
pointed_at [] rest = rest
pointed_at (c ∷ w) rest = if c == 32 then w ++ rest else pointed_at w rest

module _ (c : ℕ) (after : List ℕ) where
  middle-get_or : (before : List ℕ) → get_or (before ++ (c ∷ after)) (length before) 0 ≡ c
  middle-get_or [] = refl
  middle-get_or (x ∷ before) = middle-get_or before

  middle-set :
      (before : List ℕ) (v : ℕ)
      → set (before ++ (c ∷ after)) (length before) v ≡ before ++ (v ∷ after)
  middle-set [] v = refl
  middle-set (x ∷ before) v = ap (x ∷◌) (middle-set before v)

drop-before : (before after : List ℕ) → drop (length before) (before ++ after) ≡ after
drop-before [] after = refl
drop-before (x ∷ before) after = drop-before before after

snoc_length : (before : List ℕ) (c : ℕ) → length (before ++ (c ∷ [])) ≡ length before + 1
snoc_length before c = length-append before (c ∷ [])

split_loop-marked :
    (w before rest : List ℕ) (argstring : Option ℕ)
    → split_loop (length w) (length before) (before ++ (w ++ rest)) argstring
      ≡ (before ++ marked w rest, index_of (length before) w argstring)
unfolding split_loop
split_loop-marked [] before rest argstring = refl
split_loop-marked (c ∷ w) before rest argstring = elim (Bool-cases (c == 32)) [
  | inl space ↦
      rw (middle-get_or c (w ++ rest) before, space, middle-set c (w ++ rest) before 0) refl
  | inr other ↦
      let next = split_loop-marked w (before ++ (c ∷ [])) rest (some (length before + 1)) in
      let next' =
        rw
          (
            snoc_length before c,
            append_assoc before (c ∷ []) (w ++ rest),
            append_assoc before (c ∷ []) (marked w rest),
          )
          at next in
      rw (middle-get_or c (w ++ rest) before, other) next'
]

-- what the index points at
index_of-drop :
    (w before rest : List ℕ)
    → (k : ℕ) × (index_of (length before) w (some (length before)) ≡ some k)
      × (drop k (before ++ marked w rest) ≡ pointed_at w rest)
index_of-drop [] before rest = (length before, refl, drop-before before rest)
index_of-drop (c ∷ w) before rest = elim (Bool-cases (c == 32)) [
  | inl space ↦
      let ahead = drop-before (before ++ (0 ∷ [])) (w ++ rest) in
      let ahead' = rw (snoc_length before 0, append_assoc before (0 ∷ []) (w ++ rest)) at ahead in
      (length before + 1, rw space refl, rw space ahead')
  | inr other ↦
      let (k, found, there) = index_of-drop w (before ++ (c ∷ [])) rest in
      (
        k,
        rw other (rw (snoc_length before c) at found),
        rw other (rw (append_assoc before (c ∷ []) (marked w rest)) at there),
      )
]

-- No NUL is among the characters.
abbrev IsText : List ℕ → Type 0
IsText [] = Unit
IsText (c ∷ w) = (c ≢ 0) × IsText w

chars-IsText : (s : List ℕ) → IsText (chars s)
chars-IsText [] = _
chars-IsText (c ∷ s) = elim (Bool-cases (c == 0)) [
  | inl z ↦ rw z _
  | inr nz ↦ rw nz ((λ e. absurd (ground arith)), chars-IsText s)
]

chars-append : (w after : List ℕ) → IsText w → chars (w ++ (0 ∷ after)) ≡ w
chars-append [] after t = refl
chars-append (c ∷ w) after t =
    (let nz : (c == 0) ≡ false = ground (arith, t.0) in
      rw nz (ap (c ∷◌) (chars-append w after t.1)))

chars-marked : (w after : List ℕ) → IsText w → chars (marked w (0 ∷ after)) ≡ name_of w
chars-marked [] after t = refl
chars-marked (c ∷ w) after t = elim (Bool-cases (c == 32)) [
  | inl space ↦ rw space refl
  | inr other ↦
      (let nz : (c == 0) ≡ false = ground (arith, t.0) in
        rw (other, nz) (ap (c ∷◌) (chars-marked w after t.1)))
]

chars-pointed_at : (w after : List ℕ) → IsText w → chars (pointed_at w (0 ∷ after)) ≡ argument_of w
chars-pointed_at [] after t = refl
chars-pointed_at (c ∷ w) after t = elim (Bool-cases (c == 32)) [
  | inl space ↦ rw space (chars-append w after t.1)
  | inr other ↦ rw other (chars-pointed_at w after t.1)
]

-- What `argstring` points at: nothing when the command is empty, else the argument.
abbrev pub IsArgument : List ℕ → Option (List ℕ) → Type 0
IsArgument [] argstring = argstring ≡ none
IsArgument (c ∷ w) argstring =
    (bytes : List ℕ) × (argstring ≡ some bytes) × (chars bytes ≡ argument_of (c ∷ w))

pointed-IsArgument :
    (w after : List ℕ)
    → IsText w
    → IsArgument w (pointed (marked w (0 ∷ after)) (index_of 0 w none))
pointed-IsArgument [] after t = refl
pointed-IsArgument (c ∷ w) after t =
    let (k, found, there) = index_of-drop (c ∷ w) [] (0 ∷ after) in
    (pointed_at (c ∷ w) (0 ∷ after), rw found (ap some there), chars-pointed_at (c ∷ w) after t)

-- A command that is a string shorter than the array `commandstring` is split at its first space: the array
-- holds the name, the characters before the space, as a string, and `argstring` points at a
-- string of the characters behind it, which is empty when there is no space; for an empty command it is NULL.
pub split_command-IsArgument :
    (commandstring command : List ℕ)
    → IsTerminated command
    → length (chars command) < length commandstring
    → (split : Split) × (split_command commandstring command (length (chars command)) ≡ some split)
      × (chars split.commandstring ≡ name_of (chars command))
      × IsArgument (chars command) split.argstring
unfolding split_command
split_command-IsArgument commandstring command t fits =
    let w = chars command in
    let after = drop (length w + 1) commandstring in
    let copied = strcpy-chars commandstring command t fits in
    let loop = split_loop-marked w [] (0 ∷ after) none in
    (
      record {
        commandstring = marked w (0 ∷ after);
        argstring = pointed (marked w (0 ∷ after)) (index_of 0 w none);
      },
      rw (split_command, copied, loop) refl,
      chars-marked w after (chars-IsText command),
      pointed-IsArgument w after (chars-IsText command),
    )
