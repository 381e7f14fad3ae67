-- ===== src/Strings.antt =====
-- The string functions of student-distrib/lib.c. A C array is the list of its bytes from the
-- pointer on; `none` is an access past the end of the array. The pointer that strcpy and strncpy
-- return is their first argument and is left out.
pub mod Compare
pub mod Copy
use mathlib.Core.Option
use snoop_diggity_d_os.Prelude.{
  ℕ, zero, suc, ◌+◌, ◌%◌, List, [], ◌∷◌, Option, none, some, ℤ, pos, sub_ℕ, ◌==◌, if◌then◌else◌,
  ◌&&◌, not,
}

-- strlen
unfoldable pub strlen : List ℕ → Option ℕ
strlen [] = none
strlen (c ∷ s) = let rest = strlen s in if c == 0 then some 0 else Option.map suc rest

-- The difference of two `int8_t` characters; the bias makes both sides unsigned.
unfoldable pub char_diff : ℕ → ℕ → ℤ
char_diff a b = sub_ℕ ((a + 128) % 256) ((b + 128) % 256)

-- strncmp
unfoldable pub strncmp : List ℕ → List ℕ → ℕ → Option ℤ
strncmp s₁ s₂ zero = some (pos 0)
strncmp [] s₂ (suc n) = none
strncmp (a ∷ s₁) [] (suc n) = none
strncmp (a ∷ s₁) (b ∷ s₂) (suc n) =
    let rest = strncmp s₁ s₂ n in
    if not (a == b) then some (char_diff a b) else (if a == 0 then some (char_diff a b) else rest)

-- strcpy: the new contents of `dest`
unfoldable pub strcpy : List ℕ → List ℕ → Option (List ℕ)
strcpy dest [] = none
strcpy [] (c ∷ s) = none
strcpy (x ∷ d) (c ∷ s) =
    let rest = strcpy d s in if c == 0 then some (0 ∷ d) else Option.map (◌∷◌ c) rest

-- the second loop of strncpy
unfoldable pub pad : List ℕ → ℕ → Option (List ℕ)
pad dest zero = some dest
pad [] (suc n) = none
pad (x ∷ d) (suc n) = Option.map (◌∷◌ 0) (pad d n)

-- strncpy: the new contents of `dest`. `src[i]` is read before `i < n` is tested.
unfoldable pub strncpy : List ℕ → List ℕ → ℕ → Option (List ℕ)
strncpy dest [] n = none
strncpy dest (c ∷ s) zero = some dest
strncpy [] (c ∷ s) (suc n) = if c == 0 then pad [] (suc n) else none
strncpy (x ∷ d) (c ∷ s) (suc n) =
    let rest = strncpy d s n in if c == 0 then pad (x ∷ d) (suc n) else Option.map (◌∷◌ c) rest

-- What a string means to these functions: its bytes before the first NUL, at most `n` of them.
abbrev pub c_string : ℕ → List ℕ → List ℕ
c_string zero s = []
c_string (suc n) [] = []
c_string (suc n) (c ∷ s) = if c == 0 then [] else c ∷ c_string n s
