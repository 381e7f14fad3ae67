-- ===== src/Terminals/Keys/Keeps.antt =====
-- What the output functions of student-distrib/devices/keyboard.c leave alone, and that they come to
-- an end.
use snoop_diggity_d_os.Prelude.{
  elements, ℕ, zero, suc, ◌+◌, ◌<◌, ◌≤◌, ◌≡◌, refl, ◌∙◌, List, [], ◌∷◌, ◌++◌, some, ◌==◌, arith,
  Bool-cases, inl, inr, pos, true, false, Bool, ◌||◌,
}
use snoop_diggity_d_os.Strings.{strlen}
use snoop_diggity_d_os.Strings.Compare.{IsReadable, tail_IsReadable}
use snoop_diggity_d_os.Strings.Copy.{IsTerminated, tail_IsTerminated}
use snoop_diggity_d_os.Screen.{Screen, put_t, set_cursor_location, putc_screen}
use snoop_diggity_d_os.Pic.{PortWrite}
use snoop_diggity_d_os.Terminals.{
  State, Written, write_locked, write_terminal, page_offset, before_put, after_put,
}
use snoop_diggity_d_os.Terminals.Display.{IsValid}
use snoop_diggity_d_os.Terminals.Output.{print_text, print_string, shown_pid}

-- The state differs only in the screen, the cursors and the terminal that is serviced.
pub record Keeps (s s' : State) : Type 0 where
  pub shown : s'.terminal_state ≡ s.terminal_state
  pub tables : s'.tables ≡ s.tables
  pub owned : s'.owned_by_terminal ≡ s.owned_by_terminal
  pub pids : s'.pid_avail ≡ s.pid_avail
  pub lines : (t : ℕ) → (s'.terminals t).line ≡ (s.terminals t).line

pub Keeps-trans : (a b c : State) → Keeps a b → Keeps b c → Keeps a c
Keeps-trans a b c k l = record {
  shown = l.shown ∙ k.shown;
  tables = l.tables ∙ k.tables;
  owned = l.owned ∙ k.owned;
  pids = l.pids ∙ k.pids;
  lines = λ t. l.lines t ∙ k.lines t;
}

pub Keeps→IsValid : (s s' : State) → Keeps s s' → IsValid s → IsValid s'
Keeps→IsValid s s' k v = record {
  shown = rw k.shown v.shown;
  owned = rw k.owned v.owned;
  mapped = rw (k.tables, k.owned, k.pids, k.shown) v.mapped;
}

put_t-some :
    (p : Screen) (str : List ℕ) (size : ℕ)
    → IsReadable (suc size) str
    → (r : Screen × ℕ) × (put_t p str size ≡ some r)
unfolding put_t
put_t-some p [] size r = absurd r
put_t-some p (c ∷ str) zero r = ((p, 0), refl)
put_t-some p (c ∷ str) (suc size) r = elim (Bool-cases (c == 0)) [
  | inl z ↦ ((p, 0), rw z refl)
  | inr nz ↦
      let (q, run) =
        put_t-some (putc_screen p c) str size (tail_IsReadable (suc size) c str r nz) in
      ((q.0, q.1 + 1), rw (nz, run) refl)
]

write_locked-Keeps :
    (s : State) (pid n : ℕ) (buf : List ℕ)
    → IsReadable (suc n) buf
    → (r : State × List PortWrite) × (write_locked s pid buf n ≡ some r) × Keeps s r.0
unfolding write_locked
write_locked-Keeps s pid n buf readable =
    let offset = page_offset (s.tables pid) in
    let ((p, k), run) = put_t-some (before_put s offset) buf n readable in
    let s' = after_put s offset p in
    (
      (s', set_cursor_location s'.screen.x s'.screen.y),
      rw (run, write_locked) refl,
      record { shown = refl; tables = refl; owned = refl; pids = refl; lines = λ t. ground arith },
    )

pub write_terminal-Keeps :
    (s : State) (pid n : ℕ) (buf : List ℕ)
    → IsReadable (suc n) buf
    → (w : Written) × (write_terminal s pid (pos 1) buf (pos n) ≡ some w) × Keeps s w.state
unfolding write_terminal
write_terminal-Keeps s pid n buf readable =
    let (r, run, keeps) = write_locked-Keeps s pid n buf readable in
    (record { state = r.0; writes = r.1; ret = pos n }, rw (run, write_terminal) refl, keeps)

terminated_one : (c : ℕ) (s : List ℕ) → IsTerminated (c ∷ s) → IsReadable 2 (c ∷ s)
terminated_one c [] (inl z) = inl z
terminated_one c [] (inr t) = absurd t
terminated_one c (d ∷ s) t = inr (inr _)

pub print_text-Keeps :
    (s : State) (text : List ℕ)
    → IsTerminated text
    → (r : State × List PortWrite) × (print_text s text ≡ some r) × Keeps s r.0
unfolding print_text
print_text-Keeps s [] t = absurd t
print_text-Keeps s (c ∷ text) t = elim (Bool-cases (c == 0)) [
  | inl z ↦ (
    (s, []),
    rw z refl,
    record { shown = refl; tables = refl; owned = refl; pids = refl; lines = λ t. refl },
  )
  | inr nz ↦
      let (w, run, keeps) =
        write_terminal-Keeps s (shown_pid s) 1 (c ∷ text) (terminated_one c text t) in
      let (r, run', keeps') = print_text-Keeps w.state text (tail_IsTerminated c text t nz) in
      ((r.0, w.writes ++ r.1), rw (nz, run, run') refl, Keeps-trans s w.state r.0 keeps keeps')
]

abbrev has_nul : List ℕ → Bool
has_nul [] = false
has_nul (c ∷ s) = c == 0 || has_nul s

-- a text with a NUL in it
pub has_nul-IsTerminated : (s : List ℕ) → has_nul s ≡ true → IsTerminated s
has_nul-IsTerminated [] e = absurd (ground arith)
has_nul-IsTerminated (c ∷ s) e = elim (Bool-cases (c == 0)) [
  | inl z ↦ inl (ground arith)
  | inr nz ↦ inr (has_nul-IsTerminated s (ground arith))
]

strlen-IsReadable :
    (s : List ℕ) → IsTerminated s → (n : ℕ) × (strlen s ≡ some n) × IsReadable (suc n) s
unfolding strlen
strlen-IsReadable [] t = absurd t
strlen-IsReadable (c ∷ s) t = elim (Bool-cases (c == 0)) [
  | inl z ↦ (0, rw z refl, inl (ground arith))
  | inr nz ↦
      let (n, run, readable) = strlen-IsReadable s (tail_IsTerminated c s t nz) in
      (suc n, rw (nz, run) refl, inr readable)
]

pub print_string-Keeps :
    (s : State) (string : List ℕ)
    → IsTerminated string
    → (r : State × List PortWrite) × (print_string s string ≡ some r) × Keeps s r.0
unfolding print_string
print_string-Keeps s string t =
    let (n, count, readable) = strlen-IsReadable string t in
    let (w, run, keeps) = write_terminal-Keeps s (shown_pid s) n string readable in
    ((w.state, w.writes), rw (print_string, count, run) refl, keeps)

pub elements-IsTerminated :
    (stdin : ℕ → ℕ) (n i index : ℕ)
    → i ≤ index
    → index < i + n
    → stdin index ≡ 0
    → IsTerminated (elements stdin n i)
elements-IsTerminated stdin zero i index low high z = absurd (omega arith)
elements-IsTerminated stdin (suc n) i index low high z = elim (Bool-cases (i == index)) [
  | inl here ↦ inl (ground arith)
  | inr not_here ↦ inr (elements-IsTerminated stdin n (i + 1) index (ground arith) (omega arith) z)
]
