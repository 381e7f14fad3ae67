-- ===== src/Screen/Pages.antt =====
-- The clearing of the screen and of the backing pages of the terminals in student-distrib/lib.c.
use mathlib.Core.Path.{fun_ext}
use snoop_diggity_d_os.Prelude.{
  ℕ, ◌+◌, ◌*◌, ◌<◌, ◌≡◌, ◌∙◌, refl, ap, ◌&&◌, leb, ◌==◌, if◌then◌else◌, arith,
}
use snoop_diggity_d_os.Prelude.Tables.{for_range}
use snoop_diggity_d_os.Screen.{
  Screen, put_cell, empty_space, initialize_video_memory, clear_video_and_backing_stores,
}
use snoop_diggity_d_os.Screen.Scroll.{blank, blank_loop}

unshifted :
    (attribute n i : ℕ) (mem : ℕ → ℕ)
    → for_range n i (λ i mem. put_cell mem i empty_space attribute) mem
      ≡ for_range n i (λ i mem. put_cell mem (i + 0) empty_space attribute) mem
unshifted attribute n i mem =
    ap (λ (at : ℕ → ℕ). for_range n i (λ i mem. put_cell mem (at i) empty_space attribute) mem)
      (fun_ext (λ i. omega arith))

-- The backing pages lie behind the shown page, 4 KB each, and each holds the 4000 bytes of a screen.
-- initialize_video_memory blanks the shown page, 0, and the pages of the first two terminals, 1 and
-- 2, but leaves the last 288 bytes of the page of the third one, 3, since it goes on from one page to
-- the next after 4000 bytes; and it sets the cursor to the start.
pub initialize_video_memory-page :
    (s : Screen) (page k : ℕ)
    → page < 4
    → k < 4000
    → ((initialize_video_memory s).mem (4096 * page + k) ≡ (
        if page == 3 && leb 3712 k
        then s.mem (4096 * page + k)
        else blank s.attribute (4096 * page + k)))
      × ((initialize_video_memory s).x ≡ 0)
      × ((initialize_video_memory s).y ≡ 0)
unfolding initialize_video_memory clear_video_and_backing_stores
initialize_video_memory-page s page k hp hk = (
  ap (λ (mem : ℕ → ℕ). mem (4096 * page + k)) (unshifted s.attribute 8000 0 s.mem)
      ∙ blank_loop s.attribute 0 8000 0 s.mem (4096 * page + k)
      ∙ ground arith,
  refl,
  refl,
)
