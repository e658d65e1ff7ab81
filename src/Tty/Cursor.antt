-- ===== src/Tty/Cursor.antt =====
-- The text cursor of the frame buffer stays on the screen.
use closure_os.Base.{
  ℕ, zero, suc, ◌+◌, ◌%◌, ◌^◌, ◌<◌, List, [], ◌∷◌, ◌==◌, ltb, leb, Bool-cases, inl, inr, arith,
  pick,
}
use closure_os.Tty.{
  put_space, tab_space_nr, Tty, Output, default, no_fb, no_com, for_each, boot_putchar_fb_new_line,
  boot_putchar_fb, boot_back_space_fb, boot_cursor_back_fb, boot_putchar_tab_fb, boot_putchar_com,
  boot_cursor_back, boot_back_space, boot_putchar_tab, boot_put_new_line, boot_put_glyph,
  boot_putchar, boot_printstr,
}

-- The cursor is on a screen of a size that 32 bits hold.
abbrev pub IsOnScreen : Tty → Type 0
IsOnScreen t =
    (t.fb_cursor_x < t.max_ch_nr_x)
    × (t.fb_cursor_y < t.max_ch_nr_y)
    × (t.max_ch_nr_x < 2 ^ 32)
    × (t.max_ch_nr_y < 2 ^ 32)

pub for_each-keeps :
    {A : Type 0} (P : A → Type 0) (body : ℕ → A → A)
    → ((i : ℕ) (a : A) → P a → P (body i a))
    → (rounds i : ℕ) (a : A) → P a
    → P (for_each rounds i body a)
for_each-keeps P body keep zero i a h = h
for_each-keeps P body keep (suc rounds) i a h =
    for_each-keeps P body keep rounds (i + 1) (body i a) (keep i a h)

abbrev pub IsBelow : Tty → Type 0
IsBelow t =
    (t.fb_cursor_y < t.max_ch_nr_y)
    × (0 < t.max_ch_nr_x)
    × (t.max_ch_nr_x < 2 ^ 32)
    × (t.max_ch_nr_y < 2 ^ 32)

pub new_line-IsOnScreen :
    (bg : ℕ) (t : Tty) → IsBelow t → IsOnScreen (boot_putchar_fb_new_line bg t)
unfolding boot_putchar_fb_new_line
new_line-IsOnScreen bg t (y, some_column, w, h) =
    elim (Bool-cases (leb t.max_ch_nr_y ((t.fb_cursor_y + 1) % 2 ^ 32))) [
      | inl last ↦ rw last (some_column, ground arith, w, h)
      | inr more ↦ rw more (some_column, ground arith, w, h)
    ]

pub putchar_fb-IsOnScreen :
    (ch fg bg : ℕ) (t : Tty) → IsOnScreen t → IsOnScreen (boot_putchar_fb ch fg bg t)
unfolding boot_putchar_fb
putchar_fb-IsOnScreen ch fg bg t (x, y, w, h) =
    elim (Bool-cases (leb t.max_ch_nr_x ((t.fb_cursor_x + 1) % 2 ^ 32))) [
      | inl last ↦ rw last (new_line-IsOnScreen bg _ (y, omega arith, w, h))
      | inr more ↦ rw more (ground arith, y, w, h)
    ]

pub back_space-IsOnScreen : (t : Tty) → IsOnScreen t → IsOnScreen (boot_back_space_fb t)
unfolding boot_back_space_fb
back_space-IsOnScreen t (x, y, w, h) = elim (Bool-cases (ltb 0 t.fb_cursor_x)) [
  | inl pos ↦ rw pos (omega arith, y, w, h)
  | inr at_start ↦ rw at_start (x, y, w, h)
]

tab-IsOnScreen : (t : Tty) → IsOnScreen t → IsOnScreen (boot_putchar_tab_fb t)
unfolding boot_putchar_tab_fb
tab-IsOnScreen t h =
    for_each-keeps IsOnScreen put_space (λ i. putchar_fb-IsOnScreen 0x20 0xffffff 0)
      (tab_space_nr t) 0 t h

com-IsOnScreen : (ch : ℕ) (t : Tty) → IsOnScreen t → IsOnScreen (boot_putchar_com ch t)
unfolding boot_putchar_com
com-IsOnScreen ch t h = h

pub below : (t : Tty) → IsOnScreen t → IsBelow t
below t (x, y, w, h) = (y, omega arith, w, h)

module _ (t : Tty) (h : IsOnScreen t) where
  cursor_back-IsOnScreen : (o : Output) → IsOnScreen (boot_cursor_back o t)
  unfolding boot_cursor_back boot_cursor_back_fb
  cursor_back-IsOnScreen default = com-IsOnScreen _ t h
  cursor_back-IsOnScreen no_fb = com-IsOnScreen _ t h
  cursor_back-IsOnScreen no_com = (omega (arith, h.0), h.1, h.2, h.3)

  back_space_any-IsOnScreen : (o : Output) → IsOnScreen (boot_back_space o t)
  unfolding boot_back_space
  back_space_any-IsOnScreen default = com-IsOnScreen _ _ (back_space-IsOnScreen t h)
  back_space_any-IsOnScreen no_fb = com-IsOnScreen _ t h
  back_space_any-IsOnScreen no_com = back_space-IsOnScreen t h

  tab_any-IsOnScreen : (o : Output) → IsOnScreen (boot_putchar_tab o t)
  unfolding boot_putchar_tab
  tab_any-IsOnScreen default = com-IsOnScreen _ _ (tab-IsOnScreen t h)
  tab_any-IsOnScreen no_fb = com-IsOnScreen _ t h
  tab_any-IsOnScreen no_com = tab-IsOnScreen t h

  new_line_any-IsOnScreen : (o : Output) → IsOnScreen (boot_put_new_line o t)
  unfolding boot_put_new_line
  new_line_any-IsOnScreen default = com-IsOnScreen _ _ (new_line-IsOnScreen 0 t (below t h))
  new_line_any-IsOnScreen no_fb = com-IsOnScreen _ t h
  new_line_any-IsOnScreen no_com = new_line-IsOnScreen 0 t (below t h)

  glyph_any-IsOnScreen : (ch : ℕ) (o : Output) → IsOnScreen (boot_put_glyph o ch t)
  unfolding boot_put_glyph
  glyph_any-IsOnScreen ch default = com-IsOnScreen _ _ (putchar_fb-IsOnScreen ch _ _ t h)
  glyph_any-IsOnScreen ch no_fb = com-IsOnScreen _ t h
  glyph_any-IsOnScreen ch no_com = putchar_fb-IsOnScreen ch _ _ t h

pub putchar-IsOnScreen : (t : Tty) → IsOnScreen t → (ch : ℕ) → IsOnScreen (boot_putchar ch t)
unfolding boot_putchar
putchar-IsOnScreen t h ch =
    let o = t.output in
    pick IsOnScreen (ch == 0x0D) _ _ (cursor_back-IsOnScreen t h o) (
      pick IsOnScreen (ch == 0x08) _ _ (back_space_any-IsOnScreen t h o) (
        pick IsOnScreen (ch == 0x09) _ _ (tab_any-IsOnScreen t h o) (
          pick IsOnScreen (ch == 0x0A) _ _ (new_line_any-IsOnScreen t h o)
            (glyph_any-IsOnScreen t h ch o))))

-- Printing any string, control characters included, to any outputs keeps the cursor on the screen.
pub boot_printstr-IsOnScreen :
    (str : List ℕ) (t : Tty) → IsOnScreen t → IsOnScreen (boot_printstr str t)
unfolding boot_printstr
boot_printstr-IsOnScreen [] t h = h
boot_printstr-IsOnScreen (c ∷ str) t h = boot_printstr-IsOnScreen str _ (putchar-IsOnScreen t h _)
