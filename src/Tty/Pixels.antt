-- ===== src/Tty/Pixels.antt =====
-- The console writes to no memory outside the frame buffer.
use closure_os.Base.{
  ℕ, ◌+◌, ◌*◌, ◌%◌, ◌^◌, List, [], ◌∷◌, ◌==◌, ltb, leb, if◌then◌else◌, Bool-cases, inl, inr, arith,
  pick,
}
use closure_os.Tty.{
  put_space, tab_space_nr, Tty, Output, default, no_fb, no_com, boot_putchar_fb_new_line, scroll_up,
  boot_putchar_fb, boot_back_space_fb, boot_cursor_back_fb, boot_putchar_tab_fb, boot_putchar_com,
  boot_cursor_back, boot_back_space, boot_putchar_tab, boot_put_new_line, boot_put_glyph,
  boot_putchar, boot_printstr,
}
use closure_os.Tty.Frame.{IsDrawn, Outside, scroll_up-Outside, glyph-Outside}
use closure_os.Tty.Cursor.{
  IsOnScreen, IsBelow, for_each-keeps, putchar-IsOnScreen, below, putchar_fb-IsOnScreen,
}

-- The operations on the frame buffer.
module _ {w h : ℕ} {old : ℕ → ℕ} where
  -- A change of the cursor.
  moved :
      (t : Tty) (x y : ℕ)
      → IsDrawn w h old t
      → IsDrawn w h old (record t { fb_cursor_x = x; fb_cursor_y = y })
  moved t x y d = record {
    width = d.width;
    height = d.height;
    columns = d.columns;
    rows = d.rows;
    outside = d.outside;
  }

  drawn :
      (t : Tty) (pixel : ℕ → ℕ) (x y : ℕ)
      → IsDrawn w h old t
      → Outside (h * w) old pixel
      → IsDrawn w h old (record t { pixel = pixel; fb_cursor_x = x; fb_cursor_y = y })
  drawn t pixel x y d out = record {
    width = d.width;
    height = d.height;
    columns = d.columns;
    rows = d.rows;
    outside = out;
  }

  new_line-IsDrawn :
      (bg : ℕ) (t : Tty)
      → IsDrawn w h old t
      → IsBelow t
      → IsDrawn w h old (boot_putchar_fb_new_line bg t)
  unfolding boot_putchar_fb_new_line
  new_line-IsDrawn bg t d b =
      let kept = scroll_up-Outside w h old t d b bg t.pixel d.outside in
      elim (Bool-cases (leb t.max_ch_nr_y ((t.fb_cursor_y + 1) % 2 ^ 32))) [
        | inl last ↦ rw last (drawn t (scroll_up bg t t.pixel) 0 _ d kept)
        | inr more ↦ rw more (moved t 0 _ d)
      ]

  putchar_fb-IsDrawn :
      (ch fg bg : ℕ) (t : Tty)
      → IsDrawn w h old t
      → IsOnScreen t
      → IsDrawn w h old (boot_putchar_fb ch fg bg t)
  unfolding boot_putchar_fb
  putchar_fb-IsDrawn ch fg bg t d on =
      let (x, y, w32, h32) = on in
      let kept =
        glyph-Outside w h old t d (below t on) x
          (if ltb ch t.glyph_nr then ch * t.bytes_per_glyph % 2 ^ 32 else 0) fg bg in
      let d₁ = drawn t _ ((t.fb_cursor_x + 1) % 2 ^ 32) t.fb_cursor_y d kept in
      elim (Bool-cases (leb t.max_ch_nr_x ((t.fb_cursor_x + 1) % 2 ^ 32))) [
        | inl last ↦ rw last (new_line-IsDrawn bg _ d₁ (y, omega arith, w32, h32))
        | inr more ↦ rw more d₁
      ]

  back_space-IsDrawn : (t : Tty) → IsDrawn w h old t → IsDrawn w h old (boot_back_space_fb t)
  unfolding boot_back_space_fb
  back_space-IsDrawn t d = elim (Bool-cases (ltb 0 t.fb_cursor_x)) [
    | inl pos ↦ rw pos (moved t _ t.fb_cursor_y d)
    | inr at_start ↦ rw at_start d
  ]

  tab-IsDrawn :
      (t : Tty) → IsDrawn w h old t → IsOnScreen t → IsDrawn w h old (boot_putchar_tab_fb t)
  unfolding boot_putchar_tab_fb
  tab-IsDrawn t d on =
      (for_each-keeps (λ (u : Tty). IsDrawn w h old u × IsOnScreen u) put_space
        (λ i u both. (
          putchar_fb-IsDrawn 0x20 0xffffff 0 u both.0 both.1,
          putchar_fb-IsOnScreen 0x20 0xffffff 0 u both.1,
        ))
        (tab_space_nr t) 0 t (d, on)).0

  com-IsDrawn : (ch : ℕ) (t : Tty) → IsDrawn w h old t → IsDrawn w h old (boot_putchar_com ch t)
  unfolding boot_putchar_com
  com-IsDrawn ch t d = record {
    width = d.width;
    height = d.height;
    columns = d.columns;
    rows = d.rows;
    outside = d.outside;
  }

-- The operations behind the function pointers.
module _ {w h : ℕ} {old : ℕ → ℕ} (t : Tty) (d : IsDrawn w h old t) (on : IsOnScreen t) where
  cursor_back-IsDrawn : (o : Output) → IsDrawn w h old (boot_cursor_back o t)
  unfolding boot_cursor_back boot_cursor_back_fb
  cursor_back-IsDrawn default = com-IsDrawn _ t d
  cursor_back-IsDrawn no_fb = com-IsDrawn _ t d
  cursor_back-IsDrawn no_com = moved t 0 t.fb_cursor_y d

  back_space_any-IsDrawn : (o : Output) → IsDrawn w h old (boot_back_space o t)
  unfolding boot_back_space
  back_space_any-IsDrawn default = com-IsDrawn _ _ (back_space-IsDrawn t d)
  back_space_any-IsDrawn no_fb = com-IsDrawn _ t d
  back_space_any-IsDrawn no_com = back_space-IsDrawn t d

  tab_any-IsDrawn : (o : Output) → IsDrawn w h old (boot_putchar_tab o t)
  unfolding boot_putchar_tab
  tab_any-IsDrawn default = com-IsDrawn _ _ (tab-IsDrawn t d on)
  tab_any-IsDrawn no_fb = com-IsDrawn _ t d
  tab_any-IsDrawn no_com = tab-IsDrawn t d on

  new_line_any-IsDrawn : (o : Output) → IsDrawn w h old (boot_put_new_line o t)
  unfolding boot_put_new_line
  new_line_any-IsDrawn default = com-IsDrawn _ _ (new_line-IsDrawn 0 t d (below t on))
  new_line_any-IsDrawn no_fb = com-IsDrawn _ t d
  new_line_any-IsDrawn no_com = new_line-IsDrawn 0 t d (below t on)

  glyph_any-IsDrawn : (ch : ℕ) (o : Output) → IsDrawn w h old (boot_put_glyph o ch t)
  unfolding boot_put_glyph
  glyph_any-IsDrawn ch default = com-IsDrawn _ _ (putchar_fb-IsDrawn ch _ _ t d on)
  glyph_any-IsDrawn ch no_fb = com-IsDrawn _ t d
  glyph_any-IsDrawn ch no_com = putchar_fb-IsDrawn ch _ _ t d on

pub putchar-IsDrawn :
    {w h : ℕ} {old : ℕ → ℕ} (t : Tty)
    → IsDrawn w h old t
    → IsOnScreen t
    → (ch : ℕ) → IsDrawn w h old (boot_putchar ch t)
unfolding boot_putchar
putchar-IsDrawn {w} {h} {old} t d on ch =
    let o = t.output in
    pick (IsDrawn w h old) (ch == 0x0D) _ _ (cursor_back-IsDrawn t d on o) (
      pick (IsDrawn w h old) (ch == 0x08) _ _ (back_space_any-IsDrawn t d on o) (
        pick (IsDrawn w h old) (ch == 0x09) _ _ (tab_any-IsDrawn t d on o) (
          pick (IsDrawn w h old) (ch == 0x0A) _ _ (new_line_any-IsDrawn t d on o)
            (glyph_any-IsDrawn t d on ch o))))

-- On a console whose cursor is on the screen and whose screen of text fits a frame buffer of `w` by
-- `h` pixels, printing any string, scrolling included, changes no memory behind the frame buffer.
pub boot_printstr-IsDrawn :
    {w h : ℕ} {old : ℕ → ℕ} (str : List ℕ) (t : Tty)
    → IsDrawn w h old t
    → IsOnScreen t
    → IsDrawn w h old (boot_printstr str t)
unfolding boot_printstr
boot_printstr-IsDrawn [] t d on = d
boot_printstr-IsDrawn (c ∷ str) t d on =
    boot_printstr-IsDrawn str _ (putchar-IsDrawn t d on _) (putchar-IsOnScreen t on _)
