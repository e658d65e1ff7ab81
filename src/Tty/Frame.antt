-- ===== src/Tty/Frame.antt =====
-- Where scrolling and drawing write.
use closure_os.Base.{ℕ, zero, suc, ◌+◌, ◌-◌, ◌*◌, ◌%◌, ◌^◌, ◌≤◌, ◌<◌, ◌≡◌, ap, arith}
use closure_os.Tty.{set_pixel, Tty, for_each, scroll_up, draw_row}
use closure_os.Tty.Cursor.{IsBelow, below}

-- What keeps a property in every round keeps it in the loop.
pub for_each-below :
    {A : Type 0} (P : A → Type 0) (body : ℕ → A → A) (n : ℕ)
    → ((i : ℕ) (a : A) → i < n → P a → P (body i a))
    → (rounds first : ℕ) → first + rounds ≤ n
    → (a : A) → P a
    → P (for_each rounds first body a)
for_each-below P body n keep zero first le a h = h
for_each-below P body n keep (suc rounds) first le a h =
    for_each-below P body n keep rounds (first + 1) (omega arith) (body first a)
      (keep first a (omega arith) h)

-- Column `m` of cell `c`, of `n` cells of `f` columns.
pub cell : (c n f m : ℕ) → c < n → m < f → c * f + m < n * f
cell c n f m hc hm = grind arith

-- The pixels from the end of the frame buffer on are those of `old`.
abbrev pub Outside : (size : ℕ) → (ℕ → ℕ) → (ℕ → ℕ) → Type 0
Outside size old pixel = (i : ℕ) → size ≤ i → pixel i ≡ old i

set_pixel-Outside :
    (size : ℕ) (old pixel : ℕ → ℕ) (loc colour : ℕ)
    → loc < size
    → Outside size old pixel
    → Outside size old (set_pixel loc colour pixel)
set_pixel-Outside size old pixel loc colour inside out i h = ground (arith, out i h)

less_one : (n f : ℕ) → 0 < n → (n - 1) * f + f ≡ n * f
less_one zero f pos = absurd (omega arith)
less_one (suc n) f pos = let e : suc n - 1 ≡ n = omega arith in rw e (omega arith)

mul_le : (a b k : ℕ) → a ≤ b → a * k ≤ b * k
mul_le a b k h = grind arith

mul_suc : (a k : ℕ) → (a + 1) * k ≡ a * k + k
mul_suc a k = omega arith

mul_add : (a b k : ℕ) → (a + b) * k ≡ a * k + b * k
mul_add a b k = grind arith

pub mod_le : (a n : ℕ) → 0 < n → a % n ≤ a
mod_le a n pos = grind arith

-- A console whose screen of text fits its frame buffer, of `w` by `h` pixels, and the memory behind
-- that frame buffer, which is still `old`.
pub record IsDrawn (w h : ℕ) (old : ℕ → ℕ) (t : Tty) : Type 0 where
  pub width : t.boot_fb_width ≡ w
  pub height : t.boot_fb_height ≡ h
  pub columns : t.max_ch_nr_x * t.font_width ≤ w
  pub rows : t.max_ch_nr_y * t.font_height ≤ h
  pub outside : (i : ℕ) → h * w ≤ i → t.pixel i ≡ old i

-- Row by row, from pixel `at y` on.
pub rows-Outside :
    (size n w : ℕ) (old : ℕ → ℕ) (loc : ℕ → ℕ → ℕ) (colour : ℕ → ℕ → (ℕ → ℕ) → ℕ)
    → ((y x : ℕ) → y < n → x < w → loc y x < size)
    → (pixel : ℕ → ℕ) → Outside size old pixel
    → Outside size old
        (for_each n 0 (λ y. for_each w 0 (λ x p. set_pixel (loc y x) (colour y x p) p)) pixel)
rows-Outside size n w old loc colour inside pixel out =
    for_each-below (Outside size old)
      (λ y. for_each w 0 (λ x p. set_pixel (loc y x) (colour y x p) p)) n
      (λ y p hy kept.
        for_each-below (Outside size old) (λ x p'. set_pixel (loc y x) (colour y x p') p') w
          (λ x p' hx kept'.
            set_pixel-Outside size old p' (loc y x) (colour y x p') (inside y x hy hx) kept')
          w 0 (omega arith) p kept)
      n 0 (omega arith) pixel out

-- A location that wraps around is no higher.
pub wrapped : (a size : ℕ) → a < size → a % 2 ^ 32 < size
wrapped a size h = omega (arith, mod_le a (2 ^ 32) (omega arith))

module _ (w h : ℕ) (old : ℕ → ℕ) (t : Tty) (d : IsDrawn w h old t) (b : IsBelow t) where
  abbrev text_lines : ℕ
  text_lines = (t.max_ch_nr_y + 2 ^ 32 - 1) % 2 ^ 32 * t.font_height % 2 ^ 32

  text_lines-below : text_lines + t.font_height ≤ h
  text_lines-below =
      let (y, some_column, w32, h32) = b in
      let above : (t.max_ch_nr_y + 2 ^ 32 - 1) % 2 ^ 32 ≡ t.max_ch_nr_y - 1 = omega arith in
      let le =
        mod_le ((t.max_ch_nr_y + 2 ^ 32 - 1) % 2 ^ 32 * t.font_height) (2 ^ 32) (omega arith) in
      let whole : (t.max_ch_nr_y - 1) * t.font_height + t.font_height
          ≡ t.max_ch_nr_y * t.font_height =
        less_one t.max_ch_nr_y t.font_height (omega arith) in
      let same : (t.max_ch_nr_y + 2 ^ 32 - 1) % 2 ^ 32 * t.font_height
          ≡ (t.max_ch_nr_y - 1) * t.font_height =
        ap (λ (n : ℕ). n * t.font_height) above in
      omega (arith, le, whole, same, d.rows)

  pub scroll_up-Outside :
      (bg : ℕ) (pixel : ℕ → ℕ)
      → Outside (h * w) old pixel
      → Outside (h * w) old (scroll_up bg t pixel)
  unfolding scroll_up
  scroll_up-Outside bg pixel out =
      let lines = text_lines-below in
      rw d.width (
        rows-Outside (h * w) t.font_height w old (λ y x. (y + text_lines) % 2 ^ 32 * w + x)
          (λ y x p. bg)
          (λ y x hy hx.
            cell ((y + text_lines) % 2 ^ 32) h w x
              (wrapped (y + text_lines) h (omega (arith, lines))) hx)
          _
          (rows-Outside (h * w) text_lines w old (λ y x. (x + y * w) % 2 ^ 32)
            (λ y x p. p ((x + (y + t.font_height) * w) % 2 ^ 32))
            (λ y x hy hx.
              wrapped (x + y * w) (h * w) (omega (arith, cell y h w x (omega (arith, lines)) hx)))
            pixel out))

  draw_row-Outside :
      (row loc fg bg : ℕ) (pixel : ℕ → ℕ)
      → loc + t.font_width ≤ h * w
      → Outside (h * w) old pixel
      → Outside (h * w) old (draw_row row loc fg bg t pixel)
  unfolding draw_row
  draw_row-Outside row loc fg bg pixel fits out =
      for_each-below (λ (s : ℕ × (ℕ → ℕ)). Outside (h * w) old s.1) _ t.font_width
        (λ x s hx kept. set_pixel-Outside (h * w) old s.1 (loc + x) _ (omega arith) kept)
        t.font_width 0 (omega arith) (2 ^ 7, pixel) out

  -- The rows of a glyph at the cursor.
  glyph_row :
      t.fb_cursor_x < t.max_ch_nr_x
      → (y : ℕ) → y < t.font_height
      → t.fb_cursor_y * t.font_height * t.boot_fb_width % 2 ^ 32
          + t.fb_cursor_x * t.font_width % 2 ^ 32
          + y * t.boot_fb_width % 2 ^ 32
          + t.font_width
        ≤ h * w
  glyph_row x y hy =
      let (below, some_column, w32, h32) = b in
      let r : ℕ = t.fb_cursor_y * t.font_height + y in
      let row : r < h =
        omega (arith, cell t.fb_cursor_y t.max_ch_nr_y t.font_height y below hy, d.rows) in
      let column : t.fb_cursor_x * t.font_width + t.font_width ≤ w = omega (
        arith,
        mul_le (t.fb_cursor_x + 1) t.max_ch_nr_x t.font_width (omega arith),
        mul_suc t.fb_cursor_x t.font_width,
        d.columns,
      ) in
      let down : t.fb_cursor_y * t.font_height * w + y * w + w ≤ h * w = omega (
        arith,
        mul_le (r + 1) h w (omega arith),
        mul_suc r w,
        mul_add (t.fb_cursor_y * t.font_height) y w,
      ) in
      let m₁ = mod_le (t.fb_cursor_y * t.font_height * w) (2 ^ 32) (omega arith) in
      let m₂ = mod_le (t.fb_cursor_x * t.font_width) (2 ^ 32) (omega arith) in
      let m₃ = mod_le (y * w) (2 ^ 32) (omega arith) in
      rw d.width (omega (arith, m₁, m₂, m₃, column, down))

  pub glyph-Outside :
      t.fb_cursor_x < t.max_ch_nr_x
      → (glyph fg bg : ℕ)
      → Outside (h * w) old (
          for_each t.font_height 0
            (λ ch_y.
              draw_row
                (glyph + ch_y * t.font_width_bytes)
                (t.fb_cursor_y * t.font_height * t.boot_fb_width % 2 ^ 32
                  + t.fb_cursor_x * t.font_width % 2 ^ 32
                  + ch_y * t.boot_fb_width % 2 ^ 32)
                fg
                bg
                t)
            t.pixel)
  glyph-Outside x glyph fg bg =
      for_each-below (Outside (h * w) old) _ t.font_height
        (λ y p hy kept. draw_row-Outside _ _ fg bg p (glyph_row x y hy) kept) t.font_height 0
        (omega arith) t.pixel d.outside
