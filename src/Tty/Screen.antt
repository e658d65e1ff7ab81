-- ===== src/Tty/Screen.antt =====
-- `boot_tty_init` with a frame buffer.
use closure_os.Base.{
  ℕ, zero, suc, ◌+◌, ◌*◌, ◌/◌, ◌%◌, ◌^◌, ◌≤◌, ◌≡◌, refl, ap, sym, Bool, Option, none, some, List,
  [], ◌∷◌, ◌==◌, arith, pick,
}
use closure_os.Com.{com_reg_rx}
use closure_os.Tty.{
  Tty, Out, Output, default, no_fb, no_com, boot_init_com, boot_clear_screen, boot_puts,
  boot_init_com_internal, boot_clear_screen_internal_com, boot_clear_screen_internal_fb,
  boot_putchar_com,
}
use closure_os.Tty.Cursor.{IsOnScreen, boot_printstr-IsOnScreen}
use closure_os.Tty.Frame.{IsDrawn, rows-Outside, wrapped, cell}
use closure_os.Tty.Pixels.{putchar-IsDrawn, boot_printstr-IsDrawn}
use closure_os.Tty.Init.{
  MultibootTag, framebuffer, other, Psf2Font, boot_get_frame_buffer, boot_init_font, warn, greet,
  set_screen, without_com, boot_tty_init, IsScreen, no_graphic_text, no_serial_text, welcome_text,
  version_text, copyright_text, puts-IsOnScreen,
}

module _ (w h : ℕ) (old : ℕ → ℕ) where
  -- The console in its frame, its cursor on the screen.
  abbrev IsShown : Tty → Type 0
  IsShown t = IsDrawn w h old t × IsOnScreen t

  puts-IsShown : (str : List ℕ) (t : Tty) → IsShown t → IsShown (boot_puts str t)
  unfolding boot_puts
  puts-IsShown str t (d, on) = (
    putchar-IsDrawn _ (boot_printstr-IsDrawn str t d on) (boot_printstr-IsOnScreen str t on) 0x0A,
    puts-IsOnScreen str t on,
  )

  warn-IsShown : (o : Output) (t : Tty) → IsShown t → IsShown (warn o t)
  unfolding warn
  warn-IsShown no_fb t s = puts-IsShown no_graphic_text t s
  warn-IsShown no_com t s = puts-IsShown no_serial_text t s
  warn-IsShown default t s = s

  clear-IsShown : (t : Tty) → IsShown t → IsShown (boot_clear_screen t)
  unfolding boot_clear_screen boot_clear_screen_internal_com boot_clear_screen_internal_fb
      boot_putchar_com
  clear-IsShown t (d, on) = (
    record {
      width = d.width;
      height = d.height;
      columns = d.columns;
      rows = d.rows;
      outside =
          rw (d.width, d.height)
            (rows-Outside (h * w) h w old (λ y x. (y * w + x) % 2 ^ 32) (λ y x p. 0)
              (λ y x hy hx. wrapped (y * w + x) (h * w) (cell y h w x hy hx)) t.pixel d.outside);
    },
    on,
  )

  greet-IsShown : (t : Tty) → IsShown t → IsShown (greet t)
  unfolding greet
  greet-IsShown t s = puts-IsShown copyright_text _ (
      puts-IsShown version_text _ (
        puts-IsShown [] _ (
          puts-IsShown welcome_text _
            (warn-IsShown (boot_clear_screen t).output (boot_clear_screen t) (clear-IsShown t s)))))

  -- What writes to ports alone.
  ported :
      (t : Tty) (io : List Out) (base : ℕ) (o : Output)
      → IsShown t
      → IsShown (record t { io = io; com_base = base; output = o })
  ported t io base o (d, on) = (
    record {
      width = d.width;
      height = d.height;
      columns = d.columns;
      rows = d.rows;
      outside = d.outside;
    },
    on,
  )

  probe-IsShown :
      (inb : ℕ → ℕ) (base : ℕ) (t : Tty) → IsShown t → IsShown (boot_init_com_internal inb base t).1
  unfolding boot_init_com_internal
  probe-IsShown inb base t s =
      pick (λ (r : Bool × Tty). IsShown r.1) (inb (base + com_reg_rx) % 2 ^ 8 == 0x61) _ _
        (ported t _ t.com_base t.output s) (ported t _ t.com_base t.output s)

  init_com-IsShown : (inb : ℕ → ℕ) (t : Tty) → IsShown t → IsShown (boot_init_com inb t).1
  unfolding boot_init_com
  init_com-IsShown inb t s =
      let s₁ = probe-IsShown inb 0x3F8 t s in
      let t₁ = (boot_init_com_internal inb 0x3F8 t).1 in
      let s₂ = probe-IsShown inb 0x2F8 t₁ s₁ in
      let t₂ = (boot_init_com_internal inb 0x2F8 t₁).1 in
      pick (λ (r : Bool × Tty). IsShown r.1) (boot_init_com_internal inb 0x3F8 t).0 _ _
        (ported t₁ t₁.io 0x3F8 t₁.output s₁)
        (pick (λ (r : Bool × Tty). IsShown r.1) (boot_init_com_internal inb 0x2F8 t₁).0 _ _
          (ported t₂ t₂.io 0x2F8 t₂.output s₂) s₂)

  without_com-IsShown : (o : Output) (t : Tty) → IsShown t → IsShown (without_com o t).1
  unfolding without_com
  without_com-IsShown no_fb t s = s
  without_com-IsShown no_com t s = greet-IsShown _ (ported t t.io t.com_base no_com s)
  without_com-IsShown default t s = greet-IsShown _ (ported t t.io t.com_base no_com s)

quotient_le : (a b : ℕ) → a / b * b ≤ a
quotient_le a zero = omega arith
quotient_le a (suc b) = grind arith

-- The first frame buffer tag, of those that there are.
found_pixel :
    (tags : List MultibootTag) (t t' : Tty)
    → boot_get_frame_buffer tags t ≡ some t'
    → t'.pixel ≡ t.pixel
unfolding boot_get_frame_buffer
found_pixel [] t t' e = absurd (cc)
found_pixel (framebuffer addr width height ∷ tags) t t' e =
    sym (ap (λ (o : Option Tty). elim o as (λ _. ℕ → ℕ) [ none ↦ t.pixel | some u ↦ u.pixel ]) e)
found_pixel (other type ∷ tags) t t' e = found_pixel tags t t' e

-- `boot_tty_init` that finds a frame buffer changes no memory behind it, whatever the serial ports
-- answer, if the screen of text has room for a character and a size of 32 bits: the clearing of the
-- screen, the greeting and its scrolling all stay within the width and height of the tag.
pub boot_tty_init-IsDrawn :
    (inb : ℕ → ℕ) (font : Psf2Font) (tags : List MultibootTag) (t t' : Tty)
    → boot_get_frame_buffer tags t ≡ some t'
    → IsScreen (boot_init_font font t')
    → IsDrawn t'.boot_fb_width t'.boot_fb_height t.pixel (boot_tty_init inb font tags t).1
unfolding boot_tty_init set_screen boot_init_font
boot_tty_init-IsDrawn inb font tags t t' e (x, y, columns, rows, w32, h32) =
    let w = t'.boot_fb_width in
    let h = t'.boot_fb_height in
    let t₁ = boot_init_font font t' in
    let start : IsDrawn w h t.pixel t₁ = record {
      width = refl;
      height = refl;
      columns = quotient_le w _;
      rows = quotient_le h _;
      outside = λ i le. ap (λ (p : ℕ → ℕ). p i) (found_pixel tags t t' e);
    } in
    let s₁ = init_com-IsShown w h t.pixel inb t₁ (start, (omega arith, omega arith, w32, h32)) in
    let t₂ = (boot_init_com inb t₁).1 in
    rw e
      (pick (λ (r : Bool × Tty). IsShown w h t.pixel r.1) (boot_init_com inb t₁).0 _ _
        (greet-IsShown w h t.pixel t₂ s₁) (without_com-IsShown w h t.pixel t₂.output t₂ s₁)).0
