-- ===== src/Tty/Init.antt =====
-- `boot_tty_init` of src/arch/x86/boot/boot_tty.c: it finds the frame buffer and the serial port, and
-- greets on what there is.
use closure_os.Com.{com_reg_rx}
use closure_os.Base.{
  ℕ, ◌+◌, ◌*◌, ◌/◌, ◌%◌, ◌^◌, ◌<◌, ◌≡◌, Bool, true, false, Option, none, some, List, [], ◌∷◌, ◌==◌,
  if◌then◌else◌, arith, pick,
}
use closure_os.Tty.{
  Tty, Output, default, no_fb, no_com, boot_init_com, boot_clear_screen, boot_puts,
  boot_init_com_internal, boot_clear_screen_internal_com, boot_clear_screen_internal_fb,
  boot_putchar_com,
}
use closure_os.Tty.Cursor.{IsOnScreen, putchar-IsOnScreen, boot_printstr-IsOnScreen}

-- The tags of the multiboot information before the end tag: frame buffers, and others.
pub data MultibootTag : Type 0 where
  framebuffer : (addr width height : ℕ) → MultibootTag
  other : (type : ℕ) → MultibootTag

-- The fields of `struct psf2_header` that are used, and the bytes behind the header.
pub record Psf2Font : Type 0 where
  pub glyph_nr : ℕ
  pub bytes_per_glyph : ℕ
  pub height : ℕ
  pub width : ℕ
  pub bitmaps : ℕ → ℕ

-- `boot_get_frame_buffer`: the first frame buffer tag.
unfoldable pub boot_get_frame_buffer : List MultibootTag → Tty → Option Tty
boot_get_frame_buffer [] t = none
boot_get_frame_buffer (framebuffer addr width height ∷ tags) t =
    let sz = width * height % 2 ^ 32 * 4 in
    some (record t {
      boot_fb_base = addr;
      boot_fb_height = height;
      boot_fb_width = width;
      boot_fb_sz = sz;
      boot_fb_end = (addr + sz) % 2 ^ 64;
    })
boot_get_frame_buffer (other type ∷ tags) t = boot_get_frame_buffer tags t

-- `boot_init_font`
unfoldable pub boot_init_font : Psf2Font → Tty → Tty
boot_init_font font t =
    let width_bytes = (font.width + 7) % 2 ^ 32 / 8 in
    let width = width_bytes * 8 in
    record t {
      font_width_bytes = width_bytes;
      font_width = width;
      font_height = font.height;
      glyph_table = font.bitmaps;
      glyph_nr = font.glyph_nr;
      bytes_per_glyph = font.bytes_per_glyph;
      fb_cursor_x = 0;
      fb_cursor_y = 0;
      max_ch_nr_x = t.boot_fb_width / width;
      max_ch_nr_y = t.boot_fb_height / font.height;
    }

-- The texts of the greeting, as bytes.
abbrev pub no_graphic_text : List ℕ
no_graphic_text =
    0x57 ∷ 0x61 ∷ 0x72 ∷ 0x6e ∷ 0x69 ∷ 0x6e ∷ 0x67 ∷ 0x3a ∷ 0x20 ∷ 0x72 ∷ 0x75 ∷ 0x6e ∷ 0x6e ∷ 0x69
    ∷ 0x6e ∷ 0x67 ∷ 0x20 ∷ 0x75 ∷ 0x6e ∷ 0x64 ∷ 0x65 ∷ 0x72 ∷ 0x20 ∷ 0x6e ∷ 0x6f ∷ 0x2d ∷ 0x67
    ∷ 0x72 ∷ 0x61 ∷ 0x70 ∷ 0x68 ∷ 0x69 ∷ 0x63 ∷ 0x20 ∷ 0x6d ∷ 0x6f ∷ 0x64 ∷ 0x65 ∷ 0x2e ∷ 0xa ∷ []

abbrev pub no_serial_text : List ℕ
no_serial_text =
    0x57 ∷ 0x61 ∷ 0x72 ∷ 0x6e ∷ 0x69 ∷ 0x6e ∷ 0x67 ∷ 0x3a ∷ 0x20 ∷ 0x4e ∷ 0x6f ∷ 0x20 ∷ 0x73 ∷ 0x65
    ∷ 0x72 ∷ 0x69 ∷ 0x61 ∷ 0x6c ∷ 0x20 ∷ 0x70 ∷ 0x6f ∷ 0x72 ∷ 0x74 ∷ 0x20 ∷ 0x66 ∷ 0x6f ∷ 0x72
    ∷ 0x20 ∷ 0x75 ∷ 0x73 ∷ 0x20 ∷ 0x74 ∷ 0x6f ∷ 0x20 ∷ 0x6f ∷ 0x75 ∷ 0x74 ∷ 0x70 ∷ 0x75 ∷ 0x74
    ∷ 0x2e ∷ 0xa ∷ []

abbrev pub welcome_text : List ℕ
welcome_text =
    0x57 ∷ 0x65 ∷ 0x6c ∷ 0x63 ∷ 0x6f ∷ 0x6d ∷ 0x65 ∷ 0x20 ∷ 0x74 ∷ 0x6f ∷ 0x20 ∷ 0x43 ∷ 0x6c ∷ 0x6f
    ∷ 0x73 ∷ 0x75 ∷ 0x72 ∷ 0x65 ∷ 0x4f ∷ 0x53 ∷ 0x21 ∷ []

abbrev pub version_text : List ℕ
version_text =
    0x56 ∷ 0x65 ∷ 0x72 ∷ 0x73 ∷ 0x69 ∷ 0x6f ∷ 0x6e ∷ 0x20 ∷ 0x30 ∷ 0x2e ∷ 0x30 ∷ 0x2e ∷ 0x31 ∷ []

abbrev pub copyright_text : List ℕ
copyright_text =
    0x43 ∷ 0x6f ∷ 0x70 ∷ 0x79 ∷ 0x72 ∷ 0x69 ∷ 0x67 ∷ 0x68 ∷ 0x74 ∷ 0x28 ∷ 0x63 ∷ 0x29 ∷ 0x20 ∷ 0x32
    ∷ 0x30 ∷ 0x32 ∷ 0x34 ∷ 0x20 ∷ 0x61 ∷ 0x72 ∷ 0x74 ∷ 0x74 ∷ 0x6e ∷ 0x62 ∷ 0x61 ∷ 0x33 ∷ 0x20
    ∷ 0x3c ∷ 0x61 ∷ 0x72 ∷ 0x74 ∷ 0x74 ∷ 0x6e ∷ 0x62 ∷ 0x61 ∷ 0x33 ∷ 0x40 ∷ 0x6f ∷ 0x75 ∷ 0x74
    ∷ 0x6c ∷ 0x6f ∷ 0x6f ∷ 0x6b ∷ 0x2e ∷ 0x63 ∷ 0x6f ∷ 0x6d ∷ 0x3e ∷ 0xa ∷ []

-- The warning of a console with one output.
unfoldable pub warn : Output → Tty → Tty
warn no_fb t = boot_puts no_graphic_text t
warn no_com t = boot_puts no_serial_text t
warn default t = t

-- The screen is cleared and greeted.
unfoldable pub greet : Tty → Tty
unfolding warn
greet t =
    let t₁ = boot_clear_screen t in
    boot_puts copyright_text
      (boot_puts version_text (boot_puts [] (boot_puts welcome_text (warn t₁.output t₁))))

-- The screen that the text goes to.
unfoldable pub set_screen : (found : Option Tty) → Psf2Font → Tty → Tty
set_screen none font t = record t { output = no_fb; max_ch_nr_x = 80; max_ch_nr_y = 24 }
set_screen (some t') font t = boot_init_font font t'

-- What is left to do without a serial port.
unfoldable pub without_com : Output → Tty → Bool × Tty
without_com no_fb t = (false, t)
without_com no_com t = (true, greet (record t { output = no_com }))
without_com default t = (true, greet (record t { output = no_com }))

-- `boot_tty_init`: whether it returns 0, and the console.
unfoldable pub boot_tty_init : (inb : ℕ → ℕ) → Psf2Font → List MultibootTag → Tty → Bool × Tty
unfolding set_screen without_com
boot_tty_init inb font tags t =
    let t₁ = set_screen (boot_get_frame_buffer tags t) font t in
    let (has_com, t₂) = boot_init_com inb t₁ in
    if has_com then (true, greet t₂) else without_com t₂.output t₂

pub puts-IsOnScreen : (str : List ℕ) (t : Tty) → IsOnScreen t → IsOnScreen (boot_puts str t)
unfolding boot_puts
puts-IsOnScreen str t h = putchar-IsOnScreen _ (boot_printstr-IsOnScreen str t h) 0x0A

warn-IsOnScreen : (o : Output) (t : Tty) → IsOnScreen t → IsOnScreen (warn o t)
unfolding warn
warn-IsOnScreen no_fb t h = puts-IsOnScreen no_graphic_text t h
warn-IsOnScreen no_com t h = puts-IsOnScreen no_serial_text t h
warn-IsOnScreen default t h = h

greet-IsOnScreen : (t : Tty) → IsOnScreen t → IsOnScreen (greet t)
unfolding greet boot_clear_screen boot_clear_screen_internal_com boot_clear_screen_internal_fb
    boot_putchar_com
greet-IsOnScreen t h = puts-IsOnScreen copyright_text _ (
    puts-IsOnScreen version_text _ (
      puts-IsOnScreen [] _
        (puts-IsOnScreen welcome_text _ (warn-IsOnScreen _ (boot_clear_screen t) h))))

probe-IsOnScreen :
    (inb : ℕ → ℕ) (base : ℕ) (t : Tty)
    → IsOnScreen t
    → IsOnScreen (boot_init_com_internal inb base t).1
unfolding boot_init_com_internal
probe-IsOnScreen inb base t h =
    pick (λ (r : Bool × Tty). IsOnScreen r.1) (inb (base + com_reg_rx) % 2 ^ 8 == 0x61) _ _ h h

init_com-IsOnScreen : (inb : ℕ → ℕ) (t : Tty) → IsOnScreen t → IsOnScreen (boot_init_com inb t).1
unfolding boot_init_com
init_com-IsOnScreen inb t h =
    let h₁ = probe-IsOnScreen inb 0x3F8 t h in
    let t₁ = (boot_init_com_internal inb 0x3F8 t).1 in
    let h₂ = probe-IsOnScreen inb 0x2F8 t₁ h₁ in
    pick (λ (r : Bool × Tty). IsOnScreen r.1) (boot_init_com_internal inb 0x3F8 t).0 _ _ h₁
      (pick (λ (r : Bool × Tty). IsOnScreen r.1) (boot_init_com_internal inb 0x2F8 t₁).0 _ _ h₂ h₂)

without_com-IsOnScreen : (o : Output) (t : Tty) → IsOnScreen t → IsOnScreen (without_com o t).1
unfolding without_com
without_com-IsOnScreen no_fb t h = h
without_com-IsOnScreen no_com t h = greet-IsOnScreen (record t { output = no_com }) h
without_com-IsOnScreen default t h = greet-IsOnScreen (record t { output = no_com }) h

-- The screen that is set up holds a character, and is no wider or higher than 32 bits say.
abbrev pub IsScreen : Tty → Type 0
IsScreen t =
    (t.fb_cursor_x ≡ 0)
    × (t.fb_cursor_y ≡ 0)
    × (0 < t.max_ch_nr_x)
    × (0 < t.max_ch_nr_y)
    × (t.max_ch_nr_x < 2 ^ 32)
    × (t.max_ch_nr_y < 2 ^ 32)

-- If the screen that `boot_tty_init` sets up, from the frame buffer and its font or without a frame
-- buffer, has the cursor at its start, room for a character and a size of 32 bits, then the cursor is
-- on that screen after the greeting, whatever the serial ports answer.
pub boot_tty_init-IsOnScreen :
    (inb : ℕ → ℕ) (font : Psf2Font) (tags : List MultibootTag) (t : Tty)
    → IsScreen (set_screen (boot_get_frame_buffer tags t) font t)
    → IsOnScreen (boot_tty_init inb font tags t).1
unfolding boot_tty_init
boot_tty_init-IsOnScreen inb font tags t (x, y, w, h, w32, h32) =
    let t₁ = set_screen (boot_get_frame_buffer tags t) font t in
    let start : IsOnScreen t₁ = (omega arith, omega arith, w32, h32) in
    let after = init_com-IsOnScreen inb t₁ start in
    let t₂ = (boot_init_com inb t₁).1 in
    pick (λ (r : Bool × Tty). IsOnScreen r.1) (boot_init_com inb t₁).0 _ _
      (greet-IsOnScreen t₂ after) (without_com-IsOnScreen t₂.output t₂ after)
