-- ===== src/Examples/Boot.antt =====
-- The boot console and the boot allocator.
use closure_os.Base.{
  ℕ, ◌+◌, ◌-◌, ◌^◌, ◌≤◌, ◌<◌, ◌≡◌, refl, none, some, List, [], ◌∷◌, length, arith, ◌==◌, ◌⊎◌,
  if◌then◌else◌, false,
}
use mathlib.Core.Option.{none-ne-some}
use closure_os.Tty.{
  boot_putchar_com_from, boot_putchar_com, Tty, default, boot_printstr, boot_printnum,
  boot_printhex, boot_putchar,
}
use closure_os.Tty.Cursor.{IsOnScreen, boot_printstr-IsOnScreen}
use closure_os.Tty.Frame.{IsDrawn}
use closure_os.Tty.Wait.{IsBusyFor, is_busy, boot_putchar_com_lem}
use closure_os.Tty.Pixels.{boot_printstr-IsDrawn}
use closure_os.Tty.Screen.{boot_tty_init-IsDrawn}
use closure_os.Tty.Serial.{boot_printstr_sends}
use closure_os.Tty.Digits.{read_num, read_hex, boot_printnum_lem, boot_printhex_lem}
use closure_os.Tty.Init.{
  Psf2Font, framebuffer, other, boot_tty_init, boot_tty_init-IsOnScreen, boot_get_frame_buffer,
  set_screen, IsScreen, boot_init_font,
}
use closure_os.BootMem.{
  BootInfo, Cursor, page, enomem, err_ptr, addr_is_in_used_range, boot_mm_page_alloc,
}
use closure_os.BootMem.Linear.{IsMap, IsCursor}
use closure_os.BootMem.Search.{Answer, boot_mm_page_alloc_lem}

abbrev pub console : Tty
console = record {
  boot_fb_base = 0;
  boot_fb_end = 0;
  boot_fb_width = 0;
  boot_fb_height = 0;
  boot_fb_sz = 0;
  fb_cursor_x = 0;
  fb_cursor_y = 0;
  max_ch_nr_x = 2;
  max_ch_nr_y = 1;
  font_width = 8;
  font_height = 16;
  font_width_bytes = 1;
  bytes_per_glyph = 16;
  glyph_nr = 256;
  glyph_table = λ i. 0;
  pixel = λ i. 0;
  com_base = 0x3F8;
  output = default;
  io = [];
}

printstr_example : IsOnScreen (boot_printstr (0x41 ∷ 0x42 ∷ 0x0A ∷ []) console)
printstr_example =
    boot_printstr-IsOnScreen (0x41 ∷ 0x42 ∷ 0x0A ∷ []) console
      (omega arith, omega arith, omega arith, omega arith)

sends_example :
    (boot_printstr (0x41 ∷ 0x0A ∷ []) console).io
    ≡ record { port = 0x3F8; value = 0x41 } ∷ record { port = 0x3F8; value = 0x0A } ∷ []
sends_example = boot_printstr_sends (0x41 ∷ 0x0A ∷ []) console (λ e. cc)

printnum_example :
    (s : List ℕ) × (boot_printnum (2 ^ 64 - 2024) console
      ≡ some (boot_printstr s (boot_putchar 0x2D console)))
    × (read_num 0 s ≡ some 2024)
    × (length s ≤ 19)
printnum_example = boot_printnum_lem (2 ^ 64 - 2024) console (omega arith) (omega arith)

printhex_example :
    (s : List ℕ) × (boot_printhex 0xFEE console ≡ some (boot_printstr s console))
    × (read_hex 0 s ≡ some 0xFEE)
    × (length s ≤ 16)
printhex_example = boot_printhex_lem 0xFEE console (omega arith)

abbrev pub font : Psf2Font
font = record { glyph_nr = 256; bytes_per_glyph = 16; height = 16; width = 8; bitmaps = λ i. 0 }

screen : IsScreen (
    set_screen
      (boot_get_frame_buffer (other 1 ∷ framebuffer 0xFD000000 800 600 ∷ []) console)
      font
      console)
unfolding set_screen boot_get_frame_buffer boot_init_font
screen = (refl, refl, omega arith, omega arith, omega arith, omega arith)

tty_init_example :
    IsOnScreen
      (boot_tty_init (λ port. 0x61) font (other 1 ∷ framebuffer 0xFD000000 800 600 ∷ []) console).1
tty_init_example =
    boot_tty_init-IsOnScreen (λ port. 0x61) font (other 1 ∷ framebuffer 0xFD000000 800 600 ∷ [])
      console screen

-- The console of two characters on a frame buffer of 16 by 16 pixels.
abbrev small : Tty
small = record console { boot_fb_width = 16; boot_fb_height = 16 }

small-IsDrawn : IsDrawn 16 16 (λ i. 0) small
small-IsDrawn = record {
  width = refl;
  height = refl;
  columns = omega arith;
  rows = omega arith;
  outside = λ i h. refl;
}

boot_printstr-IsDrawn_example :
    IsDrawn 16 16 (λ i. 0) (boot_printstr (0x41 ∷ 0x42 ∷ 0x0A ∷ []) small)
boot_printstr-IsDrawn_example =
    boot_printstr-IsDrawn (0x41 ∷ 0x42 ∷ 0x0A ∷ []) small small-IsDrawn
      (omega arith, omega arith, omega arith, omega arith)

abbrev with_screen : Tty
with_screen = record console {
  boot_fb_base = 0xFD000000;
  boot_fb_height = 600;
  boot_fb_width = 800;
  boot_fb_sz = 1920000;
  boot_fb_end = 0xFD1D4C00;
}

with_screen-IsScreen : IsScreen (boot_init_font font with_screen)
unfolding boot_init_font
with_screen-IsScreen = (refl, refl, omega arith, omega arith, omega arith, omega arith)

found_screen :
    boot_get_frame_buffer (other 1 ∷ framebuffer 0xFD000000 800 600 ∷ []) console ≡ some with_screen
unfolding boot_get_frame_buffer
found_screen = refl

boot_tty_init-IsDrawn_example :
    IsDrawn 800 600
      (λ i. 0)
      (boot_tty_init (λ port. 0x61) font (other 1 ∷ framebuffer 0xFD000000 800 600 ∷ []) console).1
boot_tty_init-IsDrawn_example =
    boot_tty_init-IsDrawn (λ port. 0x61) font (other 1 ∷ framebuffer 0xFD000000 800 600 ∷ [])
      console with_screen found_screen with_screen-IsScreen

-- A port that is busy at the first reading and ready at the others.
abbrev line : ℕ → ℕ
line i = if i == 0 then 0 else 0x60

boot_putchar_com_example :
    (IsBusyFor line 0 3 × (boot_putchar_com_from 3 (λ port. line) 0 0x41 console ≡ none))
    ⊎ ((d : ℕ) × (d < 3)
        × IsBusyFor line 0 d
        × (is_busy line (0 + d) ≡ false)
        × (boot_putchar_com_from 3 (λ port. line) 0 0x41 console
            ≡ some (0 + d + 1, boot_putchar_com 0x41 console)))
boot_putchar_com_example = boot_putchar_com_lem 3 (λ port. line) 0 0x41 console

-- A machine with 64 KiB from 1 MiB on, and the tags in the first page of it.
abbrev pub machine : BootInfo
machine = record {
  mmap_entry_nr = 1;
  entries = λ i. record { addr = 0x100000; len = 0x10000; type = 1 };
  sections = [];
  frame_buffer = none;
  multiboot_tag_start = 0x100000;
  multiboot_tag_end = 0x101000;
}

abbrev pub at_start : Cursor
at_start = record { curr_entry = none; next_entry_idx = 0; curr_avail = 0; curr_end = 0 }

pub machine-IsMap : IsMap machine
machine-IsMap = ((λ i h. omega arith), (λ i j lt h. omega arith))

pub at_start-IsCursor : IsCursor machine at_start
at_start-IsCursor = ((λ j e. absurd (none-ne-some j e)), (λ j from to. omega arith), omega arith)

pub no_err : addr_is_in_used_range machine (err_ptr enomem) ≡ false
unfolding addr_is_in_used_range
no_err = refl

alloc_example :
    (res : ℕ) × (c₁ : Cursor) × (boot_mm_page_alloc (2 ^ 40 + 1) machine at_start ≡ page res c₁)
    × IsCursor machine c₁
    × Answer machine 0 res c₁
alloc_example =
    boot_mm_page_alloc_lem (2 ^ 40 + 1) machine at_start machine-IsMap at_start-IsCursor no_err
      (omega arith)
