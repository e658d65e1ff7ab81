-- ===== src/Tty.antt =====
-- src/arch/x86/boot/boot_tty.c, the boot console: a text cursor on the frame buffer and a serial port.
-- `boot_putchar_com` stands for its send; `boot_putchar_com_from` has the wait for the port before it.

pub mod Cursor
pub mod Frame
pub mod Pixels
pub mod Screen
pub mod Serial
pub mod Wait
pub mod Digits
pub mod Init
use closure_os.Com.{
  com1_base, com2_base, com_reg_tx, com_reg_rx, com_reg_ier, com_reg_dll, com_reg_dlm, com_reg_fcr,
  com_reg_lcr, com_reg_mcr, com_reg_lsr, com_lcr_dlab_on, com_lcr_dlab_off, com_lcr_sb_one,
  com_lcr_db_wlen_8, com_fcr_itlb_tl_14, com_fcr_ctfb_on, com_fcr_crfb_on, com_fcr_efb_on,
  com_mcr_lb_on, com_mcr_out2_on, com_mcr_out1_on, com_mcr_rtsb_on, com_mcr_dtrb_on,
}
use closure_os.Base.{
  bit_or, ℕ, zero, suc, ◌+◌, ◌-◌, ◌*◌, ◌/◌, ◌%◌, ◌^◌, bit_and, Bool, true, false, Option, none,
  some, List, [], ◌∷◌, ◌++◌, ◌==◌, ltb, leb, if◌then◌else◌,
}

-- What the function pointers `internal_boot_*` but `internal_boot_clear_screen` point to; they are
-- always set together, to the functions with this suffix.
pub data Output : Type 0 where
  default : Output
  no_fb : Output
  no_com : Output

-- An `outb`.
pub record Out : Type 0 where
  pub port : ℕ
  pub value : ℕ

-- The variables of boot_tty.c. `pixel` is the memory behind `boot_fb_base`, `glyph_table` the bytes
-- behind the pointer of that name, `io` the bytes sent to ports, the first one first.
pub record Tty : Type 0 where
  pub boot_fb_base : ℕ
  pub boot_fb_end : ℕ
  pub boot_fb_width : ℕ
  pub boot_fb_height : ℕ
  pub boot_fb_sz : ℕ
  pub fb_cursor_x : ℕ
  pub fb_cursor_y : ℕ
  pub max_ch_nr_x : ℕ
  pub max_ch_nr_y : ℕ
  pub font_width : ℕ
  pub font_height : ℕ
  pub font_width_bytes : ℕ
  pub bytes_per_glyph : ℕ
  pub glyph_nr : ℕ
  pub glyph_table : ℕ → ℕ
  pub pixel : ℕ → ℕ
  pub com_base : ℕ
  pub output : Output
  pub io : List Out

-- `for (i = first; i < first + rounds; i++) body`
abbrev pub for_each {ℓ} : {A : Type ℓ} → (rounds first : ℕ) → (ℕ → A → A) → A → A
for_each zero i body a = a
for_each (suc rounds) i body a = for_each rounds (i + 1) body (body i a)

abbrev pub set_pixel : (loc colour : ℕ) → (ℕ → ℕ) → ℕ → ℕ
set_pixel loc colour pixel i = if i == loc then colour else pixel i

-- The two loops of `boot_putchar_fb_new_line` that scroll up by a line of text.
unfoldable pub scroll_up : (bg : ℕ) → Tty → (ℕ → ℕ) → ℕ → ℕ
scroll_up bg t pixel =
    let w = t.boot_fb_width in
    let h = t.font_height in
    let text_lines = (t.max_ch_nr_y + 2 ^ 32 - 1) % 2 ^ 32 * h % 2 ^ 32 in
    let moved =
      for_each text_lines 0
        (λ y.
          for_each w 0 (λ x p. set_pixel ((x + y * w) % 2 ^ 32) (p ((x + (y + h) * w) % 2 ^ 32)) p))
        pixel in
    for_each h 0 (λ y. for_each w 0 (λ x p. set_pixel ((y + text_lines) % 2 ^ 32 * w + x) bg p))
      moved

-- `boot_putchar_fb_new_line`
unfoldable pub boot_putchar_fb_new_line : (bg : ℕ) → Tty → Tty
boot_putchar_fb_new_line bg t =
    let y = (t.fb_cursor_y + 1) % 2 ^ 32 in
    let t₁ = record t { fb_cursor_x = 0; fb_cursor_y = y } in
    if leb t.max_ch_nr_y y
    then record t₁ { pixel = scroll_up bg t t.pixel; fb_cursor_y = (y + 2 ^ 32 - 1) % 2 ^ 32 }
    else t₁

-- A row of a glyph in `boot_putchar_fb`, with the mask that selects the bit of each column.
unfoldable pub draw_row : (row loc fg bg : ℕ) → Tty → (ℕ → ℕ) → ℕ → ℕ
draw_row row loc fg bg t pixel =
    (for_each t.font_width 0
      (λ ch_x (mask, p).
        let bit = bit_and (t.glyph_table (row + ch_x / 8)) mask in
        let p₁ = set_pixel (loc + ch_x) (if bit == 0 then bg else fg) p in
        (if ch_x % 8 == 0 then 2 ^ 7 else mask / 2, p₁))
      (2 ^ 7, pixel)).1

-- `boot_putchar_fb`
unfoldable pub boot_putchar_fb : (ch fg bg : ℕ) → Tty → Tty
unfolding draw_row boot_putchar_fb_new_line
boot_putchar_fb ch fg bg t =
    let glyph = if ltb ch t.glyph_nr then ch * t.bytes_per_glyph % 2 ^ 32 else 0 in
    let loc =
      t.fb_cursor_y * t.font_height * t.boot_fb_width % 2 ^ 32
      + t.fb_cursor_x * t.font_width % 2 ^ 32 in
    let drawn =
      for_each t.font_height 0
        (λ ch_y.
          draw_row (glyph + ch_y * t.font_width_bytes) (loc + ch_y * t.boot_fb_width % 2 ^ 32) fg bg
            t)
        t.pixel in
    let x = (t.fb_cursor_x + 1) % 2 ^ 32 in
    let t₁ = record t { pixel = drawn; fb_cursor_x = x } in
    if leb t.max_ch_nr_x x then boot_putchar_fb_new_line bg t₁ else t₁

-- `boot_clear_screen_internal_fb`
unfoldable pub boot_clear_screen_internal_fb : Tty → Tty
boot_clear_screen_internal_fb t =
    let w = t.boot_fb_width in
    record t {
      pixel =
          for_each t.boot_fb_height 0
            (λ y. for_each w 0 (λ x p. set_pixel ((y * w + x) % 2 ^ 32) 0 p)) t.pixel;
    }

unfoldable pub boot_cursor_back_fb : Tty → Tty
boot_cursor_back_fb t = record t { fb_cursor_x = 0 }

unfoldable pub boot_back_space_fb : Tty → Tty
boot_back_space_fb t =
    if ltb 0 t.fb_cursor_x then record t { fb_cursor_x = t.fb_cursor_x - 1 } else t

-- The `space_nr` of `boot_putchar_tab_fb`. A negative `left_ch_nr`, here one from 2 ^ 31 on, puts no
-- space.
abbrev pub tab_space_nr : Tty → ℕ
tab_space_nr t =
    let left_ch_nr = (t.max_ch_nr_x + 2 ^ 33 - t.fb_cursor_x - 1) % 2 ^ 32 in
    if leb (2 ^ 31) left_ch_nr then 0 else if ltb 8 left_ch_nr then 8 else left_ch_nr

abbrev pub put_space : ℕ → Tty → Tty
put_space i = boot_putchar_fb 0x20 0xffffff 0

-- `boot_putchar_tab_fb`
unfoldable pub boot_putchar_tab_fb : Tty → Tty
boot_putchar_tab_fb t = for_each (tab_space_nr t) 0 put_space t

abbrev pub outb : (port value : ℕ) → Tty → Tty
outb port value t = record t { io = t.io ++ (record { port = port; value = value % 2 ^ 8 } ∷ []) }

-- `boot_putchar_com`
unfoldable pub boot_putchar_com : ℕ → Tty → Tty
boot_putchar_com ch t = outb t.com_base ch t

-- The loop at the start of `boot_putchar_com`; `line i` is what reading `i` of the line status register
-- gives, and the result is the number of the next reading. `none` is for want of fuel.
unfoldable pub wait_for_port : (fuel : ℕ) → (line : ℕ → ℕ) → (i : ℕ) → Option ℕ
wait_for_port zero line i = none
wait_for_port (suc fuel) line i =
    let rest = wait_for_port fuel line (i + 1) in
    let res = line i % 2 ^ 8 in if bit_and res 0x20 == 0 then rest else some (i + 1)

unfoldable pub send_behind : Option ℕ → (ch : ℕ) → Tty → Option (ℕ × Tty)
unfolding boot_putchar_com
send_behind none ch t = none
send_behind (some next) ch t = some (next, boot_putchar_com ch t)

-- `boot_putchar_com` with its wait, from reading `i` on; `inb port i` is what that reading of `port` gives.
unfoldable pub boot_putchar_com_from :
    (fuel : ℕ) → (inb : ℕ → ℕ → ℕ) → (i : ℕ) → (ch : ℕ) → Tty → Option (ℕ × Tty)
unfolding wait_for_port send_behind
boot_putchar_com_from fuel inb i ch t =
    send_behind (wait_for_port fuel (inb (t.com_base + com_reg_lsr)) i) ch t

-- `boot_clear_screen_internal_com`
unfoldable pub boot_clear_screen_internal_com : Tty → Tty
unfolding boot_putchar_com
boot_clear_screen_internal_com t =
    let clear = λ (t : Tty).
      boot_putchar_com 0x4A
        (boot_putchar_com 0x32 (boot_putchar_com 0x5B (boot_putchar_com 0x1B t))) in
    clear (clear t)

-- The writes of `boot_init_com_internal`, and its result, 0 or -1, as a Boolean; `inb` is what the
-- ports read as at the end of the loopback test.
unfoldable pub boot_init_com_internal : (inb : ℕ → ℕ) → (base_port : ℕ) → Tty → Bool × Tty
boot_init_com_internal inb base_port t =
    let mode = bit_or com_lcr_db_wlen_8 (bit_or com_lcr_sb_one com_lcr_dlab_off) in
    let fifo =
      bit_or com_fcr_itlb_tl_14 (bit_or com_fcr_ctfb_on (bit_or com_fcr_crfb_on com_fcr_efb_on)) in
    let irqs = bit_or com_mcr_out2_on (bit_or com_mcr_rtsb_on com_mcr_dtrb_on) in
    let loopback =
      bit_or com_mcr_lb_on (bit_or com_mcr_out2_on (bit_or com_mcr_out1_on com_mcr_rtsb_on)) in
    let normal =
      bit_or com_mcr_out2_on (bit_or com_mcr_out1_on (bit_or com_mcr_rtsb_on com_mcr_dtrb_on)) in
    let t₁ = outb (base_port + com_reg_ier) 0x00 t in
    let t₂ = outb (base_port + com_reg_lcr) com_lcr_dlab_on t₁ in
    let t₃ = outb (base_port + com_reg_dll) 0x03 t₂ in
    let t₄ = outb (base_port + com_reg_dlm) 0x00 t₃ in
    let t₅ = outb (base_port + com_reg_lcr) mode t₄ in
    let t₆ = outb (base_port + com_reg_fcr) fifo t₅ in
    let t₇ = outb (base_port + com_reg_mcr) irqs t₆ in
    let t₈ = outb (base_port + com_reg_mcr) loopback t₇ in
    let t₉ = outb (base_port + com_reg_tx) 0x61 t₈ in
    if inb (base_port + com_reg_rx) % 2 ^ 8 == 0x61
    then (true, outb (base_port + com_reg_mcr) normal t₉)
    else (false, t₉)

-- `boot_init_com`
unfoldable pub boot_init_com : (inb : ℕ → ℕ) → Tty → Bool × Tty
unfolding boot_init_com_internal
boot_init_com inb t =
    let (ok1, t₁) = boot_init_com_internal inb com1_base t in
    let (ok2, t₂) = boot_init_com_internal inb com2_base t₁ in
    if ok1
    then (true, record t₁ { com_base = com1_base })
    else if ok2
    then (true, record t₂ { com_base = com2_base })
    else (false, t₂)

-- `boot_cursor_back_*`, `boot_back_space_*`, `boot_putchar_tab_*`, `boot_put_new_line_*` and
-- `boot_putchar_*` behind the function pointers.
unfoldable pub boot_cursor_back : Output → Tty → Tty
boot_cursor_back default t = boot_putchar_com 0x0D t
boot_cursor_back no_fb t = boot_putchar_com 0x0D t
boot_cursor_back no_com t = boot_cursor_back_fb t

unfoldable pub boot_back_space : Output → Tty → Tty
boot_back_space default t = boot_putchar_com 0x08 (boot_back_space_fb t)
boot_back_space no_fb t = boot_putchar_com 0x08 t
boot_back_space no_com t = boot_back_space_fb t

unfoldable pub boot_putchar_tab : Output → Tty → Tty
boot_putchar_tab default t = boot_putchar_com 0x09 (boot_putchar_tab_fb t)
boot_putchar_tab no_fb t = boot_putchar_com 0x09 t
boot_putchar_tab no_com t = boot_putchar_tab_fb t

unfoldable pub boot_put_new_line : Output → Tty → Tty
boot_put_new_line default t = boot_putchar_com 0x0A (boot_putchar_fb_new_line 0 t)
boot_put_new_line no_fb t = boot_putchar_com 0x0A t
boot_put_new_line no_com t = boot_putchar_fb_new_line 0 t

unfoldable pub boot_put_glyph : Output → (ch : ℕ) → Tty → Tty
boot_put_glyph default ch t = boot_putchar_com ch (boot_putchar_fb ch 0xffffff 0 t)
boot_put_glyph no_fb ch t = boot_putchar_com ch t
boot_put_glyph no_com ch t = boot_putchar_fb ch 0xffffff 0 t

-- `boot_putchar`
unfoldable pub boot_putchar : (ch : ℕ) → Tty → Tty
boot_putchar ch t =
    if ch == 0x0D
    then boot_cursor_back t.output t
    else if ch == 0x08
    then boot_back_space t.output t
    else if ch == 0x09
    then boot_putchar_tab t.output t
    else if ch == 0x0A
    then boot_put_new_line t.output t
    else boot_put_glyph t.output ch t

-- A signed `char` as the `uint16_t` that `boot_putchar` takes.
abbrev pub char_to_u16 : ℕ → ℕ
char_to_u16 c = if ltb c 0x80 then c else c + 0xFF00

-- `boot_printstr` of the bytes before the final NUL, and `boot_puts`
unfoldable pub boot_printstr : List ℕ → Tty → Tty
boot_printstr [] t = t
boot_printstr (c ∷ str) t = boot_printstr str (boot_putchar (char_to_u16 c) t)

unfoldable pub boot_puts : List ℕ → Tty → Tty
boot_puts str t = boot_putchar 0x0A (boot_printstr str t)

-- The digit loops of `boot_printnum` and `boot_printhex`, which fill `n_str` from its end.
unfoldable pub num_loop : (fuel n : ℕ) → (n_str : List ℕ) → Option (List ℕ)
num_loop zero n n_str = none
num_loop (suc fuel) n n_str =
    let n_str₁ = (n % 10 + 0x30) ∷ n_str in
    let rest = num_loop fuel (n / 10) n_str₁ in if ltb 0 (n / 10) then rest else some n_str₁

abbrev pub hex_char : ℕ → ℕ
hex_char curr = if leb 10 curr then curr - 10 + 0x61 else curr + 0x30

unfoldable pub hex_loop : (fuel n : ℕ) → (n_str : List ℕ) → Option (List ℕ)
hex_loop zero n n_str = none
hex_loop (suc fuel) n n_str =
    let n_str₁ = hex_char (n % 16) ∷ n_str in
    let rest = hex_loop fuel (n / 16) n_str₁ in if ltb 0 (n / 16) then rest else some n_str₁

-- `boot_printnum` of an `int64_t` in two's complement. For the least one `-n` overflows, which C
-- leaves undefined.
unfoldable pub boot_printnum : (n : ℕ) → Tty → Option Tty
boot_printnum n t =
    if n == 2 ^ 63
    then none
    else if leb (2 ^ 63) n
    then elim (num_loop 29 (2 ^ 64 - n) []) [
      | none ↦ none
      | some n_str ↦ some (boot_printstr n_str (boot_putchar 0x2D t))
    ]
    else elim (num_loop 29 n []) [ none ↦ none | some n_str ↦ some (boot_printstr n_str t) ]

-- `boot_printhex`
unfoldable pub boot_printhex : (n : ℕ) → Tty → Option Tty
boot_printhex n t = elim (hex_loop 29 n []) [
  | none ↦ none
  | some n_str ↦ some (boot_printstr n_str t)
]

-- `boot_clear_screen`: nothing points `internal_boot_clear_screen` away from its default.
unfoldable pub boot_clear_screen : Tty → Tty
boot_clear_screen t = boot_clear_screen_internal_com (boot_clear_screen_internal_fb t)
