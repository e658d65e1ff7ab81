-- ===== src/Tty/Serial.antt =====
-- What the console sends to the serial port.
use mathlib.Core.List.{append-nil, append_assoc}
use closure_os.Base.{
  ℕ, zero, suc, ◌+◌, ◌%◌, ◌^◌, ◌≡◌, ◌≢◌, refl, sym, ap, ◌∙◌, List, [], ◌∷◌, ◌++◌, ◌==◌, leb,
  if◌then◌else◌, Bool-cases, inl, inr, arith,
}
use closure_os.Tty.{
  put_space, tab_space_nr, Out, Tty, Output, default, no_fb, no_com, for_each,
  boot_putchar_fb_new_line, boot_putchar_fb, boot_back_space_fb, boot_putchar_tab_fb,
  boot_putchar_com, boot_cursor_back, boot_back_space, boot_putchar_tab, boot_put_new_line,
  boot_put_glyph, boot_putchar, boot_printstr, char_to_u16,
}

-- The port that the console sends to, where it sends, and what it sent.
abbrev Line : Type 0
Line = Output × ℕ × List Out

abbrev line : Tty → Line
line t = (t.output, t.com_base, t.io)

new_line-line : (bg : ℕ) (t : Tty) → line (boot_putchar_fb_new_line bg t) ≡ line t
unfolding boot_putchar_fb_new_line
new_line-line bg t = ground arith

putchar_fb-line : (ch fg bg : ℕ) (t : Tty) → line (boot_putchar_fb ch fg bg t) ≡ line t
unfolding boot_putchar_fb
putchar_fb-line ch fg bg t = elim (Bool-cases (leb t.max_ch_nr_x ((t.fb_cursor_x + 1) % 2 ^ 32))) [
  | inl last ↦ rw last (new_line-line bg _)
  | inr more ↦ rw more refl
]

back_space-line : (t : Tty) → line (boot_back_space_fb t) ≡ line t
unfolding boot_back_space_fb
back_space-line t = ground arith

spaces-line : (n i : ℕ) (t : Tty) → line (for_each n i put_space t) ≡ line t
spaces-line zero i t = refl
spaces-line (suc n) i t = spaces-line n (i + 1) (put_space i t) ∙ putchar_fb-line 0x20 0xffffff 0 t

tab-line : (t : Tty) → line (boot_putchar_tab_fb t) ≡ line t
unfolding boot_putchar_tab_fb
tab-line t = spaces-line (tab_space_nr t) 0 t

-- The line after a byte is sent.
abbrev sent : (ch : ℕ) → Line → Line
sent ch (o, base, io) = (o, base, io ++ (record { port = base; value = ch % 2 ^ 8 } ∷ []))

com-line : (ch : ℕ) (t : Tty) → line (boot_putchar_com ch t) ≡ sent ch (line t)
unfolding boot_putchar_com
com-line ch t = refl

com_after :
    (ch : ℕ) (t t' : Tty) → line t' ≡ line t → line (boot_putchar_com ch t') ≡ sent ch (line t)
com_after ch t t' e = com-line ch t' ∙ ap (sent ch) e

abbrev Sends : (t : Tty) (ch : ℕ) → Tty → Type 0
Sends t ch t' = line t' ≡ sent ch (line t)

cursor_back-Sends : (o : Output) (t : Tty) → o ≢ no_com → Sends t 0x0D (boot_cursor_back o t)
unfolding boot_cursor_back
cursor_back-Sends default t has_com = com-line _ t
cursor_back-Sends no_fb t has_com = com-line _ t
cursor_back-Sends no_com t has_com = elim (has_com refl) [ ]

back_space-Sends : (o : Output) (t : Tty) → o ≢ no_com → Sends t 0x08 (boot_back_space o t)
unfolding boot_back_space
back_space-Sends default t has_com = com_after _ t _ (back_space-line t)
back_space-Sends no_fb t has_com = com-line _ t
back_space-Sends no_com t has_com = elim (has_com refl) [ ]

tab-Sends : (o : Output) (t : Tty) → o ≢ no_com → Sends t 0x09 (boot_putchar_tab o t)
unfolding boot_putchar_tab
tab-Sends default t has_com = com_after _ t _ (tab-line t)
tab-Sends no_fb t has_com = com-line _ t
tab-Sends no_com t has_com = elim (has_com refl) [ ]

new_line-Sends : (o : Output) (t : Tty) → o ≢ no_com → Sends t 0x0A (boot_put_new_line o t)
unfolding boot_put_new_line
new_line-Sends default t has_com = com_after _ t _ (new_line-line 0 t)
new_line-Sends no_fb t has_com = com-line _ t
new_line-Sends no_com t has_com = elim (has_com refl) [ ]

glyph-Sends : (o : Output) (ch : ℕ) (t : Tty) → o ≢ no_com → Sends t ch (boot_put_glyph o ch t)
unfolding boot_put_glyph
glyph-Sends default ch t has_com = com_after _ t _ (putchar_fb-line ch _ _ t)
glyph-Sends no_fb ch t has_com = com-line _ t
glyph-Sends no_com ch t has_com = elim (has_com refl) [ ]

-- A test for `c` that picks what sends `c`.
pick :
    (t : Tty) (ch c : ℕ) (u v : Tty)
    → Sends t c u
    → Sends t ch v
    → Sends t ch (if ch == c then u else v)
pick t ch c u v hu hv = elim (Bool-cases (ch == c)) [
  | inl same ↦ rw same (hu ∙ ap (λ (b : ℕ). sent b (line t)) (ground arith))
  | inr other ↦ rw other hv
]

putchar-Sends : (ch : ℕ) (t : Tty) → t.output ≢ no_com → Sends t ch (boot_putchar ch t)
unfolding boot_putchar
putchar-Sends ch t has_com =
    let o = t.output in
    pick t ch 0x0D _ _ (cursor_back-Sends o t has_com) (
      pick t ch 0x08 _ _ (back_space-Sends o t has_com) (
        pick t ch 0x09 _ _ (tab-Sends o t has_com)
          (pick t ch 0x0A _ _ (new_line-Sends o t has_com) (glyph-Sends o ch t has_com))))

-- Every byte goes to the port, control characters as they are.
abbrev pub bytes : (base : ℕ) → List ℕ → List Out
bytes base [] = []
bytes base (c ∷ str) = record { port = base; value = char_to_u16 c % 2 ^ 8 } ∷ bytes base str

printstr-line :
    (str : List ℕ) (t : Tty)
    → t.output ≢ no_com
    → line (boot_printstr str t) ≡ (t.output, t.com_base, t.io ++ bytes t.com_base str)
unfolding boot_printstr
printstr-line [] t has_com =
    ap (λ (io : List Out). (t.output, t.com_base, io)) (sym (append-nil t.io))
printstr-line (c ∷ str) t has_com =
    let t₁ = boot_putchar (char_to_u16 c) t in
    let step = putchar-Sends (char_to_u16 c) t has_com in
    let has_com₁ : t₁.output ≢ no_com = λ e. has_com (sym (ap (λ (l : Line). l.0) step) ∙ e) in
    printstr-line str t₁ has_com₁
    ∙ ap (λ (l : Line). (l.0, l.1, l.2 ++ bytes l.1 str)) step
    ∙ ap (λ (io : List Out). (t.output, t.com_base, io))
        (append_assoc t.io _ (bytes t.com_base str))

-- With a serial port in use, with or without a frame buffer, `boot_printstr` sends the bytes of the
-- string to that port, all of them, in order and after what was sent before, and nothing else.
pub boot_printstr_sends :
    (str : List ℕ) (t : Tty)
    → t.output ≢ no_com
    → (boot_printstr str t).io ≡ t.io ++ bytes t.com_base str
boot_printstr_sends str t has_com = ap (λ (l : Line). l.2) (printstr-line str t has_com)
