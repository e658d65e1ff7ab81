-- ===== src/Tty/Wait.antt =====
-- The wait of `boot_putchar_com` of src/arch/x86/boot/boot_tty.c for the serial port.
use closure_os.Base.{
  ℕ, zero, suc, ◌+◌, ◌%◌, ◌^◌, ◌≤◌, ◌<◌, ◌≡◌, refl, ap, Bool, ◌∙◌, true, false, bit_and, Option,
  none, some, ◌==◌, Bool-cases, inl, inr, ◌⊎◌, ℕ_discrete, arith,
}
use closure_os.Com.{com_reg_lsr}
use closure_os.Tty.{Tty, boot_putchar_com, wait_for_port, boot_putchar_com_from, send_behind}

-- Reading `i` of the line status register tells that the port is busy.
abbrev pub is_busy : (ℕ → ℕ) → ℕ → Bool
is_busy line i = bit_and (line i % 2 ^ 8) 0x20 == 0

-- The port is busy at the `d` readings from `i` on.
abbrev pub IsBusyFor : (ℕ → ℕ) → (i d : ℕ) → Type 0
IsBusyFor line i d = (j : ℕ) → i ≤ j → j < i + d → is_busy line j ≡ true

IsBusyFor-suc :
    (line : ℕ → ℕ) (i d : ℕ)
    → is_busy line i ≡ true
    → IsBusyFor line (i + 1) d
    → IsBusyFor line i (suc d)
IsBusyFor-suc line i d here later j from below = elim (ℕ_discrete j i) [
  | yes same ↦ rw same here
  | no other ↦ later j (omega arith) (omega arith)
]

-- How a loop that begins at reading `i` and has `fuel` ends.
abbrev pub WaitsFor : (ℕ → ℕ) → (i fuel : ℕ) → Option ℕ → Type 0
WaitsFor line i fuel out =
    (IsBusyFor line i fuel × (out ≡ none))
    ⊎ ((d : ℕ) × (d < fuel)
        × IsBusyFor line i d
        × (is_busy line (i + d) ≡ false)
        × (out ≡ some (i + d + 1)))

wait_for_port_lem :
    (fuel : ℕ) (line : ℕ → ℕ) (i : ℕ) → WaitsFor line i fuel (wait_for_port fuel line i)
unfolding wait_for_port
wait_for_port_lem zero line i = inl ((λ j from below. absurd (omega arith)), refl)
wait_for_port_lem (suc fuel) line i = elim (Bool-cases (is_busy line i)) [
  | inr ready ↦
      let e : i + 0 ≡ i = omega arith in
      inr (
        0,
        omega arith,
        (λ j from below. absurd (omega arith)),
        rw e ready,
        rw ready (ap (λ (n : ℕ). some n) (omega arith)),
      )
  | inl busy ↦ elim (wait_for_port_lem fuel line (i + 1)) [
    | inl (later, out) ↦ inl (IsBusyFor-suc line i fuel busy later, rw busy out)
    | inr (d, less, later, ready, out) ↦
        let e : i + 1 + d ≡ i + suc d = omega arith in
        inr (
          suc d,
          omega arith,
          IsBusyFor-suc line i d busy later,
          rw (← e) ready,
          rw busy (out ∙ ap (λ (n : ℕ). some n) (omega arith)),
        )
  ]
]

-- `boot_putchar_com` reads the line status register until it finds the port ready. If that is not so
-- within as many readings as there is fuel, all of them have found it busy, and nothing is sent.
-- Otherwise it returns behind the first reading that finds it ready, with its byte sent.
pub boot_putchar_com_lem :
    (fuel : ℕ) (inb : ℕ → ℕ → ℕ) (i ch : ℕ) (t : Tty)
    → let line = inb (t.com_base + com_reg_lsr) in
      (IsBusyFor line i fuel × (boot_putchar_com_from fuel inb i ch t ≡ none))
      ⊎ ((d : ℕ) × (d < fuel)
          × IsBusyFor line i d
          × (is_busy line (i + d) ≡ false)
          × (boot_putchar_com_from fuel inb i ch t ≡ some (i + d + 1, boot_putchar_com ch t)))
unfolding boot_putchar_com_from send_behind
boot_putchar_com_lem fuel inb i ch t =
    elim (wait_for_port_lem fuel (inb (t.com_base + com_reg_lsr)) i) [
      | inl (busy, out) ↦ inl (busy, ap (λ (o : Option ℕ). send_behind o ch t) out)
      | inr (d, less, busy, ready, out) ↦
          inr (d, less, busy, ready, ap (λ (o : Option ℕ). send_behind o ch t) out)
    ]
