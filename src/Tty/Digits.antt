-- ===== src/Tty/Digits.antt =====
-- The digits that the console prints stand for the number.
use closure_os.Base.{
  ℕ, zero, suc, ◌+◌, ◌-◌, ◌*◌, ◌/◌, ◌%◌, ◌^◌, ◌≤◌, ◌<◌, ◌≡◌, ◌≢◌, Bool, refl, ap, ◌∙◌, true, false,
  Option, none, some, List, [], ◌∷◌, length, ◌==◌, ltb, leb, if◌then◌else◌, Bool-cases, inl, inr,
  arith,
}
use closure_os.Tty.{
  hex_char, Tty, num_loop, hex_loop, boot_printnum, boot_printhex, boot_printstr, boot_putchar,
}

-- Reading a number in decimal or hexadecimal, the first digit first.
abbrev pub read_num : (n : ℕ) → List ℕ → Option ℕ
read_num n [] = some n
read_num n (c ∷ str) =
    let rest = read_num (n * 10 + (c - 0x30)) str in
    if ltb c 0x30 then none else if ltb 0x39 c then none else rest

abbrev pub read_hex : (n : ℕ) → List ℕ → Option ℕ
read_hex n [] = some n
read_hex n (c ∷ str) =
    let rest = λ (d : ℕ). read_hex (n * 16 + d) str in
    if ltb c 0x30
    then none
    else if ltb c 0x3A
    then rest (c - 0x30)
    else if ltb c 0x61
    then none
    else if ltb c 0x67
    then rest (c - 0x61 + 10)
    else none

read_num-digit :
    (m n : ℕ) (str : List ℕ) → read_num m ((n % 10 + 0x30) ∷ str) ≡ read_num (m * 10 + n % 10) str
read_num-digit m n str =
    let low : ltb (n % 10 + 0x30) 0x30 ≡ false = ground arith in
    let high : ltb 0x39 (n % 10 + 0x30) ≡ false = ground arith in
    rw (low, high) (ap (λ (d : ℕ). read_num d str) (omega arith))

read_hex-digit :
    (m n : ℕ) (str : List ℕ) → read_hex m (hex_char (n % 16) ∷ str) ≡ read_hex (m * 16 + n % 16) str
read_hex-digit m n str = elim (Bool-cases (leb 10 (n % 16))) [
  | inl letter ↦
      let at_least : ltb (n % 16 - 10 + 0x61) 0x30 ≡ false = ground arith in
      let no_digit : ltb (n % 16 - 10 + 0x61) 0x3A ≡ false = ground arith in
      let from_a : ltb (n % 16 - 10 + 0x61) 0x61 ≡ false = ground arith in
      let to_f : ltb (n % 16 - 10 + 0x61) 0x67 ≡ true = ground arith in
      rw (letter, at_least, no_digit, from_a, to_f) (ap (λ (d : ℕ). read_hex d str) (ground arith))
  | inr digit ↦
      let at_least : ltb (n % 16 + 0x30) 0x30 ≡ false = ground arith in
      let is_digit : ltb (n % 16 + 0x30) 0x3A ≡ true = ground arith in
      rw (digit, at_least, is_digit) (ap (λ (d : ℕ). read_hex d str) (omega arith))
]

-- The loop makes a numeral that reads as `n`, of one digit more than `k` at most.
num_loop_lem :
    (k fuel n : ℕ) (str : List ℕ)
    → k ≤ fuel
    → n < 10 ^ suc k
    → (s : List ℕ) × (num_loop (suc fuel) n str ≡ some s)
      × (read_num 0 s ≡ read_num n str)
      × (length s ≤ suc k + length str)
unfolding num_loop
num_loop_lem zero fuel n str le h =
    let last : ltb 0 (n / 10) ≡ false = ground arith in
    (
      (n % 10 + 0x30) ∷ str,
      rw last refl,
      read_num-digit 0 n str ∙ ap (λ (d : ℕ). read_num d str) (omega arith),
      omega arith,
    )
num_loop_lem (suc k) zero n str le h = elim le [ ]
num_loop_lem (suc k) (suc fuel) n str le h = elim (Bool-cases (ltb 0 (n / 10))) [
  | inl more ↦
      let power : 10 ^ suc (suc k) ≡ 10 ^ suc k * 10 = omega arith in
      let (s, run, read, short) =
        num_loop_lem k fuel (n / 10) ((n % 10 + 0x30) ∷ str) (omega arith) (omega arith) in
      (
        s,
        rw more run,
        read ∙ read_num-digit (n / 10) n str ∙ ap (λ (d : ℕ). read_num d str) (omega arith),
        omega arith,
      )
  | inr last ↦
      let small : n < 10 = ground arith in
      (
        (n % 10 + 0x30) ∷ str,
        rw last refl,
        read_num-digit 0 n str ∙ ap (λ (d : ℕ). read_num d str) (omega arith),
        omega arith,
      )
]

hex_loop_lem :
    (k fuel n : ℕ) (str : List ℕ)
    → k ≤ fuel
    → n < 16 ^ suc k
    → (s : List ℕ) × (hex_loop (suc fuel) n str ≡ some s)
      × (read_hex 0 s ≡ read_hex n str)
      × (length s ≤ suc k + length str)
unfolding hex_loop
hex_loop_lem zero fuel n str le h =
    let last : ltb 0 (n / 16) ≡ false = ground arith in
    (
      hex_char (n % 16) ∷ str,
      rw last refl,
      read_hex-digit 0 n str ∙ ap (λ (d : ℕ). read_hex d str) (omega arith),
      omega arith,
    )
hex_loop_lem (suc k) zero n str le h = elim le [ ]
hex_loop_lem (suc k) (suc fuel) n str le h = elim (Bool-cases (ltb 0 (n / 16))) [
  | inl more ↦
      let power : 16 ^ suc (suc k) ≡ 16 ^ suc k * 16 = omega arith in
      let (s, run, read, short) =
        hex_loop_lem k fuel (n / 16) (hex_char (n % 16) ∷ str) (omega arith) (omega arith) in
      (
        s,
        rw more run,
        read ∙ read_hex-digit (n / 16) n str ∙ ap (λ (d : ℕ). read_hex d str) (omega arith),
        omega arith,
      )
  | inr last ↦
      let small : n < 16 = ground arith in
      (
        hex_char (n % 16) ∷ str,
        rw last refl,
        read_hex-digit 0 n str ∙ ap (λ (d : ℕ). read_hex d str) (omega arith),
        omega arith,
      )
]

abbrev is_minus : ℕ → Bool
is_minus n = leb (2 ^ 63) n

-- `boot_printnum` of a 64-bit word, other than that of the least number, prints a minus sign if the
-- word stands for a negative number, and then a decimal numeral that reads as the number's absolute
-- value, of 19 characters at most, so that it fits the buffer.
pub boot_printnum_lem :
    (n : ℕ) (t : Tty)
    → n < 2 ^ 64
    → n ≢ 2 ^ 63
    → (s : List ℕ) × (boot_printnum n t
        ≡ some (boot_printstr s (if is_minus n then boot_putchar 0x2D t else t)))
      × (read_num 0 s ≡ some (if is_minus n then 2 ^ 64 - n else n))
      × (length s ≤ 19)
unfolding boot_printnum
boot_printnum_lem n t h ne =
    let not_min : (n == 2 ^ 63) ≡ false = ground arith in
    elim (Bool-cases (is_minus n)) [
      | inl minus ↦
          let (s, run, read, short) =
            num_loop_lem 18 28 (2 ^ 64 - n) [] (omega arith) (ground arith) in
          (s, rw (not_min, minus, run) refl, rw minus read, short)
      | inr plus ↦
          let (s, run, read, short) = num_loop_lem 18 28 n [] (omega arith) (ground arith) in
          (s, rw (not_min, plus, run) refl, rw plus read, short)
    ]

-- `boot_printhex` of a 64-bit word prints a hexadecimal numeral that reads as the word, of 16
-- characters at most, so that it fits the buffer.
pub boot_printhex_lem :
    (n : ℕ) (t : Tty)
    → n < 2 ^ 64
    → (s : List ℕ) × (boot_printhex n t ≡ some (boot_printstr s t))
      × (read_hex 0 s ≡ some n)
      × (length s ≤ 16)
unfolding boot_printhex
boot_printhex_lem n t h =
    let (s, run, read, short) = hex_loop_lem 15 28 n [] (ground arith) (omega arith) in
    (s, rw (boot_printhex, run) refl, read, short)
