-- ===== src/BootStart/Main.antt =====
-- `boot_main` of src/arch/x86/boot/boot_main.cpp: the boot stage from the start of its C code to the call
-- of the kernel's `main`.
use closure_os.Base.{ℕ, Option, none, some, List, [], ◌∷◌, if◌then◌else◌}
use closure_os.Kernel.{Kernel}
use closure_os.Tty.{Tty, default, no_fb, no_com, boot_puts}
use closure_os.Tty.Init.{Psf2Font, MultibootTag, boot_tty_init}
use closure_os.PageTable.{Boot}
use closure_os.PageTable.Init.{KernelMap}
use closure_os.BootMain.{boot_pgtable_init}
use closure_os.BootStart.{
  InfoTag, Started, missing_tag, initialized, no_database, wild_write, boot_halted, boot_unfinished,
  boot_mm_init,
}

abbrev pub tty_done_text : List ℕ
tty_done_text =
    0x5b ∷ 0x2b ∷ 0x5d ∷ 0x20 ∷ 0x62 ∷ 0x6f ∷ 0x6f ∷ 0x74 ∷ 0x69 ∷ 0x6e ∷ 0x67 ∷ 0x2d ∷ 0x73 ∷ 0x74
    ∷ 0x61 ∷ 0x67 ∷ 0x65 ∷ 0x20 ∷ 0x74 ∷ 0x74 ∷ 0x79 ∷ 0x20 ∷ 0x69 ∷ 0x6e ∷ 0x69 ∷ 0x74 ∷ 0x69
    ∷ 0x61 ∷ 0x6c ∷ 0x69 ∷ 0x7a ∷ 0x61 ∷ 0x74 ∷ 0x69 ∷ 0x6f ∷ 0x6e ∷ 0x20 ∷ 0x64 ∷ 0x6f ∷ 0x6e
    ∷ 0x65 ∷ 0x2e ∷ []

abbrev pub memory_done_text : List ℕ
memory_done_text =
    0x5b ∷ 0x2b ∷ 0x5d ∷ 0x20 ∷ 0x62 ∷ 0x6f ∷ 0x6f ∷ 0x74 ∷ 0x69 ∷ 0x6e ∷ 0x67 ∷ 0x2d ∷ 0x73 ∷ 0x74
    ∷ 0x61 ∷ 0x74 ∷ 0x65 ∷ 0x20 ∷ 0x6d ∷ 0x65 ∷ 0x6d ∷ 0x6f ∷ 0x72 ∷ 0x79 ∷ 0x20 ∷ 0x69 ∷ 0x6e
    ∷ 0x69 ∷ 0x74 ∷ 0x69 ∷ 0x61 ∷ 0x6c ∷ 0x69 ∷ 0x7a ∷ 0x61 ∷ 0x74 ∷ 0x69 ∷ 0x6f ∷ 0x6e ∷ 0x20
    ∷ 0x64 ∷ 0x6f ∷ 0x6e ∷ 0x65 ∷ 0x2e ∷ []

-- How `boot_main` ends: in a halt without a console or for want of a tag; at the call of `main`, with the
-- memory set up or, on an empty memory map, past an error of `boot_mm_pgtable_init` that nothing
-- notices; with the write of `boot_mm_init` through a pointer that leads nowhere; or in a halt of it.
pub data Booted : Type 0 where
  no_console : Booted
  no_memory : Booted
  unnoticed : (errno : ℕ) → Tty → Boot → Booted
  entered : (boot_pud : ℕ → ℕ) → Tty → KernelMap → Boot → Kernel → Booted
  lost : Booted
  stopped : Booted

-- `boot_tty_has_fb`, with the frame buffer
unfoldable pub frame_buffer_of : Tty → Option (ℕ × ℕ)
frame_buffer_of t = elim t.output [
  | default ↦ some (t.boot_fb_base, t.boot_fb_end)
  | no_fb ↦ none
  | no_com ↦ some (t.boot_fb_base, t.boot_fb_end)
]

-- `boot_main` behind `boot_mm_init`, less the messages of an error
unfoldable pub enter : (boot_pud : ℕ → ℕ) → Tty → Started → Booted
enter boot_pud t missing_tag = no_memory
enter boot_pud t (initialized m b s) = entered boot_pud (boot_puts memory_done_text t) m b s
enter boot_pud t (no_database errno b) = unnoticed errno (boot_puts memory_done_text t) b
enter boot_pud t (wild_write errno b) = lost
enter boot_pud t boot_halted = stopped
enter boot_pud t boot_unfinished = stopped

-- `boot_main` up to its call of `main`; a multiboot tag is in `tty_tags` as the console reads it and in
-- `tags` as the memory manager does.
unfoldable pub boot_main :
    (fuel mbi : ℕ)
    → (inb : ℕ → ℕ) → Psf2Font
    → (tty_tags : List MultibootTag) → (tags : List InfoTag) → (boot_pud : ℕ → ℕ) → Tty
    → Boot
    → Kernel
    → Booted
unfolding enter frame_buffer_of
boot_main fuel mbi inb font tty_tags tags boot_pud t b s =
    let (has_tty, t₁) = boot_tty_init inb font tty_tags t in
    let t₂ = boot_puts tty_done_text t₁ in
    let started = boot_mm_init fuel mbi tags (frame_buffer_of t₂) b s in
    if has_tty then enter (boot_pgtable_init boot_pud) t₂ started else no_console
