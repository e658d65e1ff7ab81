-- ===== src/Multiboot.antt =====
-- src/include/boot/multiboot2.h: the tags of the boot loader as they lie in memory, and the loops of
-- `boot_get_frame_buffer` in src/arch/x86/boot/boot_tty.c and `boot_mm_init` in
-- src/arch/x86/boot/boot_mm.cpp over them.
pub mod Walk
pub mod Console
use closure_os.Base.{
  ℕ, zero, suc, ◌+◌, ◌-◌, ◌*◌, ◌%◌, ◌^◌, bit_and, Option, none, some, List, [], ◌∷◌, ◌==◌,
  if◌then◌else◌,
}
use closure_os.BootMem.{MultibootMmapEntry, Elf64Shdr}

-- The bytes behind physical addresses.
abbrev pub Memory : Type 0
Memory = ℕ → ℕ

abbrev pub read_u32 : Memory → ℕ → ℕ
read_u32 mem a =
    mem a % 2 ^ 8
    + mem (a + 1) % 2 ^ 8 * 2 ^ 8
    + mem (a + 2) % 2 ^ 8 * 2 ^ 16
    + mem (a + 3) % 2 ^ 8 * 2 ^ 24

abbrev pub read_u64 : Memory → ℕ → ℕ
read_u64 mem a = read_u32 mem a + read_u32 mem (a + 4) * 2 ^ 32

-- `MULTIBOOT_TAG_TYPE_*`
abbrev pub multiboot_tag_type_end : ℕ
multiboot_tag_type_end = 0

abbrev pub multiboot_tag_type_mmap : ℕ
multiboot_tag_type_mmap = 6

abbrev pub multiboot_tag_type_framebuffer : ℕ
multiboot_tag_type_framebuffer = 8

abbrev pub multiboot_tag_type_elf_sections : ℕ
multiboot_tag_type_elf_sections = 9

-- `struct multiboot_tag` at an address
abbrev pub tag_type : Memory → ℕ → ℕ
tag_type mem tag = read_u32 mem tag

abbrev pub tag_length : Memory → ℕ → ℕ
tag_length mem tag = read_u32 mem (tag + 4)

-- `tag + ((tag->size + 7) & ~7)`
abbrev pub next_tag : Memory → ℕ → ℕ
next_tag mem tag = (tag + bit_and ((tag_length mem tag + 7) % 2 ^ 32) (2 ^ 32 - 8)) % 2 ^ 64

-- `struct multiboot_tag_framebuffer_common`: the address, the width and the height
abbrev pub framebuffer_addr : Memory → ℕ → ℕ
framebuffer_addr mem tag = read_u64 mem (tag + 8)

abbrev pub framebuffer_width : Memory → ℕ → ℕ
framebuffer_width mem tag = read_u32 mem (tag + 20)

abbrev pub framebuffer_height : Memory → ℕ → ℕ
framebuffer_height mem tag = read_u32 mem (tag + 24)

-- `mmap_tag->entries[i]`
abbrev pub mmap_entry : Memory → (mmap_tag : ℕ) → ℕ → MultibootMmapEntry
mmap_entry mem mmap_tag i =
    let a = mmap_tag + 16 + 24 * i in
    record { addr = read_u64 mem a; len = read_u64 mem (a + 8); type = read_u32 mem (a + 16) }

-- `struct elf64_shdr` at an address, and `num` of them from there on
abbrev pub elf64_shdr : Memory → ℕ → Elf64Shdr
elf64_shdr mem a = record {
  sh_type = read_u32 mem (a + 4);
  sh_flags = read_u64 mem (a + 8);
  sh_addr = read_u64 mem (a + 16);
  sh_offset = read_u64 mem (a + 24);
  sh_size = read_u64 mem (a + 32);
}

unfoldable pub section_headers : (num : ℕ) → Memory → ℕ → List Elf64Shdr
section_headers zero mem a = []
section_headers (suc num) mem a = elf64_shdr mem a ∷ section_headers num mem (a + 64)

-- `elf_info_tag->sections`, `elf_info_tag->num` of them
abbrev pub elf_sections : Memory → (elf_info_tag : ℕ) → List Elf64Shdr
elf_sections mem tag = section_headers (read_u32 mem (tag + 8)) mem (tag + 20)

-- The loop of `boot_get_frame_buffer`: the address of the first frame buffer tag, if there is one.
-- The outer `none` is for want of fuel, here and below.
unfoldable pub find_framebuffer : (fuel : ℕ) → Memory → (tag : ℕ) → Option (Option ℕ)
find_framebuffer zero mem tag = none
find_framebuffer (suc fuel) mem tag =
    let rest = find_framebuffer fuel mem (next_tag mem tag) in
    if tag_type mem tag == multiboot_tag_type_end
    then some none
    else if tag_type mem tag == multiboot_tag_type_framebuffer
    then some (some tag)
    else rest

-- The variables `mmap_tag` and `elf_info_tag` of boot_mm.cpp.
pub record TagPointers : Type 0 where
  pub mmap_tag : Option ℕ
  pub elf_info_tag : Option ℕ

-- A round of the first loop of `boot_mm_init`.
abbrev pub see_tag : (type tag : ℕ) → TagPointers → TagPointers
see_tag type tag found =
    if type == multiboot_tag_type_mmap
    then record found { mmap_tag = some tag }
    else if type == multiboot_tag_type_elf_sections
    then record found { elf_info_tag = some tag }
    else found

-- The first loop.
unfoldable pub scan_tags : (fuel : ℕ) → Memory → (tag : ℕ) → TagPointers → Option TagPointers
scan_tags zero mem tag found = none
scan_tags (suc fuel) mem tag found =
    let rest = scan_tags fuel mem (next_tag mem tag) (see_tag (tag_type mem tag) tag found) in
    if tag_type mem tag == multiboot_tag_type_end then some found else rest

-- The second loop: the address of the tag that ends the list.
unfoldable pub skip_tags : (fuel : ℕ) → Memory → (tag : ℕ) → Option ℕ
skip_tags zero mem tag = none
skip_tags (suc fuel) mem tag =
    let rest = skip_tags fuel mem (next_tag mem tag) in
    if tag_type mem tag == multiboot_tag_type_end then some tag else rest
