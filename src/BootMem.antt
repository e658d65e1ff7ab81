-- ===== src/BootMem.antt =====
-- src/arch/x86/boot/boot_mm.cpp, the page allocator of the boot stage: it goes through the regions of
-- the memory map and hands out one page after the other.
pub mod Linear
pub mod Search
pub mod Database
pub mod Pages
use closure_os.Base.{
  ℕ, zero, suc, ◌+◌, ◌-◌, ◌*◌, ◌%◌, ◌^◌, bit_and, Bool, true, false, not, ◌&&◌, ◌||◌, Option, none,
  some, List, [], ◌∷◌, ◌==◌, ltb, leb, if◌then◌else◌,
}
use closure_os.Layout.{page_size, page_mask, page_align}

-- `struct multiboot_mmap_entry`
pub record MultibootMmapEntry : Type 0 where
  pub addr : ℕ
  pub len : ℕ
  pub type : ℕ

abbrev pub multiboot_memory_available : ℕ
multiboot_memory_available = 1

-- The fields of `struct elf64_shdr` that the boot stage reads.
pub record Elf64Shdr : Type 0 where
  pub sh_type : ℕ
  pub sh_flags : ℕ
  pub sh_addr : ℕ
  pub sh_offset : ℕ
  pub sh_size : ℕ

-- The variables of boot_mm.cpp, less the constants of the boot: `curr_entry` is the index of its
-- entry, and `next_entry_idx` is `curr_entry_idx + 1`.
pub record Cursor : Type 0 where
  pub curr_entry : Option ℕ
  pub next_entry_idx : ℕ
  pub curr_avail : ℕ
  pub curr_end : ℕ

-- The constants of a boot: the memory map, the sections of the kernel's ELF file, the frame buffer of
-- the console, if it has one, and the range of the multiboot tags.
pub record BootInfo : Type 0 where
  pub mmap_entry_nr : ℕ
  pub entries : ℕ → MultibootMmapEntry
  pub sections : List Elf64Shdr
  pub frame_buffer : Option (ℕ × ℕ)
  pub multiboot_tag_start : ℕ
  pub multiboot_tag_end : ℕ

abbrev pub enomem : ℕ
enomem = 12

-- `ERR_PTR(-errno)` and `IS_ERR_PTR`, with `MAX_ERRNO` 4095
abbrev pub err_ptr : ℕ → ℕ
err_ptr errno = 2 ^ 64 - errno

abbrev pub is_err_ptr : ℕ → Bool
is_err_ptr ptr = ltb (2 ^ 64 - 4095) ptr

-- The loop of `boot_mm_page_alloc_internal` from entry `i` on. An entry whose end wraps around is a
-- fatal error: `none`.
unfoldable pub next_region : (rounds i : ℕ) → BootInfo → Cursor → Option Cursor
next_region zero i info c = some c
next_region (suc rounds) i info c =
    let rest = next_region rounds (i + 1) info c in
    let entry = info.entries i in
    let end_addr = (entry.addr + entry.len) % 2 ^ 64 in
    let base = page_align entry.addr in
    let end_page = bit_and end_addr page_mask in
    if entry.type == multiboot_memory_available
    then (if ltb end_addr entry.addr
        then none
        else if ltb end_page base || ltb (end_page - base) page_size
        then rest
        else some (record {
          curr_entry = some i;
          next_entry_idx = i + 1;
          curr_avail = base;
          curr_end = end_page;
        }))
    else rest

-- The two halves of `boot_mm_page_alloc_internal`, at `curr_entry`: the search for a region where
-- there is none, and the page that is taken from it.
unfoldable pub find_region : (curr_entry : Option ℕ) → BootInfo → Cursor → Option Cursor
find_region none info c =
    next_region (info.mmap_entry_nr - c.next_entry_idx) c.next_entry_idx info c
find_region (some _) info c = some c

unfoldable pub take_page : (curr_entry : Option ℕ) → Cursor → ℕ × Cursor
take_page none c = (err_ptr enomem, c)
take_page (some i) c =
    let avail = (c.curr_avail + page_size) % 2 ^ 64 in
    (
      c.curr_avail,
      record c { curr_avail = avail; curr_entry = if avail == c.curr_end then none else some i },
    )

-- `boot_mm_page_alloc_internal`
unfoldable pub boot_mm_page_alloc_internal : BootInfo → Cursor → Option (ℕ × Cursor)
boot_mm_page_alloc_internal info c = elim (find_region c.curr_entry info c) [
  | none ↦ none
  | some c₁ ↦ some (take_page c₁.curr_entry c₁)
]

-- `addr_is_in_used_range`: the sections, the frame buffer, the multiboot tags.
unfoldable pub in_section : (addr : ℕ) → List Elf64Shdr → Bool
in_section addr [] = false
in_section addr (shdr ∷ sections) =
    let rest = in_section addr sections in
    let seg_start = (0x100000 + shdr.sh_offset) % 2 ^ 64 in
    let seg_end = page_align ((seg_start + shdr.sh_size) % 2 ^ 64) in
    if not (shdr.sh_type == 1) || (bit_and shdr.sh_flags 2 == 0)
    then rest
    else if leb seg_start addr && ltb addr seg_end
    then true
    else rest

unfoldable pub addr_is_in_used_range : BootInfo → (addr : ℕ) → Bool
unfolding in_section
addr_is_in_used_range info addr =
    in_section addr info.sections
    || elim info.frame_buffer [
      | none ↦ false
      | some (base, end_addr) ↦ leb base addr && leb addr end_addr
    ]
    || (leb info.multiboot_tag_start addr && leb addr info.multiboot_tag_end)

-- How `boot_mm_page_alloc` ends: with a page or an error pointer, with a halt, or not within the fuel.
pub data Result : Type 0 where
  page : (res : ℕ) → Cursor → Result
  halt : Result
  more : Result

unfoldable pub boot_mm_page_alloc : (fuel : ℕ) → BootInfo → Cursor → Result
unfolding boot_mm_page_alloc_internal
boot_mm_page_alloc zero info c = more
boot_mm_page_alloc (suc fuel) info c = elim (boot_mm_page_alloc_internal info c) [
  | none ↦ halt
  | some (res, c₁) ↦
      let again = boot_mm_page_alloc fuel info c₁ in
      if addr_is_in_used_range info res then again else page res c₁
]
