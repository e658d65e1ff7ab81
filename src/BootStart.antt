-- ===== src/BootStart.antt =====
-- `boot_mm_init` of src/arch/x86/boot/boot_mm.cpp: the boot stage from the tags of the boot loader to
-- the page table and the page database.
pub mod Init
pub mod Handover
pub mod Main
use closure_os.Base.{
  ℕ, zero, suc, ◌+◌, ◌-◌, ◌*◌, ◌/◌, ◌%◌, ◌^◌, bit_and, Bool, true, false, Option, none, some, List,
  [], ◌∷◌, if◌then◌else◌, ltb,
}
use closure_os.Layout.{page_mask, page_align}
use closure_os.Kernel.{Kernel}
use closure_os.BootMem.{MultibootMmapEntry, Elf64Shdr, BootInfo}
use closure_os.BootMem.Database.{boot_mm_page_database_init}
use closure_os.PageTable.{Boot, Outcome, ok, err, halted, unfinished}
use closure_os.PageTable.Init.{KernelMap, boot_mm_pgtable_init}

-- A multiboot tag, as far as `boot_mm_init` reads it; `size` is its length in bytes.
pub data InfoTag : Type 0 where
  mmap_tag : (size : ℕ) (entries : ℕ → MultibootMmapEntry) → InfoTag
  elf_sections_tag : (size : ℕ) (sections : List Elf64Shdr) → InfoTag
  other_tag : (size : ℕ) → InfoTag

abbrev pub tag_size : InfoTag → ℕ
tag_size (mmap_tag size entries) = size
tag_size (elf_sections_tag size sections) = size
tag_size (other_tag size) = size

-- The variables `mmap_tag` and `elf_info_tag`.
pub record Tags : Type 0 where
  pub mmap : Option (ℕ × (ℕ → MultibootMmapEntry))
  pub elf_info : Option (List Elf64Shdr)

-- The first loop of `boot_mm_init`.
unfoldable pub find_tags : List InfoTag → Tags → Tags
find_tags [] found = found
find_tags (mmap_tag size entries ∷ tags) found =
    find_tags tags (record found { mmap = some (size, entries) })
find_tags (elf_sections_tag size sections ∷ tags) found =
    find_tags tags (record found { elf_info = some sections })
find_tags (other_tag size ∷ tags) found = find_tags tags found

-- The second loop: the address of the tag that ends the list.
unfoldable pub end_of_tags : (tag : ℕ) → List InfoTag → ℕ
end_of_tags tag [] = tag
end_of_tags tag (t ∷ tags) =
    end_of_tags ((tag + bit_and ((tag_size t + 7) % 2 ^ 32) (2 ^ 32 - 8)) % 2 ^ 64) tags

-- `(mmap_tag->size - sizeof(*mmap_tag)) / sizeof(*mmap_entry)`, as a word of 32 bits
abbrev pub entry_count : (size : ℕ) → ℕ
entry_count size = (2 ^ 64 + size - 16) % 2 ^ 64 / 24 % 2 ^ 32

-- What the boot stage knows when both tags are found.
unfoldable pub boot_info :
    (mbi : ℕ)
    → List InfoTag
    → (size : ℕ) → (ℕ → MultibootMmapEntry)
    → List Elf64Shdr
    → (frame_buffer : Option (ℕ × ℕ)) → BootInfo
unfolding end_of_tags
boot_info mbi tags size entries sections frame_buffer = record {
  mmap_entry_nr = entry_count size;
  entries = entries;
  sections = sections;
  frame_buffer = frame_buffer;
  multiboot_tag_start = bit_and mbi page_mask;
  multiboot_tag_end = page_align (end_of_tags ((mbi + 8) % 2 ^ 64) tags);
}

-- How `boot_mm_init` ends. Where `boot_mm_pgtable_init` fails, `boot_mm_page_database_init` is called
-- all the same, with a `pgdb_base` that is null or not mapped. Its first write is then one through a
-- pointer that leads to no page descriptor, and the run is over for the model: on the machine it
-- overwrites memory from address 0 on, which may be the running code, or ends in a page fault. Only
-- where it has no page to write does it return.
pub data Started : Type 0 where
  missing_tag : Started
  initialized : KernelMap → Boot → Kernel → Started
  no_database : (errno : ℕ) → Boot → Started
  wild_write : (errno : ℕ) → Boot → Started
  boot_halted : Started
  boot_unfinished : Started

unfoldable pub with_pages : KernelMap → Boot → Option Kernel → Started
with_pages m b none = boot_unfinished
with_pages m b (some s) = initialized m b s

-- Whether the loops of `boot_mm_page_database_init` over the entries from `i` on come to a page.
unfoldable pub has_page : (rounds i : ℕ) → BootInfo → Bool
has_page zero i info = false
has_page (suc rounds) i info =
    let entry = info.entries i in
    let rest = has_page rounds (i + 1) info in
    if ltb entry.addr ((entry.addr + entry.len) % 2 ^ 64) then true else rest

-- The call of `boot_mm_page_database_init`, behind that of `boot_mm_pgtable_init`.
unfoldable pub after_tables : (fuel : ℕ) → BootInfo → Kernel → Outcome KernelMap → Started
unfolding with_pages has_page
after_tables fuel info s (ok m b) =
    with_pages m b (boot_mm_page_database_init fuel info b.cursor.curr_avail s)
after_tables fuel info s (err errno b) =
    if has_page info.mmap_entry_nr 0 info then wild_write errno b else no_database errno b
after_tables fuel info s halted = boot_halted
after_tables fuel info s unfinished = boot_unfinished

-- `boot_mm_init` behind its first loop: the tests for the two tags, the second loop and the two calls.
unfoldable pub start_with :
    (fuel : ℕ)
    → (mbi : ℕ) → List InfoTag
    → (frame_buffer : Option (ℕ × ℕ)) → Boot
    → Kernel
    → (mmap : Option (ℕ × (ℕ → MultibootMmapEntry))) → (elf_info : Option (List Elf64Shdr))
    → Started
unfolding boot_info after_tables
start_with fuel mbi tags frame_buffer b s none elf_info = missing_tag
start_with fuel mbi tags frame_buffer b s (some (size, entries)) none = missing_tag
start_with fuel mbi tags frame_buffer b s (some (size, entries)) (some sections) =
    let info = boot_info mbi tags size entries sections frame_buffer in
    after_tables fuel info s (boot_mm_pgtable_init fuel info b)

-- `boot_mm_init`, less its messages
unfoldable pub boot_mm_init :
    (fuel : ℕ)
    → (mbi : ℕ) → List InfoTag
    → (frame_buffer : Option (ℕ × ℕ)) → Boot
    → Kernel
    → Started
unfolding find_tags start_with
boot_mm_init fuel mbi tags frame_buffer b s =
    let found = find_tags tags (record { mmap = none; elf_info = none }) in
    start_with fuel mbi tags frame_buffer b s found.mmap found.elf_info

-- The value that `boot_mm_init` returns, where it does: `KERN_DIRECT_MAP_REGION_BASE` as an `int` is 0.
abbrev pub returned : Started → Option ℕ
returned missing_tag = some (2 ^ 32 - 1)
returned (initialized m b s) = some 0
returned (no_database errno b) = some 0
returned (wild_write errno b) = none
returned boot_halted = none
returned boot_unfinished = none
