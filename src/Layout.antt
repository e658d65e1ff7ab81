-- ===== src/Layout.antt =====
-- src/kernel/mm/types.cppm, virt_layout.cppm and the address arithmetic of asm/page_types.h.
pub mod Align
use closure_os.Base.{ℕ, ◌+◌, ◌-◌, ◌%◌, ◌^◌, bit_and}

abbrev pub page_shift : ℕ
page_shift = 12

abbrev pub page_size : ℕ
page_size = 2 ^ page_shift

-- `~x` on 64 bits
abbrev pub word_not : ℕ → ℕ
word_not x = 2 ^ 64 - 1 - x

abbrev pub page_mask : ℕ
page_mask = word_not (page_size - 1)

-- `PAGE_ALIGN`
unfoldable pub page_align : ℕ → ℕ
page_align addr = bit_and ((addr + (page_size - 1)) % 2 ^ 64) page_mask

abbrev pub kern_direct_map_region_base : ℕ
kern_direct_map_region_base = 0xFFFF_8000_0000_0000

abbrev pub kern_direct_map_region_end : ℕ
kern_direct_map_region_end = 0xFFFF_BFFF_FFFF_FFFF

abbrev pub kern_page_database_region_base : ℕ
kern_page_database_region_base = 0xFFFF_F000_0000_0000

abbrev pub kern_page_database_region_end : ℕ
kern_page_database_region_end = 0xFFFF_F7FF_FFFF_FFFF

-- `mm::physmem_base` and `mm::pgdb_base`, with the values that boot_mm_pgtable_init gives them.
abbrev pub physmem_base : ℕ
physmem_base = kern_direct_map_region_base

abbrev pub pgdb_base : ℕ
pgdb_base = kern_page_database_region_base
