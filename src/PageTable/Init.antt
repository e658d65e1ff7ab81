-- ===== src/PageTable/Init.antt =====
-- `boot_mm_pgtable_init` of src/arch/x86/boot/boot_mm.cpp: the page table of the kernel.
use closure_os.Base.{
  ℕ, zero, suc, ◌+◌, ◌-◌, ◌*◌, ◌/◌, ◌%◌, ◌^◌, bit_and, bit_or, not, Option, none, some, List, [],
  ◌∷◌, ◌==◌, ltb, if◌then◌else◌,
}
use closure_os.Layout.{
  page_size, page_mask, page_align, kern_direct_map_region_base, kern_direct_map_region_end,
  pgdb_base,
}
use closure_os.BootMem.{Elf64Shdr, BootInfo, is_err_ptr}
use closure_os.Page.{sizeof_page}
use closure_os.PageTable.{
  ok, err, halted, unfinished, Run, ◌>>=◌, ◌>>◌, pure, clear_page, pte_attr_p, pte_attr_rw, alloc,
  boot_mm_pgtable_map,
}

abbrev pub efault : ℕ
efault = 14

abbrev pub sht_progbits : ℕ
sht_progbits = 1

abbrev pub sht_nobits : ℕ
sht_nobits = 8

abbrev pub shf_write : ℕ
shf_write = 0x1

abbrev pub shf_alloc : ℕ
shf_alloc = 0x2

-- `mm::PGDB_PG_PAGE_NR`
abbrev pub pgdb_pg_page_nr : ℕ
pgdb_pg_page_nr = page_size / sizeof_page

abbrev pub fail : {A : Type 0} → (errno : ℕ) → Run A
fail errno b = err errno b

-- `boot_memset((void*) base, 0, PAGE_SIZE)`
abbrev pub boot_memset_page : (base : ℕ) → Run (Unit {0})
boot_memset_page base b = ok tt (record b { word = clear_page base b.word })

-- A page of `boot_mm_page_alloc` that is cleared, or a negative error number.
unfoldable pub new_page : (fuel : ℕ) → BootInfo → Run ℕ
new_page fuel info = do
  res ← alloc fuel info
  if is_err_ptr res then fail (2 ^ 64 - res) else (boot_memset_page res >> pure res)

-- `a += PAGE_SIZE`
abbrev pub next_page : ℕ → ℕ
next_page a = (a + page_size) % 2 ^ 64

-- The rounds of a loop that goes from `start` below `end_addr` by pages.
abbrev pub rounds_between : (start end_addr : ℕ) → ℕ
rounds_between start end_addr = (end_addr - start + (page_size - 1)) / page_size + 1

-- The rounds of the loop over the page database.
abbrev pub database_rounds : (pgdb_page_nr : ℕ) → ℕ
database_rounds pgdb_page_nr = (pgdb_page_nr + (pgdb_pg_page_nr - 1)) / pgdb_pg_page_nr + 1

-- `pte_attr` for a section
unfoldable pub section_attr : Elf64Shdr → ℕ
section_attr shdr =
    if bit_and shdr.sh_flags shf_write == 0 then pte_attr_p else bit_or pte_attr_p pte_attr_rw

module _ (fuel : ℕ) (info : BootInfo) (root : ℕ) where
  -- The loop that maps the pages from `phys` below `phys_end` at `virt`: for a section of the file and
  -- for the frame buffer.
  unfoldable pub map_range : (rounds : ℕ) → (virt phys phys_end attr : ℕ) → Run (Unit {0})
  map_range zero virt phys phys_end attr = λ b. unfinished
  map_range (suc rounds) virt phys phys_end attr =
      let rest = map_range rounds (next_page virt) (next_page phys) phys_end attr in
      if ltb phys phys_end
      then (boot_mm_pgtable_map fuel info root virt phys attr >> rest)
      else pure tt

  -- The loop that maps new pages from `virt` below `virt_end`: for .bss.
  unfoldable pub map_zeroed : (rounds : ℕ) → (virt virt_end attr : ℕ) → Run (Unit {0})
  map_zeroed zero virt virt_end attr = λ b. unfinished
  map_zeroed (suc rounds) virt virt_end attr =
      let rest = map_zeroed rounds (next_page virt) virt_end attr in
      if ltb virt virt_end
      then (new_page fuel info
          >>= (λ phys. boot_mm_pgtable_map fuel info root virt phys attr >> rest))
      else pure tt

  -- One section.
  unfoldable pub map_section : Elf64Shdr → Run (Unit {0})
  unfolding map_range map_zeroed section_attr
  map_section shdr =
      let phys = (2 ^ 64 + 0x100000 + shdr.sh_offset - page_size) % 2 ^ 64 in
      let phys_end = page_align ((phys + shdr.sh_size) % 2 ^ 64) in
      let virt = shdr.sh_addr in
      let virt_end = page_align ((virt + shdr.sh_size) % 2 ^ 64) in
      if bit_and shdr.sh_flags shf_alloc == 0
      then pure tt
      else if not (bit_and shdr.sh_type sht_progbits == 0)
      then map_range (rounds_between phys phys_end) virt phys phys_end (section_attr shdr)
      else if not (bit_and shdr.sh_type sht_nobits == 0)
      then map_zeroed (rounds_between virt virt_end) virt virt_end (section_attr shdr)
      else fail efault

  unfoldable pub map_sections : List Elf64Shdr → Run (Unit {0})
  map_sections [] = pure tt
  map_sections (shdr ∷ sections) = map_section shdr >> map_sections sections

  unfoldable pub map_frame_buffer : Option (ℕ × ℕ) → Run (Unit {0})
  map_frame_buffer none = pure tt
  map_frame_buffer (some (base, end_addr)) =
      let start = bit_and base page_mask in
      let size = (2 ^ 64 + end_addr - base) % 2 ^ 64 in
      let phys_end = page_align ((start + size) % 2 ^ 64) in
      map_range (rounds_between start phys_end) start start phys_end (bit_or pte_attr_p pte_attr_rw)

  -- The inner loop of the direct map: the pages from `base` below `end_addr`, at `vaddr` while that is
  -- in the region.
  unfoldable pub map_direct : (rounds : ℕ) → (vaddr base end_addr : ℕ) → Run (Unit {0})
  map_direct zero vaddr base end_addr = λ b. unfinished
  map_direct (suc rounds) vaddr base end_addr =
      let rest = map_direct rounds (next_page vaddr) (next_page base) end_addr in
      let map_one = boot_mm_pgtable_map fuel info root vaddr base (bit_or pte_attr_p pte_attr_rw) in
      if ltb base end_addr
      then (if ltb kern_direct_map_region_end vaddr then pure tt else (map_one >> rest))
      else pure tt

  -- The outer loop of the direct map, from entry `i` on; it returns `physmem_end`.
  unfoldable pub map_entries : (rounds i physmem_end : ℕ) → Run ℕ
  unfolding map_direct
  map_entries zero i physmem_end = pure physmem_end
  map_entries (suc rounds) i physmem_end =
      let entry = info.entries i in
      let base = bit_and entry.addr page_mask in
      let end_addr = (base + entry.len) % 2 ^ 64 in
      let vaddr = (base + kern_direct_map_region_base) % 2 ^ 64 in
      let physmem_end' = if ltb physmem_end end_addr then end_addr else physmem_end in
      let rest = map_entries rounds (i + 1) physmem_end' in
      let map_one = map_direct (rounds_between base end_addr) vaddr base end_addr in
      if ltb vaddr base then (λ b. halted) else (map_one >> rest)

  -- The loop that maps new pages for the page database from its page `i` on.
  unfoldable pub map_page_database : (rounds i pgdb_page_nr : ℕ) → Run (Unit {0})
  map_page_database zero i pgdb_page_nr = λ b. unfinished
  map_page_database (suc rounds) i pgdb_page_nr =
      let rest = map_page_database rounds (i + pgdb_pg_page_nr) pgdb_page_nr in
      let virt = (pgdb_base + sizeof_page * i) % 2 ^ 64 in
      if ltb i pgdb_page_nr
      then (new_page fuel info >>= (λ phys.
          boot_mm_pgtable_map fuel info root virt phys (bit_or pte_attr_p pte_attr_rw) >> rest))
      else pure tt

-- What `boot_mm_pgtable_init` sets: the table that it loads, and the length of the page database.
pub record KernelMap : Type 0 where
  pub boot_kern_pgtable : ℕ
  pub pgdb_page_nr : ℕ

unfoldable pub boot_mm_pgtable_init : (fuel : ℕ) → BootInfo → Run KernelMap
unfolding map_sections map_frame_buffer map_entries map_page_database
boot_mm_pgtable_init fuel info = do
  root ← new_page fuel info
  map_sections fuel info root info.sections
  map_frame_buffer fuel info root info.frame_buffer
  physmem_end ← map_entries fuel info root info.mmap_entry_nr 0 0
  let pgdb_page_nr = physmem_end / page_size
  map_page_database fuel info root (database_rounds pgdb_page_nr) 0 pgdb_page_nr
  pure (record { boot_kern_pgtable = root; pgdb_page_nr = pgdb_page_nr })
