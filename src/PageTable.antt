-- ===== src/PageTable.antt =====
-- The page tables of the boot stage: `boot_mm_pgtable_map` of src/arch/x86/boot/boot_mm.cpp, the
-- constants of asm/page_types.h, and what the processor reads from the tables.
pub mod Tree
pub mod Grow
pub mod Next
pub mod Write
pub mod Map
pub mod Init
pub mod Runs
pub mod Direct
pub mod Entries
pub mod Range
pub mod Sections
pub mod Length
pub mod Kernel
use closure_os.Base.{
  ℕ, zero, suc, ◌+◌, ◌-◌, ◌*◌, ◌/◌, ◌%◌, ◌^◌, bit_and, bit_or, Bool, true, false, ◌&&◌, Option,
  none, some, ◌==◌, ltb, leb, if◌then◌else◌,
}
use closure_os.Layout.{page_size, page_mask}
use closure_os.BootMem.{
  BootInfo, Cursor, Result, page, halt, more, enomem, is_err_ptr, boot_mm_page_alloc,
}

abbrev pub pte_attr_p : ℕ
pte_attr_p = 2 ^ 0

abbrev pub pte_attr_rw : ℕ
pte_attr_rw = 2 ^ 1

abbrev pub pde_attr_p : ℕ
pde_attr_p = 2 ^ 0

abbrev pub pde_attr_rw : ℕ
pde_attr_rw = 2 ^ 1

abbrev pub pde_attr_ps : ℕ
pde_attr_ps = 2 ^ 7

abbrev pub pde_default : ℕ
pde_default = bit_or pde_attr_p pde_attr_rw

abbrev pub pt_entry_mask : ℕ
pt_entry_mask = 0b111111111

unfoldable pub pte_entry : ℕ → ℕ
pte_entry addr = bit_and (addr / 2 ^ 12) pt_entry_mask

unfoldable pub pmd_entry : ℕ → ℕ
pmd_entry addr = bit_and (addr / 2 ^ 21) pt_entry_mask

unfoldable pub pud_entry : ℕ → ℕ
pud_entry addr = bit_and (addr / 2 ^ 30) pt_entry_mask

unfoldable pub pgd_entry : ℕ → ℕ
pgd_entry addr = bit_and (addr / 2 ^ 39) pt_entry_mask

-- The memory of the boot stage: its 64-bit words at physical addresses, and the allocator of pages.
pub record Boot : Type 0 where
  pub word : ℕ → ℕ
  pub cursor : Cursor

-- How a step of the boot stage ends: with a value; with a negative error number; in a halt; or not
-- within the fuel of the allocator.
pub data Outcome (A : Type 0) : Type 0 where
  ok : A → Boot → Outcome A
  err : (errno : ℕ) → Boot → Outcome A
  halted : Outcome A
  unfinished : Outcome A

abbrev pub Run : Type 0 → Type 0
Run A = Boot → Outcome A

module _ {A B : Type 0} where
  abbrev pub and_then : Outcome A → (A → Run B) → Outcome B
  and_then (ok a b) f = f a b
  and_then (err e b) f = err e b
  and_then halted f = halted
  and_then unfinished f = unfinished

  infixl 5 ◌>>=◌ ◌>>◌
  abbrev pub ◌>>=◌ : Run A → (A → Run B) → Run B
  m >>= f = λ b. and_then (m b) f

  abbrev pub ◌>>◌ : Run A → Run B → Run B
  m >> f = m >>= λ _. f

abbrev pub pure : {A : Type 0} → A → Run A
pure a b = ok a b

abbrev pub write : (addr value : ℕ) → (ℕ → ℕ) → ℕ → ℕ
write addr value word a = if a == addr then value else word a

-- `boot_memset((void*) page, 0, PAGE_SIZE)`, on the words of the page.
abbrev pub clear_page : (base : ℕ) → (ℕ → ℕ) → ℕ → ℕ
clear_page base word a = if leb base a && ltb a (base + page_size) then 0 else word a

-- The address of entry `i` of a table of 64-bit entries.
abbrev pub slot : (table i : ℕ) → ℕ
slot table i = table + 8 * i

-- `boot_mm_page_alloc` from the cursor of the boot stage.
unfoldable pub alloc : (fuel : ℕ) → BootInfo → Run ℕ
alloc fuel info b = elim (boot_mm_page_alloc fuel info b.cursor) [
  | page res c ↦ ok res (record b { cursor = c })
  | halt ↦ halted
  | more ↦ unfinished
]

-- What is done with the page `res` that `boot_mm_page_alloc` gave for an empty entry at `entry`.
unfoldable pub fill_entry : (entry res : ℕ) → Run (Unit {0})
fill_entry entry res b =
    let written = write entry res b.word in
    if is_err_ptr res
    then err enomem (record b { word = write entry 0 written })
    else let cleared = clear_page res written in
      ok tt (record b { word = write entry (bit_or (cleared entry) pde_default) cleared })

-- One level of `boot_mm_pgtable_map`: the table behind entry `i` of `table`, which is made where the
-- entry is empty.
unfoldable pub next_table : (fuel : ℕ) → BootInfo → (table i : ℕ) → Run ℕ
unfolding alloc fill_entry
next_table fuel info table i b =
    let entry = slot table i in
    let made = (alloc fuel info >>= fill_entry entry) b in
    let found = λ (b' : Boot). ok (bit_and (b'.word entry) page_mask) b' in
    if b.word entry == 0 then and_then made (λ _. found) else found b

-- `boot_mm_pgtable_map`
unfoldable pub boot_mm_pgtable_map :
    (fuel : ℕ) → BootInfo → (pgtable va pa attr : ℕ) → Run (Unit {0})
unfolding next_table
boot_mm_pgtable_map fuel info pgtable va pa attr = do
  pud ← next_table fuel info pgtable (pgd_entry va)
  pmd ← next_table fuel info pud (pud_entry va)
  pte ← next_table fuel info pmd (pmd_entry va)
  λ b. ok tt (record b { word = write (slot pte (pte_entry va)) (bit_or pa attr) b.word })

-- The index of a virtual address into a table of level `l`, where 3 is the top.
abbrev pub index : (l va : ℕ) → ℕ
index zero va = pte_entry va
index (suc zero) va = pmd_entry va
index (suc (suc zero)) va = pud_entry va
index (suc (suc (suc l))) va = pgd_entry va

-- What the processor reads for `va` from a table of level `l`: the entry of the last level, or 0 where
-- a table is missing.
unfoldable pub lookup : (l table va : ℕ) → (ℕ → ℕ) → ℕ
lookup zero table va word = word (slot table (index zero va))
lookup (suc l) table va word =
    let entry = word (slot table (index (suc l) va)) in
    let rest = lookup l (bit_and entry page_mask) va word in if entry == 0 then 0 else rest
