-- ===== src/BootStart/Handover.antt =====
-- From the tags of the boot loader to the memory manager of the kernel: `boot_mm_init` of
-- src/arch/x86/boot/boot_mm.cpp, and then `mm_core_init` of src/kernel/mm/mm_main.cppm on the page
-- database that it leaves.
use closure_os.Base.{ℕ, ◌/◌, ◌≡◌, ◌↔◌, ◌⊎◌, some}
use closure_os.Kernel.{Kernel, ok}
use closure_os.BootMem.{BootInfo}
use closure_os.PageTable.{Boot}
use closure_os.PageTable.Tree.{Label, Labels, IsTree}
use closure_os.PageTable.Init.{KernelMap}
use closure_os.PageTable.Runs.{Failed}
use closure_os.PageTable.Sections.{has_unknown}
use closure_os.Pool.Inv.{Covers}
use closure_os.HeapPool.{KHeapPool}
use closure_os.MmMain.{mm_core_init}
use closure_os.MmMain.Heap.{IsStarted}
use closure_os.MmMain.Memory.{IsFreeMemory}
use closure_os.BootStart.{Started, initialized, no_database, wild_write}

-- The memory manager runs on `n` descriptors of the page database of `s₁`; its pool has exactly the free
-- memory that the boot stage has left, and no page of the page tables that the processor uses.
abbrev pub TakesOver :
    BootInfo → (pool : ℕ) → KHeapPool → (root n : ℕ) → (b : Boot) → (s₁ : Kernel) → Type 0
TakesOver info pool h root n b s₁ =
    (h' : KHeapPool) × (final : Kernel) × (mm_core_init n pool h s₁ ≡ ok h' final)
    × (started : IsStarted s₁.page n pool h' final) × ((q : ℕ)
        → Covers started.filled.lists q ↔ IsFreeMemory info b.cursor.curr_avail q)
    × ((label : Labels) × IsTree root label b
        × ((t : ℕ) (l : Label) → label t ≡ some l → Covers started.filled.lists (t / 4096) → ⊥))

-- Where `boot_mm_init` ends well, the memory manager takes over; otherwise the page table failed.
abbrev pub HandsOver : BootInfo → (pool : ℕ) → KHeapPool → Started → Type 0
HandsOver info pool h run =
    ((m : KernelMap) × (b : Boot) × (s₁ : Kernel) × (run ≡ initialized m b s₁)
      × TakesOver info pool h m.boot_kern_pgtable m.pgdb_page_nr b s₁)
    ⊎ ((e : ℕ) × (b : Boot) × Failed info (has_unknown info.sections) e b
        × ((run ≡ wild_write e b) ⊎ (run ≡ no_database e b)))
