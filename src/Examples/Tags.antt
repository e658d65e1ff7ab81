-- ===== src/Examples/Tags.antt =====
-- The tags of a boot loader, as bytes from 0x1008 on: a command line, a memory map of one entry, no ELF
-- section, a frame buffer, and the end tag.
use closure_os.Base.{ℕ, ◌-◌, ◌≡◌, refl, none, some, List, [], ◌∷◌, arith}
use closure_os.MmMain.{nth}
use closure_os.BootStart.{InfoTag, mmap_tag, elf_sections_tag, other_tag, find_tags, end_of_tags}
use closure_os.Multiboot.{Memory, mmap_entry, TagPointers, scan_tags, skip_tags, section_headers}
use closure_os.Multiboot.Walk.{IsTagAt, IsTagsAt, tags_of, scan_tags-skip_tags}
use closure_os.Multiboot.Console
use closure_os.Multiboot.Console.{get_frame_buffer, get_frame_buffer_lem}
use closure_os.Tty.Init.{MultibootTag, framebuffer, other, boot_get_frame_buffer}
use closure_os.Examples.Boot.{console}

abbrev bytes : List ℕ
bytes =
    1 ∷ 0 ∷ 0 ∷ 0 ∷ 12 ∷ 0 ∷ 0 ∷ 0 ∷ 0 ∷ 0 ∷ 0 ∷ 0 ∷ 0 ∷ 0 ∷ 0 ∷ 0 ∷ 6 ∷ 0 ∷ 0 ∷ 0 ∷ 40 ∷ 0 ∷ 0 ∷ 0
    ∷ 24 ∷ 0 ∷ 0 ∷ 0 ∷ 0 ∷ 0 ∷ 0 ∷ 0 ∷ 0 ∷ 0 ∷ 16 ∷ 0 ∷ 0 ∷ 0 ∷ 0 ∷ 0 ∷ 0 ∷ 0 ∷ 1 ∷ 0 ∷ 0 ∷ 0 ∷ 0
    ∷ 0 ∷ 1 ∷ 0 ∷ 0 ∷ 0 ∷ 0 ∷ 0 ∷ 0 ∷ 0 ∷ 9 ∷ 0 ∷ 0 ∷ 0 ∷ 20 ∷ 0 ∷ 0 ∷ 0 ∷ 0 ∷ 0 ∷ 0 ∷ 0 ∷ 64 ∷ 0
    ∷ 0 ∷ 0 ∷ 0 ∷ 0 ∷ 0 ∷ 0 ∷ 0 ∷ 0 ∷ 0 ∷ 0 ∷ 8 ∷ 0 ∷ 0 ∷ 0 ∷ 31 ∷ 0 ∷ 0 ∷ 0 ∷ 0 ∷ 0 ∷ 0 ∷ 253 ∷ 0
    ∷ 0 ∷ 0 ∷ 0 ∷ 128 ∷ 12 ∷ 0 ∷ 0 ∷ 32 ∷ 3 ∷ 0 ∷ 0 ∷ 88 ∷ 2 ∷ 0 ∷ 0 ∷ 32 ∷ 1 ∷ 0 ∷ 0 ∷ 0 ∷ 0 ∷ 0
    ∷ 0 ∷ 8 ∷ 0 ∷ 0 ∷ 0 ∷ []

abbrev loaded : Memory
loaded a = nth bytes (a - 0x1008)

abbrev info_tags : List InfoTag
info_tags =
    other_tag 12
    ∷ mmap_tag 40 (mmap_entry loaded 0x1018)
    ∷ elf_sections_tag 20 []
    ∷ other_tag 31
    ∷ []

info_tags-IsTagsAt : IsTagsAt loaded 0x1008 info_tags
unfolding IsTagsAt IsTagAt section_headers
info_tags-IsTagsAt = (
  ((λ e. omega arith), (λ e. omega arith), (λ e. omega arith), refl),
  (
    (refl, refl, refl),
    (
      (refl, refl, refl),
      (((λ e. omega arith), (λ e. omega arith), (λ e. omega arith), refl), refl),
    ),
  ),
)

scan_tags-skip_tags_example :
    (after : TagPointers) × (scan_tags 5 loaded 0x1008
        (record { mmap_tag = none; elf_info_tag = none })
      ≡ some after)
    × (tags_of loaded after ≡ find_tags info_tags (record { mmap = none; elf_info = none }))
    × (skip_tags 5 loaded 0x1008 ≡ some (end_of_tags 0x1008 info_tags))
scan_tags-skip_tags_example =
    scan_tags-skip_tags loaded info_tags 5 0x1008 info_tags-IsTagsAt (omega arith)

abbrev screen_tags : List MultibootTag
screen_tags = other 1 ∷ other 6 ∷ other 9 ∷ framebuffer 0xFD000000 800 600 ∷ []

screen_tags-IsTagsAt : Console.IsTagsAt loaded 0x1008 screen_tags
unfolding Console.IsTagsAt Console.IsTagAt
screen_tags-IsTagsAt = (
  (refl, (λ e. omega arith), (λ e. omega arith)),
  (
    (refl, (λ e. omega arith), (λ e. omega arith)),
    ((refl, (λ e. omega arith), (λ e. omega arith)), ((refl, refl, refl, refl), refl)),
  ),
)

get_frame_buffer_example :
    get_frame_buffer 5 loaded 0x1000 console ≡ some (boot_get_frame_buffer screen_tags console)
get_frame_buffer_example =
    get_frame_buffer_lem loaded screen_tags 5 0x1000 console (omega arith) screen_tags-IsTagsAt
      (omega arith)
