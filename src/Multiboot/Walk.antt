-- ===== src/Multiboot/Walk.antt =====
-- The loops over the tags in memory do what the loops over the list of these tags do.
use closure_os.Base.{
  ℕ, zero, suc, ◌+◌, ◌-◌, ◌%◌, ◌^◌, bit_and, ◌<◌, ◌≡◌, ◌≢◌, refl, ap, ◌∙◌, false, Option, none,
  some, List, [], ◌∷◌, ◌==◌, length, arith,
}
use closure_os.Multiboot.{
  Memory, tag_type, tag_length, next_tag, mmap_entry, elf_sections, TagPointers, scan_tags,
  skip_tags,
}
use closure_os.BootMem.{MultibootMmapEntry, Elf64Shdr}
use closure_os.BootStart.{
  InfoTag, mmap_tag, elf_sections_tag, other_tag, Tags, find_tags, end_of_tags, tag_size,
}

-- Memory has the tag `t` at `tag`.
unfoldable pub IsTagAt : Memory → ℕ → InfoTag → Type 0
IsTagAt mem tag (mmap_tag size entries) =
    (tag_type mem tag ≡ 6) × (tag_length mem tag ≡ size) × (mmap_entry mem tag ≡ entries)
IsTagAt mem tag (elf_sections_tag size sections) =
    (tag_type mem tag ≡ 9) × (tag_length mem tag ≡ size) × (elf_sections mem tag ≡ sections)
IsTagAt mem tag (other_tag size) =
    (tag_type mem tag ≢ 0)
    × (tag_type mem tag ≢ 6)
    × (tag_type mem tag ≢ 9)
    × (tag_length mem tag ≡ size)

-- Memory has the tags `tags` from `tag` on, and the end tag behind them.
unfoldable pub IsTagsAt : Memory → ℕ → List InfoTag → Type 0
IsTagsAt mem tag [] = tag_type mem tag ≡ 0
IsTagsAt mem tag (t ∷ tags) = IsTagAt mem tag t × IsTagsAt mem (next_tag mem tag) tags

-- What the pointers stand for.
abbrev pub tags_of : Memory → TagPointers → Tags
tags_of mem found = record {
  mmap = elim found.mmap_tag as (λ _. _) [
    | none ↦ none
    | some tag ↦ some (tag_length mem tag, mmap_entry mem tag)
  ];
  elf_info = elim found.elf_info_tag as (λ _. _) [
    | none ↦ none
    | some tag ↦ some (elf_sections mem tag)
  ];
}

scan_tags_lem :
    (mem : Memory) (tags : List InfoTag) (fuel tag : ℕ) (found : TagPointers)
    → IsTagsAt mem tag tags
    → length tags < fuel
    → (after : TagPointers) × (scan_tags fuel mem tag found ≡ some after)
      × (tags_of mem after ≡ find_tags tags (tags_of mem found))
unfolding IsTagsAt IsTagAt scan_tags find_tags
scan_tags_lem mem tags zero tag found at enough = absurd (omega arith)
scan_tags_lem mem [] (suc fuel) tag found at enough = (found, rw at refl, refl)
scan_tags_lem mem (mmap_tag size entries ∷ tags) (suc fuel) tag found (here, there) enough =
    let (after, run, same) =
      scan_tags_lem mem tags fuel (next_tag mem tag) (record found { mmap_tag = some tag }) there
        (omega arith) in
    let read : some (tag_length mem tag, mmap_entry mem tag) ≡ some (size, entries) =
      rw (here.1, here.2) refl in
    (
      after,
      rw here.0 run,
      same
          ∙ ap
              (λ (m : Option (ℕ × (ℕ → MultibootMmapEntry))).
                find_tags tags (record (tags_of mem found) { mmap = m }))
              read,
    )
scan_tags_lem mem (elf_sections_tag size sections ∷ tags) (suc fuel) tag found (here, there)
      enough =
    let (after, run, same) =
      scan_tags_lem mem tags fuel (next_tag mem tag) (record found { elf_info_tag = some tag })
        there (omega arith) in
    (
      after,
      rw here.0 run,
      same
          ∙ ap
              (λ (sh : List Elf64Shdr).
                find_tags tags (record (tags_of mem found) { elf_info = some sh }))
              here.2,
    )
scan_tags_lem mem (other_tag size ∷ tags) (suc fuel) tag found (here, there) enough =
    let (after, run, same) =
      scan_tags_lem mem tags fuel (next_tag mem tag) found there (omega arith) in
    let not_end : (tag_type mem tag == 0) ≡ false = ground arith in
    let not_mmap : (tag_type mem tag == 6) ≡ false = ground arith in
    let not_elf : (tag_type mem tag == 9) ≡ false = ground arith in
    (after, rw (not_end, not_mmap, not_elf) run, same)

tag_length-IsTagAt :
    (mem : Memory) (tag : ℕ) (t : InfoTag) → IsTagAt mem tag t → tag_length mem tag ≡ tag_size t
unfolding IsTagAt
tag_length-IsTagAt mem tag (mmap_tag size entries) at = at.1
tag_length-IsTagAt mem tag (elf_sections_tag size sections) at = at.1
tag_length-IsTagAt mem tag (other_tag size) at = at.3

not_end :
    (mem : Memory) (tag : ℕ) (t : InfoTag) → IsTagAt mem tag t → (tag_type mem tag == 0) ≡ false
unfolding IsTagAt
not_end mem tag (mmap_tag size entries) at = rw at.0 refl
not_end mem tag (elf_sections_tag size sections) at = rw at.0 refl
not_end mem tag (other_tag size) at = let other_type = at.0 in ground arith

skip_tags_lem :
    (mem : Memory) (tags : List InfoTag) (fuel tag : ℕ)
    → IsTagsAt mem tag tags
    → length tags < fuel
    → skip_tags fuel mem tag ≡ some (end_of_tags tag tags)
unfolding IsTagsAt skip_tags end_of_tags
skip_tags_lem mem tags zero tag at enough = absurd (omega arith)
skip_tags_lem mem [] (suc fuel) tag at enough = rw at refl
skip_tags_lem mem (t ∷ tags) (suc fuel) tag (here, there) enough = rw (not_end mem tag t here) (
    skip_tags_lem mem tags fuel (next_tag mem tag) there (omega arith)
    ∙ ap
        (λ (n : ℕ).
          some (end_of_tags ((tag + bit_and ((n + 7) % 2 ^ 32) (2 ^ 32 - 8)) % 2 ^ 64) tags))
        (tag_length-IsTagAt mem tag t here))

-- Where memory has a list of tags and the end tag behind it, the two loops of `boot_mm_init` end, with
-- fuel for one more round than there are tags: the first one with pointers to what the walk over the
-- list finds, the last memory map and the last ELF sections, and the second one at the end tag.
pub scan_tags-skip_tags :
    (mem : Memory) (tags : List InfoTag) (fuel tag : ℕ)
    → IsTagsAt mem tag tags
    → length tags < fuel
    → (after : TagPointers) × (scan_tags fuel mem tag
          (record { mmap_tag = none; elf_info_tag = none })
        ≡ some after)
      × (tags_of mem after ≡ find_tags tags (record { mmap = none; elf_info = none }))
      × (skip_tags fuel mem tag ≡ some (end_of_tags tag tags))
scan_tags-skip_tags mem tags fuel tag at enough =
    let (after, run, same) =
      scan_tags_lem mem tags fuel tag (record { mmap_tag = none; elf_info_tag = none }) at enough in
    (after, run, same, skip_tags_lem mem tags fuel tag at enough)
