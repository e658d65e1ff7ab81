-- ===== src/Multiboot/Console.antt =====
-- `boot_get_frame_buffer` of src/arch/x86/boot/boot_tty.c on the bytes of the tags.
use closure_os.Base.{
  ℕ, zero, suc, ◌+◌, ◌*◌, ◌%◌, ◌^◌, ◌<◌, ◌≡◌, ◌≢◌, refl, ap, false, Option, none, some, List, [],
  ◌∷◌, ◌==◌, if◌then◌else◌, length, arith,
}
use closure_os.Multiboot.{
  Memory, tag_type, next_tag, framebuffer_addr, framebuffer_width, framebuffer_height,
  find_framebuffer,
}
use closure_os.Tty.{Tty}
use closure_os.Tty.Init.{MultibootTag, framebuffer, other, boot_get_frame_buffer}

-- What `boot_get_frame_buffer` does behind its loop; `none` is its result -1.
unfoldable pub use_framebuffer : Memory → (fb_info : Option ℕ) → Tty → Option Tty
use_framebuffer mem none t = none
use_framebuffer mem (some tag) t =
    let width = framebuffer_width mem tag in
    let height = framebuffer_height mem tag in
    let sz = width * height % 2 ^ 32 * 4 in
    some (record t {
      boot_fb_base = framebuffer_addr mem tag;
      boot_fb_height = height;
      boot_fb_width = width;
      boot_fb_sz = sz;
      boot_fb_end = (framebuffer_addr mem tag + sz) % 2 ^ 64;
    })

-- All of it; the outer `none` is for want of fuel.
unfoldable pub get_frame_buffer : (fuel : ℕ) → Memory → (mbi : ℕ) → Tty → Option (Option Tty)
unfolding use_framebuffer
get_frame_buffer fuel mem mbi t =
    let tag = (mbi + 8) % 2 ^ 64 in
    if tag == 0 then some none else elim (find_framebuffer fuel mem tag) [
      | none ↦ none
      | some fb_info ↦ some (use_framebuffer mem fb_info t)
    ]

-- Memory has the tag `t` at `tag`.
unfoldable pub IsTagAt : Memory → ℕ → MultibootTag → Type 0
IsTagAt mem tag (framebuffer addr width height) =
    (tag_type mem tag ≡ 8)
    × (framebuffer_addr mem tag ≡ addr)
    × (framebuffer_width mem tag ≡ width)
    × (framebuffer_height mem tag ≡ height)
IsTagAt mem tag (other type) = (tag_type mem tag ≡ type) × (type ≢ 0) × (type ≢ 8)

unfoldable pub IsTagsAt : Memory → ℕ → List MultibootTag → Type 0
IsTagsAt mem tag [] = tag_type mem tag ≡ 0
IsTagsAt mem tag (t ∷ tags) = IsTagAt mem tag t × IsTagsAt mem (next_tag mem tag) tags

find_framebuffer_lem :
    (mem : Memory) (tags : List MultibootTag) (fuel tag : ℕ) (t : Tty)
    → IsTagsAt mem tag tags
    → length tags < fuel
    → (fb_info : Option ℕ) × (find_framebuffer fuel mem tag ≡ some fb_info)
      × (use_framebuffer mem fb_info t ≡ boot_get_frame_buffer tags t)
unfolding IsTagsAt IsTagAt find_framebuffer use_framebuffer boot_get_frame_buffer
find_framebuffer_lem mem tags zero tag t at enough = absurd (omega arith)
find_framebuffer_lem mem [] (suc fuel) tag t at enough = (none, rw at refl, refl)
find_framebuffer_lem mem (framebuffer addr width height ∷ tags) (suc fuel) tag t (here, there)
      enough =
    (some tag, rw here.0 refl, rw (here.1, here.2, here.3) refl)
find_framebuffer_lem mem (other type ∷ tags) (suc fuel) tag t (here, there) enough =
    let (fb_info, run, same) =
      find_framebuffer_lem mem tags fuel (next_tag mem tag) t there (omega arith) in
    let type_eq = here.0 in
    let type_end = here.1 in
    let type_fb = here.2 in
    let not_end : (tag_type mem tag == 0) ≡ false = ground arith in
    let not_fb : (tag_type mem tag == 8) ≡ false = ground arith in
    (fb_info, rw (not_end, not_fb) run, same)

-- Where memory has a list of tags from `mbi + 8` on and the end tag behind them,
-- `boot_get_frame_buffer` ends, with fuel for one more round than there are tags, and takes the first
-- frame buffer of the list, or returns -1 where there is none.
pub get_frame_buffer_lem :
    (mem : Memory) (tags : List MultibootTag) (fuel mbi : ℕ) (t : Tty)
    → mbi + 8 < 2 ^ 64
    → IsTagsAt mem (mbi + 8) tags
    → length tags < fuel
    → get_frame_buffer fuel mem mbi t ≡ some (boot_get_frame_buffer tags t)
unfolding get_frame_buffer
get_frame_buffer_lem mem tags fuel mbi t fits at enough =
    let (fb_info, run, same) = find_framebuffer_lem mem tags fuel (mbi + 8) t at enough in
    let tag : (mbi + 8) % 2 ^ 64 ≡ mbi + 8 = omega arith in
    let not_null : (mbi + 8 == 0) ≡ false = ground arith in
    rw (tag, not_null, run) (ap (λ (o : Option Tty). some o) same)
