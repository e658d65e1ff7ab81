-- ===== src/Layout/Align.antt =====
-- Rounding addresses down and up to pages, as the mask and `PAGE_ALIGN` do it.
use closure_os.Base.{ℕ, ◌+◌, ◌*◌, ◌/◌, ◌^◌, ◌<◌, ◌≡◌, ◌∙◌, ap, bit_and, arith}
use closure_os.Bits.{bit_and_high}
use closure_os.Layout.{page_mask, page_align}

pub page_mask_lem : (x : ℕ) → x < 2 ^ 64 → bit_and x page_mask ≡ x / 4096 * 4096
page_mask_lem x h = bit_and_high 52 12 x h ∙ omega arith

pub page_align_lem : (x : ℕ) → x < 2 ^ 52 → page_align x ≡ (x + 4095) / 4096 * 4096
unfolding page_align
page_align_lem x h =
    ap (λ (y : ℕ). bit_and y page_mask) (omega arith) ∙ page_mask_lem (x + 4095) (omega arith)
