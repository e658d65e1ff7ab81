-- ===== src/Com.antt =====
-- src/arch/x86/include/asm/com.h: the registers of the serial port and their bits.
use closure_os.Base.{ℕ, ◌*◌, ◌^◌}

abbrev pub com1_base : ℕ
com1_base = 0x3F8

abbrev pub com2_base : ℕ
com2_base = 0x2F8

abbrev pub com_reg_tx : ℕ
com_reg_tx = 0

abbrev pub com_reg_rx : ℕ
com_reg_rx = 0

abbrev pub com_reg_ier : ℕ
com_reg_ier = 1

abbrev pub com_reg_dll : ℕ
com_reg_dll = 0

abbrev pub com_reg_dlm : ℕ
com_reg_dlm = 1

abbrev pub com_reg_fcr : ℕ
com_reg_fcr = 2

abbrev pub com_reg_lcr : ℕ
com_reg_lcr = 3

abbrev pub com_reg_mcr : ℕ
com_reg_mcr = 4

abbrev pub com_reg_lsr : ℕ
com_reg_lsr = 5

abbrev pub com_lcr_dlab_on : ℕ
com_lcr_dlab_on = 1 * 2 ^ 7

abbrev pub com_lcr_dlab_off : ℕ
com_lcr_dlab_off = 0 * 2 ^ 7

abbrev pub com_lcr_sb_one : ℕ
com_lcr_sb_one = 0 * 2 ^ 2

abbrev pub com_lcr_db_wlen_8 : ℕ
com_lcr_db_wlen_8 = 0b11 * 2 ^ 0

abbrev pub com_fcr_itlb_tl_14 : ℕ
com_fcr_itlb_tl_14 = 0b11 * 2 ^ 6

abbrev pub com_fcr_ctfb_on : ℕ
com_fcr_ctfb_on = 1 * 2 ^ 2

abbrev pub com_fcr_crfb_on : ℕ
com_fcr_crfb_on = 1 * 2 ^ 1

abbrev pub com_fcr_efb_on : ℕ
com_fcr_efb_on = 1 * 2 ^ 0

abbrev pub com_mcr_lb_on : ℕ
com_mcr_lb_on = 1 * 2 ^ 4

abbrev pub com_mcr_out2_on : ℕ
com_mcr_out2_on = 1 * 2 ^ 3

abbrev pub com_mcr_out1_on : ℕ
com_mcr_out1_on = 1 * 2 ^ 2

abbrev pub com_mcr_rtsb_on : ℕ
com_mcr_rtsb_on = 1 * 2 ^ 1

abbrev pub com_mcr_dtrb_on : ℕ
com_mcr_dtrb_on = 1 * 2 ^ 0
