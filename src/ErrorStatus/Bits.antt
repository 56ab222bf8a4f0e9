-- ===== src/ErrorStatus/Bits.antt =====
-- The functions of src/error_status.c on the status byte.
use vips_adaptive_traffi.Common.{ℕ, ◌-◌}
use Prim.Native.Nat.{bit_and, bit_or}

abbrev pub dsrc_bit_position : ℕ
dsrc_bit_position = 1

abbrev pub vms_bit_position : ℕ
vms_bit_position = 2

abbrev pub disk_bit_position : ℕ
disk_bit_position = 4

abbrev pub memory_bit_position : ℕ
memory_bit_position = 8

abbrev pub tcfail_bit_position : ℕ
tcfail_bit_position = 16

abbrev pub tc_655xx_err : ℕ
tc_655xx_err = 32

abbrev pub cloud_packet_change_strategy_2_phase_weight_err : ℕ
cloud_packet_change_strategy_2_phase_weight_err = 64

-- `|= bit` and `&= ~bit` on a byte.
abbrev pub raise_bit : ℕ → ℕ → ℕ
raise_bit bit status = bit_or status bit

abbrev pub lower_bit : ℕ → ℕ → ℕ
lower_bit bit status = bit_and status (255 - bit)

unfoldable pub set_dsrc_error : ℕ → ℕ
set_dsrc_error = raise_bit dsrc_bit_position

unfoldable pub clear_dsrc_error : ℕ → ℕ
clear_dsrc_error = lower_bit dsrc_bit_position

unfoldable pub set_vms_error : ℕ → ℕ
set_vms_error = raise_bit vms_bit_position

unfoldable pub clear_vms_error : ℕ → ℕ
clear_vms_error = lower_bit vms_bit_position

unfoldable pub set_disk_error : ℕ → ℕ
set_disk_error = raise_bit disk_bit_position

unfoldable pub clear_disk_error : ℕ → ℕ
clear_disk_error = lower_bit disk_bit_position

unfoldable pub set_memory_error : ℕ → ℕ
set_memory_error = raise_bit memory_bit_position

unfoldable pub clear_memory_error : ℕ → ℕ
clear_memory_error = lower_bit memory_bit_position

unfoldable pub set_tsc_5fcc_error : ℕ → ℕ
set_tsc_5fcc_error = raise_bit tcfail_bit_position

unfoldable pub clear_tsc_5fcc_error : ℕ → ℕ
clear_tsc_5fcc_error = lower_bit tcfail_bit_position

unfoldable pub set_655xx_error : ℕ → ℕ
set_655xx_error = raise_bit tc_655xx_err

unfoldable pub clear_655xx_error : ℕ → ℕ
clear_655xx_error = lower_bit tc_655xx_err

unfoldable pub set_phase_weight_err : ℕ → ℕ
set_phase_weight_err = raise_bit cloud_packet_change_strategy_2_phase_weight_err

unfoldable pub clear_phase_weight_err : ℕ → ℕ
clear_phase_weight_err = lower_bit cloud_packet_change_strategy_2_phase_weight_err
