-- ===== src/Examples/Firmware.antt =====
-- efi_init.c, on firmware with a memory map of 2000 bytes, whose state is the number of buffers held.
use se_l4_tools.Common.{ℕ, ◌+◌, ◌-◌, ◌≡◌, refl, ltb, if◌then◌else◌, some}
use se_l4_tools.Memory.{kernel_64}
use se_l4_tools.Efi.{
  exit_loop, exit_round, with_buffer, with_map, BootServices, efi_buffer_too_small,
  efi_exit_boot_services,
}

abbrev firmware : BootServices ℕ
firmware = record {
  allocate_pool = λ kind n s. (0, 0x1000, s + 1);
  get_memory_map =
      λ n p s. if ltb n 2000 then (efi_buffer_too_small kernel_64, 2000, 0, s) else (0, 2000, 7, s);
  free_pool = λ p s. s - 1;
  exit_boot_services = λ handle key s. (0, s);
}

abbrev held : ℕ → ℕ
held s = s

abbrev needed : ℕ → ℕ
needed s = 2000

abbrev key_of : ℕ → ℕ
key_of s = 7

-- The second round has a buffer of 2040 bytes.
ends_test : efi_exit_boot_services kernel_64 firmware 3 2 0 ≡ some (0, 1)
unfolding efi_exit_boot_services exit_loop exit_round with_buffer with_map
ends_test = refl
