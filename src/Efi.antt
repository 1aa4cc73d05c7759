-- ===== src/Efi.antt =====
-- efi_exit_boot_services of src/binaries/efi/efi_init.c. The firmware is a parameter, over a state of its
-- own.
pub mod Exited
use se_l4_tools.Common.{
  ℕ, zero, suc, ◌+◌, ◌-◌, ◌*◌, ◌%◌, ◌^◌, Bool, true, false, ◌==◌, ltb, if◌then◌else◌, Option, none,
  some, ◌⊎◌, inl, inr,
}
use se_l4_tools.Memory.{Kernel, byte_per_word, word_mod}

abbrev pub efi_success : ℕ
efi_success = 0

abbrev pub efi_buffer_too_small : Kernel → ℕ
efi_buffer_too_small k = 5 + 2 ^ (byte_per_word k * 8 - 1)

abbrev pub efi_loader_data : ℕ
efi_loader_data = 2

-- sizeof(efi_memory_desc_t)
abbrev pub desc_size : ℕ
desc_size = 40

-- The boot services that are called. Each result starts with the status, and ends with the state;
-- allocate_pool gives the buffer, get_memory_map the size and the key.
pub record BootServices {ℓ} (S : Type ℓ) : Type ℓ where
  pub allocate_pool : ℕ → ℕ → S → ℕ × ℕ × S
  pub get_memory_map : ℕ → ℕ → S → ℕ × ℕ × ℕ × S
  pub free_pool : ℕ → S → S
  pub exit_boot_services : ℕ → ℕ → S → ℕ × S

module _ {ℓ} {S : Type ℓ} (k : Kernel) (bts : BootServices S) (application_handle : ℕ) where
  -- What follows the call of get_memory_map.
  unfoldable pub with_map : ℕ → ℕ × ℕ × ℕ × S → (ℕ × S) ⊎ (ℕ × S)
  with_map memory_map (status, map_size, key, s) =
      if status == efi_buffer_too_small k
      then inr ((map_size + desc_size) % word_mod k, bts.free_pool memory_map s)
      else if status == efi_success
      then inl (bts.exit_boot_services application_handle key s)
      else inl (status, bts.free_pool memory_map s)

  -- What follows the call of allocate_pool.
  unfoldable pub with_buffer : ℕ → ℕ × ℕ × S → (ℕ × S) ⊎ (ℕ × S)
  with_buffer map_size (status, memory_map, s) =
      if status == efi_success
      then with_map memory_map (bts.get_memory_map map_size memory_map s)
      else inl (status, s)

  -- From `again` on: a result, or the size for the next round.
  unfoldable pub exit_round : ℕ → S → (ℕ × S) ⊎ (ℕ × S)
  exit_round map_size s = with_buffer map_size (bts.allocate_pool efi_loader_data map_size s)

  unfoldable pub exit_loop : ℕ → ℕ → S → Option (ℕ × S)
  exit_loop zero map_size s = none
  exit_loop (suc f) map_size s = elim (exit_round map_size s) [
    | inl r ↦ some r
    | inr (map_size', s') ↦ exit_loop f map_size' s'
  ]

  unfoldable pub efi_exit_boot_services : ℕ → S → Option (ℕ × S)
  efi_exit_boot_services f s = exit_loop f (desc_size * 32) s
