-- ===== src/Efi/Exited.antt =====
-- How efi_exit_boot_services of src/binaries/efi/efi_init.c ends.
use se_l4_tools.Common.{ℕ, ◌+◌, ◌-◌, ◌≤◌, ◌<◌, ◌≡◌, ◌≢◌, ◌⊎◌, inl, inr}
use se_l4_tools.Memory.{Kernel, word_mod}
use se_l4_tools.Efi.{efi_success, efi_buffer_too_small, efi_loader_data, desc_size, BootServices}

-- What the UEFI specification says of the calls: a buffer is held from its allocation until it is freed; a
-- buffer that is called too small is below the size of the memory map, which is then told; and on
-- success the key is that of the map. The map never has more than `limit` bytes.
pub record IsFirmware (S : Type 0) (k : Kernel) (bts : BootServices S) (held needed key_of : S → ℕ)
    (limit : ℕ) : Type 0 where
  pub allocated :
      (n : ℕ) (s : S)
      → let r = bts.allocate_pool efi_loader_data n s in r.0 ≡ efi_success → held r.2 ≡ held s + 1
  pub refused :
      (n : ℕ) (s : S)
      → let r = bts.allocate_pool efi_loader_data n s in r.0 ≢ efi_success → held r.2 ≡ held s
  pub kept : (n p : ℕ) (s : S) → let r = bts.get_memory_map n p s in held r.3 ≡ held s
  pub too_small :
      (n p : ℕ) (s : S)
      → let r = bts.get_memory_map n p s in
        r.0 ≡ efi_buffer_too_small k → (n < needed r.3) × (r.1 ≡ needed r.3)
  pub current :
      (n p : ℕ) (s : S) → let r = bts.get_memory_map n p s in r.0 ≡ efi_success → r.2 ≡ key_of r.3
  pub freed : (p : ℕ) (s : S) → held (bts.free_pool p s) ≡ held s - 1
  pub bounded : (s : S) → needed s ≤ limit
  pub small : limit + desc_size < word_mod k

module _ {S : Type 0} (k : Kernel) (bts : BootServices S) (handle : ℕ) (held needed key_of : S → ℕ)
    (limit : ℕ) (firmware : IsFirmware S k bts held needed key_of limit) where
  -- The services are ended, with the key of the map as it is and the buffer for it still held; or a call has
  -- failed, and no buffer is left.
  abbrev pub Ends : S → ℕ × S → Type 0
  Ends s r =
      ((s' : S) × (r ≡ bts.exit_boot_services handle (key_of s') s') × (held s' ≡ held s + 1))
      ⊎ ((r.0 ≢ efi_success) × (held r.1 ≡ held s))

  -- A round with too small a buffer, and what is next.
  abbrev Again : ℕ → S → ℕ × S → Type 0
  Again n s (n', s') = (n < limit) × (n + desc_size < n') × (held s' ≡ held s)

  abbrev Round : ℕ → S → (ℕ × S) ⊎ (ℕ × S) → Type 0
  Round n s o =
      ((r : ℕ × S) × (o ≡ inl r) × Ends s r) ⊎ ((next : ℕ × S) × (o ≡ inr next) × Again n s next)
