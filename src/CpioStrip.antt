-- ===== src/CpioStrip.antt =====
-- src/misc/cpio-strip.c: the loop that takes the metadata out of the entries of an archive in memory. libcpio
-- and its constants are parameters, as is strlen of the C library; the files and the mapping are left out.
pub mod Header
pub mod Identical
use mathlib.Core.Option.{Option, none, some}
use se_l4_tools.Common.{
  ℕ, zero, suc, ◌+◌, ◌-◌, ◌*◌, ◌/◌, ◌%◌, ◌^◌, Bool, true, false, ◌==◌, ltb, leb, if◌then◌else◌,
  Outcome, done, aborted, ◌>>=◌, ◌>>◌, require,
}
use se_l4_tools.Memory.{Memory}
use se_l4_tools.Strops.Bytes.{within, fill_bytes}

-- CPIO_ALIGNMENT, and where `struct cpio_header` has its fields and how long they are.
pub record Layout : Type 0 where
  pub alignment : ℕ
  pub header_size : ℕ
  pub c_ino : ℕ
  pub c_ino_size : ℕ
  pub c_uid : ℕ
  pub c_uid_size : ℕ
  pub c_gid : ℕ
  pub c_gid_size : ℕ
  pub c_mtime : ℕ
  pub c_mtime_size : ℕ

-- The character at `i` of the eight digits of `%08x`.
unfoldable pub hex_digit_at : ℕ → ℕ → ℕ
hex_digit_at n i = let d = n / 16 ^ (7 - i) % 16 in if ltb d 10 then b'0' + d else b'a' + (d - 10)

-- The bytes that snprintf writes: the text, cut to the buffer, and a NUL.
unfoldable pub written : ℕ → ℕ
written size = if ltb size 9 then size else 9

-- `snprintf(dest, size, "%08x", n)`
unfoldable pub snprintf_08x : Memory → ℕ → ℕ → ℕ → Memory
snprintf_08x m dest size n q =
    if within dest (written size) q
    then (if q + 1 == dest + written size then 0 else hex_digit_at n (q - dest))
    else m q

-- The body of the loop behind the assertions.
unfoldable pub strip_entry : Layout → ℕ → ℕ → Memory → Memory
strip_entry l header i m =
    let inode = (11 + i) % 2 ^ 32 in
    let with_ino = snprintf_08x m (header + l.c_ino) l.c_ino_size inode in
    let with_uid = fill_bytes with_ino (header + l.c_uid) 0 l.c_uid_size in
    let with_gid = fill_bytes with_uid (header + l.c_gid) 0 l.c_gid_size in
    fill_bytes with_gid (header + l.c_mtime) 0 l.c_mtime_size

module _ (l : Layout) (strlen : Memory → ℕ → ℕ) where
  unfoldable pub get_header : Memory → ℕ → ℕ → Outcome ℕ
  get_header m data_ptr filename =
      require (data_ptr % l.alignment == 0) "(uintptr_t)data % CPIO_ALIGNMENT == 0"
      >> (let p =
            (data_ptr + 3 * 2 ^ 64 - strlen m filename % 2 ^ 64 - 1 - l.header_size % 2 ^ 64)
            % 2 ^ 64 in
          done (p - p % l.alignment))

  module _ (cpio_info : Memory → ℕ × ℕ) (cpio_get_entry : Memory → ℕ → ℕ × ℕ × ℕ) where
    -- Where the header of an entry is; `none` where the entry is not found.
    unfoldable pub locate : Memory → ℕ → Outcome (Option ℕ)
    locate m i =
        let (data_ptr, filename, size) = cpio_get_entry m i in
        if data_ptr == 0
        then done none
        else (get_header m data_ptr filename >>= λ header.
            require (header % l.alignment == 0) "(uintptr_t)header % CPIO_ALIGNMENT == 0"
            >> done (some header))

    -- The loop from the entry `i` on, with the rounds that are left, and whether it gets to the end.
    unfoldable pub strip_entries : ℕ → ℕ → Memory → Outcome (Bool × Memory)
    strip_entries zero i m = done (true, m)
    strip_entries (suc left) i m = locate m i >>= λ found. elim found [
      | some header ↦ strip_entries left (i + 1) (strip_entry l header i m)
      | none ↦ done (false, m)
    ]

    -- What main does with the error and the count of cpio_info.
    unfoldable pub strip_counted : ℕ × ℕ → Memory → Outcome (Bool × Memory)
    strip_counted (err, file_count) m = elim (err == 0) [
      | true ↦ strip_entries file_count 0 m
      | false ↦ done (false, m)
    ]

    -- main behind the mapping of the file.
    unfoldable pub strip : Memory → Outcome (Bool × Memory)
    strip m = strip_counted (cpio_info m) m
