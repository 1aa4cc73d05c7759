-- ===== src/Examples/Archives.antt =====
-- cpio-strip.c, on an archive with one entry at 4096.
use se_l4_tools.Common.{ℕ, ◌≡◌, refl, sym, arith, ◌==◌, true, done, if◌then◌else◌}
use se_l4_tools.Memory.{Memory}
use se_l4_tools.CpioStrip.{Layout, written, get_header, locate, strip}
use se_l4_tools.CpioStrip.Header.{get_header-entry}
use se_l4_tools.CpioStrip.Identical.{IsArchive, strip-identical}
use se_l4_tools.Examples.Sample.{memory}

-- The "newc" header.
abbrev newc : Layout
newc = record {
  alignment = 4;
  header_size = 110;
  c_ino = 6;
  c_ino_size = 8;
  c_uid = 22;
  c_uid_size = 8;
  c_gid = 30;
  c_gid_size = 8;
  c_mtime = 46;
  c_mtime_size = 8;
}

abbrev strlen : Memory → ℕ → ℕ
strlen m p = if m p == 0 then 0 else 2

abbrev cpio_info : Memory → ℕ × ℕ
cpio_info m = (0, 1)

abbrev cpio_get_entry : Memory → ℕ → ℕ × ℕ × ℕ
cpio_get_entry m i = (4208, 4206, 4)

-- With another owner.
abbrev other : Memory
other q = if q == 4118 then b'7' else memory q

get_header-entry_example : get_header newc strlen memory 4208 4206 ≡ done 4096
get_header-entry_example =
    get_header-entry newc strlen memory 4096 4208 4206 refl refl (omega arith) (omega arith)
      (omega arith)

archive : IsArchive newc strlen cpio_info cpio_get_entry memory (λ i. 4096) 1
unfolding locate get_header written
archive = record {
  counted = λ a same. refl;
  located =
      λ a same i lt. let name : a 4206 ≡ 0 = sym (same 4206 (λ j low high. refl)) in rw name refl;
}

strip-identical_example :
    (after : Memory) × (strip newc strlen cpio_info cpio_get_entry memory ≡ done (true, after))
    × (strip newc strlen cpio_info cpio_get_entry other ≡ done (true, after))
strip-identical_example =
    strip-identical newc strlen cpio_info cpio_get_entry (λ i. 4096) 1 memory other archive
      (λ q out. ground (arith, out 0 (omega arith) (omega arith)))
