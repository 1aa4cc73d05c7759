-- ===== src/Examples/Strings.antt =====
-- string.c
use se_l4_tools.Common.{◌+◌, ◌≡◌, inr, refl, some, arith, done}
use se_l4_tools.Memory.{kernel_32, kernel_64, Memory}
use se_l4_tools.Strops.{strlen, memset, memcpy}
use se_l4_tools.Strops.Bytes.{fill_bytes, copy_bytes}
use se_l4_tools.Strops.Memset.{memset-fill_bytes}
use se_l4_tools.Strops.Memcpy.{memcpy-copy_bytes}
use se_l4_tools.Strops.Memcpy.Returns.{memcpy-returns}
use se_l4_tools.Examples.Sample.{memory, base, memory-IsBytes}

strlen_test : strlen 9 memory (base + 249) ≡ some 5
unfolding strlen
strlen_test = refl

memset-fill_bytes_example : memset kernel_64 memory 4099 255 30 ≡ fill_bytes memory 4099 255 30
memset-fill_bytes_example = memset-fill_bytes kernel_64 memory 4099 255 30

memcpy-copy_bytes_example :
    memcpy kernel_32 memory 9001 4097 30 ≡ done (copy_bytes memory 9001 4097 30)
memcpy-copy_bytes_example =
    memcpy-copy_bytes kernel_32 memory 9001 4097 30 memory-IsBytes (inr (omega arith))

memcpy-returns_example : (m' : Memory) × (memcpy kernel_32 memory 4098 4097 30 ≡ done m')
memcpy-returns_example = memcpy-returns kernel_32 memory 4098 4097 30
