-- ===== src/Examples/Digests.antt =====
-- The test vectors of RFC 1321 and FIPS 180-3 for "abc", and a message of two blocks.
use mathlib.Core.List.{foldl}
use se_l4_tools.Common.{ℕ, ◌≡◌, refl, List, [], ◌∷◌, ◌++◌, some, arith, replicate}
use se_l4_tools.Hash.{get_hash, sha_256, md5}
use se_l4_tools.Hash.Md5
use se_l4_tools.Hash.Sha256
use se_l4_tools.Hash.Stream
use se_l4_tools.Hash.Print.{print_hash, digits, print_hash-digits}
use se_l4_tools.Examples.Sample.{memory, memory-IsBytes}
use se_l4_tools.Memory.{kernel_32}
use se_l4_tools.Hash.Padding.{Padded, pad-Padded}
use se_l4_tools.Hash.Update.{Absorbed, update-Absorbed}
use se_l4_tools.Hash.Digest.{get_hash-md5, get_hash-sha_256, empty-Absorbed, length-little_endian}

abbrev abc : List ℕ
abc = b'a' ∷ b'b' ∷ b'c' ∷ []

abbrev junk : List ℕ
junk = replicate 64 7

-- 60 bytes, whose padding takes a second block
abbrev long : List ℕ
long = replicate 60 b'a'

md5_test :
    get_hash (record { junk = junk; hash_type = md5 }) abc
    ≡ 0x90 ∷ 0x01 ∷ 0x50 ∷ 0x98 ∷ 0x3c ∷ 0xd2 ∷ 0x4f ∷ 0xb0 ∷ 0xd6 ∷ 0x96 ∷ 0x3f ∷ 0x7d ∷ 0x28
      ∷ 0xe1 ∷ 0x7f ∷ 0x72 ∷ []
unfolding get_hash Md5.sum Md5.digest Md5.pad Md5.update Md5.init Md5.little_endian
    Md5.process_block Stream.pad Stream.update Stream.absorb Stream.splice
md5_test = refl

sha_256_test :
    get_hash (record { junk = junk; hash_type = sha_256 }) abc
    ≡ 0xba ∷ 0x78 ∷ 0x16 ∷ 0xbf ∷ 0x8f ∷ 0x01 ∷ 0xcf ∷ 0xea ∷ 0x41 ∷ 0x41 ∷ 0x40 ∷ 0xde ∷ 0x5d
      ∷ 0xae ∷ 0x22 ∷ 0x23 ∷ 0xb0 ∷ 0x03 ∷ 0x61 ∷ 0xa3 ∷ 0x96 ∷ 0x17 ∷ 0x7a ∷ 0x9c ∷ 0xb4 ∷ 0x10
      ∷ 0xff ∷ 0x61 ∷ 0xf2 ∷ 0x00 ∷ 0x15 ∷ 0xad ∷ []
unfolding get_hash Sha256.sum Sha256.digest Sha256.pad Sha256.update Sha256.init Sha256.big_endian
    Sha256.process_block Stream.pad Stream.update Stream.absorb Stream.splice
sha_256_test = refl

get_hash-md5_example :
    (bs : List (List ℕ)) × Padded (Md5.little_endian 8) long bs
    × (get_hash (record { junk = junk; hash_type = md5 }) long
        ≡ Md5.digest
            (foldl Md5.process_block (0x67452301 ∷ 0xefcdab89 ∷ 0x98badcfe ∷ 0x10325476 ∷ []) bs))
get_hash-md5_example = get_hash-md5 junk long refl

get_hash-sha_256_example :
    (bs : List (List ℕ)) × Padded (Sha256.big_endian 8) long bs
    × (get_hash (record { junk = junk; hash_type = sha_256 }) long
        ≡ Sha256.digest (
            foldl Sha256.process_block
              (0x6a09e667 ∷ 0xbb67ae85 ∷ 0x3c6ef372 ∷ 0xa54ff53a ∷ 0x510e527f ∷ 0x9b05688c
                ∷ 0x1f83d9ab ∷ 0x5be0cd19 ∷ [])
              bs))
get_hash-sha_256_example = get_hash-sha_256 junk long refl

abbrev iv : List ℕ
iv = 0x67452301 ∷ 0xefcdab89 ∷ 0x98badcfe ∷ 0x10325476 ∷ []

abbrev start : Stream.State
start = record { len = 0; h = iv; buf = junk }

update-Absorbed_example :
    Absorbed Md5.process_block iv ([] ++ long) (Stream.update Md5.process_block start long)
update-Absorbed_example =
    update-Absorbed Md5.process_block iv [] long start
      (empty-Absorbed Md5.process_block iv junk refl)

pad-Padded_example :
    (bs : List (List ℕ)) × Padded (Md5.little_endian 8) [] bs
    × ((Stream.pad Md5.process_block (Md5.little_endian 8) start).h ≡ foldl Md5.process_block iv bs)
pad-Padded_example =
    pad-Padded Md5.process_block (Md5.little_endian 8) (length-little_endian 8) iv [] start
      (empty-Absorbed Md5.process_block iv junk refl)

print_hash-digits_example :
    print_hash 9 kernel_32 memory memory 4096 16 []
    ≡ some ([] ++ digits 9 kernel_32 memory memory 4096 16 ++ b'\n' ∷ [])
print_hash-digits_example =
    print_hash-digits 9 kernel_32 memory memory 4096 16 [] memory-IsBytes (omega arith)
