-- ===== src/Hash/Digest.antt =====
-- get_hash: the digest of the padded file, block by block.
use mathlib.Core.List.{foldl}
use se_l4_tools.Common.{ℕ, zero, suc, ◌/◌, ◌≡◌, refl, ap, arith, List, [], ◌∷◌, length}
use se_l4_tools.Hash.{sha_256, md5, get_hash}
use se_l4_tools.Hash.Md5
use se_l4_tools.Hash.Sha256
use se_l4_tools.Hash.Update.{Absorbed, update-Absorbed}
use se_l4_tools.Hash.Padding.{Padded, pad-Padded}

pub empty-Absorbed :
    (process_block : List ℕ → List ℕ → List ℕ) (iv junk : List ℕ)
    → length junk ≡ 64
    → Absorbed process_block iv [] (record { len = 0; h = iv; buf = junk })
empty-Absorbed process_block iv junk e = record {
  blocks = [];
  rest = [];
  tail = junk;
  whole = tt;
  short = omega arith;
  message = refl;
  hash = refl;
  buffer = refl;
  size = omega (arith, e);
  count = refl;
}

pub length-little_endian : (n v : ℕ) → length (Md5.little_endian n v) ≡ n
unfolding Md5.little_endian
length-little_endian zero v = refl
length-little_endian (suc n) v = ap suc (length-little_endian n (v / 256))

length-big_endian : (n v : ℕ) → length (Sha256.big_endian n v) ≡ n
unfolding Sha256.big_endian
length-big_endian zero v = refl
length-big_endian (suc n) v = ap suc (length-big_endian n v)

-- With MD5, get_hash writes the four words, each with its least byte first, that the block function
-- makes of the initial value over the blocks of the padded file. The padding is a byte 0x80, zeros
-- up to 56 bytes of the last block, and the length in bits with its least byte first.
-- The buffer has 64 bytes.
pub get_hash-md5 :
    (junk file : List ℕ)
    → length junk ≡ 64
    → (bs : List (List ℕ)) × Padded (Md5.little_endian 8) file bs
      × (get_hash (record { junk = junk; hash_type = md5 }) file
          ≡ Md5.digest
              (foldl Md5.process_block (0x67452301 ∷ 0xefcdab89 ∷ 0x98badcfe ∷ 0x10325476 ∷ []) bs))
unfolding get_hash Md5.sum Md5.pad Md5.update Md5.init
get_hash-md5 junk file e =
    let iv : List ℕ = 0x67452301 ∷ 0xefcdab89 ∷ 0x98badcfe ∷ 0x10325476 ∷ [] in
    let (bs, p, h) =
      pad-Padded Md5.process_block (Md5.little_endian 8) (length-little_endian 8) iv file
        (Md5.update (record { len = 0; h = iv; buf = junk }) file)
        (update-Absorbed Md5.process_block iv [] file _
          (empty-Absorbed Md5.process_block iv junk e)) in
    (bs, p, ap Md5.digest h)

-- With SHA-256, get_hash writes the eight words, each with its greatest byte first, that the block
-- function makes of the initial value over the blocks of the padded file. The padding is a byte 0x80,
-- zeros up to 56 bytes of the last block, and the length in bits with its greatest byte first.
-- The buffer has 64 bytes.
pub get_hash-sha_256 :
    (junk file : List ℕ)
    → length junk ≡ 64
    → (bs : List (List ℕ)) × Padded (Sha256.big_endian 8) file bs
      × (get_hash (record { junk = junk; hash_type = sha_256 }) file
          ≡ Sha256.digest (
              foldl Sha256.process_block
                (0x6a09e667 ∷ 0xbb67ae85 ∷ 0x3c6ef372 ∷ 0xa54ff53a ∷ 0x510e527f ∷ 0x9b05688c
                  ∷ 0x1f83d9ab ∷ 0x5be0cd19 ∷ [])
                bs))
unfolding get_hash Sha256.sum Sha256.pad Sha256.update Sha256.init
get_hash-sha_256 junk file e =
    let iv : List ℕ =
      0x6a09e667 ∷ 0xbb67ae85 ∷ 0x3c6ef372 ∷ 0xa54ff53a ∷ 0x510e527f ∷ 0x9b05688c ∷ 0x1f83d9ab
      ∷ 0x5be0cd19 ∷ [] in
    let (bs, p, h) =
      pad-Padded Sha256.process_block (Sha256.big_endian 8) (length-big_endian 8) iv file
        (Sha256.update (record { len = 0; h = iv; buf = junk }) file)
        (update-Absorbed Sha256.process_block iv [] file _
          (empty-Absorbed Sha256.process_block iv junk e)) in
    (bs, p, ap Sha256.digest h)
