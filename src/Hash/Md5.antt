-- ===== src/Hash/Md5.antt =====
-- src/utils/crypt_md5.c. A uint32_t is a number below 2 ^ 32; sums, shifts and `~` are taken there.
use se_l4_tools.Common.{
  ℕ, zero, suc, ◌+◌, ◌-◌, ◌*◌, ◌/◌, ◌%◌, ◌^◌, List, [], ◌∷◌, ◌++◌, get_or, bit_and, bit_or, bit_xor,
}
use se_l4_tools.Hash.Stream
use se_l4_tools.Hash.Stream.{State}

rol : ℕ → ℕ → ℕ
rol n k = bit_or (n * 2 ^ k % 2 ^ 32) (n / 2 ^ (32 - k))

-- F
mix_f : ℕ → ℕ → ℕ → ℕ
mix_f x y z = bit_xor z (bit_and x (bit_xor y z))

-- G
mix_g : ℕ → ℕ → ℕ → ℕ
mix_g x y z = bit_xor y (bit_and z (bit_xor y x))

-- H
mix_h : ℕ → ℕ → ℕ → ℕ
mix_h x y z = bit_xor (bit_xor x y) z

-- I
mix_i : ℕ → ℕ → ℕ → ℕ
mix_i x y z = bit_xor y (bit_or x (2 ^ 32 - 1 - z))

abbrev tab : List ℕ
tab =
    0xd76aa478 ∷ 0xe8c7b756 ∷ 0x242070db ∷ 0xc1bdceee ∷ 0xf57c0faf ∷ 0x4787c62a ∷ 0xa8304613
    ∷ 0xfd469501 ∷ 0x698098d8 ∷ 0x8b44f7af ∷ 0xffff5bb1 ∷ 0x895cd7be ∷ 0x6b901122 ∷ 0xfd987193
    ∷ 0xa679438e ∷ 0x49b40821 ∷ 0xf61e2562 ∷ 0xc040b340 ∷ 0x265e5a51 ∷ 0xe9b6c7aa ∷ 0xd62f105d
    ∷ 0x02441453 ∷ 0xd8a1e681 ∷ 0xe7d3fbc8 ∷ 0x21e1cde6 ∷ 0xc33707d6 ∷ 0xf4d50d87 ∷ 0x455a14ed
    ∷ 0xa9e3e905 ∷ 0xfcefa3f8 ∷ 0x676f02d9 ∷ 0x8d2a4c8a ∷ 0xfffa3942 ∷ 0x8771f681 ∷ 0x6d9d6122
    ∷ 0xfde5380c ∷ 0xa4beea44 ∷ 0x4bdecfa9 ∷ 0xf6bb4b60 ∷ 0xbebfbc70 ∷ 0x289b7ec6 ∷ 0xeaa127fa
    ∷ 0xd4ef3085 ∷ 0x04881d05 ∷ 0xd9d4d039 ∷ 0xe6db99e5 ∷ 0x1fa27cf8 ∷ 0xc4ac5665 ∷ 0xf4292244
    ∷ 0x432aff97 ∷ 0xab9423a7 ∷ 0xfc93a039 ∷ 0x655b59c3 ∷ 0x8f0ccc92 ∷ 0xffeff47d ∷ 0x85845dd1
    ∷ 0x6fa87e4f ∷ 0xfe2ce6e0 ∷ 0xa3014314 ∷ 0x4e0811a1 ∷ 0xf7537e82 ∷ 0xbd3af235 ∷ 0x2ad7d2bb
    ∷ 0xeb86d391 ∷ []

-- FF, GG, HH and II, by the function that they mix with.
step : (ℕ → ℕ → ℕ → ℕ) → ℕ → ℕ → ℕ → ℕ → ℕ → ℕ → ℕ → ℕ
unfolding rol
step mix a b c d w s t = (rol ((a + mix b c d + w + t) % 2 ^ 32) s + b) % 2 ^ 32

-- Four lines of a loop, for the index `i` before them.
quarter : (ℕ → ℕ → ℕ → ℕ) → (ℕ → ℕ) → List ℕ → ℕ → ℕ → ℕ → ℕ → ℕ → ℕ × ℕ × ℕ × ℕ → ℕ × ℕ × ℕ × ℕ
unfolding step
quarter mix index words s0 s1 s2 s3 i (a, b, c, d) =
    let a' = step mix a b c d (get_or words (index i) 0) s0 (get_or tab i 0) in
    let d' = step mix d a' b c (get_or words (index (i + 1)) 0) s1 (get_or tab (i + 1) 0) in
    let c' = step mix c d' a' b (get_or words (index (i + 2)) 0) s2 (get_or tab (i + 2) 0) in
    let b' = step mix b c' d' a' (get_or words (index (i + 3)) 0) s3 (get_or tab (i + 3) 0) in
    (a', b', c', d')

-- One of the four loops, which makes `left` rounds of four lines.
rounds : (ℕ → ℕ → ℕ → ℕ) → (ℕ → ℕ) → List ℕ → ℕ → ℕ → ℕ → ℕ → ℕ → ℕ → ℕ × ℕ × ℕ × ℕ → ℕ × ℕ × ℕ × ℕ
unfolding quarter
rounds mix index words s0 s1 s2 s3 zero i vars = vars
rounds mix index words s0 s1 s2 s3 (suc left) i vars =
    rounds mix index words s0 s1 s2 s3 left (i + 4) (quarter mix index words s0 s1 s2 s3 i vars)

-- W[i]
word : List ℕ → ℕ → ℕ
word buf i =
    bit_or
      (bit_or (bit_or (get_or buf (4 * i) 0) (get_or buf (4 * i + 1) 0 * 2 ^ 8 % 2 ^ 32))
        (get_or buf (4 * i + 2) 0 * 2 ^ 16 % 2 ^ 32))
      (get_or buf (4 * i + 3) 0 * 2 ^ 24 % 2 ^ 32)

words_from : List ℕ → ℕ → ℕ → List ℕ
unfolding word
words_from buf zero i = []
words_from buf (suc left) i = word buf i ∷ words_from buf left (i + 1)

unfoldable pub process_block : List ℕ → List ℕ → List ℕ
unfolding rounds words_from mix_f mix_g mix_h mix_i
process_block h buf =
    let words = words_from buf 16 0 in
    let start : ℕ × ℕ × ℕ × ℕ = (get_or h 0 0, get_or h 1 0, get_or h 2 0, get_or h 3 0) in
    let first = rounds mix_f (λ i. i) words 7 12 17 22 4 0 start in
    let second = rounds mix_g (λ i. (5 * i + 1) % 16) words 5 9 14 20 4 16 first in
    let third = rounds mix_h (λ i. (3 * i + 5) % 16) words 4 11 16 23 4 32 second in
    let (a, b, c, d) = rounds mix_i (λ i. 7 * i % 16) words 6 10 15 21 4 48 third in
    (get_or h 0 0 + a) % 2 ^ 32
    ∷ (get_or h 1 0 + b) % 2 ^ 32
    ∷ (get_or h 2 0 + c) % 2 ^ 32
    ∷ (get_or h 3 0 + d) % 2 ^ 32
    ∷ []

-- The bytes of a number, the least significant first.
unfoldable pub little_endian : ℕ → ℕ → List ℕ
little_endian zero n = []
little_endian (suc left) n = n % 256 ∷ little_endian left (n / 256)

unfoldable pub pad : State → State
pad s = Stream.pad process_block (little_endian 8) s

-- The buffer is left as it is, here the bytes `junk`.
unfoldable pub init : List ℕ → State
init junk = record {
  len = 0;
  h = 0x67452301 ∷ 0xefcdab89 ∷ 0x98badcfe ∷ 0x10325476 ∷ [];
  buf = junk;
}

-- The loop of md5_sum.
unfoldable pub digest : List ℕ → List ℕ
digest h =
    little_endian 4 (get_or h 0 0)
    ++ little_endian 4 (get_or h 1 0)
    ++ little_endian 4 (get_or h 2 0)
    ++ little_endian 4 (get_or h 3 0)

-- The bytes that md5_sum writes at `md`.
unfoldable pub sum : State → List ℕ
sum s = digest (pad s).h

unfoldable pub update : State → List ℕ → State
update s xs = Stream.update process_block s xs
