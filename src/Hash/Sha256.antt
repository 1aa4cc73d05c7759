-- ===== src/Hash/Sha256.antt =====
-- src/utils/crypt_sha256.c. A uint32_t is a number below 2 ^ 32.
use se_l4_tools.Common.{
  ℕ, zero, suc, ◌+◌, ◌-◌, ◌*◌, ◌/◌, ◌%◌, ◌^◌, List, [], ◌∷◌, ◌++◌, get_or, bit_and, bit_or, bit_xor,
}
use se_l4_tools.Hash.Stream
use se_l4_tools.Hash.Stream.{State}

ror : ℕ → ℕ → ℕ
ror n k = bit_or (n / 2 ^ k) (n * 2 ^ (32 - k) % 2 ^ 32)

-- Ch
choose : ℕ → ℕ → ℕ → ℕ
choose x y z = bit_xor z (bit_and x (bit_xor y z))

-- Maj
majority : ℕ → ℕ → ℕ → ℕ
majority x y z = bit_or (bit_and x y) (bit_and z (bit_or x y))

-- S0
big_sigma_0 : ℕ → ℕ
unfolding ror
big_sigma_0 x = bit_xor (bit_xor (ror x 2) (ror x 13)) (ror x 22)

-- S1
big_sigma_1 : ℕ → ℕ
unfolding ror
big_sigma_1 x = bit_xor (bit_xor (ror x 6) (ror x 11)) (ror x 25)

-- R0
sigma_0 : ℕ → ℕ
unfolding ror
sigma_0 x = bit_xor (bit_xor (ror x 7) (ror x 18)) (x / 2 ^ 3)

-- R1
sigma_1 : ℕ → ℕ
unfolding ror
sigma_1 x = bit_xor (bit_xor (ror x 17) (ror x 19)) (x / 2 ^ 10)

-- K
abbrev round_constants : List ℕ
round_constants =
    0x428a2f98 ∷ 0x71374491 ∷ 0xb5c0fbcf ∷ 0xe9b5dba5 ∷ 0x3956c25b ∷ 0x59f111f1 ∷ 0x923f82a4
    ∷ 0xab1c5ed5 ∷ 0xd807aa98 ∷ 0x12835b01 ∷ 0x243185be ∷ 0x550c7dc3 ∷ 0x72be5d74 ∷ 0x80deb1fe
    ∷ 0x9bdc06a7 ∷ 0xc19bf174 ∷ 0xe49b69c1 ∷ 0xefbe4786 ∷ 0x0fc19dc6 ∷ 0x240ca1cc ∷ 0x2de92c6f
    ∷ 0x4a7484aa ∷ 0x5cb0a9dc ∷ 0x76f988da ∷ 0x983e5152 ∷ 0xa831c66d ∷ 0xb00327c8 ∷ 0xbf597fc7
    ∷ 0xc6e00bf3 ∷ 0xd5a79147 ∷ 0x06ca6351 ∷ 0x14292967 ∷ 0x27b70a85 ∷ 0x2e1b2138 ∷ 0x4d2c6dfc
    ∷ 0x53380d13 ∷ 0x650a7354 ∷ 0x766a0abb ∷ 0x81c2c92e ∷ 0x92722c85 ∷ 0xa2bfe8a1 ∷ 0xa81a664b
    ∷ 0xc24b8b70 ∷ 0xc76c51a3 ∷ 0xd192e819 ∷ 0xd6990624 ∷ 0xf40e3585 ∷ 0x106aa070 ∷ 0x19a4c116
    ∷ 0x1e376c08 ∷ 0x2748774c ∷ 0x34b0bcb5 ∷ 0x391c0cb3 ∷ 0x4ed8aa4a ∷ 0x5b9cca4f ∷ 0x682e6ff3
    ∷ 0x748f82ee ∷ 0x78a5636f ∷ 0x84c87814 ∷ 0x8cc70208 ∷ 0x90befffa ∷ 0xa4506ceb ∷ 0xbef9a3f7
    ∷ 0xc67178f2 ∷ []

-- W[i] for i < 16
word : List ℕ → ℕ → ℕ
word buf i =
    bit_or
      (bit_or
        (bit_or (get_or buf (4 * i) 0 * 2 ^ 24 % 2 ^ 32)
          (get_or buf (4 * i + 1) 0 * 2 ^ 16 % 2 ^ 32))
        (get_or buf (4 * i + 2) 0 * 2 ^ 8 % 2 ^ 32))
      (get_or buf (4 * i + 3) 0)

words_from : List ℕ → ℕ → ℕ → List ℕ
unfolding word
words_from buf zero i = []
words_from buf (suc left) i = word buf i ∷ words_from buf left (i + 1)

-- W[i] for i from 16 on, behind the words that there are.
schedule : ℕ → ℕ → List ℕ → List ℕ
unfolding sigma_0 sigma_1
schedule zero i words = words
schedule (suc left) i words =
    let next =
      (sigma_1 (get_or words (i - 2) 0)
        + get_or words (i - 7) 0
        + sigma_0 (get_or words (i - 15) 0)
        + get_or words (i - 16) 0)
      % 2 ^ 32 in
    schedule left (i + 1) (words ++ next ∷ [])

-- The variables a to h.
pub record Vars : Type 0 where
  pub a : ℕ
  pub b : ℕ
  pub c : ℕ
  pub d : ℕ
  pub e : ℕ
  pub f : ℕ
  pub g : ℕ
  pub h : ℕ

-- The body of the main loop, with K[i] and W[i].
round : ℕ → ℕ → Vars → Vars
unfolding big_sigma_0 big_sigma_1 choose majority
round key word v =
    let t1 = (v.h + big_sigma_1 v.e + choose v.e v.f v.g + key + word) % 2 ^ 32 in
    let t2 = (big_sigma_0 v.a + majority v.a v.b v.c) % 2 ^ 32 in
    record {
      a = (t1 + t2) % 2 ^ 32;
      b = v.a;
      c = v.b;
      d = v.c;
      e = (v.d + t1) % 2 ^ 32;
      f = v.e;
      g = v.f;
      h = v.g;
    }

rounds : ℕ → ℕ → List ℕ → Vars → Vars
unfolding round
rounds zero i words v = v
rounds (suc left) i words v =
    rounds left (i + 1) words (round (get_or round_constants i 0) (get_or words i 0) v)

unfoldable pub process_block : List ℕ → List ℕ → List ℕ
unfolding rounds words_from schedule
process_block h buf =
    let words = schedule 48 16 (words_from buf 16 0) in
    let start : Vars = record {
      a = get_or h 0 0;
      b = get_or h 1 0;
      c = get_or h 2 0;
      d = get_or h 3 0;
      e = get_or h 4 0;
      f = get_or h 5 0;
      g = get_or h 6 0;
      h = get_or h 7 0;
    } in
    let v = rounds 64 0 words start in
    (get_or h 0 0 + v.a) % 2 ^ 32
    ∷ (get_or h 1 0 + v.b) % 2 ^ 32
    ∷ (get_or h 2 0 + v.c) % 2 ^ 32
    ∷ (get_or h 3 0 + v.d) % 2 ^ 32
    ∷ (get_or h 4 0 + v.e) % 2 ^ 32
    ∷ (get_or h 5 0 + v.f) % 2 ^ 32
    ∷ (get_or h 6 0 + v.g) % 2 ^ 32
    ∷ (get_or h 7 0 + v.h) % 2 ^ 32
    ∷ []

-- The bytes of a number, the most significant first.
unfoldable pub big_endian : ℕ → ℕ → List ℕ
big_endian zero n = []
big_endian (suc left) n = n / 256 ^ left % 256 ∷ big_endian left n

unfoldable pub pad : State → State
pad s = Stream.pad process_block (big_endian 8) s

-- The buffer is left as it is, here the bytes `junk`.
unfoldable pub init : List ℕ → State
init junk = record {
  len = 0;
  h =
      0x6a09e667 ∷ 0xbb67ae85 ∷ 0x3c6ef372 ∷ 0xa54ff53a ∷ 0x510e527f ∷ 0x9b05688c ∷ 0x1f83d9ab
      ∷ 0x5be0cd19 ∷ [];
  buf = junk;
}

-- The loop of sha256_sum.
unfoldable pub digest : List ℕ → List ℕ
digest h =
    big_endian 4 (get_or h 0 0)
    ++ big_endian 4 (get_or h 1 0)
    ++ big_endian 4 (get_or h 2 0)
    ++ big_endian 4 (get_or h 3 0)
    ++ big_endian 4 (get_or h 4 0)
    ++ big_endian 4 (get_or h 5 0)
    ++ big_endian 4 (get_or h 6 0)
    ++ big_endian 4 (get_or h 7 0)

-- The bytes that sha256_sum writes at `md`.
unfoldable pub sum : State → List ℕ
sum s = digest (pad s).h

unfoldable pub update : State → List ℕ → State
update s xs = Stream.update process_block s xs
