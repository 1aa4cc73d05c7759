-- ===== src/Hash.antt =====
-- src/utils/hash.c: the digest of a file by one of the two methods, crypt_md5.c and crypt_sha256.c.
pub mod Stream
pub mod Blocks
pub mod Update
pub mod Close
pub mod Padding
pub mod Digest
pub mod Print
pub mod Md5
pub mod Sha256
use se_l4_tools.Common.{ℕ, zero, suc, ◌+◌, List, [], ◌∷◌, replicate}
use se_l4_tools.Memory.{Memory}

-- enum hash_methods
pub data HashMethod : Type 0 where
  sha_256 md5 : HashMethod

-- The bytes that a pointer and a length name.
unfoldable pub bytes : Memory → ℕ → ℕ → List ℕ
bytes m p zero = []
bytes m p (suc n) = m p ∷ bytes m (p + 1) n

-- hashes_t: the structures stand in the caller's frame and come with what is there.
pub record Hashes : Type 0 where
  pub junk : List ℕ
  pub hash_type : HashMethod

-- The bytes written at `outputted_hash`.
unfoldable pub get_hash : Hashes → List ℕ → List ℕ
get_hash hashes file = elim hashes.hash_type [
  | sha_256 ↦ Sha256.sum (Sha256.update (Sha256.init hashes.junk) file)
  | md5 ↦ Md5.sum (Md5.update (Md5.init hashes.junk) file)
]
