-- ===== src/Loader/Digest.antt =====
-- The comparison of the file's digest with the one in the archive.
use Prim.Native.String.{String}
use se_l4_tools.Common.{ℕ, zero, suc, ◌≡◌, ◌≢◌, ◌↔◌, ◌⊎◌, refl, pos, negsuc, ℤ, done}
use se_l4_tools.Memory.{Kernel, Memory}
use se_l4_tools.Strops.Compare.{SameBytes, StopsAt, strncmp-zero_iff}
use se_l4_tools.Hash.{HashMethod, bytes, get_hash}
use se_l4_tools.Loader.{HashConfig, Site, write_bytes, compare_hash, judge_hash}

judge_hash_iff :
    (x : ℕ) (r : ℤ) (m : Memory) → (judge_hash x r m ≡ done m) ↔ ((x ≢ 0) × (r ≡ pos 0))
unfolding judge_hash
judge_hash_iff zero r m = (λ e. cc, λ (ne, _). absurd (ne refl))
judge_hash_iff (suc p) (pos zero) m = (λ e. (λ z. cc, refl), λ _. refl)
judge_hash_iff (suc p) (pos (suc d)) m = (λ e. cc, λ (_, z). cc)
judge_hash_iff (suc p) (negsuc d) m = (λ e. cc, λ (_, z). cc)

-- An image passes exactly when the archive has a digest for it, and that digest agrees with the
-- computed one in all its bytes or up to a zero byte that both have at one index: the bytes behind
-- it are not compared.
pub compare_hash_iff :
    (k : Kernel) (config : HashConfig) (site : Site) (cpio_get_file : Memory → String → ℕ × ℕ)
    → (cpio_get_entry : Memory → ℕ → ℕ × ℕ × ℕ) (method : HashMethod) (hash_len : ℕ) (m : Memory)
    → (elf size : ℕ) (hash : String)
    → let file_hash = (cpio_get_file m hash).0 in
      let m' =
        write_bytes m site.calculated_hash
          (get_hash (record { junk = site.junk; hash_type = method }) (bytes m elf size)) in
      (compare_hash k config site cpio_get_file cpio_get_entry method hash_len m elf size hash
        ≡ done m')
      ↔ ((file_hash ≢ 0)
          × (SameBytes m' file_hash site.calculated_hash hash_len
              ⊎ ((j : ℕ) × StopsAt m' file_hash site.calculated_hash hash_len j)))
unfolding compare_hash
compare_hash_iff k config site cpio_get_file cpio_get_entry method hash_len m elf size hash = (
  λ e.
      let (ne, zero_answer) = (judge_hash_iff file_hash _ m').0 e in
      (ne, (strncmp-zero_iff m' file_hash site.calculated_hash hash_len).0 zero_answer),
  λ (ne, agree).
      (judge_hash_iff file_hash _ m').1
        (ne, (strncmp-zero_iff m' file_hash site.calculated_hash hash_len).1 agree),
)
  where
    file_hash : ℕ
    file_hash = (cpio_get_file m hash).0

    m' : Memory
    m' =
        write_bytes m site.calculated_hash
          (get_hash (record { junk = site.junk; hash_type = method }) (bytes m elf size))
