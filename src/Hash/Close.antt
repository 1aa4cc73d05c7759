-- ===== src/Hash/Close.antt =====
-- The end of pad: zeros up to 56 bytes and the length.
use se_l4_tools.Common.{
  ℕ, ◌+◌, ◌-◌, ◌*◌, ◌%◌, ◌^◌, ◌≤◌, ◌≡◌, ap, arith, List, ◌++◌, length, drop, replicate,
  length-append, length-drop, length-replicate,
}
use se_l4_tools.Hash.Stream.{State, splice, close}
use se_l4_tools.Hash.Blocks.{splice-behind, splice-full}

module _ (process_block : List ℕ → List ℕ → List ℕ) (length_bytes : ℕ → List ℕ)
    (eight : (n : ℕ) → length (length_bytes n) ≡ 8) where
  -- The block that close gives to the block function.
  pub close-block :
      (s : State) (r : ℕ) (a t : List ℕ)
      → s.buf ≡ a ++ t
      → r ≡ length a
      → length a + length t ≡ 64
      → length a ≤ 56
      → (close process_block length_bytes s r).h
        ≡ process_block s.h (a ++ replicate (56 - r) 0 ++ length_bytes (s.len * 8 % 2 ^ 64))
  unfolding close
  close-block s r a t e at whole le = ap (process_block s.h) (rw (e, one) two)
    where
      nul : ℕ
      nul = 0

      zeros : List ℕ
      zeros = replicate (56 - r) 0

      left : List ℕ
      left = drop (length zeros) t

      one : splice (a ++ t) r zeros ≡ (a ++ zeros) ++ left
      one = splice-behind a t zeros r at

      two :
          splice ((a ++ zeros) ++ left) 56 (length_bytes (s.len * 8 % 2 ^ 64))
          ≡ (a ++ zeros) ++ length_bytes (s.len * 8 % 2 ^ 64)
      two =
          splice-full (a ++ zeros) left (length_bytes (s.len * 8 % 2 ^ 64)) 56
            (omega (arith, length-append a zeros, length-replicate (56 - r) nul))
            (omega (
              arith,
              length-drop (length zeros) t,
              length-replicate (56 - r) nul,
              eight (s.len * 8 % 2 ^ 64),
            ))
