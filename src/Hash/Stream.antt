-- ===== src/Hash/Stream.antt =====
-- The part that crypt_md5.c and crypt_sha256.c share word for word: the block buffer, update and
-- pad, over the functions in which the two differ. A message is the list of its bytes.
use se_l4_tools.Common.{
  ℕ, zero, suc, ◌+◌, ◌-◌, ◌*◌, ◌%◌, ◌^◌, ltb, leb, ◌==◌, true, false, List, [], ◌∷◌, ◌++◌, length,
  take, drop, replicate,
}

-- md5_t and sha256_t
pub record State : Type 0 where
  pub len : ℕ
  pub h : List ℕ
  pub buf : List ℕ

-- `memcpy(buf + r, xs, length xs)` and `memset`, inside the buffer
unfoldable pub splice : List ℕ → ℕ → List ℕ → List ℕ
splice buf r xs = take r buf ++ xs ++ drop (r + length xs) buf

module _ (process_block : List ℕ → List ℕ → List ℕ) where
  -- The last lines of update: the loop over whole blocks, then the rest into the buffer.
  unfoldable pub absorb : ℕ → State → List ℕ → State
  absorb zero s xs = record s { buf = splice s.buf 0 xs }
  absorb (suc f) s xs = elim (leb 64 (length xs)) [
    | true ↦ absorb f (record s { h = process_block s.h (take 64 xs) }) (drop 64 xs)
    | false ↦ record s { buf = splice s.buf 0 xs }
  ]

  unfoldable pub update : State → List ℕ → State
  update s xs =
      let r = s.len % 64 in
      let n = length xs in
      let counted : State = record s { len = (s.len + n) % 2 ^ 64 } in
      elim (r == 0) [
        | true ↦ absorb n counted xs
        | false ↦ elim (ltb n (64 - r)) [
          | true ↦ record counted { buf = splice s.buf r xs }
          | false ↦
              let full = splice s.buf r (take (64 - r) xs) in
              let next : State = record {
                len = counted.len;
                h = process_block s.h full;
                buf = full;
              } in
              absorb n next (drop (64 - r) xs)
        ]
      ]

  -- `length_bytes` spells s->len in 8 bytes.
  module _ (length_bytes : ℕ → List ℕ) where
    -- The last lines of pad, at `r`.
    unfoldable pub close : State → ℕ → State
    close s r =
        let zeros = splice s.buf r (replicate (56 - r) 0) in
        let len = s.len * 8 % 2 ^ 64 in
        let full = splice zeros 56 (length_bytes len) in
        record { len = len; h = process_block s.h full; buf = full }

    unfoldable pub pad : State → State
    unfolding close
    pad s =
        let r = s.len % 64 in
        let marked = splice s.buf r (128 ∷ []) in
        elim (ltb 56 (r + 1)) [
          | true ↦
              let full = splice marked (r + 1) (replicate (64 - (r + 1)) 0) in
              let next : State = record { len = s.len; h = process_block s.h full; buf = full } in
              close next 0
          | false ↦ close (record s { buf = marked }) (r + 1)
        ]
