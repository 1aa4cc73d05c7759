-- ===== src/Hash/Padding.antt =====
-- pad and the two digests: what the loader computes is the digest of the whole padded message.
use mathlib.Core.List.{foldl, foldl-append, append-nil}
use se_l4_tools.Common.{
  ℕ, ◌+◌, ◌-◌, ◌*◌, ◌%◌, ◌^◌, ◌≤◌, ◌<◌, ◌≡◌, refl, sym, ap, ◌∙◌, arith, ltb, ltb→lt, Bool-cases,
  inl, inr, List, [], ◌∷◌, ◌++◌, length, drop, replicate, length-append, length-drop,
  length-replicate,
}
use se_l4_tools.Hash.Stream.{State, splice, close}
use se_l4_tools.Hash.Stream
use se_l4_tools.Hash.Blocks.{
  Whole, join, Whole-append, join-append, splice-behind, splice-full, replicate-append, regroup,
  regroup_two,
}
use se_l4_tools.Hash.Close.{close-block}
use se_l4_tools.Hash.Update.{Absorbed, offset}

-- `blocks` is `msg`, a byte 0x80, less than 64 zero bytes and the length of `msg` in bits.
pub record Padded (length_bytes : ℕ → List ℕ) (msg : List ℕ) (blocks : List (List ℕ)) : Type 0 where
  pub zeros : ℕ
  pub whole : Whole blocks
  pub few : zeros < 64
  pub message :
      join blocks ≡ msg ++ 128 ∷ replicate zeros 0 ++ length_bytes (length msg * 8 % 2 ^ 64)

module _ (process_block : List ℕ → List ℕ → List ℕ) (length_bytes : ℕ → List ℕ)
    (eight : (n : ℕ) → length (length_bytes n) ≡ 8) where
  module _ (iv msg : List ℕ) (s : State) (a : Absorbed process_block iv msg s) where
    abbrev Result : List ℕ → Type 0
    Result h = (bs : List (List ℕ)) × Padded length_bytes msg bs × (h ≡ foldl process_block iv bs)

    bits : s.len * 8 % 2 ^ 64 ≡ length msg * 8 % 2 ^ 64
    bits = omega (arith, a.count)

    mark : splice s.buf (s.len % 64) (128 ∷ []) ≡ (a.rest ++ 128 ∷ []) ++ drop 1 a.tail
    mark =
        rw a.buffer
          (splice-behind a.rest a.tail (128 ∷ []) (s.len % 64) (offset process_block iv msg s a))

    length-mark : s.len % 64 + 1 ≡ length (a.rest ++ 128 ∷ [])
    length-mark = omega (arith, offset process_block iv msg s a, length-append a.rest (128 ∷ []))

    fold_last :
        (block : List ℕ) → process_block s.h block ≡ foldl process_block iv (a.blocks ++ block ∷ [])
    fold_last block =
        ap (λ h. process_block h block) a.hash
        ∙ sym (foldl-append process_block iv a.blocks (block ∷ []))

    pad-short :
        s.len % 64 + 1 ≤ 56
        → Result
            (close process_block length_bytes
              (record s { buf = splice s.buf (s.len % 64) (128 ∷ []) })
              (s.len % 64 + 1)).h
    pad-short le =
        let nul : ℕ = 0 in
        let zeros = 56 - (s.len % 64 + 1) in
        let bytes = length_bytes (s.len * 8 % 2 ^ 64) in
        let block = (a.rest ++ 128 ∷ []) ++ replicate zeros nul ++ bytes in
        let digest =
          close-block process_block length_bytes eight
            (record s { buf = splice s.buf (s.len % 64) (128 ∷ []) }) (s.len % 64 + 1)
            (a.rest ++ 128 ∷ []) (drop 1 a.tail) mark length-mark
            (omega
              (arith, length-mark, length-drop 1 a.tail, a.size, offset process_block iv msg s a))
            (omega (arith, length-mark)) in
        (
          a.blocks ++ block ∷ [],
          record {
            zeros = zeros;
            whole = Whole-append a.blocks (block ∷ []) a.whole (
              omega (
                arith,
                length-mark,
                length-append (a.rest ++ 128 ∷ [] ++ replicate zeros nul) bytes,
                length-append (a.rest ++ 128 ∷ []) (replicate zeros nul),
                length-replicate zeros nul,
                eight (s.len * 8 % 2 ^ 64),
              ),
              tt,
            );
            few = omega arith;
            message =
                rw (join-append, append-nil, bits, ← a.message)
                  (regroup (join a.blocks) a.rest (replicate zeros nul) _);
          },
          digest ∙ fold_last block,
        )

    -- The rest of the block behind the marker, filled with zeros.
    full-filled :
        56 < s.len % 64 + 1
        → splice
            (splice s.buf (s.len % 64) (128 ∷ []))
            (s.len % 64 + 1)
            (replicate (64 - (s.len % 64 + 1)) 0)
          ≡ (a.rest ++ 128 ∷ []) ++ replicate (64 - (s.len % 64 + 1)) 0
    full-filled lt =
        let nul : ℕ = 0 in
        let rest = 64 - (s.len % 64 + 1) in
        rw mark (
          splice-full (a.rest ++ 128 ∷ []) (drop 1 a.tail) (replicate rest nul) (s.len % 64 + 1)
            length-mark
            (omega (
              arith,
              length-drop 1 a.tail,
              length-replicate rest nul,
              a.size,
              offset process_block iv msg s a,
            )))

    length-final : length (replicate 56 0 ++ length_bytes (s.len * 8 % 2 ^ 64)) ≡ 64
    length-final =
        let nul : ℕ = 0 in
        omega (
          arith,
          length-append (replicate 56 nul) (length_bytes (s.len * 8 % 2 ^ 64)),
          length-replicate 56 nul,
          eight (s.len * 8 % 2 ^ 64),
        )

    pad-long :
        56 < s.len % 64 + 1
        → let r = s.len % 64 in
          let marked = splice s.buf r (128 ∷ []) in
          let full = splice marked (r + 1) (replicate (64 - (r + 1)) 0) in
          let next : State = record { len = s.len; h = process_block s.h full; buf = full } in
          Result (close process_block length_bytes next 0).h
    pad-long lt =
        let nul : ℕ = 0 in
        let r = s.len % 64 in
        let rest = 64 - (r + 1) in
        let marked = splice s.buf r (128 ∷ []) in
        let full = splice marked (r + 1) (replicate rest 0) in
        let bytes = length_bytes (s.len * 8 % 2 ^ 64) in
        let final = replicate 56 nul ++ bytes in
        let filled = full-filled lt in
        let whole : length full ≡ 64 = omega (
          arith,
          ap length filled,
          length-append (a.rest ++ 128 ∷ []) (replicate rest nul),
          length-replicate rest nul,
          length-mark,
          offset process_block iv msg s a,
          a.short,
        ) in
        let next : State = record { len = s.len; h = process_block s.h full; buf = full } in
        let digest =
          close-block process_block length_bytes eight next 0 [] full refl refl
            (omega (arith, whole)) (omega arith) in
        let last : length final ≡ 64 = length-final in
        (
          a.blocks ++ full ∷ final ∷ [],
          record {
            zeros = rest + 56;
            whole = Whole-append a.blocks (full ∷ final ∷ []) a.whole (whole, (last, tt));
            few = omega arith;
            message =
                rw
                  (
                    join-append,
                    append-nil,
                    filled,
                    bits,
                    ← a.message,
                    ← replicate-append rest 56 nul,
                  )
                  (regroup_two (join a.blocks) a.rest (replicate rest nul) (replicate 56 nul) _);
          },
          digest
              ∙ ap (λ h. process_block (process_block h full) final) a.hash
              ∙ sym (foldl-append process_block iv a.blocks (full ∷ final ∷ [])),
        )

  -- pad leaves the digest of the padded message.
  -- The length is spelled in 8 bytes.
  pub pad-Padded :
      (iv msg : List ℕ) (s : State)
      → Absorbed process_block iv msg s
      → (bs : List (List ℕ)) × Padded length_bytes msg bs
        × ((Stream.pad process_block length_bytes s).h ≡ foldl process_block iv bs)
  unfolding Stream.pad
  pad-Padded iv msg s a = elim (Bool-cases (ltb 56 (s.len % 64 + 1))) [
    | inl long ↦ rw (long, Stream.pad) (pad-long iv msg s a (ltb→lt _ _ long))
    | inr short ↦ rw (short, Stream.pad) (pad-short iv msg s a (ground (arith, short)))
  ]
