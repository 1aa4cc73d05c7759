-- ===== src/Hash/Update.antt =====
-- update keeps the digest of the whole blocks it was given, and the bytes behind them in the buffer.
use mathlib.Core.List.{foldl, foldl-append, append-nil, append_assoc}
use se_l4_tools.Common.{
  ℕ, zero, suc, ◌+◌, ◌-◌, ◌%◌, ◌^◌, ◌≤◌, ◌<◌, ◌≡◌, refl, sym, ap, ◌∙◌, arith, leb, ltb, ◌==◌,
  Bool-cases, leb→le, ltb→lt, inl, inr, List, [], ◌∷◌, ◌++◌, length, take, drop, length-append,
  length-drop, length-take, take-append-drop,
}
use se_l4_tools.Hash.Stream.{State, splice, absorb, update}
use se_l4_tools.Hash.Blocks.{
  Whole, join, Whole-append, join-append, length-join, splice-behind, splice-full, length-zero,
}

module _ (process_block : List ℕ → List ℕ → List ℕ) where
  -- The state after the bytes `msg`, from the hash value `iv` on.
  pub record Absorbed (iv msg : List ℕ) (s : State) : Type 0 where
    pub blocks : List (List ℕ)
    pub rest : List ℕ
    pub tail : List ℕ
    pub whole : Whole blocks
    pub short : length rest < 64
    pub message : join blocks ++ rest ≡ msg
    pub hash : s.h ≡ foldl process_block iv blocks
    pub buffer : s.buf ≡ rest ++ tail
    pub size : length rest + length tail ≡ 64
    pub count : s.len ≡ length msg % 2 ^ 64

  -- Bytes that do not fill a block go to the front of the buffer.
  splice-Absorbed :
      (iv msg xs : List ℕ) (s : State) (bs : List (List ℕ))
      → Whole bs
      → join bs ++ xs ≡ msg
      → s.h ≡ foldl process_block iv bs
      → length s.buf ≡ 64
      → s.len ≡ length msg % 2 ^ 64
      → length xs < 64
      → Absorbed iv msg (record s { buf = splice s.buf 0 xs })
  splice-Absorbed iv msg xs s bs w e h b c lt = record {
    blocks = bs;
    rest = xs;
    tail = drop (length xs) s.buf;
    whole = w;
    short = lt;
    message = e;
    hash = h;
    buffer = splice-behind [] s.buf xs 0 refl;
    size = omega (arith, length-drop (length xs) s.buf);
    count = c;
  }

  -- absorb takes in the whole blocks at the front of `xs`.
  absorb-Absorbed :
      (f : ℕ) (iv msg xs : List ℕ) (s : State) (bs : List (List ℕ))
      → Whole bs
      → join bs ++ xs ≡ msg
      → s.h ≡ foldl process_block iv bs
      → length s.buf ≡ 64
      → s.len ≡ length msg % 2 ^ 64
      → length xs ≤ f
      → Absorbed iv msg (absorb process_block f s xs)
  unfolding absorb
  absorb-Absorbed zero iv msg xs s bs w e h b c le =
      splice-Absorbed iv msg xs s bs w e h b c (omega arith)
  absorb-Absorbed (suc f) iv msg xs s bs w e h b c le = elim (Bool-cases (leb 64 (length xs))) [
    | inl more ↦
        let block = take 64 xs in
        let long : 64 ≤ length xs = leb→le 64 (length xs) more in
        let whole : length block ≡ 64 = omega (arith, length-take 64 xs) in
        let joined : join (bs ++ block ∷ []) ++ drop 64 xs ≡ msg =
          rw (join-append, append-nil, append_assoc, take-append-drop 64 xs) e in
        let hashed : process_block s.h block ≡ foldl process_block iv (bs ++ block ∷ []) =
          rw (foldl-append, h) refl in
        let next : State = record s { h = process_block s.h block } in
        rw (more, absorb)
          (absorb-Absorbed f iv msg (drop 64 xs) next (bs ++ block ∷ [])
            (Whole-append bs (block ∷ []) w (whole, tt)) joined hashed b c
            (omega (arith, length-drop 64 xs)))
    | inr less ↦ rw (less, absorb) (splice-Absorbed iv msg xs s bs w e h b c (ground (arith, less)))
  ]

  pub offset : (iv msg : List ℕ) (s : State) (a : Absorbed iv msg s) → s.len % 64 ≡ length a.rest
  offset iv msg s a =
      let e : length (join a.blocks ++ a.rest) ≡ length msg = ap length a.message in
      omega (
        arith,
        a.count,
        a.short,
        length-join a.blocks a.whole,
        length-append (join a.blocks) a.rest,
      )

  counted :
      (iv msg xs : List ℕ) (s : State) (a : Absorbed iv msg s)
      → (s.len + length xs) % 2 ^ 64 ≡ length (msg ++ xs) % 2 ^ 64
  counted iv msg xs s a = omega (arith, a.count, length-append msg xs)

  pub length-buffer : (iv msg : List ℕ) (s : State) (a : Absorbed iv msg s) → length s.buf ≡ 64
  length-buffer iv msg s a = ap length a.buffer ∙ length-append a.rest a.tail ∙ a.size

  -- update with bytes that leave the buffer short of a block.
  few-Absorbed :
      (iv msg xs : List ℕ) (s : State) (a : Absorbed iv msg s)
      → length xs < 64 - s.len % 64
      → Absorbed iv (msg ++ xs) (record {
        len = (s.len + length xs) % 2 ^ 64;
        h = s.h;
        buf = splice s.buf (s.len % 64) xs;
      })
  few-Absorbed iv msg xs s a lt = record {
    blocks = a.blocks;
    rest = a.rest ++ xs;
    tail = drop (length xs) a.tail;
    whole = a.whole;
    short = omega (arith, length-append a.rest xs, offset iv msg s a);
    message = sym (append_assoc (join a.blocks) a.rest xs) ∙ ap (λ z. z ++ xs) a.message;
    hash = a.hash;
    buffer = rw a.buffer (splice-behind a.rest a.tail xs (s.len % 64) (offset iv msg s a));
    size =
        omega (
          arith,
          length-append a.rest xs,
          length-drop (length xs) a.tail,
          offset iv msg s a,
          a.size,
        );
    count = counted iv msg xs s a;
  }

  -- update with bytes that complete the block in the buffer.
  enough-Absorbed :
      (iv msg xs : List ℕ) (s : State) (a : Absorbed iv msg s)
      → 64 - s.len % 64 ≤ length xs
      → let r = s.len % 64 in
        let full = splice s.buf r (take (64 - r) xs) in
        Absorbed iv (msg ++ xs) (
          absorb process_block
            (length xs)
            (record { len = (s.len + length xs) % 2 ^ 64; h = process_block s.h full; buf = full })
            (drop (64 - r) xs))
  enough-Absorbed iv msg xs s a le =
      let r = s.len % 64 in
      let full = splice s.buf r (take (64 - r) xs) in
      let block : full ≡ a.rest ++ take (64 - r) xs = rw a.buffer (
        splice-full a.rest a.tail (take (64 - r) xs) r (offset iv msg s a)
          (omega (arith, length-take (64 - r) xs, offset iv msg s a, a.size))) in
      let whole : length full ≡ 64 = omega (
        arith,
        ap length block,
        length-append a.rest (take (64 - r) xs),
        length-take (64 - r) xs,
        offset iv msg s a,
        a.short,
      ) in
      let joined : join (a.blocks ++ full ∷ []) ++ drop (64 - r) xs ≡ msg ++ xs =
        rw
          (
            block,
            join-append,
            append-nil,
            append_assoc,
            append_assoc,
            take-append-drop (64 - r) xs,
            ← a.message,
            append_assoc,
          )
          refl in
      let hashed : process_block s.h full ≡ foldl process_block iv (a.blocks ++ full ∷ []) =
        rw (foldl-append, a.hash) refl in
      absorb-Absorbed (length xs) iv (msg ++ xs) (drop (64 - r) xs) _ (a.blocks ++ full ∷ [])
        (Whole-append a.blocks (full ∷ []) a.whole (whole, tt)) joined hashed whole
        (counted iv msg xs s a) (omega (arith, length-drop (64 - r) xs))

  -- update, given more bytes, goes from the state after `msg` to the state after all of them.
  pub update-Absorbed :
      (iv msg xs : List ℕ) (s : State)
      → Absorbed iv msg s
      → Absorbed iv (msg ++ xs) (update process_block s xs)
  unfolding update
  update-Absorbed iv msg xs s a = elim (Bool-cases (s.len % 64 == 0)) [
    | inl fresh ↦
        let none_left : a.rest ≡ [] =
          length-zero a.rest (ground (arith, fresh, offset iv msg s a)) in
        let taken : join a.blocks ≡ msg = rw (none_left, append-nil) at a.message in
        let next : State = record s { len = (s.len + length xs) % 2 ^ 64 } in
        rw (fresh, update)
          (absorb-Absorbed (length xs) iv (msg ++ xs) xs next a.blocks a.whole
            (ap (λ z. z ++ xs) taken) a.hash (length-buffer iv msg s a) (counted iv msg xs s a)
            (omega arith))
    | inr begun ↦ elim (Bool-cases (ltb (length xs) (64 - s.len % 64))) [
      | inl few ↦ rw (begun, few, update) (few-Absorbed iv msg xs s a (ltb→lt _ _ few))
      | inr enough ↦
          rw (begun, enough, update)
            (enough-Absorbed iv msg xs s a (ground (arith, enough, offset iv msg s a, a.short)))
    ]
  ]
