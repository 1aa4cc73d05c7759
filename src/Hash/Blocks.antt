-- ===== src/Hash/Blocks.antt =====
-- What the digests are to compute: a fold of the block function over the 64-byte blocks of a
-- message, and the lemmas on the buffer in which a block is gathered.
use mathlib.Core.List.{append-nil, append_assoc}
use se_l4_tools.Common.{
  ℕ, zero, suc, ◌+◌, ◌*◌, ◌≤◌, ◌≡◌, refl, ap, ◌∙◌, arith, List, [], ◌∷◌, ◌++◌, length, take, drop,
  replicate, length-append,
}
use se_l4_tools.Hash.Stream.{splice}

abbrev pub Whole : List (List ℕ) → Type 0
Whole [] = Unit
Whole (b ∷ bs) = (length b ≡ 64) × Whole bs

abbrev pub join : List (List ℕ) → List ℕ
join [] = []
join (b ∷ bs) = b ++ join bs

pub Whole-append : (bs cs : List (List ℕ)) → Whole bs → Whole cs → Whole (bs ++ cs)
Whole-append [] cs h h' = h'
Whole-append (b ∷ bs) cs (e, h) h' = (e, Whole-append bs cs h h')

pub join-append : (bs cs : List (List ℕ)) → join (bs ++ cs) ≡ join bs ++ join cs
join-append [] cs = refl
join-append (b ∷ bs) cs = rw (join-append bs cs, append_assoc) refl

pub length-join : (bs : List (List ℕ)) → Whole bs → length (join bs) ≡ 64 * length bs
length-join [] h = omega arith
length-join (b ∷ bs) (e, h) = omega (arith, e, length-join bs h, length-append b (join bs))

take-length_append : (a t : List ℕ) → take (length a) (a ++ t) ≡ a
take-length_append [] t = refl
take-length_append (x ∷ a) t = ap (λ r. x ∷ r) (take-length_append a t)

drop-length_append : (a t : List ℕ) (n : ℕ) → drop (length a + n) (a ++ t) ≡ drop n t
drop-length_append [] t n = let e : 0 + n ≡ n = omega arith in rw e refl
drop-length_append (x ∷ a) t n =
    let e : suc (length a) + n ≡ suc (length a + n) = omega arith in rw e (drop-length_append a t n)

-- A write behind the first part of the buffer.
pub splice-behind :
    (a t xs : List ℕ) (r : ℕ)
    → r ≡ length a
    → splice (a ++ t) r xs ≡ (a ++ xs) ++ drop (length xs) t
unfolding splice
splice-behind a t xs r e =
    rw (e, take-length_append a t, drop-length_append a t (length xs), append_assoc) refl

pub drop-all : (xs : List ℕ) (n : ℕ) → length xs ≤ n → drop n xs ≡ []
drop-all [] zero h = refl
drop-all [] (suc n) h = refl
drop-all (x ∷ xs) zero h = absurd (omega arith)
drop-all (x ∷ xs) (suc n) h = drop-all xs n (omega arith)

-- A write that fills the buffer.
pub splice-full :
    (a t xs : List ℕ) (r : ℕ) → r ≡ length a → length t ≤ length xs → splice (a ++ t) r xs ≡ a ++ xs
splice-full a t xs r e h = splice-behind a t xs r e ∙ rw (drop-all t (length xs) h, append-nil) refl

pub replicate-append : (n k : ℕ) (v : ℕ) → replicate n v ++ replicate k v ≡ replicate (n + k) v
replicate-append zero k v = let e : 0 + k ≡ k = omega arith in rw e refl
replicate-append (suc n) k v =
    let e : suc n + k ≡ suc (n + k) = omega arith in rw e (ap (λ r. v ∷ r) (replicate-append n k v))

pub length-zero : (xs : List ℕ) → length xs ≡ 0 → xs ≡ []
length-zero [] h = refl
length-zero (x ∷ xs) h = absurd (omega arith)

-- The padding behind a message, with the message taken apart.
pub regroup : (j r z l : List ℕ) → j ++ (r ++ 128 ∷ [] ++ z ++ l) ≡ j ++ r ++ 128 ∷ z ++ l
regroup j r z l =
    rw
      (
        append_assoc (r ++ 128 ∷ []) z l,
        append_assoc r (128 ∷ []) (z ++ l),
        append_assoc (j ++ r) (128 ∷ z) l,
        append_assoc j r (128 ∷ z ++ l),
      )
      refl

pub regroup_two :
    (j r z z' l : List ℕ) → j ++ (r ++ 128 ∷ [] ++ z ++ (z' ++ l)) ≡ j ++ r ++ 128 ∷ (z ++ z') ++ l
regroup_two j r z z' l =
    rw (← append_assoc (r ++ 128 ∷ [] ++ z) z' l, append_assoc (r ++ 128 ∷ []) z z')
      (regroup j r (z ++ z') l)
