-- ===== src/Nntp/Segments/Cover.antt =====
-- The segments are the data cut in order, with the offsets that say where.
use ol1n_super_app.Base.{
  ℕ, zero, suc, ◌+◌, ◌-◌, ◌≤◌, ◌<◌, ◌≡◌, refl, ap, ◌∙◌, sym, inl, inr, List, [], ◌∷◌, ◌++◌, arith,
  ltb, if◌then◌else◌, Bool-cases, Bytes, length, take, drop, take-append-drop, length-take,
  length-drop, lt→ltb, ltb→lt,
}
use native.Mathlib.Decide.{dec_lt}
use ol1n_super_app.Base.Ints.{ℤ, pos, negsuc}
use ol1n_super_app.Nntp.Segments.{Segment, split_loop, effective_size, split_segments}

unfoldable pub concat : List Segment → Bytes
concat [] = []
concat (s ∷ ss) = s.part ++ concat ss

-- `Covers size from segments n`: the segments are consecutive from the 1-based offset `from`, none
-- is empty, all but the last have the size, the last has at most that, and they end before `n`.
-- There is at least one.
pub data Covers (size : ℕ) : ℕ → List Segment → ℕ → Type 0 where
  last :
      {from to : ℕ} {s : Segment}
      → s.offset ≡ from
      → 1 ≤ length s.part
      → length s.part ≤ size
      → from + length s.part ≡ to
      → Covers size from (s ∷ []) to
  next :
      {from to : ℕ} {s : Segment} {ss : List Segment}
      → s.offset ≡ from
      → length s.part ≡ size
      → Covers size (from + size) ss to
      → Covers size from (s ∷ ss) to

drop_add : (i n : ℕ) (bytes : Bytes) → drop n (drop i bytes) ≡ drop (i + n) bytes
drop_add zero n bytes = let e : 0 + n ≡ n = omega arith in rw e
drop_add (suc i) n (b ∷ bytes) =
    let e : suc i + n ≡ suc (i + n) = omega arith in rw e (drop_add i n bytes)
drop_add (suc i) zero [] = let e : suc i + 0 ≡ suc i = omega arith in rw e
drop_add (suc i) (suc n) [] = let e : suc i + suc n ≡ suc (i + suc n) = omega arith in rw e

drop_all : (n : ℕ) (bytes : Bytes) → length bytes ≤ n → drop n bytes ≡ []
drop_all zero [] h = refl
drop_all zero (b ∷ bytes) h = absurd (omega arith)
drop_all (suc n) [] h = refl
drop_all (suc n) (b ∷ bytes) h = drop_all n bytes (omega arith)

-- The end of a segment, as the loop computes it.
abbrev cut_at : ℕ → ℕ → Bytes → ℕ
cut_at i size bytes = if ltb (length bytes) (i + size) then length bytes else i + size

take-append-drop_cut :
    (i size : ℕ) (bytes : Bytes)
    → i < length bytes
    → take (cut_at i size bytes - i) (drop i bytes) ++ drop (i + size) bytes ≡ drop i bytes
take-append-drop_cut i size bytes h = elim (Bool-cases (ltb (length bytes) (i + size))) [
  | inl short ↦ rw short (
      ap (λ r. take (length bytes - i) (drop i bytes) ++ r) (rest (ltb→lt _ _ short))
      ∙ take-append-drop (length bytes - i) (drop i bytes))
  | inr full ↦
      let e : i + size - i ≡ size = omega arith in
      rw full (rw (e, ← drop_add i size bytes) (take-append-drop size (drop i bytes)))
]
  where
    rest : length bytes < i + size → drop (i + size) bytes ≡ drop (length bytes - i) (drop i bytes)
    rest short =
        drop_all (i + size) bytes (omega arith)
        ∙ sym (drop_all (length bytes - i) (drop i bytes) (omega (arith, length-drop i bytes)))

concat-split_loop :
    (f i size : ℕ) (bytes : Bytes)
    → 1 ≤ size
    → length bytes ≤ f + i
    → concat (split_loop f i size bytes) ≡ drop i bytes
unfolding split_loop concat
concat-split_loop zero i size bytes hs hf = sym (drop_all i bytes (omega arith))
concat-split_loop (suc f) i size bytes hs hf = elim (Bool-cases (ltb i (length bytes))) [
  | inl more ↦ rw more (
      ap (λ r. take (cut_at i size bytes - i) (drop i bytes) ++ r)
        (concat-split_loop f (i + size) size bytes hs (omega arith))
      ∙ take-append-drop_cut i size bytes (ltb→lt _ _ more))
  | inr end ↦ rw end (sym (drop_all i bytes (ground arith)))
]

pub effective_size-pos : (size : ℤ) → 1 ≤ effective_size size
unfolding effective_size
effective_size-pos (pos n) = ground arith
effective_size-pos (negsuc n) = omega arith

-- The segments put one after the other are the data, for every segment size, also one that is not
-- positive.
pub concat-split_segments : (bytes : Bytes) (size : ℤ) → concat (split_segments bytes size) ≡ bytes
unfolding split_segments
concat-split_segments bytes size =
    concat-split_loop (length bytes) 0 (effective_size size) bytes (effective_size-pos size)
      (omega arith)

split_loop_end : (f i size : ℕ) (bytes : Bytes) → length bytes ≤ i → split_loop f i size bytes ≡ []
unfolding split_loop
split_loop_end zero i size bytes h = refl
split_loop_end (suc f) i size bytes h = ground arith

length_cut :
    (i size : ℕ) (bytes : Bytes)
    → i < length bytes
    → length (take (cut_at i size bytes - i) (drop i bytes)) ≡ cut_at i size bytes - i
length_cut i size bytes h =
    grind (arith, length-take (cut_at i size bytes - i) (drop i bytes), length-drop i bytes)

Covers-split_loop :
    (f i size : ℕ) (bytes : Bytes)
    → 1 ≤ size
    → length bytes ≤ f + i
    → i < length bytes
    → Covers size (i + 1) (split_loop f i size bytes) (length bytes + 1)
unfolding split_loop
Covers-split_loop zero i size bytes hs hf h = absurd (omega arith)
Covers-split_loop (suc f) i size bytes hs hf h =
    let len = length_cut i size bytes h in
    rw (lt→ltb _ _ h) (elim (dec_lt (i + size) (length bytes)) [
      | yes more ↦
          let e : i + 1 + size ≡ i + size + 1 = omega arith in
          next refl (len ∙ ground arith)
            (rw e (Covers-split_loop f (i + size) size bytes hs (omega arith) more))
      | no end ↦
          rw (split_loop_end f (i + size) size bytes (omega arith))
            (last refl (ground (arith, len)) (ground (arith, len)) (ground (arith, len)))
    ])

-- For data that is not empty the segments are consecutive from offset 1 to the length, with no
-- empty segment, and every one but the last has the segment size (750000 for a size that is not
-- positive), the last at most that.
pub split_segments-Covers :
    (bytes : Bytes) (size : ℤ)
    → 0 < length bytes
    → Covers (effective_size size) 1 (split_segments bytes size) (length bytes + 1)
unfolding split_segments
split_segments-Covers bytes size h =
    Covers-split_loop (length bytes) 0 (effective_size size) bytes (effective_size-pos size)
      (omega arith) h
