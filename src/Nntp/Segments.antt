-- ===== src/Nntp/Segments.antt =====
-- ol1n-vault/internal/nntp/client.go: `SplitSegments`. The two slices that it returns side by side
-- are one list of pairs. An int has 64 bits and no slice is near that long, so `i + segSize` is exact.
pub mod Cover
pub mod Ends
use ol1n_super_app.Base.{
  ℕ, zero, suc, ◌+◌, ◌-◌, ◌≡◌, refl, List, [], ◌∷◌, ltb, if◌then◌else◌, Bytes, length, take, drop,
}
use ol1n_super_app.Base.Ints.{ℤ, pos, is_positive, pos_part}
use ol1n_super_app.Nntp.Yenc.Encode.{segment_size}

pub record Segment : Type 0 where
  pub part : Bytes
  pub offset : ℕ  -- 1-based, inclusive

-- The loop with `i`, a round for a segment.
unfoldable pub split_loop : ℕ → ℕ → ℕ → Bytes → List Segment
split_loop zero i size bytes = []
split_loop (suc f) i size bytes =
    let end = if ltb (length bytes) (i + size) then length bytes else i + size in
    let rest =
      record { part = take (end - i) (drop i bytes); offset = i + 1 }
      ∷ split_loop f (i + size) size bytes in
    if ltb i (length bytes) then rest else []

unfoldable pub effective_size : ℤ → ℕ
effective_size size = if is_positive size then pos_part size else segment_size

unfoldable pub split_segments : Bytes → ℤ → List Segment
unfolding split_loop effective_size
split_segments bytes size = split_loop (length bytes) 0 (effective_size size) bytes

split_test :
    split_segments (1 ∷ 2 ∷ 3 ∷ 4 ∷ 5 ∷ []) (pos 2)
    ≡ record { part = 1 ∷ 2 ∷ []; offset = 1 }
      ∷ record { part = 3 ∷ 4 ∷ []; offset = 3 }
      ∷ record { part = 5 ∷ []; offset = 5 }
      ∷ []
unfolding split_segments
split_test = refl
