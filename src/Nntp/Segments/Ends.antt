-- ===== src/Nntp/Segments/Ends.antt =====
-- The loop of `SplitSegments` ends by itself, within its fuel.
use ol1n_super_app.Base.{ℕ, zero, suc, ◌+◌, ◌≤◌, ◌≡◌, refl, [], arith, Bytes, length}
use ol1n_super_app.Base.Ints.{ℤ}
use ol1n_super_app.Nntp.Segments.{split_loop, effective_size, split_segments}
use ol1n_super_app.Nntp.Segments.Cover.{effective_size-pos}

split_loop-past : (f i size : ℕ) (bytes : Bytes) → length bytes ≤ i → split_loop f i size bytes ≡ []
unfolding split_loop
split_loop-past zero i size bytes h = refl
split_loop-past (suc f) i size bytes h = ground arith

split_loop-more :
    (m f i size : ℕ) (bytes : Bytes)
    → 1 ≤ size
    → length bytes ≤ i + f
    → f ≤ m
    → split_loop m i size bytes ≡ split_loop f i size bytes
unfolding split_loop
split_loop-more m zero i size bytes one h le = split_loop-past m i size bytes (omega arith)
split_loop-more zero (suc f) i size bytes one h le = absurd (omega arith)
split_loop-more (suc m) (suc f) i size bytes one h le =
    rw (split_loop-more m f (i + size) size bytes one (omega arith) (omega arith)) refl

-- The loop of `SplitSegments` has ended, by its own condition and not by the bound of the model, after at
-- most one round for each byte: any larger bound gives the same segments, for every segment size.
pub split_loop-split_segments :
    (bytes : Bytes) (size : ℤ) (more : ℕ)
    → split_loop (length bytes + more) 0 (effective_size size) bytes ≡ split_segments bytes size
unfolding split_segments
split_loop-split_segments bytes size more =
    split_loop-more (length bytes + more) (length bytes) 0 (effective_size size) bytes
      (effective_size-pos size) (omega arith) (omega arith)
