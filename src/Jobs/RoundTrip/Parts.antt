-- ===== src/Jobs/RoundTrip/Parts.antt =====
-- The loop over the parts and the loop over the segments, one after the other.
use ol1n_super_app.Base.{
  ℕ, suc, ◌+◌, ◌^◌, ◌≤◌, ◌<◌, ◌≡◌, refl, ap, subst, ◌∙◌, Bool, true, false, some, List, [], ◌∷◌,
  ◌++◌, arith, Bytes, length, All,
}
use ol1n_super_app.Base.Ints.{pos}
use ol1n_super_app.Go.Strings.{IsInline}
use ol1n_super_app.Go.Textproto.{begin_line, dot_write, line_start, dot_read}
use ol1n_super_app.Nntp.Yenc.Decode.{DecodedPart, Decoded, yenc_decode}
use ol1n_super_app.Nntp.Yenc.Wire.{yenc_decode-fetched}
use ol1n_super_app.Nntp.Segments.{Segment}
use ol1n_super_app.Nntp.Segments.Cover.{concat}
use ol1n_super_app.Nntp.Nzb.{NzbSegment, generate_message_id}
use ol1n_super_app.Nntp.Nzb.Ids.{IsIdByte, generate_message_id-IsIdByte}
use ol1n_super_app.Handler.Download.{DownloadJob}
use ol1n_super_app.Jobs.Worker.{Store, progress}
use ol1n_super_app.Jobs.Upload.{
  UploadEnv, UploadJob, Posted, posted, prepend_segment, posted_round, post_parts, subject,
  part_body, part_segment, after_part,
}
use ol1n_super_app.Jobs.Download.{
  DownloadEnv, fetched, part, prepend_part, read_part, fetch_body, fetch_parts,
}

-- For each article, in whatever round it is asked for, the provider sends the body that it took.
abbrev pub Provides : DownloadEnv → Bytes × Bytes → Type 0
Provides env (id, body) = (k : ℕ) → env.answer k id ≡ some (dot_write begin_line body)

-- The numbers of a part fit an int64, and its bytes are bytes.
abbrev pub IsFit : Segment → Type 0
IsFit seg =
    All (λ b. b < 256) seg.part
    × (1 ≤ seg.offset)
    × (seg.offset < 2 ^ 63)
    × (seg.offset + length seg.part ≤ 2 ^ 63)

-- Consecutive numbers.
abbrev pub NumberedFrom : ℕ → List NzbSegment → Type 0
NumberedFrom n [] = Unit
NumberedFrom n (s ∷ ss) = (s.number ≡ pos n) × NumberedFrom (n + 1) ss

prepend-eq-posted :
    (x : NzbSegment) (r : Posted) (ss : List NzbSegment)
    → prepend_segment x r ≡ posted ss
    → (rest : List NzbSegment) × (r ≡ posted rest) × (ss ≡ x ∷ rest)
prepend-eq-posted x (posted rest) ss h = (rest, refl, cc)
prepend-eq-posted x (Posted.stopped e) ss h = cc

round-eq-posted :
    (b : Bool) (n : ℕ) (x : NzbSegment) (s : Store) (r : Store × Posted) (ss : List NzbSegment)
    → (posted_round b n x s r).1 ≡ posted ss
    → (rest : List NzbSegment) × (r.1 ≡ posted rest)
      × (ss ≡ x ∷ rest)
      × ((posted_round b n x s r).0 ≡ r.0)
round-eq-posted false n x s r ss h = cc
round-eq-posted true n x s r ss h =
    let (rest, e, f) = prepend-eq-posted x r.1 ss h in (rest, e, f, refl)

All-snoc {ℓ κ} :
    {A : Type ℓ} (P : A → Type κ) (xs : List A) (y : A) → All P (xs ++ (y ∷ [])) → All P xs × P y
All-snoc P [] y (h, _) = (tt, h)
All-snoc P (x ∷ xs) y (hx, h) = let (hs, hy) = All-snoc P xs y h in ((hx, hs), hy)

read_sent :
    (wire text : Bytes) (out : DecodedPart)
    → dot_read line_start wire ≡ some text
    → yenc_decode text ≡ Decoded.ok out
    → read_part (fetch_body (some wire)) ≡ part out.content
unfolding read_part fetch_body
read_sent wire text out h d = rw h (rw d refl)

module _ (env : UploadEnv) (j : UploadJob) (total size crc : ℕ) where
  abbrev post : ℕ → List Segment → Store → Store × Posted
  post = post_parts env j total size crc

  abbrev next : ℕ → Segment → Store → Store
  next = after_part env j total size crc

  -- A loop that posts everything posts the first part, and then the others.
  post-cons :
      (i : ℕ) (seg : Segment) (segs : List Segment) (s : Store) (ss : List NzbSegment)
      → (post i (seg ∷ segs) s).1 ≡ posted ss
      → (rest : List NzbSegment) × ((post (i + 1) segs (next i seg s)).1 ≡ posted rest)
        × (ss ≡ part_segment env j total size crc i seg ∷ rest)
        × ((post i (seg ∷ segs) s).0 ≡ (post (i + 1) segs (next i seg s)).0)
  unfolding post_parts
  post-cons i seg segs s ss h =
      round-eq-posted
        (env.accepts i (subject j.filename (i + 1) total) (part_body env j total size crc i seg))
        (i + 1) (part_segment env j total size crc i seg) s (post (i + 1) segs (next i seg s)) ss h

  end_store : (i : ℕ) (s : Store) → (post i [] s).0 ≡ s
  unfolding post_parts
  end_store i s = refl

  -- What holds of every article in the end held of those that were there before.
  earlier_articles {ℓ} :
      (P : Bytes × Bytes → Type ℓ) (i : ℕ) (segs : List Segment) (s : Store) (ss : List NzbSegment)
      → (post i segs s).1 ≡ posted ss
      → All P (post i segs s).0.articles
      → All P s.articles
  unfolding progress
  earlier_articles P i [] s ss h a = subst (λ t. All P t.articles) (end_store i s) a
  earlier_articles P i (seg ∷ segs) s ss h a =
      let (rest, e, f, g) = post-cons i seg segs s ss h in
      (All-snoc P s.articles _ (
        earlier_articles P (i + 1) segs (next i seg s) rest e
          (subst (λ t. All P t.articles) g a))).0

  posted_end : (i : ℕ) (s : Store) (ss : List NzbSegment) → (post i [] s).1 ≡ posted ss → ss ≡ []
  unfolding post_parts
  posted_end i s ss h = cc

  pub posted_numbers :
      (i : ℕ) (segs : List Segment) (s : Store) (ss : List NzbSegment)
      → (post i segs s).1 ≡ posted ss
      → NumberedFrom (i + 1) ss × (length ss ≡ length segs)
  posted_numbers i [] s ss h = rw (posted_end i s ss h) (tt, refl)
  posted_numbers i (seg ∷ segs) s ss h =
      let (rest, e, f, g) = post-cons i seg segs s ss h in
      let (later, same_length) = posted_numbers (i + 1) segs (next i seg s) rest e in
      rw f ((refl, later), ap suc same_length)

  pub posted_ids :
      (i : ℕ) (segs : List Segment) (s : Store) (ss : List NzbSegment)
      → ((k : ℕ) → All (λ b. b < 256) (env.random k))
      → (post i segs s).1 ≡ posted ss
      → All (λ x. All IsIdByte x.msg_id) ss
  posted_ids i [] s ss random h = rw (posted_end i s ss h) tt
  posted_ids i (seg ∷ segs) s ss random h =
      let (rest, e, f, g) = post-cons i seg segs s ss h in
      rw f (
        generate_message_id-IsIdByte (env.random i) (random i),
        posted_ids (i + 1) segs (next i seg s) rest random e,
      )

  -- Each segment is fetched and decoded to its part.
  pub fetched_parts :
      (denv : DownloadEnv) (dj : DownloadJob) (n k i : ℕ) (segs : List Segment) (s t : Store)
      (ss : List NzbSegment)
      → All IsInline j.filename
      → (total < 2 ^ 63) × (size < 2 ^ 63) × (crc < 2 ^ 32)
      → i + length segs < 2 ^ 63
      → All IsFit segs
      → (post i segs s).1 ≡ posted ss
      → All (Provides denv) (post i segs s).0.articles
      → (fetch_parts denv dj n k ss t).1 ≡ fetched (concat segs)
  unfolding fetch_parts progress concat
  fetched_parts denv dj n k i [] s t ss inline small few fit h a = rw (posted_end i s ss h) refl
  fetched_parts denv dj n k i (seg ∷ segs) s t ss inline (ht, hs, hc) few
        ((bytes, ho, ho', he), fit) h a =
      let (rest, e, f, g) = post-cons i seg segs s ss h in
      let a' = subst (λ t. All (Provides denv) t.articles) g a in
      let provided =
        (All-snoc (Provides denv) s.articles _
          (earlier_articles (Provides denv) (i + 1) segs (next i seg s) rest e a')).1 in
      let (text, wire, decoded) =
        yenc_decode-fetched j.filename (i + 1) total size seg.offset seg.part crc inline bytes
          (omega arith, omega arith, ht, hs, hc) (ho, ho', he) in
      let here : read_part (fetch_body (denv.answer k (generate_message_id (env.random i))))
          ≡ part seg.part =
        ap (λ o. read_part (fetch_body o)) (provided k)
        ∙ read_sent (dot_write begin_line (part_body env j total size crc i seg)) text _ wire
            decoded in
      rw f (
        rw here (
          ap (prepend_part seg.part) (
            fetched_parts denv dj n (k + 1) (i + 1) segs (next i seg s) _ rest inline (ht, hs, hc)
              (omega arith) fit e a')))
