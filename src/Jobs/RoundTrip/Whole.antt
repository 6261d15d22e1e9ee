-- ===== src/Jobs/RoundTrip/Whole.antt =====
-- From the data of an upload to the body of a download, over the provider and the NZB document.
use ol1n_super_app.Base.{
  leb, is_empty, ℕ, ◌+◌, ◌^◌, ◌≤◌, ◌<◌, ◌≡◌, refl, ap, sym, subst, ◌∙◌, true, false, some, List, [],
  ◌∷◌, ◌++◌, arith, Bytes, length, All,
}
use ol1n_super_app.Base.Ints.{ℤ, pos}
use ol1n_super_app.Go.Strings.{IsInline}
use ol1n_super_app.Go.Crc.{checksum_ieee-lt}
use ol1n_super_app.Nntp.Yenc.Encode.{segment_size}
use ol1n_super_app.Nntp.Segments.{Segment, split_segments}
use ol1n_super_app.Nntp.Segments.Cover.{
  concat, Covers, last, next, effective_size-pos, concat-split_segments, split_segments-Covers,
}
use ol1n_super_app.Nntp.Nzb.{Xml, NzbSegment, nzb_document, build_nzb, parse_nzb}
use ol1n_super_app.Nntp.Nzb.Ids.{IsIdByte, map-clean_segment}
use ol1n_super_app.Handler.Download.{DownloadJob}
use ol1n_super_app.Jobs.Worker.{Store}
use ol1n_super_app.Jobs.Upload.{UploadEnv, UploadJob, posted, parts_of, post_all}
use ol1n_super_app.Jobs.Download.{
  DownloadEnv, fetched, insert_segment, sort_segments, fetch_parts, fetch_file,
}
use ol1n_super_app.Jobs.RoundTrip.Parts.{
  Provides, IsFit, NumberedFrom, posted_numbers, posted_ids, fetched_parts,
}

Covers-lt : {size from to : ℕ} {segs : List Segment} → Covers size from segs to → from < to
Covers-lt (last e n m h) = omega arith
Covers-lt (next e m c) = omega (arith, Covers-lt c)

All-split {ℓ κ} :
    {A : Type ℓ} (P : A → Type κ) (xs ys : List A) → All P (xs ++ ys) → All P xs × All P ys
All-split P [] ys h = (tt, h)
All-split P (x ∷ xs) ys (hx, h) = let (hs, hy) = All-split P xs ys h in ((hx, hs), hy)

Covers-some : {size from to : ℕ} {segs : List Segment} → Covers size from segs to → 0 < length segs
Covers-some (last e n m h) = omega arith
Covers-some (next e m c) = omega arith

Covers-IsFit :
    {size from to : ℕ} {segs : List Segment}
    → Covers size from segs to
    → 1 ≤ from
    → to ≤ 2 ^ 63
    → All (λ b. b < 256) (concat segs)
    → All IsFit segs
unfolding concat
Covers-IsFit (last {s = s} e n m h) one bound small =
    (((All-split _ s.part [] small).0, omega arith, omega arith, omega arith), tt)
Covers-IsFit (next {s = s} {ss = ss} e m c) one bound small =
    let (here, later) = All-split _ s.part (concat ss) small in
    (
      (here, omega arith, omega (arith, Covers-lt c), omega (arith, Covers-lt c)),
      Covers-IsFit c (omega arith) bound later,
    )

Covers-length :
    {size from to : ℕ} {segs : List Segment}
    → 1 ≤ size
    → Covers size from segs to
    → from + length segs ≤ to
Covers-length one (last e n m h) = omega arith
Covers-length one (next e m c) = omega (arith, Covers-length one c)

lt→leb : (a b : ℕ) → a < b → leb a b ≡ true
lt→leb a b h = ground arith

length-is_empty {ℓ} : {A : Type ℓ} (xs : List A) → 0 < length xs → is_empty xs ≡ false
length-is_empty [] h = absurd (omega arith)
length-is_empty (x ∷ xs) h = refl

parse_nzb-document :
    (xml : Xml) (nzb filename newsgroup poster : Bytes) (now : ℕ) (total : ℤ) (ss : List NzbSegment)
    → xml.decode nzb ≡ some (nzb_document now filename newsgroup poster total ss)
    → All (λ x. All IsIdByte x.msg_id) ss
    → parse_nzb xml nzb ≡ some (nzb_document now filename newsgroup poster total ss)
unfolding parse_nzb nzb_document
parse_nzb-document xml nzb filename newsgroup poster now total ss decoded ids =
    rw decoded (rw (map-clean_segment ss ids) refl)

-- Segments with rising numbers are sorted already.
sort-NumberedFrom : (n : ℕ) (ss : List NzbSegment) → NumberedFrom n ss → sort_segments ss ≡ ss
unfolding sort_segments insert_segment
sort-NumberedFrom n [] h = refl
sort-NumberedFrom n (x ∷ []) h = refl
sort-NumberedFrom n (x ∷ y ∷ ss) (hx, (hy, h)) =
    ap (insert_segment x) (sort-NumberedFrom (n + 1) (y ∷ ss) (hy, h)) ∙ in_front
  where
    in_front : insert_segment x (y ∷ ss) ≡ x ∷ y ∷ ss
    in_front = rw (hx, hy, lt→leb n (n + 1) (omega arith)) refl

-- The NZB document gives back the segments that it was built from.
fetch_file-document :
    (denv : DownloadEnv) (dj : DownloadJob) (nzb filename newsgroup poster : Bytes) (now n : ℕ)
    (total : ℤ) (ss : List NzbSegment) (t : Store)
    → denv.xml.decode nzb ≡ some (nzb_document now filename newsgroup poster total ss)
    → 0 < length ss
    → All (λ x. All IsIdByte x.msg_id) ss
    → NumberedFrom n ss
    → fetch_file denv dj (some nzb) t ≡ fetch_parts denv dj (length ss) 0 ss t
unfolding fetch_file nzb_document
fetch_file-document denv dj nzb filename newsgroup poster now n total ss t decoded some_left ids
      numbers =
    rw (parse_nzb-document denv.xml nzb filename newsgroup poster now total ss decoded ids)
      (rw (length-is_empty ss some_left) (rw (sort-NumberedFrom n ss numbers) refl))

-- What an upload posts, a download reads back: if the provider takes every article of a file that is
-- not empty, sends each one back as it got it, and the XML of the NZB document reads back as the
-- document, then the body that the download assembles from that NZB file is the file. Message ids
-- are made of random bytes, and the stored name has no line break.
pub fetch_file-post_all :
    (env : UploadEnv) (denv : DownloadEnv) (j : UploadJob) (dj : DownloadJob) (bytes nzb : Bytes)
    (s t : Store) (ss : List NzbSegment)
    → All IsInline j.filename
    → All (λ b. b < 256) bytes
    → (0 < length bytes) × (length bytes + 1 ≤ 2 ^ 63)
    → ((k : ℕ) → All (λ b. b < 256) (env.random k))
    → (post_all env j bytes s).1 ≡ posted ss
    → All (Provides denv) (post_all env j bytes s).0.articles
    → build_nzb env.xml env.now j.filename j.newsgroup j.poster
        (pos (length (parts_of env j bytes)))
        ss
      ≡ some nzb
    → denv.xml.decode nzb
      ≡ some (
          nzb_document env.now j.filename j.newsgroup j.poster
            (pos (length (parts_of env j bytes)))
            ss)
    → (fetch_file denv dj (some nzb) t).1 ≡ fetched bytes
fetch_file-post_all env denv j dj bytes nzb s t ss inline small (some_data, bound) random done
      provided built decoded =
    let segs = split_segments bytes (pos segment_size) in
    let covers = split_segments-Covers bytes (pos segment_size) some_data in
    let whole : concat segs ≡ bytes = concat-split_segments bytes (pos segment_size) in
    let (numbers, same_length) = posted_numbers env j _ _ _ 0 segs s ss done in
    let few = Covers-length (effective_size-pos (pos segment_size)) covers in
    ap (λ r. r.1)
      (fetch_file-document denv dj nzb j.filename j.newsgroup j.poster env.now 1 _ ss t decoded
        (subst (λ n. 0 < n) (sym same_length) (Covers-some covers))
        (posted_ids env j _ _ _ 0 segs s ss random done) numbers)
    ∙ fetched_parts env j _ _ _ denv dj _ 0 0 segs s t ss inline
        (omega (arith, few), omega arith, checksum_ieee-lt bytes) (omega (arith, few))
        (Covers-IsFit covers (omega arith) bound (subst (All (λ b. b < 256)) (sym whole) small))
        done provided
    ∙ ap fetched whole
