-- ===== src/Nntp/Yenc/Headers.antt =====
-- The fields of the encoder's keyword lines, read back by `parse_kv` and `parse_end`.
use ol1n_super_app.Base.{◌≡◌, ◌≢◌, refl, ◌∙◌, true, false, ◌++◌, arith, Bytes, codes, All, All-map}
use ol1n_super_app.Go.Strings.{IsInline, trim_left}
use ol1n_super_app.Go.Numbers.{IsDigit, parse_int, parse_uint}
use ol1n_super_app.Nntp.Yenc.Decode.{DecodedPart, set_field, parse_kv, set_crc, parse_end}
use ol1n_super_app.Nntp.Yenc.Keywords.{
  Lacks, kv_more, kv_last, kv_name, end_more, end_last, kv_loop-nil, end_loop-nil,
}

-- A printed number: no blank, no line end.
abbrev pub IsToken : Bytes → Type 0
IsToken = All (λ c. (c ≢ b' ') × IsInline c)

pub IsDigit-IsToken : (s : Bytes) → All IsDigit s → IsToken s
IsDigit-IsToken s h = All-map IsDigit _ s (λ x d. ground arith) h

token-Lacks : (s : Bytes) → IsToken s → Lacks b' ' s
token-Lacks s h = All-map _ _ s (λ x p. p.0) h

-- "=ybegin" of a part: everything behind "line=" is kept but the line length.
abbrev pub begin_fields : Bytes → Bytes → Bytes → Bytes → Bytes → Bytes
begin_fields part total line size name =
    codes " part="
    ++ (part
        ++ (codes " total="
            ++ (total
                ++ (codes " line="
                    ++ (line ++ (codes " size=" ++ (size ++ (codes " name=" ++ name))))))))

pub parse_kv_begin :
    (part total line size name : Bytes) (out : DecodedPart)
    → IsToken part
    → IsToken total
    → IsToken line
    → IsToken size
    → parse_kv (begin_fields part total line size name) out false ≡ record out {
      filename = name;
      total_size = parse_int size;
      part = parse_int part;
      total = parse_int total;
    }
unfolding parse_kv trim_left set_field
parse_kv_begin part total line size name out hp ht hl hs =
    kv_more _ false (codes "part") part out (ground arith) (token-Lacks part hp) _ refl
    ∙ kv_more _ false (codes "total") total _ (ground arith) (token-Lacks total ht) _ refl
    ∙ kv_more _ false (codes "line") line _ (ground arith) (token-Lacks line hl) _ refl
    ∙ kv_more _ false (codes "size") size _ (ground arith) (token-Lacks size hs) _ refl
    ∙ kv_name _ false name _

-- "=ybegin" of a single-part article.
abbrev pub single_fields : Bytes → Bytes → Bytes → Bytes
single_fields line size name =
    codes " line=" ++ (line ++ (codes " size=" ++ (size ++ (codes " name=" ++ name))))

pub parse_kv_single :
    (line size name : Bytes) (out : DecodedPart)
    → IsToken line
    → IsToken size
    → parse_kv (single_fields line size name) out false
      ≡ record out { filename = name; total_size = parse_int size }
unfolding parse_kv trim_left set_field
parse_kv_single line size name out hl hs =
    kv_more _ false (codes "line") line _ (ground arith) (token-Lacks line hl) _ refl
    ∙ kv_more _ false (codes "size") size _ (ground arith) (token-Lacks size hs) _ refl
    ∙ kv_name _ false name _

abbrev pub part_fields : Bytes → Bytes → Bytes
part_fields begin end = codes " begin=" ++ (begin ++ (codes " end=" ++ end))

pub parse_kv_part :
    (begin end : Bytes) (out : DecodedPart)
    → IsToken begin
    → IsToken end
    → parse_kv (part_fields begin end) out true
      ≡ record out { begin = parse_int begin; end = parse_int end }
unfolding parse_kv trim_left set_field
parse_kv_part begin end out hb he =
    kv_more _ true (codes "begin") begin out (ground arith) (token-Lacks begin hb) _ refl
    ∙ kv_last _ true (codes "end") end _ (ground arith) (token-Lacks end he) refl
    ∙ kv_loop-nil _ true _

-- "=yend" of a part, without and with the checksum of the file.
abbrev pub end_fields : Bytes → Bytes → Bytes → Bytes
end_fields size part crc =
    codes " size=" ++ (size ++ (codes " part=" ++ (part ++ (codes " pcrc32=" ++ crc))))

pub parse_end_part :
    (size part crc : Bytes) (out : DecodedPart)
    → IsToken size
    → IsToken part
    → IsToken crc
    → parse_end (end_fields size part crc) out ≡ record out { part_crc = parse_uint 16 32 crc }
unfolding parse_end trim_left set_crc
parse_end_part size part crc out hs hp hc =
    end_more _ true (codes "size") size out (ground arith) (token-Lacks size hs) _
    ∙ end_more _ true (codes "part") part _ (ground arith) (token-Lacks part hp) _
    ∙ end_last _ true (codes "pcrc32") crc _ (ground arith) (token-Lacks crc hc)
    ∙ end_loop-nil _ _

pub parse_end_last :
    (size part crc file_crc : Bytes) (out : DecodedPart)
    → IsToken size
    → IsToken part
    → IsToken crc
    → IsToken file_crc
    → parse_end (end_fields size part (crc ++ (codes " crc32=" ++ file_crc))) out
      ≡ record out { part_crc = parse_uint 16 32 crc; file_crc = parse_uint 16 32 file_crc }
unfolding parse_end trim_left set_crc
parse_end_last size part crc file_crc out hs hp hc hf =
    end_more _ true (codes "size") size out (ground arith) (token-Lacks size hs) _
    ∙ end_more _ true (codes "part") part _ (ground arith) (token-Lacks part hp) _
    ∙ end_more _ true (codes "pcrc32") crc _ (ground arith) (token-Lacks crc hc) _
    ∙ end_last _ true (codes "crc32") file_crc _ (ground arith) (token-Lacks file_crc hf)
    ∙ end_loop-nil _ _

pub parse_end_single :
    (size crc : Bytes) (out : DecodedPart)
    → IsToken size
    → IsToken crc
    → parse_end (codes " size=" ++ (size ++ (codes " crc32=" ++ crc))) out
      ≡ record out { file_crc = parse_uint 16 32 crc }
unfolding parse_end trim_left set_crc
parse_end_single size crc out hs hc =
    end_more _ true (codes "size") size out (ground arith) (token-Lacks size hs) _
    ∙ end_last _ true (codes "crc32") crc _ (ground arith) (token-Lacks crc hc)
    ∙ end_loop-nil _ _
