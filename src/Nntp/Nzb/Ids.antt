-- ===== src/Nntp/Nzb/Ids.antt =====
-- client.go: a generated message id, and what `ParseNZB` does to it.
use ol1n_super_app.Base.{
  ℕ, ◌<◌, ◌≡◌, ◌≢◌, refl, ap, ◌∙◌, List, [], ◌∷◌, arith, Bytes, codes, All, All-append, All-map,
  map,
}
use ol1n_super_app.Go.Hex.{hex_encode}
use ol1n_super_app.Go.Spaces.Plain.{IsVisible, trim_space-visible}
use ol1n_super_app.Nntp.Nzb.{
  trim_open, trim_close, sanitize_message_id, generate_message_id, clean_segment, NzbSegment,
}

-- Visible and no angle bracket.
abbrev pub IsIdByte : ℕ → Type 0
IsIdByte c = IsVisible c × (c ≢ b'<') × (c ≢ b'>')

trim_open-IsIdByte : (s : Bytes) → All IsIdByte s → trim_open s ≡ s
trim_open-IsIdByte [] h = refl
trim_open-IsIdByte (c ∷ s) (hc, h) = ground arith

trim_close-IsIdByte : (s : Bytes) → All IsIdByte s → trim_close s ≡ s
unfolding trim_close
trim_close-IsIdByte [] h = refl
trim_close-IsIdByte (c ∷ []) h = ground arith
trim_close-IsIdByte (c ∷ d ∷ s) (hc, h) = ap (λ x. c ∷ x) (trim_close-IsIdByte (d ∷ s) h)

pub sanitize_message_id-IsIdByte : (s : Bytes) → All IsIdByte s → sanitize_message_id s ≡ s
unfolding sanitize_message_id
sanitize_message_id-IsIdByte s h =
    ap (λ x. trim_close (trim_open x))
      (trim_space-visible s (All-map IsIdByte IsVisible s (λ c p. p.0) h))
    ∙ ap trim_close (trim_open-IsIdByte s h)
    ∙ trim_close-IsIdByte s h

hex_encode-IsIdByte : (bs : Bytes) → All (λ b. b < 256) bs → All IsIdByte (hex_encode bs)
unfolding hex_encode
hex_encode-IsIdByte [] h = tt
hex_encode-IsIdByte (b ∷ bs) (hb, h) = ground (arith, hex_encode-IsIdByte bs h)

pub generate_message_id-IsIdByte :
    (random : Bytes) → All (λ b. b < 256) random → All IsIdByte (generate_message_id random)
unfolding generate_message_id
generate_message_id-IsIdByte random h =
    All-append IsIdByte (hex_encode random) (codes "@ol1n.vault") (hex_encode-IsIdByte random h)
      (ground arith)

pub map-clean_segment :
    (ss : List NzbSegment) → All (λ s. All IsIdByte s.msg_id) ss → map clean_segment ss ≡ ss
map-clean_segment [] h = refl
map-clean_segment (s ∷ ss) (hs, h) =
    ap (λ (i : Bytes). record s { msg_id = i } ∷ map clean_segment ss)
      (sanitize_message_id-IsIdByte s.msg_id hs)
    ∙ ap (λ r. s ∷ r) (map-clean_segment ss h)
