-- ===== src/Transport/Chunker/Tests.antt =====
-- Runs of the chunker, and its theorems at concrete messages.
use open_rtc.Base.{
  nat_eq, text_eq, flatten, All, ◌⊎◌, ℕ, ◌≤◌, ◌≡◌, refl, inl, inr, List, [], ◌∷◌, none, some, codes,
  arith, In,
}
use open_rtc.Base.Int.{pos}
use open_rtc.Base.JsMap
use open_rtc.Transport.Chunker.{
  ChunkFrame, Frame, chunk, other, ChunkAssembler, Group, init, push, evict, sweep, split_utf8,
  encode_chunks,
}
use open_rtc.Transport.Chunker.Split.{Fits, split_utf8_parts}
use open_rtc.Transport.Chunker.Delivery.{feed, Roomy, encode_chunks-push}
use open_rtc.Transport.Chunker.Bounds.{IsBounded, push-IsBounded}

-- A euro sign takes three bytes, and is not torn.
split_euro :
    split_utf8 (0x61 ∷ 0x20ac ∷ 0x62 ∷ []) 3 ≡ some ((0x61 ∷ []) ∷ (0x20ac ∷ []) ∷ (0x62 ∷ []) ∷ [])
unfolding split_utf8
split_euro = refl

abbrev part : ℕ → ℕ → ChunkFrame
part i c = record { id = codes "m"; i = pos i; n = 3; d = c ∷ [] }

abbrev parts : List ChunkFrame
parts = part 0 0x61 ∷ part 1 0x62 ∷ part 2 0x63 ∷ []

abbrev stranger : ChunkFrame
stranger = record { id = codes "z"; i = pos 0; n = 2; d = 0x78 ∷ [] }

-- With room for two groups, the last chunk first, one twice, and a chunk of another message.
abbrev traffic : List (ℕ × Frame)
traffic =
    (0, chunk (part 2 0x63))
    ∷ (1, chunk stranger)
    ∷ (2, other)
    ∷ (3, chunk (part 0 0x61))
    ∷ (4, chunk (part 2 0x63))
    ∷ []

covered : (k : ℕ) → k ≤ 2 → In k (1 ∷ 2 ∷ 0 ∷ 2 ∷ [])
covered k h = grind arith

not_yet : ¬ In {A = ℕ} 1 (2 ∷ 0 ∷ 2 ∷ [])
not_yet i = omega arith

encode_chunks-push_example :
    (push 5 (chunk (part 1 0x62)) (feed traffic (init none (some 2)))).0 ≡ some (codes "abc")
unfolding encode_chunks split_utf8 init JsMap.get Roomy push evict
encode_chunks-push_example =
    encode_chunks-push (codes "abc") 1 (codes "m") [] parts traffic (init none (some 2)) 5
      (part 1 0x62) refl refl
      (
        inr (inr (inr (inl refl))),
        (inl refl, (tt, (inr (inl refl), (inr (inr (inr (inl refl))), tt)))),
      )
      (inr refl, (inr refl, (inl refl, (inl refl, tt)))) (inr (inl refl)) not_yet
      (λ k h. covered k (omega arith))

abbrev group_at : ℕ → Group
group_at t = record { parts = []; total = 2; seen = []; started_at = t }

abbrev crowded : ChunkAssembler
crowded = record {
  groups = (codes "a", group_at 9) ∷ (codes "b", group_at 4) ∷ [];
  timeout_ms = 10;
  max_groups = 2;
}

push-IsBounded_example :
    IsBounded (push 20 (chunk stranger) crowded).1 × IsBounded (sweep 20 crowded)
push-IsBounded_example = push-IsBounded 20 (chunk stranger) crowded (omega arith)

split_utf8_parts_example :
    ((◌≡◌ {A = ℕ} 3 0) × (split_utf8 (0x61 ∷ 0x20ac ∷ 0x62 ∷ []) 3 ≡ none))
    ⊎ ((ps : List (List ℕ)) × (split_utf8 (0x61 ∷ 0x20ac ∷ 0x62 ∷ []) 3 ≡ some ps)
        × (flatten ps ≡ 0x61 ∷ 0x20ac ∷ 0x62 ∷ [])
        × All (Fits 3) ps)
split_utf8_parts_example = split_utf8_parts (0x61 ∷ 0x20ac ∷ 0x62 ∷ []) 3
