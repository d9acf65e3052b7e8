-- ===== src/Transport/Chunker/Sequence.antt =====
-- The chunks of a message in the order in which `encodeChunks` makes them.
use open_rtc.Base.{
  nat_eq, text_eq, ℕ, suc, ◌+◌, ◌<◌, ◌≡◌, refl, sym, ap, ◌∙◌, inl, inr, none, some, List, [], ◌∷◌,
  In, length, get_elem?, arith, subst, Text, Bool-cases, ltb, ltb→lt, ltb→ge, ◌≤◌,
}
use mathlib.Core.List.{flatten}
use open_rtc.Base.JsMap
use open_rtc.Transport.Chunker.Reassembly.{part_frame, Tracks, own_last, own_more}
use open_rtc.Transport.Chunker.Delivery.{encode_chunks_frames}
use open_rtc.Transport.Chunker.{
  ChunkFrame, chunk, ChunkAssembler, push, number_parts, encode_chunks,
}

-- The texts that the assembler returns while frames arrive, all at one time.
unfoldable pub collect : ℕ → List ChunkFrame → ChunkAssembler → List (List ℕ)
collect now [] a = []
collect now (f ∷ fs) a =
    let r = push now (chunk f) a in
    elim r.0 [ none ↦ collect now fs r.1 | some text ↦ text ∷ collect now fs r.1 ]

collect_last :
    (now : ℕ) (f : ChunkFrame) (a : ChunkAssembler) (text : List ℕ)
    → (push now (chunk f) a).0 ≡ some text
    → collect now (f ∷ []) a ≡ text ∷ []
unfolding collect
collect_last now f a text h = rw (collect, h) refl

collect_more :
    (now : ℕ) (f : ChunkFrame) (fs : List ChunkFrame) (a : ChunkAssembler)
    → (push now (chunk f) a).0 ≡ none
    → collect now (f ∷ fs) a ≡ collect now fs (push now (chunk f) a).1
unfolding collect
collect_more now f fs a h = rw (collect, h) refl

within : (os : List ℕ) (k : ℕ) → ((j : ℕ) → j < k → In j os) → (j : ℕ) → j < k + 1 → In j (k ∷ os)
within os k seen j lt = elim (Bool-cases (ltb j k)) [
  | inl old ↦ inr (seen j (ltb→lt j k old))
  | inr new ↦ let at_least : k ≤ j = ltb→ge j k new in inl (omega arith)
]

outside : (os : List ℕ) (k : ℕ) → ((j : ℕ) → In j os → j < k) → (j : ℕ) → In j (k ∷ os) → j < k + 1
outside os k below j (inl q) = omega arith
outside os k below j (inr i) = let lt = below j i in omega arith

module _ (id : Text) (parts : List (List ℕ)) (now : ℕ) where
  in_order :
      (k : ℕ) (rest : List (List ℕ)) (os : List ℕ) (a : ChunkAssembler)
      → ((i : ℕ) → get_elem? rest i ≡ get_elem? parts (k + i))
      → k + length rest ≡ length parts
      → Tracks id parts os a
      → ((j : ℕ) → In j os → j < k)
      → ((j : ℕ) → j < k → In j os)
      → 0 < length rest
      → collect now (number_parts id (length parts) k rest) a ≡ flatten parts ∷ []
  unfolding collect number_parts
  in_order k [] os a agree size t below seen more = absurd (omega arith)
  in_order k (d ∷ []) os a agree size t below seen more =
      let at : k ≡ k + 0 = omega arith in
      let here : get_elem? parts k ≡ some d = ap (get_elem? parts) at ∙ sym (agree 0) in
      collect_last now (part_frame id parts k d) a (flatten parts)
        (own_last id parts os now k d a here t (λ j lt. within os k seen j (omega arith)))
  in_order k (d ∷ d' ∷ rest) os a agree size t below seen more =
      let at : k ≡ k + 0 = omega arith in
      let here : get_elem? parts k ≡ some d = ap (get_elem? parts) at ∙ sym (agree 0) in
      let missing : ¬ In (k + 1) (k ∷ os) =
        λ i. let lt = outside os k below (k + 1) i in omega arith in
      let (waits, t') = own_more id parts os now k d a here t (k + 1) (omega arith) missing in
      collect_more now (part_frame id parts k d)
        (number_parts id (length parts) (k + 1) (d' ∷ rest)) a waits
      ∙ in_order (k + 1) (d' ∷ rest) (k ∷ os) (push now (chunk (part_frame id parts k d)) a).1
          (λ i. agree (suc i) ∙ ap (get_elem? parts) (omega arith)) (omega arith) t'
          (outside os k below) (within os k seen) (omega arith)

nonempty : (parts : List (List ℕ)) → 0 < length (flatten parts) → 0 < length parts
unfolding flatten
nonempty [] h = absurd (omega arith)
nonempty (d ∷ ds) h = omega arith

-- The chunks of a message, in order and one after the other, give its text once, with the last one.
pub collect-encode :
    (json : List ℕ) (max_bytes : ℕ) (id random_id : Text) (frames : List ChunkFrame)
    (a : ChunkAssembler) (now : ℕ)
    → encode_chunks json max_bytes (some id) random_id ≡ some frames
    → JsMap.get id a.groups ≡ none
    → 0 < length json
    → collect now frames a ≡ json ∷ []
collect-encode json max_bytes id random_id frames a now enc fresh full =
    let (parts, q, joins) = encode_chunks_frames json max_bytes id random_id frames enc in
    let more : 0 < length (flatten parts) = subst (λ t. 0 < length t) (sym joins) full in
    ap (λ fs. collect now fs a) q
    ∙ in_order id parts now 0 parts [] a (λ i. ap (get_elem? parts) (omega arith)) (omega arith)
        (inl (refl, fresh)) (λ j i. absurd i) (λ j lt. absurd (omega arith)) (nonempty parts more)
    ∙ ap (λ t. t ∷ []) joins
