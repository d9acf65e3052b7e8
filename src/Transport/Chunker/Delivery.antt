-- ===== src/Transport/Chunker/Delivery.antt =====
-- From `encodeChunks` through any arrival order to the text again.
use open_rtc.Base.{
  nat_eq, text_eq, ℕ, suc, ◌+◌, ◌<◌, ◌≡◌, refl, sym, ap, ◌∙◌, ◌⊎◌, inl, inr, false, Bool-cases,
  none, some, List, [], ◌∷◌, All, In, length, get_elem?, lt-length_of_get_elem?, arith, subst,
  if◌then◌else◌, ◌==◌, Text,
}
use mathlib.Core.List.{flatten}
use open_rtc.Base.Int.{ℤ, pos, negsuc}
use open_rtc.Base.JsMap
use open_rtc.Transport.Chunker.Split.{split_utf8_parts}
use open_rtc.Transport.Chunker.Reassembly.{
  part_frame, Tracks, own_last, own_more, EvictsNone, foreign,
}
use open_rtc.Transport.Chunker.{
  ChunkFrame, Frame, chunk, other, ChunkAssembler, push, number_parts, encode_chunks,
}

-- Frames that arrive one after the other, each at its time.
unfoldable pub feed : List (ℕ × Frame) → ChunkAssembler → ChunkAssembler
feed [] a = a
feed ((now, f) ∷ es) a = feed es (push now f a).1

-- No group is evicted while the frames arrive.
unfoldable pub Roomy : List (ℕ × Frame) → ChunkAssembler → Type 0
Roomy [] a = Unit
Roomy ((now, other) ∷ es) a = Roomy es (push now other a).1
Roomy ((now, chunk f) ∷ es) a = EvictsNone f a × Roomy es (push now (chunk f) a).1

abbrev pub index : ℤ → ℕ
index (pos i) = i
index (negsuc _) = 0

module _ (id : Text) (frames : List ChunkFrame) where
  -- Chunks with this id are chunks of this message.
  abbrev pub Belongs : ℕ × Frame → Type 0
  Belongs (_, other) = Unit
  Belongs (_, chunk f) = ((f.id == id) ≡ false) ⊎ In f frames

module _ (id : Text) where
  -- The indices of the message's chunks that have arrived, on top of `os`.
  abbrev pub arrived : List (ℕ × Frame) → List ℕ → List ℕ
  arrived [] os = os
  arrived ((_, other) ∷ es) os = arrived es os
  arrived ((_, chunk f) ∷ es) os = arrived es (if f.id == id then index f.i ∷ os else os)

  arrived_keeps : (es : List (ℕ × Frame)) (k : ℕ) (os : List ℕ) → In k os → In k (arrived es os)
  arrived_keeps [] k os i = i
  arrived_keeps ((_, other) ∷ es) k os i = arrived_keeps es k os i
  arrived_keeps ((_, chunk f) ∷ es) k os i = elim (Bool-cases (f.id == id)) [
    | inl own ↦ rw own (arrived_keeps es k (index f.i ∷ os) (inr i))
    | inr strange ↦ rw strange (arrived_keeps es k os i)
  ]

-- Each numbered frame is the frame of its part.
number_parts-In :
    (id : Text) (n k : ℕ) (ds : List (List ℕ)) (f : ChunkFrame)
    → In f (number_parts id n k ds)
    → (i : ℕ) × (d : List ℕ) × (f ≡ record { id = id; i = pos (k + i); n = n; d = d })
      × (get_elem? ds i ≡ some d)
unfolding number_parts
number_parts-In id n k [] f h = absurd h
number_parts-In id n k (d ∷ ds) f (inl q) = (0, d, ground arith, refl)
number_parts-In id n k (d ∷ ds) f (inr h) =
    let (i, d', q, e) = number_parts-In id n (k + 1) ds f h in (suc i, d', ground arith, e)

length-number_parts :
    (id : Text) (n k : ℕ) (ds : List (List ℕ)) → length (number_parts id n k ds) ≡ length ds
unfolding number_parts
length-number_parts id n k [] = refl
length-number_parts id n k (d ∷ ds) = ap suc (length-number_parts id n (k + 1) ds)

module _ (id : Text) (parts : List (List ℕ)) where
  abbrev frames_of : List ChunkFrame
  frames_of = number_parts id (length parts) 0 parts

  frame_of_In :
      (f : ChunkFrame)
      → In f frames_of
      → (i : ℕ) × (d : List ℕ) × (f ≡ part_frame id parts i d) × (get_elem? parts i ≡ some d)
  frame_of_In f h =
      let (i, d, q, e) = number_parts-In id (length parts) 0 parts f h in (i, d, ground arith, e)

  -- A frame of the message itself.
  own_step :
      (f : ChunkFrame) (now : ℕ) (os : List ℕ) (a : ChunkAssembler) (j : ℕ)
      → Tracks id parts os a
      → In f frames_of
      → j < length parts
      → ¬ In j (index f.i ∷ os)
      → Tracks id parts (index f.i ∷ os) (push now (chunk f) a).1
  own_step f now os a j t h lt missing =
      let (i, d, q, e) = frame_of_In f h in
      subst (λ (g : ChunkFrame). Tracks id parts (index g.i ∷ os) (push now (chunk g) a).1) (sym q)
        (own_more id parts os now i d a e t j lt
          (subst (λ (g : ChunkFrame). ¬ In j (index g.i ∷ os)) q missing)).1

  -- A frame that evicts no group.
  step-Tracks :
      (f : ChunkFrame) (now : ℕ) (os : List ℕ) (a : ChunkAssembler) (j : ℕ)
      → Tracks id parts os a
      → Belongs id frames_of (now, chunk f)
      → EvictsNone f a
      → j < length parts
      → ¬ In j (arrived id ((now, chunk f) ∷ []) os)
      → Tracks id parts (arrived id ((now, chunk f) ∷ []) os) (push now (chunk f) a).1
  step-Tracks f now os a j t h room lt missing = elim (Bool-cases (f.id == id)) [
    | inl own ↦ rw own (
        own_step f now os a j t (elim h [ inl strange ↦ absurd (cc) | inr i ↦ i ]) lt
          (rw own at missing))
    | inr strange ↦
        let same = foreign id parts now f a strange room in
        rw strange (elim t [
          | inl (start, absent) ↦ inl (start, same ∙ absent)
          | inr (g, found, has) ↦ inr (g, same ∙ found, has)
        ])
  ]

  feed-Tracks :
      (es : List (ℕ × Frame)) (os : List ℕ) (a : ChunkAssembler) (j : ℕ)
      → Tracks id parts os a
      → All (Belongs id frames_of) es
      → Roomy es a
      → j < length parts
      → ¬ In j (arrived id es os)
      → Tracks id parts (arrived id es os) (feed es a)
  unfolding feed Roomy push
  feed-Tracks [] os a j t h room lt missing = t
  feed-Tracks ((now, other) ∷ es) os a j t h room lt missing =
      feed-Tracks es os a j t h.1 room lt missing
  feed-Tracks ((now, chunk f) ∷ es) os a j t h room lt missing =
      let os' = arrived id ((now, chunk f) ∷ []) os in
      feed-Tracks es os' (push now (chunk f) a).1 j
        (step-Tracks f now os a j t h.0 room.0 lt (λ i. missing (arrived_keeps id es j os' i))) h.1
        room.1 lt missing

  deliver :
      (es : List (ℕ × Frame)) (a : ChunkAssembler) (now : ℕ) (f : ChunkFrame)
      → JsMap.get id a.groups ≡ none
      → All (Belongs id frames_of) es
      → Roomy es a
      → In f frames_of
      → ¬ In (index f.i) (arrived id es [])
      → ((k : ℕ) → k < length parts → In k (index f.i ∷ arrived id es []))
      → (push now (chunk f) (feed es a)).0 ≡ some (flatten parts)
  deliver es a now f fresh h room own missing all =
      let (i, d, q, e) = frame_of_In f own in
      let t =
        feed-Tracks es [] a (index f.i) (inl (refl, fresh)) h room
          (subst (λ (g : ChunkFrame). index g.i < length parts) (sym q)
            (lt-length_of_get_elem? parts i d e))
          missing in
      subst (λ (g : ChunkFrame). (push now (chunk g) (feed es a)).0 ≡ some (flatten parts)) (sym q)
        (own_last id parts (arrived id es []) now i d (feed es a) e t (
          subst
            (λ (g : ChunkFrame). (k : ℕ) → k < length parts → In k (index g.i ∷ arrived id es [])) q
            all))

pub encode_chunks_frames :
    (json : List ℕ) (max_bytes : ℕ) (id random_id : Text) (frames : List ChunkFrame)
    → encode_chunks json max_bytes (some id) random_id ≡ some frames
    → (parts : List (List ℕ)) × (frames ≡ number_parts id (length parts) 0 parts)
      × (flatten parts ≡ json)
unfolding encode_chunks
encode_chunks_frames json max_bytes id random_id frames enc =
    elim (split_utf8_parts json max_bytes) [
      | inl (_, refused) ↦ absurd (ground arith)
      | inr (parts, split, joins, _) ↦ (parts, ground arith, joins)
    ]

-- Round trip: a text that `encodeChunks` splits is what `push` returns for the frame that completes
-- it, in whatever order and however often the frames before it arrived, among frames of other
-- messages. Its id is not in use, no other message uses it, and no group is evicted meanwhile.
pub encode_chunks-push :
    (json : List ℕ) (max_bytes : ℕ) (id random_id : Text) (frames : List ChunkFrame)
    (es : List (ℕ × Frame)) (a : ChunkAssembler) (now : ℕ) (f : ChunkFrame)
    → encode_chunks json max_bytes (some id) random_id ≡ some frames
    → JsMap.get id a.groups ≡ none
    → All (Belongs id frames) es
    → Roomy es a
    → In f frames
    → ¬ In (index f.i) (arrived id es [])
    → ((k : ℕ) → k < length frames → In k (index f.i ∷ arrived id es []))
    → (push now (chunk f) (feed es a)).0 ≡ some json
encode_chunks-push json max_bytes id random_id frames es a now f enc fresh h room own missing all =
    let (parts, q, joins) = encode_chunks_frames json max_bytes id random_id frames enc in
    subst (λ t. (push now (chunk f) (feed es a)).0 ≡ some t) joins
      (deliver id parts es a now f fresh (subst (λ fs. All (Belongs id fs) es) q h) room
        (subst (λ fs. In f fs) q own) missing
        (subst (λ n. (k : ℕ) → k < n → In k (index f.i ∷ arrived id es []))
          (ap length q ∙ length-number_parts id (length parts) 0 parts) all))
