-- ===== src/Transport/Base/Delivery.antt =====
-- An envelope on its way from one transport to another.
use open_rtc.Base.{
  ℕ, ◌<◌, ◌≡◌, refl, sym, ap, ◌∙◌, subst, true, false, Bool-cases, Option-cases, inl, inr, none,
  some, List, [], ◌∷◌, ◌++◌, map, append_assoc, append-nil, length, text_eq, text_beq_self, ltb,
  if◌then◌else◌, arith, Text,
}
use open_rtc.Base.JsMap
use open_rtc.Protocol.{Envelope, to_js}
use open_rtc.Protocol.Envelopes.{narrow-to_js}
use open_rtc.Transport.Chunker
use open_rtc.Transport.Chunker.{
  ChunkFrame, ChunkAssembler, chunk, utf8_size, encode_chunks, split_utf8,
}
use open_rtc.Transport.Chunker.Split.{split_utf8_parts}
use open_rtc.Transport.Chunker.Sequence.{collect, collect-encode}
use open_rtc.Transport.Reorder
use open_rtc.Transport.Base.{
  Wire, whole, part, Hook, do_send_frame, Surroundings, BaseTransport, proceed, run_hook, chunk_max,
  utf8_bytes, frames_of, send_all, send_frame, as_envelope, is_own, accept, accept_text,
  deliver_open, deliver_frame, emit,
}

-- Frames that arrive one after the other, all at one time.
unfoldable pub deliver_all :
    Surroundings → ℕ → List Wire → BaseTransport → List Envelope × BaseTransport
unfolding deliver_frame
deliver_all around now [] b = ([], b)
deliver_all around now (w ∷ ws) b =
    let r = deliver_frame around now w b in
    let s = deliver_all around now ws r.1 in (r.0 ++ s.0, s.1)

as_envelope-to_js : (e : Envelope) → as_envelope (to_js e) ≡ some e
unfolding as_envelope
as_envelope-to_js e = let (valid, view) = narrow-to_js e in rw (as_envelope, valid) view

-- The transport hands on what the reorder buffer releases for the envelope.
pub record HandsOn (now : ℕ) (e : Envelope) (b : BaseTransport) (r : List Envelope × BaseTransport)
    : Type 0 where
  pub released : r.0 ≡ (Reorder.push now e b.reorder).0
  pub buffered : (r.1).reorder ≡ (Reorder.push now e b.reorder).1

encode_id :
    (json : List ℕ) (size : ℕ) (id : Text)
    → encode_chunks json size (some id) id ≡ encode_chunks json size none id
unfolding encode_chunks
encode_id json size id = refl

encode_accepts :
    (json : List ℕ) (size : ℕ) (id : Text) → 0 < size → ¬ (encode_chunks json size none id ≡ none)
unfolding encode_chunks
encode_accepts json size id pos refused = elim (split_utf8_parts json size) [
  | inl (zero_size, _) ↦ omega arith
  | inr (parts, split, joins, fits) ↦ absurd (ground (arith, split))
]

module _ (around : Surroundings) (now : ℕ) where
  deliver_live :
      (w : Wire) (b : BaseTransport)
      → b.disposed ≡ false
      → deliver_frame around now w b ≡ deliver_open around now w b
  unfolding deliver_frame
  deliver_live w b live =
      subst
        (λ d. (if d then ([], b) else deliver_open around now w b) ≡ deliver_open around now w b)
        (sym live) refl

  -- A chunk, by what the assembler returns for it.
  deliver_waits :
      (f : ChunkFrame) (b : BaseTransport)
      → b.disposed ≡ false
      → (Chunker.push now (chunk f) b.assembler).0 ≡ none
      → deliver_frame around now (part f) b
        ≡ ([], record b { assembler = (Chunker.push now (chunk f) b.assembler).1 })
  unfolding deliver_open
  deliver_waits f b live waits = deliver_live (part f) b live ∙ rw (deliver_open, waits) refl

  deliver_full :
      (f : ChunkFrame) (b : BaseTransport) (text : List ℕ)
      → b.disposed ≡ false
      → (Chunker.push now (chunk f) b.assembler).0 ≡ some text
      → deliver_frame around now (part f) b
        ≡ accept_text around now text
            (record b { assembler = (Chunker.push now (chunk f) b.assembler).1 })
  unfolding deliver_open
  deliver_full f b text live full = deliver_live (part f) b live ∙ rw (deliver_open, full) refl

  accept_one :
      (e : Envelope) (b : BaseTransport)
      → is_own e b ≡ false
      → accept now (some e) b ≡ (
        (Reorder.push now e b.reorder).0,
        record b { reorder = (Reorder.push now e b.reorder).1 },
      )
  unfolding accept
  accept_one e b other = rw (accept, other) refl

  accept_parsed :
      (e : Envelope) (json : List ℕ) (b : BaseTransport)
      → around.parse json ≡ some (to_js e)
      → is_own e b ≡ false
      → accept_text around now json b ≡ (
        (Reorder.push now e b.reorder).0,
        record b { reorder = (Reorder.push now e b.reorder).1 },
      )
  unfolding accept_text
  accept_parsed e json b parsed other =
      rw (accept_text, parsed)
        (ap (λ o. accept now o b) (as_envelope-to_js e) ∙ accept_one e b other)

  after_first :
      (w : Wire) (ws : List Wire) (b : BaseTransport) (r : List Envelope × BaseTransport)
      → deliver_frame around now w b ≡ r
      → deliver_all around now (w ∷ ws) b
        ≡ (r.0 ++ (deliver_all around now ws r.1).0, (deliver_all around now ws r.1).1)
  unfolding deliver_all
  after_first w ws b r h =
      ap
        (λ (x : List Envelope × BaseTransport).
          (x.0 ++ (deliver_all around now ws x.1).0, (deliver_all around now ws x.1).1))
        h

  -- Chunks that complete no text.
  silent :
      (fs : List ChunkFrame) (b : BaseTransport)
      → b.disposed ≡ false
      → collect now fs b.assembler ≡ []
      → ((deliver_all around now (map part fs) b).0 ≡ [])
        × ((deliver_all around now (map part fs) b).1.reorder ≡ b.reorder)
  unfolding deliver_all collect
  silent [] b live quiet = (refl, refl)
  silent (f ∷ fs) b live quiet = elim (Option-cases (Chunker.push now (chunk f) b.assembler).0) [
    | inl waits ↦
        let e = after_first (part f) (map part fs) b _ (deliver_waits f b live waits) in
        let h =
          silent fs (record b { assembler = (Chunker.push now (chunk f) b.assembler).1 }) live
            (ground (arith, waits)) in
        (ap (λ x. x.0) e ∙ h.0, ap (λ x. x.1.reorder) e ∙ h.1)
    | inr (text, full) ↦ absurd (ground (arith, full))
  ]

  -- Chunks that complete the text of one envelope.
  speaking :
      (e : Envelope) (json : List ℕ) (fs : List ChunkFrame) (b : BaseTransport)
      → around.parse json ≡ some (to_js e)
      → b.disposed ≡ false
      → is_own e b ≡ false
      → collect now fs b.assembler ≡ json ∷ []
      → HandsOn now e b (deliver_all around now (map part fs) b)
  unfolding collect is_own
  speaking e json [] b parsed live other told = absurd (ground arith)
  speaking e json (f ∷ fs) b parsed live other told =
      let b' = record b { assembler = (Chunker.push now (chunk f) b.assembler).1 } in
      elim (Option-cases (Chunker.push now (chunk f) b.assembler).0) [
        | inl waits ↦
            let q = after_first (part f) (map part fs) b _ (deliver_waits f b live waits) in
            let h = speaking e json fs b' parsed live other (ground (arith, waits)) in
            record {
              released = ap (λ x. x.0) q ∙ h.released;
              buffered = ap (λ x. x.1.reorder) q ∙ h.buffered;
            }
        | inr (text, full) ↦
            let same : text ≡ json = ground (arith, full) in
            let rest : collect now fs b'.assembler ≡ [] = ground (arith, full) in
            let r = Reorder.push now e b.reorder in
            let q =
              after_first (part f) (map part fs) b (r.0, record b' { reorder = r.1 })
                (deliver_full f b text live full
                  ∙ accept_parsed e text b'
                      (subst (λ t. around.parse t ≡ some (to_js e)) (sym same) parsed) other) in
            let h = silent fs (record b' { reorder = r.1 }) live rest in
            record {
              released = ap (λ x. x.0) q ∙ ap (λ t. r.0 ++ t) h.0 ∙ append-nil r.0;
              buffered = ap (λ x. x.1.reorder) q ∙ h.1;
            }
      ]

  -- A frame that is sent as it is.
  plain :
      (e : Envelope) (b : BaseTransport)
      → b.disposed ≡ false
      → is_own e b ≡ false
      → HandsOn now e b (deliver_all around now (whole (to_js e) ∷ []) b)
  unfolding deliver_open deliver_all
  plain e b live other =
      let r = Reorder.push now e b.reorder in
      let q =
        after_first (whole (to_js e)) [] b (r.0, record b { reorder = r.1 })
          (deliver_live (whole (to_js e)) b live
            ∙ ap (λ o. accept now o b) (as_envelope-to_js e)
            ∙ accept_one e b other) in
      record { released = ap (λ x. x.0) q ∙ append-nil r.0; buffered = ap (λ x. x.1.reorder) q }

  full_text :
      (b : BaseTransport) (json : List ℕ)
      → ltb b.max_payload_bytes (utf8_bytes json) ≡ true
      → 0 < length json
  unfolding utf8_bytes
  full_text b [] h = absurd (ground arith)
  full_text b (c ∷ json) h = omega arith

  chunk_max_pos : (b : BaseTransport) (size : ℕ) → chunk_max b ≡ some size → 0 < size
  unfolding chunk_max
  chunk_max_pos b size h = ground arith

  -- What a transport sends for an envelope, another transport hands on.
  frames_of-HandsOn :
      (chunk_id : Text) (e : Envelope) (a b : BaseTransport)
      → around.parse (around.stringify (to_js e)) ≡ some (to_js e)
      → b.disposed ≡ false
      → is_own e b ≡ false
      → JsMap.get chunk_id b.assembler.groups ≡ none
      → HandsOn now e b (deliver_all around now (frames_of around chunk_id (to_js e) a) b)
  unfolding frames_of
  frames_of-HandsOn chunk_id e a b parsed live other fresh = elim (Option-cases (chunk_max a)) [
    | inl off ↦ rw (frames_of, off) (plain e b live other)
    | inr (size, on) ↦
        let json = around.stringify (to_js e) in
        elim (Bool-cases (ltb a.max_payload_bytes (utf8_bytes json))) [
          | inr small ↦ rw (frames_of, on, small) (plain e b live other)
          | inl large ↦ elim (Option-cases (encode_chunks json size none chunk_id)) [
            | inl refused ↦
                absurd (encode_accepts json size chunk_id (chunk_max_pos a size on) refused)
            | inr (parts, enc) ↦
                rw (frames_of, on, large, enc)
                  (speaking e json parts b parsed live other (
                    collect-encode json size chunk_id chunk_id parts b.assembler now
                      (encode_id json size chunk_id ∙ enc) fresh (full_text a json large)))
          ]
        ]
  ]

-- The hook takes every frame.
abbrev pub TakesFrames : Surroundings → Type 0
TakesFrames around = (before : List Hook) (w : Wire) → around.hook before (do_send_frame w) ≡ none

send_all-calls :
    (around : Surroundings) (ws : List Wire) (a : BaseTransport)
    → TakesFrames around
    → (send_all around ws a).1.calls ≡ a.calls ++ map do_send_frame ws
unfolding send_all run_hook proceed
send_all-calls around [] a takes = sym (append-nil a.calls)
send_all-calls around (w ∷ ws) a takes =
    rw (send_all, run_hook, takes a.calls w)
      (send_all-calls around ws _ takes ∙ append_assoc a.calls (do_send_frame w ∷ []) _)

emit-sends :
    (around : Surroundings) (chunk_id : Text) (e : Envelope) (a : BaseTransport)
    → a.disposed ≡ false
    → a.current_room ≡ some e.room_id
    → a.coalescer ≡ none
    → emit around chunk_id e a ≡ send_all around (frames_of around chunk_id (to_js e) a) a
unfolding emit send_frame
emit-sends around chunk_id e a live here direct =
    simp (emit, send_frame, live, here, direct, text_beq_self e.room_id) refl

-- What a transport asks its hook to send, and what another transport makes of it.
pub record Transmits (around : Surroundings) (now : ℕ) (e : Envelope) (a a' b : BaseTransport)
    : Type 0 where
  pub frames : List Wire
  pub sent : a'.calls ≡ a.calls ++ map do_send_frame frames
  pub received : HandsOn now e b (deliver_all around now frames b)

-- End to end: when `emit` of a transport that is joined to the envelope's room and does not coalesce
-- sends an envelope through a hook that takes every frame, any other live transport that gets these
-- frames in order hands on exactly what its reorder buffer releases for the envelope, whether it was
-- split into chunks or not. The envelope's JSON parses to the envelope again, its sender is not the
-- receiver, and no chunks under the same id are waiting there.
pub emit-Transmits :
    (around : Surroundings) (now : ℕ) (chunk_id : Text) (e : Envelope) (a b : BaseTransport)
    → around.parse (around.stringify (to_js e)) ≡ some (to_js e)
    → TakesFrames around
    → a.disposed ≡ false
    → a.current_room ≡ some e.room_id
    → a.coalescer ≡ none
    → b.disposed ≡ false
    → is_own e b ≡ false
    → JsMap.get chunk_id b.assembler.groups ≡ none
    → Transmits around now e a (emit around chunk_id e a).1 b
unfolding emit send_frame
emit-Transmits around now chunk_id e a b parsed takes live_a here direct live_b other fresh =
    record {
      frames = frames_of around chunk_id (to_js e) a;
      sent =
          ap (λ x. x.1.calls) (emit-sends around chunk_id e a live_a here direct)
          ∙ send_all-calls around _ a takes;
      received = frames_of-HandsOn around now chunk_id e a b parsed live_b other fresh;
    }
