-- ===== src/Sfu/Router/Subscribing.antt =====
-- A subscription without a target.
use open_rtc.Base.{
  ◌≡◌, refl, sym, ◌∙◌, ◌≢◌, ◌↔◌, ◌⊎◌, inl, inr, Bool-cases, List-cases, none, List, [], ◌∷◌, ◌++◌,
  map, append_assoc, append-nil, In, Distinct, Text, text_beq, text_beq_iff, text_eq, false, codes,
  or_else, arith,
}
use open_rtc.Base.JsMap
use open_rtc.Base.JsMap.{values}
use open_rtc.Base.JsSet
use open_rtc.Protocol.{Envelope}
use open_rtc.Protocol.Values.{prop}
use open_rtc.Sfu.{
  TrackRegistration, SfuSession, subscribe_to, Effect, event, call, subscribed, error,
  invalid_payload, no_targets, returned, Surroundings, SfuRouter, proceed, emit, emit_error,
}
use open_rtc.Sfu.Router.{
  perform, publishers, layer_of, non_empty, targets_of, subscribe_all, on_subscribe,
}

-- The publishers of the tracks of a room.
abbrev pub publishers_in : Text → SfuRouter → List Text
publishers_in room r = map (λ t. t.publisher_id) (values (or_else (JsMap.get room r.tracks) []))

ne_of_beq : (s t : Text) → text_beq s t ≡ false → s ≢ t
ne_of_beq s t h q = absurd (ground (arith, text_beq_iff s t))

In-publishers :
    (sender p : Text) (regs : List TrackRegistration) (targets : List Text)
    → In p (publishers sender regs targets)
      ↔ (In p targets ⊎ (In p (map (λ t. t.publisher_id) regs) × (p ≢ sender)))
unfolding publishers
In-publishers sender p [] targets = (λ i. inl i, λ d. elim d [ inl i ↦ i | inr (i, q) ↦ absurd i ])
In-publishers sender p (reg ∷ rest) targets = elim (Bool-cases (text_beq reg.publisher_id sender)) [
  | inl own ↦
      let e : reg.publisher_id ≡ sender = (text_beq_iff _ _).0 own in
      let (out, into) = In-publishers sender p rest targets in
      rw own (
        λ i. elim (out i) [ inl j ↦ inl j | inr (j, q) ↦ inr (inr j, q) ],
        λ d. into (elim d [
          | inl j ↦ inl j
          | inr (j, q) ↦ elim j [ inl same ↦ absurd (q (same ∙ e)) | inr k ↦ inr (k, q) ]
        ]),
      )
  | inr other ↦
      let (out, into) = In-publishers sender p rest (JsSet.add reg.publisher_id targets) in
      let (from, to) = JsSet.In-add reg.publisher_id p targets in
      rw other (
        λ i. elim (out i) [
          | inl j ↦ elim (from j) [
            | inl k ↦ inl k
            | inr same ↦ inr (inl same, λ q. ne_of_beq _ _ other (sym same ∙ q))
          ]
          | inr (j, q) ↦ inr (inr j, q)
        ],
        λ d. into (elim d [
          | inl j ↦ inl (to (inl j))
          | inr (j, q) ↦ elim j [ inl same ↦ inl (to (inr same)) | inr k ↦ inr (k, q) ]
        ]),
      )
]

-- What an accepted subscription does for one target after the other.
abbrev pub effects : SfuSession → Envelope → List Text → List Effect
effects s e [] = []
effects s e (t ∷ ts) =
    call s (subscribe_to t (layer_of (prop (codes "layer") e.payload)))
    ∷ event (subscribed e.room_id e.sender_id t)
    ∷ effects s e ts

subscribe_all-effects :
    (around : Surroundings) (s : SfuSession) (e : Envelope) (ts : List Text) (r : SfuRouter)
    → ((before : List Effect) (t : Text)
        → around.answer before s (subscribe_to t (layer_of (prop (codes "layer") e.payload)))
          ≡ returned tt)
    → (subscribe_all around s e ts r).1.trace ≡ r.trace ++ effects s e ts
unfolding subscribe_all perform proceed emit
subscribe_all-effects around s e [] r accepts = sym (append-nil r.trace)
subscribe_all-effects around s e (t ∷ ts) r accepts = rw (accepts r.trace t) (
    subscribe_all-effects around s e ts _ accepts
    ∙ append_assoc (r.trace ++ call s _ ∷ []) _ _
    ∙ append_assoc r.trace _ _)

Distinct-publishers :
    (sender : Text) (regs : List TrackRegistration) (targets : List Text)
    → Distinct targets
    → Distinct (publishers sender regs targets)
unfolding publishers
Distinct-publishers sender [] targets d = d
Distinct-publishers sender (reg ∷ rest) targets d =
    elim (Bool-cases (text_beq reg.publisher_id sender)) [
      | inl own ↦ rw own (Distinct-publishers sender rest targets d)
      | inr other ↦
          rw other
            (Distinct-publishers sender rest _ (JsSet.Distinct-add reg.publisher_id targets d))
    ]

In-targets :
    (e : Envelope) (r : SfuRouter)
    → non_empty (prop (codes "senderId") e.payload) ≡ none
    → (p : Text) → In p (targets_of e r) ↔ (In p (publishers_in e.room_id r) × (p ≢ e.sender_id))
unfolding targets_of
In-targets e r bare p =
    let (out, into) =
      In-publishers e.sender_id p (values (or_else (JsMap.get e.room_id r.tracks) [])) [] in
    rw (targets_of, bare) (λ i. elim (out i) [ inl j ↦ absurd j | inr k ↦ k ], λ k. into (inr k))

-- What a subscription without a target does: every other publisher once, or an error if there is none.
pub record SubscribesToAll (s : SfuSession) (e : Envelope) (before after : SfuRouter) : Type 0 where
  pub targets : List Text
  pub once : Distinct targets
  pub exact :
      (p : Text) → In p targets ↔ (In p (publishers_in e.room_id before) × (p ≢ e.sender_id))
  pub done :
      after.trace
      ≡ before.trace ++ elim targets [
        | [] ↦ event (error invalid_payload no_targets e e.room_id e.sender_id) ∷ []
        | t ∷ ts ↦ effects s e (t ∷ ts)
      ]

-- A subscription that names no target and whose calls the gateway accepts goes to every publisher of
-- a track of the room but the sender, to each once; if there is no other publisher, it is an error.
pub on_subscribe-SubscribesToAll :
    (around : Surroundings) (s : SfuSession) (e : Envelope) (r : SfuRouter)
    → non_empty (prop (codes "senderId") e.payload) ≡ none
    → ((before : List Effect) (t : Text)
        → around.answer before s (subscribe_to t (layer_of (prop (codes "layer") e.payload)))
          ≡ returned tt)
    → SubscribesToAll s e r (on_subscribe around s e r).1
unfolding on_subscribe emit_error emit
on_subscribe-SubscribesToAll around s e r bare accepts = record {
  targets = targets_of e r;
  once =
      rw (targets_of, bare)
        (Distinct-publishers e.sender_id (values (or_else (JsMap.get e.room_id r.tracks) [])) []
          tt);
  exact = In-targets e r bare;
  done = elim (List-cases (targets_of e r)) [
    | inl nobody ↦ rw (on_subscribe, nobody) refl
    | inr (t, ts, others) ↦
        rw (on_subscribe, others) (subscribe_all-effects around s e (t ∷ ts) r accepts)
  ];
}
