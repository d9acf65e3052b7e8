-- ===== src/Sfu/Router/Leaving.antt =====
-- Leaving the SFU.
use open_rtc.Base.{
  ◌≡◌, ◌≢◌, refl, false, Bool-cases, Option-cases, inl, inr, none, some, [], ◌∷◌, ◌++◌, All, Text,
  text_beq, text_beq_iff, text_beq_self, text_eq, subst, append_assoc, arith,
}
use open_rtc.Base.JsMap
use open_rtc.Base.JsMap.{JsMap}
use open_rtc.Protocol.{Envelope}
use open_rtc.Sfu.{
  TrackRegistration, SfuSession, leave_session, event, call, left, returned, Surroundings,
  SfuRouter, proceed, emit,
}
use open_rtc.Sfu.Router.{session_key_of, drop_tracks, unregister_session, perform, on_leave}
use open_rtc.Sfu.Router.Owners.{get-unregister_here}

drop_tracks-ne :
    (p : Text) (tracks : JsMap Text TrackRegistration)
    → All (λ t. (t.1).publisher_id ≢ p) (drop_tracks p tracks)
unfolding drop_tracks
drop_tracks-ne p [] = tt
drop_tracks-ne p ((track, reg) ∷ rest) = elim (Bool-cases (text_beq reg.publisher_id p)) [
  | inl own ↦ rw (drop_tracks, own) (drop_tracks-ne p rest)
  | inr other ↦
      rw (drop_tracks, other)
        ((λ q. absurd (ground (arith, text_beq_iff reg.publisher_id p))), drop_tracks-ne p rest)
]

-- The participant has no session and no track in the room, and all other sessions are as before.
pub record HasLeft (room p : Text) (before after : SfuRouter) : Type 0 where
  pub gone : JsMap.get (session_key_of room p) after.sessions ≡ none
  pub others :
      (key : Text)
      → text_beq (session_key_of room p) key ≡ false
      → JsMap.get key after.sessions ≡ JsMap.get key before.sessions
  pub untracked :
      (tracks : JsMap Text TrackRegistration)
      → JsMap.get room after.tracks ≡ some tracks
      → All (λ t. (t.1).publisher_id ≢ p) tracks

unregister_session-HasLeft :
    (room p : Text) (r : SfuRouter) → HasLeft room p r (unregister_session room p r).1
unfolding unregister_session
unregister_session-HasLeft room p r = record {
  gone =
      rw
        (
          JsMap.get-delete (session_key_of room p) (session_key_of room p) r.sessions,
          text_beq_self (session_key_of room p),
        )
        refl;
  others = λ key differ. rw (JsMap.get-delete (session_key_of room p) key r.sessions, differ) refl;
  untracked = λ tracks found. elim (Option-cases (JsMap.get room r.tracks)) [
    | inl nothing ↦ absurd (ground (arith, get-unregister_here room p r.tracks))
    | inr (old, held) ↦
        let e : drop_tracks p old ≡ tracks = ground (arith, get-unregister_here room p r.tracks) in
        subst (All (λ t. (t.1).publisher_id ≢ p)) e (drop_tracks-ne p old)
  ];
}

-- When the gateway's `leave` returns, the participant has left: no session and no track of it is
-- registered in the room, every other session is, and the two effects are the call and the event.
pub on_leave-HasLeft :
    (around : Surroundings) (s : SfuSession) (e : Envelope) (r : SfuRouter)
    → around.answer r.trace s leave_session ≡ returned tt
    → HasLeft e.room_id e.sender_id r (on_leave around s e r).1
      × ((on_leave around s e r).1.trace
          ≡ r.trace ++ call s leave_session ∷ event (left e.room_id e.sender_id) ∷ [])
unfolding on_leave perform proceed emit unregister_session
on_leave-HasLeft around s e r accepts =
    let h = unregister_session-HasLeft e.room_id e.sender_id r in
    rw (on_leave, accepts)
      (
        record { gone = h.gone; others = h.others; untracked = h.untracked },
        append_assoc r.trace _ _,
      )
