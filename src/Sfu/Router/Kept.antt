-- ===== src/Sfu/Router/Kept.antt =====
-- Every operation of the router keeps the publishers of tracks in session.
use open_rtc.Base.{
  ◌≡◌, refl, sym, ◌∙◌, subst, true, Bool-cases, Option-cases, inl, inr, [], All-map, Text, text_beq,
  text_beq_iff, text_eq, arith, or_else,
}
use open_rtc.Base.Keys.{IsPlain}
use open_rtc.Base.JsMap
use open_rtc.Base.JsMap.{JsMap}
use open_rtc.Protocol.{Envelope}
use open_rtc.Sfu.{TrackRegistration, SfuSession, Surroundings, SfuRouter}
use open_rtc.Sfu.Router.{session_key_of, register_session, add_track, handle}
use open_rtc.Sfu.Router.Steps.{handle_kept}
use open_rtc.Sfu.Router.Owners.{AreOwned, IsOwned, unregister_session-IsOwned}

-- A session more takes no owner away.
has-set :
    (k j : Text) (s : SfuSession) (m : JsMap Text SfuSession)
    → JsMap.has j m ≡ true
    → JsMap.has j (JsMap.set k s m) ≡ true
has-set k j s m h = elim (Bool-cases (text_beq k j)) [
  | inl same ↦ rw (JsMap.get-set k j s m, same) refl
  | inr differ ↦ rw (JsMap.get-set k j s m, differ) h
]

pub register_session-IsOwned :
    (s : SfuSession) (r : SfuRouter) → IsOwned r → IsOwned (register_session s r)
unfolding register_session
register_session-IsOwned s r h = record {
  owned = λ room tracks plain found.
      All-map _ _ tracks (λ t. has-set _ _ s r.sessions) (h.owned room tracks plain found);
}

tracks_before :
    (room : Text) (r : SfuRouter)
    → IsPlain room
    → IsOwned r
    → AreOwned room r.sessions (or_else (JsMap.get room r.tracks) [])
tracks_before room r plain h = elim (Option-cases (JsMap.get room r.tracks)) [
  | inl nothing ↦ rw nothing tt
  | inr (tracks, held) ↦ rw held (h.owned room tracks plain held)
]

-- A track whose publisher is in session may be added.
add_track-IsOwned :
    (around : Surroundings) (room track : Text) (reg : TrackRegistration) (r : SfuRouter)
    → IsPlain room
    → JsMap.has (session_key_of room reg.publisher_id) r.sessions ≡ true
    → IsOwned r
    → IsOwned (add_track around room track reg r).1
unfolding add_track
add_track-IsOwned around room track reg r plain here h = record {
  owned = λ there tracks q found. elim (Bool-cases (text_beq room there)) [
    | inl same ↦
        let e : room ≡ there = (text_beq_iff room there).0 same in
        let is : JsMap.set track reg (or_else (JsMap.get room r.tracks) []) ≡ tracks = ground (
          arith,
          JsMap.get-set room there (JsMap.set track reg (or_else (JsMap.get room r.tracks) []))
              r.tracks,
        ) in
        subst (λ (x : Text). AreOwned x r.sessions tracks) e
          (subst (AreOwned room r.sessions) is
            (JsMap.All-set _ track reg _ here (tracks_before room r plain h)))
    | inr differ ↦
        h.owned there tracks q (sym (JsMap.get-set_ne room there _ r.tracks differ) ∙ found)
  ];
}

-- If every registered track was published by a participant whose session is registered, then so it
-- is after any envelope for a room without a NUL character in its id.
pub handle-IsOwned :
    (around : Surroundings) (e : Envelope) (r : SfuRouter)
    → IsPlain e.room_id
    → IsOwned r
    → IsOwned (handle around e r).1
handle-IsOwned around e r plain =
    handle_kept around e (λ x y. IsOwned x → IsOwned y)
      (record {
        same = λ x h. h;
        then_ = λ x y z f g h. g (f h);
        says = λ x y h. record { owned = h.owned };
      })
      r
      λ s found member. record {
        calls = λ c x h. record { owned = h.owned };
        adds =
            λ track kind x held. add_track-IsOwned around e.room_id track _ x plain (rw held refl);
        drops = λ x. unregister_session-IsOwned e.room_id e.sender_id x plain;
      }
