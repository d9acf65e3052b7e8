-- ===== src/Sfu/Router/Owners.antt =====
-- Who published the tracks that the router knows.
use open_rtc.Base.{
  ◌≡◌, refl, sym, true, false, Bool-cases, Option-cases, inl, inr, none, some, [], ◌∷◌, All,
  All-map, Text, text_beq, text_beq_iff, text_beq_self, text_eq, arith, subst, ◌∙◌,
}
use open_rtc.Base.Keys.{IsPlain, key_parts, key_member}
use open_rtc.Base.JsMap
use open_rtc.Base.JsMap.{JsMap}
use open_rtc.Sfu.{TrackRegistration, SfuSession, SfuRouter}
use open_rtc.Sfu.Router.{session_key_of, drop_tracks, unregister_session, unregister_tracks}

-- Every track of the room was published by a participant with a session.
abbrev pub AreOwned : Text → JsMap Text SfuSession → JsMap Text TrackRegistration → Type 0
AreOwned room sessions =
    All (λ t. JsMap.has (session_key_of room (t.1).publisher_id) sessions ≡ true)

-- The same of every room without a NUL character in its id.
pub record IsOwned (r : SfuRouter) : Type 0 where
  pub owned :
      (room : Text) (tracks : JsMap Text TrackRegistration)
      → IsPlain room
      → JsMap.get room r.tracks ≡ some tracks
      → AreOwned room r.sessions tracks

has-delete_ne :
    (k j : Text) (m : JsMap Text SfuSession)
    → text_beq k j ≡ false
    → JsMap.has j m ≡ true
    → JsMap.has j (JsMap.delete k m) ≡ true
has-delete_ne k j m other h = rw (JsMap.get-delete k j m, other) h

other_member :
    (room p s : Text)
    → text_beq s p ≡ false
    → text_beq (session_key_of room p) (session_key_of room s) ≡ false
unfolding session_key_of
other_member room p s other =
    elim (Bool-cases (text_beq (session_key_of room p) (session_key_of room s))) [
      | inl same ↦
          let e : p ≡ s = key_member room p s same in
          let clash : text_beq s p ≡ true = rw e (text_beq_self s) in absurd (cc)
      | inr differ ↦ differ
    ]

other_room :
    (room there p s : Text)
    → IsPlain room
    → IsPlain there
    → text_beq room there ≡ false
    → text_beq (session_key_of room p) (session_key_of there s) ≡ false
unfolding session_key_of
other_room room there p s a b other =
    elim (Bool-cases (text_beq (session_key_of room p) (session_key_of there s))) [
      | inl same ↦
          let e : room ≡ there = (key_parts room there p s a b same).0 in
          let clash : text_beq room there ≡ true = rw e (text_beq_self there) in absurd (cc)
      | inr differ ↦ differ
    ]

pub get-unregister_here :
    (room p : Text) (tracks : JsMap Text (JsMap Text TrackRegistration))
    → JsMap.get room (unregister_tracks room p tracks)
      ≡ elim (JsMap.get room tracks) [ none ↦ none | some m ↦ some (drop_tracks p m) ]
unfolding unregister_tracks
get-unregister_here room p tracks = elim (Option-cases (JsMap.get room tracks)) [
  | inl nothing ↦ rw (unregister_tracks, nothing, nothing) refl
  | inr (old, held) ↦ rw (unregister_tracks, held) (JsMap.get-set_self room _ tracks)
]

get-unregister_ne :
    (room p there : Text) (tracks : JsMap Text (JsMap Text TrackRegistration))
    → text_beq room there ≡ false
    → JsMap.get there (unregister_tracks room p tracks) ≡ JsMap.get there tracks
unfolding unregister_tracks
get-unregister_ne room p there tracks differ = elim (Option-cases (JsMap.get room tracks)) [
  | inl nothing ↦ rw (unregister_tracks, nothing) refl
  | inr (old, held) ↦ rw (unregister_tracks, held) (JsMap.get-set_ne room there _ tracks differ)
]

AreOwned-drop :
    (room p : Text) (sessions : JsMap Text SfuSession) (tracks : JsMap Text TrackRegistration)
    → AreOwned room sessions tracks
    → AreOwned room (JsMap.delete (session_key_of room p) sessions) (drop_tracks p tracks)
unfolding drop_tracks
AreOwned-drop room p sessions [] h = tt
AreOwned-drop room p sessions ((track, reg) ∷ rest) h =
    elim (Bool-cases (text_beq reg.publisher_id p)) [
      | inl own ↦ rw (drop_tracks, own) (AreOwned-drop room p sessions rest h.1)
      | inr other ↦
          rw (drop_tracks, other)
            (
              has-delete_ne _ _ sessions (other_member room p reg.publisher_id other) h.0,
              AreOwned-drop room p sessions rest h.1,
            )
    ]

unregister-AreOwned_here :
    (room p : Text) (r : SfuRouter) (tracks : JsMap Text TrackRegistration)
    → IsPlain room
    → IsOwned r
    → JsMap.get room (unregister_tracks room p r.tracks) ≡ some tracks
    → AreOwned room (JsMap.delete (session_key_of room p) r.sessions) tracks
unregister-AreOwned_here room p r tracks plain h found =
    elim (Option-cases (JsMap.get room r.tracks)) [
      | inl nothing ↦ absurd (ground (arith, get-unregister_here room p r.tracks))
      | inr (old, held) ↦
          let e : drop_tracks p old ≡ tracks =
            ground (arith, get-unregister_here room p r.tracks) in
          subst (AreOwned room _) e
            (AreOwned-drop room p r.sessions old (h.owned room old plain held))
    ]

-- Leaving a room keeps the sessions of other rooms, and those of the same room's other publishers.
pub unregister_session-IsOwned :
    (room p : Text) (r : SfuRouter)
    → IsPlain room
    → IsOwned r
    → IsOwned (unregister_session room p r).1
unfolding unregister_session
unregister_session-IsOwned room p r plain h = record {
  owned = λ there tracks q found. elim (Bool-cases (text_beq room there)) [
    | inl here ↦
        let e : room ≡ there = (text_beq_iff room there).0 here in
        subst (λ (x : Text). AreOwned x (JsMap.delete (session_key_of room p) r.sessions) tracks) e
          (unregister-AreOwned_here room p r tracks plain h (
            subst (λ (x : Text). JsMap.get x (unregister_tracks room p r.tracks) ≡ some tracks)
              (sym e) found))
    | inr differ ↦
        All-map _ _ tracks
          (λ t g. has-delete_ne _ _ r.sessions (other_room room there p _ plain q differ) g)
          (h.owned there tracks q (sym (get-unregister_ne room p there r.tracks differ) ∙ found))
  ];
}
