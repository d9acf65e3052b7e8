-- ===== src/Server/Recordings/Expiry.antt =====
-- packages/server/src/core.ts: what `expireRecordings` leaves, and what `stopRecording` stores.
use open_rtc.Base.{
  text_eq, ◌==◌, eq_iff, ℕ, ◌≡◌, ◌≢◌, refl, sym, subst, ◌∙◌, Bool, false, ◌&&◌, ◌||◌, Bool-cases,
  inl, inr, Option, none, some, List, [], ◌∷◌, Text, All, arith, if◌then◌else◌,
}
use open_rtc.Base.JsMap
use open_rtc.Base.JsMap.{JsMap}
use open_rtc.Server.Types.{RecordingSession}
use open_rtc.Server.Errors.{ServerError}
use open_rtc.Server.Store
use open_rtc.Server.World.{World, ok, proceed, return, query, write, present}
use open_rtc.Server.Recordings.{
  is_over, over, expire_loop, expire_recordings, get_recording, stop_recording,
}

-- A recording that is stopped is stored as stopped, under its own id.
pub stop_recording-stores :
    (session_id : Text) (now : ℕ) (w : World) (r : RecordingSession)
    → Store.get_recording session_id w.store ≡ some r
    → r.session_id ≡ session_id
    → (w' : World) × (stop_recording session_id now w ≡ (ok (over now r), w'))
      × (Store.get_recording session_id w'.store ≡ some (over now r))
unfolding stop_recording get_recording proceed query write return present Store.put_recording
    Store.get_recording
stop_recording-stores session_id now w r found own = (
  record w { store = Store.put_recording (over now r) w.store },
  rw found refl,
  subst
      (λ z.
        JsMap.get z (JsMap.set r.session_id (over now r) w.store.recordings) ≡ some (over now r))
      own (JsMap.get-set_self r.session_id (over now r) w.store.recordings),
)

-- Whether a pass over the entries deletes a session.
dropped : ℕ → Text → JsMap Text RecordingSession → Bool
dropped now j [] = false
dropped now j ((sid, r) ∷ entries) = (is_over now r && sid == j) || dropped now j entries

dropped_absent :
    (now : ℕ) (j : Text) (m : JsMap Text RecordingSession)
    → All (λ e. e.0 ≢ j) m
    → dropped now j m ≡ false
unfolding dropped
dropped_absent now j [] h = refl
dropped_absent now j ((sid, r) ∷ m) h = elim (Bool-cases (sid == j)) [
  | inl hit ↦ absurd (h.0 ((eq_iff sid j).0 hit))
  | inr miss ↦ ground (arith, miss, dropped_absent now j m h.1)
]

-- What a lookup finds of the entries that are left.
abbrev pub left_of : ℕ → Option RecordingSession → Option RecordingSession
left_of now none = none
left_of now (some r) = if is_over now r then none else some r

dropped-left_of :
    (now : ℕ) (j : Text) (m : JsMap Text RecordingSession)
    → JsMap.Unique m
    → (if dropped now j m then none else JsMap.get j m) ≡ left_of now (JsMap.get j m)
unfolding dropped JsMap.get
dropped-left_of now j [] u = refl
dropped-left_of now j ((sid, r) ∷ m) u = elim (Bool-cases (sid == j)) [
  | inl hit ↦
      let absent =
        dropped_absent now j m (subst (λ z. All (λ e. e.0 ≢ z) m) ((eq_iff sid j).0 hit) u.0) in
      elim (Bool-cases (is_over now r)) [
        | inl gone ↦ rw (hit, gone) refl
        | inr kept ↦ rw (hit, kept, absent) refl
      ]
  | inr miss ↦ elim (Bool-cases (is_over now r)) [
    | inl gone ↦ rw (miss, gone) (dropped-left_of now j m u.1)
    | inr kept ↦ rw (miss, kept) (dropped-left_of now j m u.1)
  ]
]

-- The store behind a session that expired.
abbrev purged : ℕ → Text → RecordingSession → World → World
purged now sid r w = record w {
  store = Store.delete_recording sid (Store.put_recording (over now r) w.store);
}

purged-get :
    (now : ℕ) (sid j : Text) (r : RecordingSession) (w : World)
    → r.session_id ≡ sid
    → JsMap.get j (purged now sid r w).store.recordings
      ≡ (if sid == j then none else JsMap.get j w.store.recordings)
unfolding Store.put_recording Store.delete_recording
purged-get now sid j r w own =
    let put = JsMap.set r.session_id (over now r) w.store.recordings in
    elim (Bool-cases (sid == j)) [
      | inl hit ↦ rw hit (JsMap.get-delete sid j put ∙ rw hit refl)
      | inr miss ↦
          let other : (r.session_id == j) ≡ false = subst (λ z. (z == j) ≡ false) (sym own) miss in
          rw miss (
            JsMap.get-delete sid j put
            ∙ rw miss (JsMap.get-set_ne r.session_id j (over now r) w.store.recordings other))
    ]

expire_loop-runs :
    (now : ℕ) (on_delete : Text → Option ServerError) (entries : JsMap Text RecordingSession)
    (w : World)
    → ((sid : Text) → on_delete sid ≡ none)
    → All (λ e. e.1.session_id ≡ e.0) entries
    → (ids : List Text) × (w' : World) × (expire_loop now on_delete entries w ≡ (ok ids, w'))
      × ((j : Text)
          → JsMap.get j w'.store.recordings
            ≡ (if dropped now j entries then none else JsMap.get j w.store.recordings))
unfolding expire_loop dropped proceed write return
expire_loop-runs now on_delete [] w silent own = ([], w, refl, λ j. refl)
expire_loop-runs now on_delete ((sid, r) ∷ entries) w silent own =
    elim (Bool-cases (is_over now r)) [
      | inr kept ↦
          let (ids, w', runs, look) = expire_loop-runs now on_delete entries w silent own.1 in
          (ids, w', rw kept runs, λ j. rw kept (look j))
      | inl gone ↦
          let (ids, w', runs, look) =
            expire_loop-runs now on_delete entries (purged now sid r w) silent own.1 in
          (
            sid ∷ ids,
            w',
            rw (gone, silent sid, runs) refl,
            λ j. ground (arith, look j, purged-get now sid j r w own.0, gone),
          )
    ]

-- With every session once under its own id, and callbacks that do not throw, a sweep of the
-- recordings succeeds: exactly the sessions whose time is over are gone, the others are as before.
pub expire_recordings-left :
    (now : ℕ) (on_delete : Text → Option ServerError) (w : World)
    → JsMap.Unique w.store.recordings
    → All (λ e. e.1.session_id ≡ e.0) w.store.recordings
    → ((sid : Text) → on_delete sid ≡ none)
    → (ids : List Text) × (w' : World) × (expire_recordings now on_delete w ≡ (ok ids, w'))
      × ((j : Text) → Store.get_recording j w'.store ≡ left_of now (Store.get_recording j w.store))
unfolding expire_recordings proceed query Store.get_recording
expire_recordings-left now on_delete w once own silent =
    let (ids, w', runs, look) = expire_loop-runs now on_delete w.store.recordings w silent own in
    (ids, w', runs, λ j. look j ∙ dropped-left_of now j w.store.recordings once)
