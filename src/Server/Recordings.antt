-- ===== src/Server/Recordings.antt =====
-- packages/server/src/core.ts: the recording sessions of a room.
--
-- `now` is `nowMs(opts.now)`, the session id that `startRecording` generates is an argument, and
-- `on_delete` says for a session whether the callback `onDelete` throws, and what.
pub mod Expiry
mod Tests
use open_rtc.Base.{
  text_eq, ◌==◌, ℕ, ◌+◌, Bool, true, false, Option, none, some, List, [], ◌∷◌, Text, if◌then◌else◌,
  or_else, ltb, leb,
}
use open_rtc.Base.JsMap
use open_rtc.Base.JsMap.{JsMap}
use open_rtc.Protocol.Values.{Js, undefined}
use open_rtc.Server.Types.{RecordingSession, recording, finalized}
use open_rtc.Server.Errors.{ServerError, recording_not_found}
use open_rtc.Server.Store
use open_rtc.Server.World.{
  World, Result, ok, err, M, ◌>>=◌, ◌>>◌, return, present, query, write, require_room,
}

pub record StartRecordingOptions : Type 0 where
  pub session_id : Option Text
  pub metadata : Js
  pub mode : Option Text
  pub media_mode : Option Text
  pub save_target : Option Text
  pub mime_type : Option Text
  pub encrypted : Option Bool
  pub key_id : Option Text
  pub started_by : Option Text
  pub ttl_ms : Option ℕ

-- `value ? { field: value } : {}`
abbrev given : Option Text → Option Text
given none = none
given (some []) = none
given (some (c ∷ cs)) = some (c ∷ cs)

abbrev given_flag : Option Bool → Option Bool
given_flag none = none
given_flag (some b) = if b then some true else none

abbrev expiry : ℕ → Option ℕ → Option ℕ
expiry now none = none
expiry now (some ttl) = if ltb 0 ttl then some (now + ttl) else none

unfoldable pub start_recording : Text → StartRecordingOptions → Text → ℕ → M RecordingSession
start_recording room_id opts generated_id now = do
  room ← require_room room_id
  let session : RecordingSession = record {
    session_id = or_else opts.session_id generated_id;
    room_id = room_id;
    started_at = now;
    stopped_at = none;
    status = recording;
    mode = given opts.mode;
    media_mode = given opts.media_mode;
    save_target = given opts.save_target;
    mime_type = given opts.mime_type;
    encrypted = given_flag opts.encrypted;
    key_id = given opts.key_id;
    started_by = given opts.started_by;
    manifest = undefined;
    expires_at = expiry now opts.ttl_ms;
    transcript_url = none;
    metadata = opts.metadata;
  }
  write (Store.put_recording session)
  return session

unfoldable pub get_recording : Text → M RecordingSession
get_recording session_id = do
  found ← query (Store.get_recording session_id)
  present found (recording_not_found session_id)

unfoldable pub stop_recording : Text → ℕ → M RecordingSession
unfolding get_recording
stop_recording session_id now = do
  current ← get_recording session_id
  let stopped : RecordingSession = record current { stopped_at = some now; status = finalized }
  write (Store.put_recording stopped)
  return stopped

unfoldable pub insert_newest : RecordingSession → List RecordingSession → List RecordingSession
insert_newest r [] = r ∷ []
insert_newest r (q ∷ qs) =
    if leb q.started_at r.started_at then r ∷ q ∷ qs else q ∷ insert_newest r qs

-- [...all].sort((a, b) => b.startedAt - a.startedAt)
unfoldable pub sort_newest : List RecordingSession → List RecordingSession
unfolding insert_newest
sort_newest [] = []
sort_newest (r ∷ rs) = insert_newest r (sort_newest rs)

unfoldable pub get_recordings : Text → M (List RecordingSession)
unfolding sort_newest
get_recordings room_id = do
  room ← require_room room_id
  all ← query (Store.list_recordings room_id)
  return (sort_newest all)

unfoldable pub is_over : ℕ → RecordingSession → Bool
is_over now r = elim r.expires_at [ none ↦ false | some t ↦ leb t now ]

abbrev pub over : ℕ → RecordingSession → RecordingSession
over now r = record r { status = finalized; stopped_at = some now }

-- The loop over the entries that the map had.
unfoldable pub expire_loop :
    ℕ → (Text → Option ServerError) → JsMap Text RecordingSession → M (List Text)
expire_loop now on_delete [] = return []
expire_loop now on_delete ((sid, r) ∷ entries) =
    let rest = expire_loop now on_delete entries in
    if is_over now r
    then (do
      write (Store.put_recording (over now r))
      elim (on_delete sid) as (λ _. M (List Text)) [
        | some e ↦ (λ w. (err e, w))
        | none ↦ (do write (Store.delete_recording sid); expired ← rest; return (sid ∷ expired))
      ])
    else rest

unfoldable pub expire_recordings : ℕ → (Text → Option ServerError) → M (List Text)
unfolding expire_loop
expire_recordings now on_delete = do
  entries ← query (λ s. s.recordings)
  expire_loop now on_delete entries
