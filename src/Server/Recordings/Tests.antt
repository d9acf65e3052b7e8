-- ===== src/Server/Recordings/Tests.antt =====
-- The theorems on recordings at a store with one session.
use open_rtc.Base.{◌≡◌, refl, none, some, List, [], ◌∷◌, Text, codes, text_eq}
use open_rtc.Protocol.Values.{undefined}
use open_rtc.Server.Types.{RecordingSession, recording}
use open_rtc.Server.Store
use open_rtc.Server.Demo.{world_with}
use open_rtc.Server.World.{World, ok}
use open_rtc.Server.Rooms.{empty_policy}
use open_rtc.Server.Recordings.{expire_recordings}
use open_rtc.Server.Recordings.Expiry.{left_of, expire_recordings-left}

abbrev session : RecordingSession
session = record {
  session_id = codes "x";
  room_id = codes "r";
  started_at = 1;
  stopped_at = none;
  status = recording;
  mode = none;
  media_mode = none;
  save_target = none;
  mime_type = none;
  encrypted = none;
  key_id = none;
  started_by = none;
  manifest = undefined;
  expires_at = some 5;
  transcript_url = none;
  metadata = undefined;
}

abbrev base : World
base = world_with empty_policy

abbrev recorded : World
recorded = record base { store = record base.store { recordings = (codes "x", session) ∷ [] } }

expire_recordings-left_example :
    (ids : List Text) × (w' : World) × (expire_recordings 6 (λ sid. none) recorded ≡ (ok ids, w'))
    × ((j : Text)
        → Store.get_recording j w'.store ≡ left_of 6 (Store.get_recording j recorded.store))
expire_recordings-left_example =
    expire_recordings-left 6 (λ sid. none) recorded (tt, tt) (refl, tt) (λ sid. refl)
