-- ===== src/Server/Types.antt =====
-- packages/server/src/types.ts: the server's records.
--
-- Metadata are JavaScript values. The two lists of a policy stay such values too, since
-- `updateRoomPolicy` checks at run time that they are arrays.
use open_rtc.Base.{ℕ, Bool, Option, List, Text}
use open_rtc.Protocol.{Envelope}
use open_rtc.Protocol.Values.{Js}

pub data RoomState : Type 0 where
  open_room closed_room : RoomState

pub record RoomPolicy : Type 0 where
  pub locked : Option Bool
  pub allow_recording : Option Bool
  pub allowed_codecs : Js
  pub moderator_ids : Js
  pub e2ee_required : Option Bool
  pub max_participants : Option ℕ

pub record Room : Type 0 where
  pub room_id : Text
  pub created_at : ℕ
  pub updated_at : ℕ
  pub state : RoomState
  pub max_participants : Option ℕ
  pub metadata : Js
  pub policy : Option RoomPolicy

pub record Participant : Type 0 where
  pub room_id : Text
  pub participant_id : Text
  pub session_id : Text
  pub display_name : Option Text
  pub joined_at : ℕ
  pub last_seen_at : ℕ
  pub metadata : Js

pub record StoredSignal : Type 0 where
  pub room_id : Text
  pub seq : ℕ
  pub envelope : Envelope
  pub received_at : ℕ

pub data RecordingStatus : Type 0 where
  recording finalized : RecordingStatus

pub record RecordingSession : Type 0 where
  pub session_id : Text
  pub room_id : Text
  pub started_at : ℕ
  pub stopped_at : Option ℕ
  pub status : RecordingStatus
  pub mode : Option Text
  pub media_mode : Option Text
  pub save_target : Option Text
  pub mime_type : Option Text
  pub encrypted : Option Bool
  pub key_id : Option Text
  pub started_by : Option Text
  pub manifest : Js
  pub expires_at : Option ℕ
  pub transcript_url : Option Text
  pub metadata : Js

pub record BanEntry : Type 0 where
  pub participant_id : Text
  pub banned_at : ℕ
  pub expires_at : Option ℕ

pub record Poll : Type 0 where
  pub id : Text
  pub question : Text
  pub options : List Text
  pub votes : List (Text × Text)
  pub created_by : Text
  pub created_at : ℕ

pub record SignalDelivery : Type 0 where
  pub envelope : Envelope
  pub recipients : List Participant

pub record JoinResult : Type 0 where
  pub room : Room
  pub participant : Participant
  pub participants : List Participant

pub record LeaveResult : Type 0 where
  pub room : Room
  pub participants : List Participant
  pub delivery : Option SignalDelivery
