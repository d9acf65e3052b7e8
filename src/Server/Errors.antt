-- ===== src/Server/Errors.antt =====
-- packages/server/src/errors.ts: the errors, their codes and their HTTP statuses.
use open_rtc.Base.{ℕ, Text, codes}

-- The factories of `errors`, with their arguments.
pub data ServerError : Type 0 where
  room_not_found room_already_exists room_closed room_full : Text → ServerError
  participant_not_found participant_already_joined : Text → Text → ServerError
  recording_not_found invalid_envelope invalid_request : Text → ServerError
  recording_storage_error internal_error unauthorized token_expired : Text → ServerError
  forbidden not_implemented : Text → ServerError
  auth_not_configured : ServerError

unfoldable pub error_code : ServerError → Text
error_code (room_not_found _) = codes "room_not_found"
error_code (room_already_exists _) = codes "room_already_exists"
error_code (room_closed _) = codes "room_closed"
error_code (room_full _) = codes "room_full"
error_code (participant_not_found _ _) = codes "participant_not_found"
error_code (participant_already_joined _ _) = codes "participant_already_joined"
error_code (recording_not_found _) = codes "recording_not_found"
error_code (invalid_envelope _) = codes "invalid_envelope"
error_code (invalid_request _) = codes "invalid_request"
error_code (recording_storage_error _) = codes "recording_storage_error"
error_code (internal_error _) = codes "internal_error"
error_code (unauthorized _) = codes "unauthorized"
error_code (token_expired _) = codes "token_expired"
error_code (forbidden _) = codes "forbidden"
error_code auth_not_configured = codes "auth_not_configured"
error_code (not_implemented _) = codes "not_implemented"

unfoldable pub error_status : ServerError → ℕ
error_status (room_not_found _) = 404
error_status (room_already_exists _) = 409
error_status (room_closed _) = 409
error_status (room_full _) = 409
error_status (participant_not_found _ _) = 404
error_status (participant_already_joined _ _) = 409
error_status (recording_not_found _) = 404
error_status (invalid_envelope _) = 400
error_status (invalid_request _) = 400
error_status (recording_storage_error _) = 500
error_status (internal_error _) = 500
error_status (unauthorized _) = 401
error_status (token_expired _) = 401
error_status (forbidden _) = 403
error_status auth_not_configured = 501
error_status (not_implemented _) = 501
