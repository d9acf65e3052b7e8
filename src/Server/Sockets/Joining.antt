-- ===== src/Server/Sockets/Joining.antt =====
-- packages/server/src/ws.ts: authenticateSocket and handleJoin.
use open_rtc.Base.{
  ℕ, ◌==◌, Bool, true, false, not, ◌&&◌, ◌||◌, ◌++◌, Option, none, some, [], ◌∷◌, Text, text_eq,
  nat_eq, codes, text_beq, if◌then◌else◌, or_else,
}
use open_rtc.Protocol.{Envelope}
use open_rtc.Protocol.Values.{
  Js, Items, end, field, undefined, str, arr, obj, prop, truthy, is_text,
}
use open_rtc.Server.Types.{RoomPolicy, JoinResult, SignalDelivery}
use open_rtc.Server.Errors.{ServerError, error_code}
use open_rtc.Server.Store
use open_rtc.Server.World.{World, Result, ok, err, M, ◌>>=◌, return}
use open_rtc.Server.Rooms.{get_room_policy, empty_policy}
use open_rtc.Server.Membership.{ParticipantInput, JoinRoomOptions, join_room}
use open_rtc.Server.Relay.{handle_signal}
use open_rtc.Server.Auth.{TokenRole, participant, admin, role_name, TokenClaims, passed, failed}
use open_rtc.Server.Sockets.{
  attach, joined_message, Effect, pushed, webhook, Services, Gateway, log, send_json, close_socket,
  broadcast, send_error, failure_code, verify_socket,
}

-- The error goes to the socket, which is then closed with its code.
unfoldable pub reject : ℕ → ℕ → Text → Text → Text → Gateway → Gateway
unfolding send_error close_socket
reject now socket room_id code message g =
    close_socket socket code (send_error now socket room_id code message g)

-- Whether the claims are for the room and the sender; if not, what is said about it.
abbrev pub scope_refusal : TokenClaims → Text → Text → Option Text
scope_refusal claims room_id sender_id =
    if not (text_beq claims.room_id room_id)
    then some (
        codes "Token is scoped to room "
        ++ claims.room_id
        ++ codes ", not "
        ++ room_id
        ++ codes " (tokens are room-scoped)")
    else if not (text_beq claims.participant_id sender_id)
    then some (
        codes "Token is bound to participant "
        ++ claims.participant_id
        ++ codes ", not "
        ++ sender_id)
    else none

unfoldable pub authenticate_socket : Services → ℕ → ℕ → Text → Text → Gateway → Bool × Gateway
unfolding verify_socket reject
authenticate_socket s now socket room_id sender_id g = elim s.auth [
  | none ↦ (true, g)
  | some auth ↦
      let v = verify_socket s auth now socket g in
      elim v.0 [
        | failed e ↦ (false, reject now socket room_id (failure_code e) (s.failure_text e) v.1)
        | passed claims ↦ elim (scope_refusal claims room_id sender_id) [
          | none ↦ (true, v.1)
          | some text ↦ (false, reject now socket room_id (codes "forbidden") text v.1)
        ]
      ]
]

-- `moderatorIds?.includes(…)`
unfoldable pub includes : Text → Items → Bool
includes id Items.nil = false
includes id (Items.cons v vs) = is_text id v || includes id vs

abbrev pub is_moderator : RoomPolicy → TokenClaims → Bool
is_moderator policy claims = elim policy.moderator_ids [
  | arr ids ↦ includes claims.participant_id ids
  | _ ↦ false
]

abbrev pub is_admin : TokenRole → Bool
is_admin admin = true
is_admin participant = false

-- Whether the join goes on, for a room that may be locked.
unfoldable pub check_locked : Services → ℕ → ℕ → Text → RoomPolicy → Gateway → Bool × Gateway
unfolding verify_socket reject includes
check_locked s now socket room_id policy g =
    let refuse =
      reject now socket room_id (codes "forbidden")
        (codes "Room " ++ room_id ++ codes " is locked") in
    if not (or_else policy.locked false) then (true, g) else elim s.auth [
      | none ↦ (false, refuse g)
      | some auth ↦
          let v = verify_socket s auth now socket g in
          elim v.0 [
            | failed e ↦ (true, v.1)
            | passed claims ↦
                if is_admin claims.role || is_moderator policy claims
                then (true, v.1)
                else (false, refuse v.1)
          ]
    ]

unfoldable pub check_e2ee : Services → ℕ → ℕ → Text → RoomPolicy → Gateway → Bool × Gateway
unfolding verify_socket reject
check_e2ee s now socket room_id policy g =
    if not (or_else policy.e2ee_required false) then (true, g) else elim s.auth [
      | none ↦ (true, g)
      | some auth ↦
          let v = verify_socket s auth now socket g in
          elim v.0 [
            | failed e ↦ (true, v.1)
            | passed claims ↦
                if or_else claims.e2ee false || is_admin claims.role then (true, v.1) else (
                  false,
                  reject now socket room_id (codes "forbidden")
                      (codes "Room requires E2EE-capable token (e2ee:true)") v.1,
                )
          ]
    ]

-- The options of `joinRoom`.
unfoldable pub actor_options : Services → ℕ → ℕ → RoomPolicy → Gateway → JoinRoomOptions × Gateway
unfolding verify_socket includes role_name
actor_options s now socket policy g =
    let nobody : JoinRoomOptions = record {
      upsert = false;
      actor_role = none;
      is_moderator = false;
    } in
    elim s.auth [
      | none ↦ (nobody, g)
      | some auth ↦
          let v = verify_socket s auth now socket g in
          elim v.0 [
            | failed e ↦ (nobody, v.1)
            | passed claims ↦ (
              record {
                upsert = false;
                actor_role = some (role_name claims.role);
                is_moderator = is_moderator policy claims;
              },
              v.1,
            )
          ]
    ]

abbrev pub text_of : Js → Option Text
text_of (str t) = some t
text_of _ = none

abbrev pub input_of : Envelope → ParticipantInput
input_of e = record {
  participant_id = e.sender_id;
  session_id = e.session_id;
  display_name = text_of (prop (codes "displayName") e.payload);
  metadata = let v = prop (codes "metadata") e.payload in if truthy v then v else undefined;
}

abbrev pub policy_of : Text → World → RoomPolicy
policy_of room_id w = elim (Store.get_room room_id w.store) [
  | none ↦ empty_policy
  | some room ↦ get_room_policy room
]

-- `joinRoom` and `handleSignal`.
unfoldable pub join_and_store :
    JoinRoomOptions → Js → Envelope → ℕ → M (JoinResult × SignalDelivery)
unfolding join_room handle_signal
join_and_store opts value e now = do
  result ← join_room e.room_id (input_of e) opts now
  delivery ← handle_signal value now
  return (result, delivery)

abbrev pub begins : Text → Text → Bool
begins [] t = true
begins (c ∷ cs) [] = false
begins (c ∷ cs) (d ∷ ds) = (c == d) && begins cs ds

-- `text.includes(part)`
unfoldable pub contains : Text → Text → Bool
contains part [] = begins part []
contains part (c ∷ cs) = begins part (c ∷ cs) || contains part cs

abbrev pub notice : Bool → Effect → Gateway → Gateway
notice wanted x g = if wanted then log x g else g

abbrev pub participant_notice : Text → Js
participant_notice id = obj (field (codes "participantId") (str id) end)

-- The socket is in the room.
unfoldable pub enter : Services → ℕ → Envelope → JoinResult → SignalDelivery → Gateway → Gateway
unfolding attach broadcast log send_json
enter s socket e result delivery g =
    let g1 = record g { hub = attach e.room_id socket e.sender_id e.session_id g.hub } in
    let g2 = broadcast e.room_id delivery.envelope e.sender_id g1 in
    let g3 = notice s.has_push (pushed e.room_id e.sender_id) g2 in
    let g4 =
      notice s.has_webhooks (webhook (codes "join") e.room_id (participant_notice e.sender_id))
        g3 in
    send_json socket (joined_message e.room_id result.room result.participants) g4

-- The join failed.
unfoldable pub refuse_join : Services → ℕ → ℕ → Envelope → ServerError → Gateway → Gateway
unfolding log send_error contains error_code
refuse_join s now socket e error g =
    let waiting =
      text_beq (error_code error) (codes "forbidden")
      && contains (codes "lobby") (s.error_text error) in
    send_error now socket e.room_id (error_code error) (s.error_text error) (
      notice (waiting && s.has_webhooks)
        (webhook (codes "lobby.waiting") e.room_id (participant_notice e.sender_id)) g)

unfoldable pub complete_join :
    Services → ℕ → ℕ → Envelope → Result (JoinResult × SignalDelivery) × World → Gateway → Gateway
unfolding enter refuse_join
complete_join s now socket e (ok (result, delivery), w) g =
    enter s socket e result delivery (record g { world = w })
complete_join s now socket e (err error, w) g =
    refuse_join s now socket e error (record g { world = w })

unfoldable pub join_room_of : Services → ℕ → ℕ → Js → Envelope → RoomPolicy → Gateway → Gateway
unfolding actor_options join_and_store complete_join
join_room_of s now socket value e policy g =
    let a = actor_options s now socket policy g in
    complete_join s now socket e (join_and_store a.0 value e now (a.1).world) a.1

-- A check, and what comes behind it.
unfoldable pub guarded : Bool × Gateway → (Gateway → Gateway) → Gateway
guarded (false, g) f = g
guarded (true, g) f = f g

unfoldable pub handle_join : Services → ℕ → ℕ → Js → Envelope → Gateway → Gateway
unfolding authenticate_socket check_locked check_e2ee join_room_of guarded
handle_join s now socket value e g =
    guarded (authenticate_socket s now socket e.room_id e.sender_id g) λ g1.
      let policy = policy_of e.room_id g1.world in
      guarded (check_locked s now socket e.room_id policy g1) λ g2.
        guarded (check_e2ee s now socket e.room_id policy g2)
          λ g3. join_room_of s now socket value e policy g3
