-- ===== src/Server/Sockets/Tests.antt =====
-- A socket that enters a room with its token, and then speaks for somebody else: witnesses of the
-- theorems, and runs.
use open_rtc.Base.{
  All, List, ℕ, ◌≡◌, refl, ◌⊎◌, Bool-cases, text_beq_iff, nat_beq, subst, true, false, none, some,
  [], ◌∷◌, Text, codes, text_beq, text_eq, nat_eq, if◌then◌else◌, ◌++◌, arith, inl, inr,
}
use open_rtc.Base.JsMap
use open_rtc.Base.JsSet
use open_rtc.Protocol.{Envelope, MessageType, join, leave, to_js}
use open_rtc.Protocol.Values.{undefined, is_defined, prop}
use open_rtc.Server.Demo.{ann, room_id, world_with}
use open_rtc.Server.Rooms.{empty_policy, get_room_policy}
use open_rtc.Server.Types.{Participant}
use open_rtc.Server.World.{
  proceed, query, write, update, return, throw_if, present, run, require_room,
}
use open_rtc.Server.Waiting.{is_banned}
use open_rtc.Server.Membership.{check_lock, check_capacity, store_leave}
use open_rtc.Server.Relay.{relay, check_sender}
use open_rtc.Server.Store
use open_rtc.Server.Auth.{Crypto, IssueTokenOptions, header, payload_of}
use open_rtc.Server.Sockets.{
  SocketMeta, Effect, meta_for, AuthConfig, Services, Gateway, upgraded, bad_request, destroyed,
  on_upgrade,
}
use open_rtc.Server.Sockets.Handling.{handle_message, on_close}
use open_rtc.Server.Sockets.Entry.{IsAdmitted, handle_message-IsAdmitted}
use open_rtc.Server.Sockets.Reach.{IsReached, handle_message-IsReached}
use open_rtc.Server.Sockets.Registry.{IsRegistry, handlers-IsRegistry}
use open_rtc.Server.Sockets.Members.{members_of}

abbrev for_bob : IssueTokenOptions
for_bob = record {
  room_id = room_id;
  participant_id = codes "b";
  role = none;
  exp = none;
  jti = none;
  caps = undefined;
  e2ee = none;
}

abbrev envelope : MessageType → Text → Envelope
envelope type sender = record {
  type = type;
  room_id = room_id;
  sender_id = sender;
  session_id = codes "s";
  ts = 1;
  seq = 1;
  target_sender_id = undefined;
  payload = undefined;
}

-- The texts that the sockets send: a join of b, and a leave of a.
abbrev toy : Crypto
toy = record {
  hmac = λ text secret. secret;
  b64url = λ s. s;
  b64url_decode = λ s. s;
  stringify = λ v. if is_defined (prop (codes "alg") v) then codes "h" else codes "p";
  parse = λ s. some (
      if text_beq s (codes "h")
      then header
      else if text_beq s (codes "p")
      then payload_of for_bob 5
      else if text_beq s (codes "join b")
      then to_js (envelope join (codes "b"))
      else to_js (envelope leave (codes "a")));
}

abbrev config : AuthConfig
config = record { secret = codes "k"; previous_secrets = [] }

abbrev services : Services
services = record {
  crypto = toy;
  auth = some config;
  has_push = false;
  has_webhooks = false;
  error_text = λ e. [];
  failure_text = λ e. [];
}

abbrev meta_of : Text → SocketMeta
meta_of id = record { room_id = room_id; sender_id = id; session_id = codes "s" }

-- Socket 3 is in the room as a; socket 7 has a token for b.
abbrev before : Gateway
before = record {
  world = world_with empty_policy;
  revoked = [];
  hub = record { rooms = (room_id, 3 ∷ []) ∷ []; metas = (3, meta_of (codes "a")) ∷ [] };
  clients = 3 ∷ 7 ∷ [];
  tokens = (7, codes "h.p.k") ∷ [];
  open_sockets = 3 ∷ 7 ∷ [];
  trace = [];
}

handle_message-IsAdmitted_example :
    (meta_for 7 before.hub ≡ some (meta_of (codes "b")))
    ⊎ ((◌≡◌ {A = ℕ} 7 7) × IsAdmitted services config 6000 7 before (meta_of (codes "b")))
unfolding handle_message JsMap.get JsMap.set JsMap.delete JsSet.has JsSet.add to_js payload_of
    Store.get_room get_room_policy proceed require_room query present throw_if run is_banned
    Store.get_participant check_lock return check_capacity Store.list_participants write update
    Store.put_participant Store.put_room Store.put_signal relay check_sender
handle_message-IsAdmitted_example =
    handle_message-IsAdmitted services config 6000 7 (codes "join b") before refl 7
      (meta_of (codes "b")) refl

handle_message-IsReached_example :
    (xs : List Effect) × ((handle_message services 6000 7 (codes "join b") before).trace
      ≡ before.trace ++ xs)
    × All (IsReached services 6000 7 (codes "join b") before) xs
handle_message-IsReached_example = handle_message-IsReached services 6000 7 (codes "join b") before

before-IsRegistry : IsRegistry before.hub
unfolding JsMap.get JsSet.has
before-IsRegistry = record {
  registered = λ room i named inside. elim (Bool-cases (text_beq room_id room)) [
    | inr other ↦ absurd (ground (arith, other, inside))
    | inl same ↦ elim (Bool-cases (nat_beq 3 i)) [
      | inr other ↦ absurd (ground (arith, same, other, inside))
      | inl three ↦ (meta_of (codes "a"), ground (arith, three), (text_beq_iff room_id room).0 same)
    ]
  ];
  listed = λ i m at. elim (Bool-cases (nat_beq 3 i)) [
    | inr other ↦ absurd (ground (arith, other, at))
    | inl three ↦
        let is : meta_of (codes "a") ≡ m = ground (arith, three, at) in
        subst (λ (x : SocketMeta). JsSet.has i (members_of x.room_id before.hub) ≡ true) is
          (ground (arith, three))
  ];
}

handlers-IsRegistry_example :
    IsRegistry (handle_message services 6000 7 (codes "join b") before).hub
    × IsRegistry (on_close 6000 7 before).hub
handlers-IsRegistry_example =
    handlers-IsRegistry services 6000 7 (codes "join b") before before-IsRegistry

abbrev bob : Participant
bob = record {
  room_id = room_id;
  participant_id = codes "b";
  session_id = codes "s";
  display_name = none;
  joined_at = 1;
  last_seen_at = 1;
  metadata = undefined;
}

abbrev both_in : Gateway
both_in =
    let w = world_with empty_policy in
    record before {
      world = record w {
        store = record w.store {
          participants = (codes "r" ++ 0 ∷ codes "a", ann) ∷ (codes "r" ++ 0 ∷ codes "b", bob) ∷ [];
        };
      };
      hub = record {
        rooms = (room_id, 3 ∷ 7 ∷ []) ∷ [];
        metas = (3, meta_of (codes "a")) ∷ (7, meta_of (codes "b")) ∷ [];
      };
    }

-- Socket 7, which is in the room as b, leaves it as a: a is no longer a participant, and b still is.
abbrev after : Gateway
after = handle_message services 6001 7 (codes "leave a") both_in

spoken_for :
    (JsMap.has (room_id ++ 0 ∷ codes "a") after.world.store.participants ≡ false)
    × (JsMap.has (room_id ++ 0 ∷ codes "b") after.world.store.participants ≡ true)
    × (meta_for 7 after.hub ≡ none)
    × (meta_for 3 after.hub ≡ some (meta_of (codes "a")))
unfolding handle_message JsMap.get JsMap.set JsMap.delete JsSet.has JsSet.add to_js payload_of
    Store.get_room get_room_policy proceed require_room query present throw_if run is_banned
    Store.get_participant check_lock return check_capacity Store.list_participants write update
    Store.put_participant Store.put_room Store.put_signal Store.delete_participant store_leave
    JsSet.delete
spoken_for = (refl, refl, refl, refl)

upgrades :
    (on_upgrade (codes "/ws") (codes "/x") none none ≡ destroyed)
    × (on_upgrade (codes "/ws") (codes "/ws") none none ≡ bad_request)
    × (on_upgrade (codes "/ws") (codes "/ws") (some room_id) none ≡ upgraded [])
unfolding on_upgrade
upgrades = (refl, refl, refl)
