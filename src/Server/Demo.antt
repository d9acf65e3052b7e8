-- ===== src/Server/Demo.antt =====
-- A room with one member and two places, for the tests.
use open_rtc.Base.{true, none, some, [], ◌∷◌, ◌++◌, Text, codes}
use open_rtc.Protocol.Values.{undefined}
use open_rtc.Server.Types.{Room, Participant, RoomPolicy, open_room}
use open_rtc.Server.Store.{InMemoryStore}
use open_rtc.Server.World.{World}

abbrev pub room_id : Text
room_id = codes "r"

abbrev pub ann : Participant
ann = record {
  room_id = room_id;
  participant_id = codes "a";
  session_id = codes "s";
  display_name = none;
  joined_at = 1;
  last_seen_at = 1;
  metadata = undefined;
}

abbrev pub room_with : RoomPolicy → Room
room_with policy = record {
  room_id = room_id;
  created_at = 0;
  updated_at = 1;
  state = open_room;
  max_participants = some 2;
  metadata = undefined;
  policy = some policy;
}

abbrev pub store_with : RoomPolicy → InMemoryStore
store_with policy = record {
  rooms = (room_id, room_with policy) ∷ [];
  participants = (codes "r" ++ 0 ∷ codes "a", ann) ∷ [];
  signals = [];
  signal_seqs = [];
  recordings = [];
  bans = [];
  lobbies = [];
  hand_queues = [];
  polls = [];
  collate = λ a b. true;
}

abbrev pub world_with : RoomPolicy → World
world_with policy = record {
  store = store_with policy;
  ban_store = [];
  lobby_store = [];
  hand_queue_store = [];
  poll_store = [];
}
