-- ===== src/Server/Store/Tests.antt =====
-- The store's theorems at a room with one member.
use open_rtc.Base.{ℕ, ◌≡◌, refl, ◌↔◌, true, none, some, [], ◌∷◌, Text, codes, In}
use open_rtc.Base.JsMap
use open_rtc.Protocol.{Envelope, chat}
use open_rtc.Protocol.Values.{undefined}
use open_rtc.Server.Types.{Participant}
use open_rtc.Server.Store.{
  InMemoryStore, get_participant, list_participants, put_participant, put_signal, list_signals,
}
use open_rtc.Base.Keys.{IsPlain}
use open_rtc.Server.Store.Roster.Lists.{IsRoster, put_participant-IsRoster, list_participants-In}
use open_rtc.Server.Store.SignalLog.{IsLog, log, drop, put_signal-IsLog, list_signals-drop}

abbrev room_id : Text
room_id = codes "r"

abbrev empty : InMemoryStore
empty = record {
  rooms = [];
  participants = [];
  signals = [];
  signal_seqs = [];
  recordings = [];
  bans = [];
  lobbies = [];
  hand_queues = [];
  polls = [];
  collate = λ a b. true;
}

abbrev member : Text → ℕ → Participant
member id at = record {
  room_id = room_id;
  participant_id = id;
  session_id = codes "s";
  display_name = none;
  joined_at = at;
  last_seen_at = at;
  metadata = undefined;
}

abbrev two : InMemoryStore
two = put_participant (member (codes "b") 3) (put_participant (member (codes "a") 5) empty)

two_lem : list_participants room_id two ≡ member (codes "b") 3 ∷ member (codes "a") 5 ∷ []
unfolding list_participants put_participant JsMap.set
two_lem = refl

room_id-IsPlain : IsPlain room_id
room_id-IsPlain = (λ q. absurd (cc q), tt)

two-IsRoster : IsRoster two
two-IsRoster =
    let empty-IsRoster : IsRoster empty = record { unique = tt; keyed = tt } in
    put_participant-IsRoster (member (codes "b") 3) _ room_id-IsPlain
      (put_participant-IsRoster (member (codes "a") 5) empty room_id-IsPlain empty-IsRoster)

list_participants-In_example : In (member (codes "a") 5) (list_participants room_id two) ↔ (
    (room_id ≡ room_id) × (get_participant room_id (codes "a") two ≡ some (member (codes "a") 5)))
list_participants-In_example =
    list_participants-In room_id (member (codes "a") 5) two room_id-IsPlain two-IsRoster

-- Both sides hold.
found_a : get_participant room_id (codes "a") two ≡ some (member (codes "a") 5)
unfolding get_participant put_participant JsMap.get JsMap.set
found_a = refl

abbrev hello : Envelope
hello = record {
  type = chat;
  room_id = room_id;
  sender_id = codes "a";
  session_id = codes "s";
  ts = 4;
  seq = 1;
  target_sender_id = undefined;
  payload = undefined;
}

abbrev logged : InMemoryStore
logged = (put_signal room_id hello 5 (put_signal room_id hello 4 empty).1).1

put_signal-IsLog_example : IsLog room_id (put_signal room_id hello 4 empty).1
unfolding JsMap.get
put_signal-IsLog_example = put_signal-IsLog room_id room_id hello 4 empty (tt, refl) (tt, refl)

logged-IsLog : IsLog room_id logged
unfolding put_signal JsMap.get JsMap.set
logged-IsLog = ((refl, (refl, tt)), refl)

list_signals-drop_example : list_signals room_id 1 logged ≡ drop 1 (log room_id logged)
list_signals-drop_example = list_signals-drop room_id 1 logged logged-IsLog
