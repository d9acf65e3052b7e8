-- ===== src/Server/Store.antt =====
-- packages/server/src/stores/InMemoryStore.ts: the reference store.
--
-- Values are immutable here, so `structuredClone` is the value itself. `localeCompare` is a
-- parameter, the field `collate` (its result is 0 or less). `Date.now()` is an argument.
pub mod Roster
pub mod SignalLog
mod Tests
use open_rtc.Base.{
  nat_eq, text_eq, ◌==◌, ℕ, ◌+◌, ◌<◌, Bool, true, false, not, ◌&&◌, ◌||◌, ◌++◌, Option, none, some,
  List, [], ◌∷◌, Text, nat_beq, ltb, leb, if◌then◌else◌, or_else, select, map,
}
use open_rtc.Base.JsMap
use open_rtc.Base.JsMap.{JsMap}
use open_rtc.Base.JsSet
use open_rtc.Protocol.{Envelope}
use open_rtc.Server.Types.{Room, Participant, StoredSignal, RecordingSession, BanEntry, Poll}

pub record InMemoryStore : Type 0 where
  pub rooms : JsMap Text Room
  pub participants : JsMap Text Participant
  pub signals : JsMap Text (List StoredSignal)
  pub signal_seqs : JsMap Text ℕ
  pub recordings : JsMap Text RecordingSession
  pub bans : JsMap Text (JsMap Text BanEntry)
  pub lobbies : JsMap Text (JsMap Text ℕ)
  pub hand_queues : JsMap Text (List Text)
  pub polls : JsMap Text (JsMap Text Poll)
  pub collate : Text → Text → Bool

unfoldable pub get_room : Text → InMemoryStore → Option Room
get_room room_id s = JsMap.get room_id s.rooms

unfoldable pub put_room : Room → InMemoryStore → InMemoryStore
put_room room s = record s { rooms = JsMap.set room.room_id room s.rooms }

-- `${roomId}\u0000${participantId}`
unfoldable pub key : Text → Text → Text
key room_id participant_id = room_id ++ 0 ∷ participant_id

-- `key.startsWith(prefix)`
unfoldable pub starts_with : Text → Text → Bool
starts_with text [] = true
starts_with [] (p ∷ prefix) = false
starts_with (c ∷ text) (p ∷ prefix) = nat_beq c p && starts_with text prefix

unfoldable pub delete_room : Text → InMemoryStore → InMemoryStore
unfolding starts_with key
delete_room room_id s = record s {
  rooms = JsMap.delete room_id s.rooms;
  participants = select (λ e. not (starts_with e.0 (key room_id []))) s.participants;
  signals = JsMap.delete room_id s.signals;
  signal_seqs = JsMap.delete room_id s.signal_seqs;
  recordings = select (λ e. not (e.1.room_id == room_id)) s.recordings;
  bans = JsMap.delete room_id s.bans;
  lobbies = JsMap.delete room_id s.lobbies;
  hand_queues = JsMap.delete room_id s.hand_queues;
  polls = JsMap.delete room_id s.polls;
}

unfoldable pub get_participant : Text → Text → InMemoryStore → Option Participant
unfolding key
get_participant room_id participant_id s = JsMap.get (key room_id participant_id) s.participants

unfoldable pub put_participant : Participant → InMemoryStore → InMemoryStore
unfolding key
put_participant p s = record s {
  participants = JsMap.set (key p.room_id p.participant_id) p s.participants;
}

unfoldable pub delete_participant : Text → Text → InMemoryStore → InMemoryStore
unfolding key
delete_participant room_id participant_id s = record s {
  participants = JsMap.delete (key room_id participant_id) s.participants;
}

-- The comparison of `out.sort`: by the time of joining, then by the collation of the ids.
unfoldable pub joined_before : (Text → Text → Bool) → Participant → Participant → Bool
joined_before collate a b =
    if ltb a.joined_at b.joined_at
    then true
    else if nat_beq a.joined_at b.joined_at
    then collate a.participant_id b.participant_id
    else false

unfoldable pub insert_participant :
    (Text → Text → Bool) → Participant → List Participant → List Participant
unfolding joined_before
insert_participant collate p [] = p ∷ []
insert_participant collate p (q ∷ qs) =
    if joined_before collate p q then p ∷ q ∷ qs else q ∷ insert_participant collate p qs

unfoldable pub sort_participants : (Text → Text → Bool) → List Participant → List Participant
unfolding insert_participant
sort_participants collate [] = []
sort_participants collate (p ∷ ps) = insert_participant collate p (sort_participants collate ps)

unfoldable pub list_participants : Text → InMemoryStore → List Participant
unfolding sort_participants starts_with key
list_participants room_id s =
    sort_participants s.collate
      (JsMap.values (select (λ e. starts_with e.0 (key room_id [])) s.participants))

unfoldable pub put_signal : Text → Envelope → ℕ → InMemoryStore → StoredSignal × InMemoryStore
put_signal room_id envelope received_at s =
    let seq = or_else (JsMap.get room_id s.signal_seqs) 0 + 1 in
    let stored : StoredSignal = record {
      room_id = room_id;
      seq = seq;
      envelope = envelope;
      received_at = received_at;
    } in
    let list = or_else (JsMap.get room_id s.signals) [] in
    (
      stored,
      record s {
        signal_seqs = JsMap.set room_id seq s.signal_seqs;
        signals = JsMap.set room_id (list ++ stored ∷ []) s.signals;
      },
    )

unfoldable pub list_signals : Text → ℕ → InMemoryStore → List StoredSignal
list_signals room_id since s =
    select (λ x. ltb since x.seq) (or_else (JsMap.get room_id s.signals) [])

unfoldable pub put_recording : RecordingSession → InMemoryStore → InMemoryStore
put_recording r s = record s { recordings = JsMap.set r.session_id r s.recordings }

unfoldable pub list_recordings : Text → InMemoryStore → List RecordingSession
list_recordings room_id s = select (λ r. r.room_id == room_id) (JsMap.values s.recordings)

unfoldable pub get_recording : Text → InMemoryStore → Option RecordingSession
get_recording session_id s = JsMap.get session_id s.recordings

unfoldable pub delete_recording : Text → InMemoryStore → InMemoryStore
delete_recording session_id s = record s { recordings = JsMap.delete session_id s.recordings }

unfoldable pub list_all_recordings : InMemoryStore → List RecordingSession
list_all_recordings s = JsMap.values s.recordings

-- `e.expiresAt !== undefined && e.expiresAt <= now`
unfoldable pub has_expired : ℕ → BanEntry → Bool
has_expired now e = elim e.expires_at [ none ↦ false | some t ↦ leb t now ]

-- The room's bans that still hold; those that ran out are deleted.
unfoldable pub list_bans : Text → ℕ → InMemoryStore → List BanEntry × InMemoryStore
unfolding has_expired
list_bans room_id now s = elim (JsMap.get room_id s.bans) [
  | none ↦ ([], s)
  | some m ↦
      let live = select (λ e. not (has_expired now e.1)) m in
      (JsMap.values live, record s { bans = JsMap.set room_id live s.bans })
]

unfoldable pub get_ban : Text → Text → ℕ → InMemoryStore → Option BanEntry × InMemoryStore
unfolding has_expired
get_ban room_id participant_id now s = elim (JsMap.get room_id s.bans) [
  | none ↦ (none, s)
  | some m ↦ elim (JsMap.get participant_id m) [
    | none ↦ (none, s)
    | some e ↦
        if has_expired now e
        then (none, record s { bans = JsMap.set room_id (JsMap.delete participant_id m) s.bans })
        else (some e, s)
  ]
]

unfoldable pub put_ban : Text → BanEntry → InMemoryStore → InMemoryStore
put_ban room_id entry s =
    let m = or_else (JsMap.get room_id s.bans) [] in
    record s { bans = JsMap.set room_id (JsMap.set entry.participant_id entry m) s.bans }

unfoldable pub delete_ban : Text → Text → InMemoryStore → InMemoryStore
delete_ban room_id participant_id s = elim (JsMap.get room_id s.bans) [
  | none ↦ s
  | some m ↦ record s { bans = JsMap.set room_id (JsMap.delete participant_id m) s.bans }
]

unfoldable pub list_lobby : Text → InMemoryStore → JsMap Text ℕ
list_lobby room_id s = or_else (JsMap.get room_id s.lobbies) []

unfoldable pub put_lobby : Text → Text → ℕ → InMemoryStore → InMemoryStore
put_lobby room_id participant_id enqueued_at s =
    let m = or_else (JsMap.get room_id s.lobbies) [] in
    record s { lobbies = JsMap.set room_id (JsMap.set participant_id enqueued_at m) s.lobbies }

unfoldable pub delete_lobby : Text → Text → InMemoryStore → Bool × InMemoryStore
delete_lobby room_id participant_id s = elim (JsMap.get room_id s.lobbies) [
  | none ↦ (false, s)
  | some m ↦ (
    JsMap.has participant_id m,
    record s { lobbies = JsMap.set room_id (JsMap.delete participant_id m) s.lobbies },
  )
]

unfoldable pub list_hand_queue : Text → InMemoryStore → List Text
list_hand_queue room_id s = or_else (JsMap.get room_id s.hand_queues) []

unfoldable pub add_hand : Text → Text → InMemoryStore → InMemoryStore
unfolding JsSet.add
add_hand room_id participant_id s =
    let q = or_else (JsMap.get room_id s.hand_queues) [] in
    record s { hand_queues = JsMap.set room_id (JsSet.add participant_id q) s.hand_queues }

unfoldable pub remove_hand : Text → Text → InMemoryStore → InMemoryStore
remove_hand room_id participant_id s =
    let q = or_else (JsMap.get room_id s.hand_queues) [] in
    record s {
      hand_queues = JsMap.set room_id (select (λ id. not (id == participant_id)) q) s.hand_queues;
    }

unfoldable pub list_polls : Text → InMemoryStore → List Poll
list_polls room_id s = JsMap.values (or_else (JsMap.get room_id s.polls) [])

unfoldable pub get_poll : Text → Text → InMemoryStore → Option Poll
get_poll room_id poll_id s = elim (JsMap.get room_id s.polls) [
  | none ↦ none
  | some m ↦ JsMap.get poll_id m
]

unfoldable pub put_poll : Text → Poll → InMemoryStore → InMemoryStore
put_poll room_id poll s =
    let m = or_else (JsMap.get room_id s.polls) [] in
    record s { polls = JsMap.set room_id (JsMap.set poll.id poll m) s.polls }

unfoldable pub vote_poll : Text → Text → Text → Text → InMemoryStore → Bool × InMemoryStore
unfolding get_poll JsSet.has
vote_poll room_id poll_id participant_id option s = elim (get_poll room_id poll_id s) [
  | none ↦ (false, s)
  | some p ↦
      if JsSet.has option p.options
      then (true, put_poll room_id (record p { votes = JsMap.set participant_id option p.votes }) s)
      else (false, s)
]
