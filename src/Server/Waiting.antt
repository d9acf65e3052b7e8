-- ===== src/Server/Waiting.antt =====
-- packages/server/src/core.ts: bans, lobby, raised hands and polls, kept by the module itself.
pub mod Bans
use open_rtc.Base.{
  text_eq, ◌==◌, ℕ, ◌≤◌, Bool, true, false, not, Option, none, some, List, [], ◌∷◌, Text,
  if◌then◌else◌, or_else, select,
}
use open_rtc.Base.JsMap
use open_rtc.Base.JsMap.{JsMap}
use open_rtc.Base.JsSet
use open_rtc.Server.Types.{BanEntry, Poll}
use open_rtc.Server.Store.{has_expired}
use open_rtc.Server.World.{World}

unfoldable pub list_bans : Text → ℕ → World → List BanEntry × World
unfolding has_expired
list_bans room_id now w = elim (JsMap.get room_id w.ban_store) [
  | none ↦ ([], w)
  | some m ↦
      let live = select (λ e. not (has_expired now e.1)) m in
      (JsMap.values live, record w { ban_store = JsMap.set room_id live w.ban_store })
]

unfoldable pub is_banned : Text → Text → ℕ → World → Bool × World
unfolding has_expired
is_banned room_id participant_id now w = elim (JsMap.get room_id w.ban_store) [
  | none ↦ (false, w)
  | some m ↦ elim (JsMap.get participant_id m) [
    | none ↦ (false, w)
    | some e ↦
        if has_expired now e
        then (
          false,
          record w { ban_store = JsMap.set room_id (JsMap.delete participant_id m) w.ban_store },
        )
        else (true, w)
  ]
]

unfoldable pub list_lobby_waiting : Text → World → JsMap Text ℕ
list_lobby_waiting room_id w = or_else (JsMap.get room_id w.lobby_store) []

unfoldable pub enqueue_lobby : Text → Text → ℕ → World → World
enqueue_lobby room_id participant_id now w =
    let m = or_else (JsMap.get room_id w.lobby_store) [] in
    record w { lobby_store = JsMap.set room_id (JsMap.set participant_id now m) w.lobby_store }

unfoldable pub admit_lobby : Text → Text → World → Bool × World
admit_lobby room_id participant_id w = elim (JsMap.get room_id w.lobby_store) [
  | none ↦ (false, w)
  | some m ↦ (
    JsMap.has participant_id m,
    record w { lobby_store = JsMap.set room_id (JsMap.delete participant_id m) w.lobby_store },
  )
]

unfoldable pub get_hand_queue : Text → World → List Text
get_hand_queue room_id w = or_else (JsMap.get room_id w.hand_queue_store) []

unfoldable pub enqueue_hand : Text → Text → World → World
unfolding JsSet.add
enqueue_hand room_id participant_id w =
    let q = or_else (JsMap.get room_id w.hand_queue_store) [] in
    record w {
      hand_queue_store = JsMap.set room_id (JsSet.add participant_id q) w.hand_queue_store;
    }

unfoldable pub dequeue_hand : Text → Text → World → World
dequeue_hand room_id participant_id w =
    let q = or_else (JsMap.get room_id w.hand_queue_store) [] in
    record w {
      hand_queue_store =
          JsMap.set room_id (select (λ id. not (id == participant_id)) q) w.hand_queue_store;
    }

-- The id is `randomId()`.
unfoldable pub create_poll : Text → Text → Text → Text → List Text → ℕ → World → Text × World
create_poll id room_id actor_id question options now w =
    let m = or_else (JsMap.get room_id w.poll_store) [] in
    let poll : Poll = record {
      id = id;
      question = question;
      options = options;
      votes = [];
      created_by = actor_id;
      created_at = now;
    } in
    (id, record w { poll_store = JsMap.set room_id (JsMap.set id poll m) w.poll_store })

unfoldable pub find_poll : Text → Text → World → Option Poll
find_poll room_id poll_id w = elim (JsMap.get room_id w.poll_store) [
  | none ↦ none
  | some m ↦ JsMap.get poll_id m
]

unfoldable pub vote_poll : Text → Text → Text → Text → World → Bool × World
unfolding find_poll JsSet.has
vote_poll room_id poll_id participant_id option w = elim (find_poll room_id poll_id w) [
  | none ↦ (false, w)
  | some p ↦
      if JsSet.has option p.options
      then (let voted = record p { votes = JsMap.set participant_id option p.votes } in
          let m = or_else (JsMap.get room_id w.poll_store) [] in
          (
            true,
            record w { poll_store = JsMap.set room_id (JsMap.set poll_id voted m) w.poll_store },
          ))
      else (false, w)
]

unfoldable pub list_polls : Text → World → List Poll
list_polls room_id w = JsMap.values (or_else (JsMap.get room_id w.poll_store) [])
