-- ===== src/Server/Relay/Tests.antt =====
-- The relay's theorems at a room with one member.
use open_rtc.Base.{◌≡◌, refl, sym, subst, ◌∙◌, some, [], ◌∷◌, codes, inr}
use open_rtc.Base.JsMap
use open_rtc.Protocol.{Envelope, chat, is_envelope, narrow, to_js}
use open_rtc.Protocol.Values.{undefined, str}
use open_rtc.Server.Types.{Participant, SignalDelivery}
use open_rtc.Server.Store
use open_rtc.Base.Keys.{IsPlain}
use open_rtc.Server.Store.Roster.Lists.{IsRoster}
use open_rtc.Server.Demo.{room_id, ann, room_with, world_with}
use open_rtc.Server.World.{World, ok, proceed, query, write, update, return, present, require_room}
use open_rtc.Server.Rooms.{empty_policy}
use open_rtc.Server.Relay.{recipients_of, check_sender, relay, handle_signal}
use open_rtc.Server.Relay.Delivery.{Delivered, handle_signal-Delivered, handle_signal-delivers}

abbrev free : World
free = world_with empty_policy

abbrev hello : Envelope
hello = record {
  type = chat;
  room_id = room_id;
  sender_id = codes "a";
  session_id = codes "s";
  ts = 4;
  seq = 1;
  target_sender_id = str (codes "a");
  payload = undefined;
}

free-IsRoster : IsRoster free.store
unfolding Store.key
free-IsRoster = record { unique = (tt, tt); keyed = ((refl, (λ q. absurd (cc q), tt)), tt) }

abbrev seen : Participant
seen = record ann { last_seen_at = 9 }

abbrev delivery : SignalDelivery
delivery = record { envelope = hello; recipients = seen ∷ [] }

handle_signal-delivers_example :
    (d : SignalDelivery) × (w' : World) × (handle_signal (to_js hello) 9 free ≡ (ok d, w'))
unfolding Store.get_room Store.get_participant JsMap.get is_envelope narrow to_js
handle_signal-delivers_example =
    handle_signal-delivers (to_js hello) 9 free hello (room_with empty_policy) refl refl refl
      (inr (ann, refl))

delivered :
    handle_signal (to_js hello) 9 free ≡ (ok delivery, (handle_signal (to_js hello) 9 free).1)
unfolding handle_signal relay check_sender recipients_of require_room proceed query write update
    return present Store.get_room Store.get_participant Store.put_participant Store.put_signal
    Store.list_participants JsMap.get JsMap.set is_envelope narrow to_js
delivered = refl

hello_lem : narrow (to_js hello) ≡ some hello
unfolding narrow to_js
hello_lem = refl

hello-IsPlain : (e : Envelope) → narrow (to_js hello) ≡ some e → IsPlain e.room_id
hello-IsPlain e q =
    let typed : some hello ≡ some e = sym hello_lem ∙ q in
    let same : hello ≡ e = cc typed in subst (λ z. IsPlain z.room_id) same (λ z. absurd (cc z), tt)

handle_signal-Delivered_example :
    Delivered (to_js hello) free.store (handle_signal (to_js hello) 9 free).1.store delivery
handle_signal-Delivered_example =
    handle_signal-Delivered (to_js hello) 9 free (handle_signal (to_js hello) 9 free).1 delivery
      free-IsRoster hello-IsPlain delivered
