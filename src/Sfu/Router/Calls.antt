-- ===== src/Sfu/Router/Calls.antt =====
-- Which sessions the router calls.
use open_rtc.Base.{
  ◌≡◌, refl, ap, ◌∙◌, sym, true, ◌++◌, append_assoc, append-nil, some, List, [], ◌∷◌, All,
  All-append, text_eq,
}
use open_rtc.Base.JsMap
use open_rtc.Protocol.{Envelope, sfu}
use open_rtc.Sfu.{Effect, event, call, returned, Surroundings, SfuRouter}
use open_rtc.Sfu.Router.{session_key_of, unregister_session, add_track, handle}
use open_rtc.Sfu.Router.Steps.{handle_kept}

-- The effects behind those before, with what holds of each.
pub record Extends (P : Effect → Type 0) (before after : List Effect) : Type 0 where
  pub new : List Effect
  pub split : after ≡ before ++ new
  pub held : All P new

-- A call is allowed on the session under the envelope's room and sender, and for an `sfu` envelope
-- only if the sender is a participant.
abbrev pub IsAllowed : Surroundings → Envelope → SfuRouter → Effect → Type 0
IsAllowed around e r (event x) = Unit
IsAllowed around e r (call t c) =
    (JsMap.get (session_key_of e.room_id e.sender_id) r.sessions ≡ some t)
    × (e.type ≡ sfu → around.is_participant e.room_id e.sender_id ≡ returned true)

module _ (P : Effect → Type 0) where
  Extends-none : (before : List Effect) → Extends P before before
  Extends-none before = record { new = []; split = sym (append-nil before); held = tt }

  Extends-trans : (x y z : List Effect) → Extends P x y → Extends P y z → Extends P x z
  Extends-trans x y z f g = record {
    new = f.new ++ g.new;
    split = g.split ∙ ap (λ t. t ++ g.new) f.split ∙ append_assoc x f.new g.new;
    held = All-append P f.new g.new f.held g.held;
  }

  Extends-log : (x : Effect) (before : List Effect) → P x → Extends P before (before ++ x ∷ [])
  Extends-log x before h = record { new = x ∷ []; split = refl; held = (h, tt) }

-- Whatever an envelope says, the router calls no session but the one registered for the envelope's
-- room and sender, and for an `sfu` envelope it does so only for a participant of the room.
pub handle-IsAllowed :
    (around : Surroundings) (e : Envelope) (r : SfuRouter)
    → Extends (IsAllowed around e r) r.trace (handle around e r).1.trace
unfolding add_track unregister_session
handle-IsAllowed around e r =
    handle_kept around e (λ x y. Extends (IsAllowed around e r) x.trace y.trace)
      (record {
        same = λ x. Extends-none _ x.trace;
        then_ = λ x y z. Extends-trans _ x.trace y.trace z.trace;
        says = λ x y. Extends-log _ (event x) y.trace tt;
      })
      r
      λ s found member. record {
        calls = λ c x. Extends-log _ (call s c) x.trace (found, member);
        adds = λ track kind x h. Extends-none _ x.trace;
        drops = λ x. Extends-none _ x.trace;
      }
