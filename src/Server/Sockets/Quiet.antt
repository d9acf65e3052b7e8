-- ===== src/Server/Sockets/Quiet.antt =====
-- What a handler of packages/server/src/ws.ts does to the registry of sockets: most steps leave it
-- alone.
use open_rtc.Base.{
  ℕ, ◌≡◌, refl, ◌∙◌, Bool, true, false, Bool-cases, inl, inr, List, [], ◌∷◌, Text, nat_eq, text_eq,
  or_else, arith,
}
use open_rtc.Base.JsMap
use open_rtc.Protocol.{Envelope}
use open_rtc.Server.Types.{RoomPolicy}
use open_rtc.Server.Errors.{ServerError}
use open_rtc.Server.Sockets.{
  meta_for, Message, relayed, Effect, AuthConfig, Services, Gateway, log, send_json, close_socket,
  is_excepted, send_to, broadcast, send_error, verify_socket,
}
use open_rtc.Server.Sockets.Joining.{
  reject, authenticate_socket, refuse_join, check_locked, check_e2ee, actor_options, notice,
}

pub hub-send_json : (j : ℕ) (m : Message) (g : Gateway) → (send_json j m g).hub ≡ g.hub
unfolding send_json log
hub-send_json j m g = ground arith

pub hub-send_error :
    (now j : ℕ) (room code text : Text) (g : Gateway)
    → (send_error now j room code text g).hub ≡ g.hub
unfolding send_error
hub-send_error now j room code text g = hub-send_json j _ g

pub hub-reject :
    (now j : ℕ) (room code text : Text) (g : Gateway) → (reject now j room code text g).hub ≡ g.hub
unfolding reject close_socket log
hub-reject now j room code text g = hub-send_error now j room code text g

pub hub-notice : (b : Bool) (x : Effect) (g : Gateway) → (notice b x g).hub ≡ g.hub
unfolding log
hub-notice true x g = refl
hub-notice false x g = refl

hub-send_to :
    (js : List ℕ) (e : Envelope) (except : Text) (g : Gateway) → (send_to js e except g).hub ≡ g.hub
unfolding send_to
hub-send_to [] e except g = refl
hub-send_to (j ∷ js) e except g = elim (Bool-cases (is_excepted except (meta_for j g.hub))) [
  | inl skipped ↦ rw (send_to, skipped) (hub-send_to js e except g)
  | inr other ↦
      rw (send_to, other)
        (hub-send_to js e except (send_json j (relayed e) g) ∙ hub-send_json j (relayed e) g)
]

pub hub-broadcast :
    (room : Text) (e : Envelope) (except : Text) (g : Gateway)
    → (broadcast room e except g).hub ≡ g.hub
unfolding broadcast
hub-broadcast room e except g = hub-send_to (or_else (JsMap.get room g.hub.rooms) []) e except g

pub hub-verify_socket :
    (s : Services) (auth : AuthConfig) (now j : ℕ) (g : Gateway)
    → ((verify_socket s auth now j g).1).hub ≡ g.hub
unfolding verify_socket
hub-verify_socket s auth now j g = refl

module _ (s : Services) (now j : ℕ) (room : Text) where
  pub hub-authenticate_socket :
      (sender : Text) (g : Gateway) → ((authenticate_socket s now j room sender g).1).hub ≡ g.hub
  unfolding authenticate_socket verify_socket reject send_error send_json close_socket log
  hub-authenticate_socket sender g = ground arith

  pub hub-check_locked :
      (policy : RoomPolicy) (g : Gateway) → ((check_locked s now j room policy g).1).hub ≡ g.hub
  unfolding check_locked verify_socket reject send_error send_json close_socket log
  hub-check_locked policy g = ground arith

  pub hub-check_e2ee :
      (policy : RoomPolicy) (g : Gateway) → ((check_e2ee s now j room policy g).1).hub ≡ g.hub
  unfolding check_e2ee verify_socket reject send_error send_json close_socket log
  hub-check_e2ee policy g = ground arith

pub hub-actor_options :
    (s : Services) (now j : ℕ) (policy : RoomPolicy) (g : Gateway)
    → ((actor_options s now j policy g).1).hub ≡ g.hub
unfolding actor_options verify_socket
hub-actor_options s now j policy g = ground arith

pub hub-refuse_join :
    (s : Services) (now j : ℕ) (e : Envelope) (error : ServerError) (g : Gateway)
    → (refuse_join s now j e error g).hub ≡ g.hub
unfolding refuse_join send_error send_json log
hub-refuse_join s now j e error g = ground arith
