-- ===== src/Server/Sockets/Told.antt =====
-- What the steps of the handlers of packages/server/src/ws.ts add to the trace.
use open_rtc.Base.{
  ℕ, ◌≡◌, refl, sym, ap, ◌∙◌, Bool, true, false, ◌||◌, ◌++◌, append_assoc, append-nil, All,
  Bool-cases, Option-cases, inl, inr, List, [], ◌∷◌, Text, text_eq, nat_eq, nat_beq_iff, or_else,
  arith,
}
use open_rtc.Base.JsSet
use open_rtc.Protocol.{Envelope}
use open_rtc.Protocol.Values.{Js}
use open_rtc.Server.Types.{RoomPolicy}
use open_rtc.Server.Sockets.{
  meta_for, Message, relayed, Effect, sent, closed, pushed, webhook, Services, Gateway, log,
  send_json, close_socket, is_excepted, send_to, broadcast, send_error, verify_socket,
}
use open_rtc.Server.Sockets.Joining.{
  reject, scope_refusal, authenticate_socket, is_admin, is_moderator, check_locked, check_e2ee,
  actor_options, notice, guarded,
}
use open_rtc.Server.Auth.Accepted.{Checked-cases}
use open_rtc.Server.Sockets.Members.{members_of}

-- What a handler adds to the trace, where all of it is permitted.
abbrev pub Adds : (Effect → Type 0) → List Effect → List Effect → Type 0
Adds P before after = (xs : List Effect) × (after ≡ before ++ xs) × All P xs

module _ (P : Effect → Type 0) where
  All-append : (xs ys : List Effect) → All P xs → All P ys → All P (xs ++ ys)
  All-append [] ys a b = b
  All-append (x ∷ xs) ys a b = (a.0, All-append xs ys a.1 b)

  pub nothing : (t u : List Effect) → u ≡ t → Adds P t u
  nothing t u same = ([], same ∙ sym (append-nil t), tt)

  pub and_then : (t u v : List Effect) → Adds P t u → Adds P u v → Adds P t v
  and_then t u v (xs, p, a) (ys, q, b) =
      (xs ++ ys, q ∙ ap (λ z. z ++ ys) p ∙ append_assoc t xs ys, All-append xs ys a b)

  Adds-log : (x : Effect) (g : Gateway) → P x → Adds P g.trace (log x g).trace
  unfolding log
  Adds-log x g h = (x ∷ [], refl, (h, tt))

  pub Adds-send_json :
      (i : ℕ) (m : Message) (g : Gateway) → P (sent i m) → Adds P g.trace (send_json i m g).trace
  unfolding send_json
  Adds-send_json i m g h = elim (Bool-cases (JsSet.has i g.open_sockets)) [
    | inl ready ↦ rw (send_json, ready) (Adds-log (sent i m) g h)
    | inr gone ↦ rw (send_json, gone) (nothing g.trace g.trace refl)
  ]

  pub Adds-notice :
      (b : Bool) (x : Effect) (g : Gateway) → P x → Adds P g.trace (notice b x g).trace
  Adds-notice true x g h = Adds-log x g h
  Adds-notice false x g h = nothing g.trace g.trace refl

  Adds-send_to :
      (is : List ℕ) (e : Envelope) (except : Text) (g : Gateway)
      → ((i : ℕ) → JsSet.has i is ≡ true → P (sent i (relayed e)))
      → Adds P g.trace (send_to is e except g).trace
  unfolding send_to JsSet.has
  Adds-send_to [] e except g h = nothing g.trace g.trace refl
  Adds-send_to (i ∷ is) e except g h =
      let rest : (k : ℕ) → JsSet.has k is ≡ true → P (sent k (relayed e)) =
        λ k held. h k (ground (arith, held)) in
      let here : P (sent i (relayed e)) = h i (ground (arith, nat_beq_iff i i)) in
      elim (Bool-cases (is_excepted except (meta_for i g.hub))) [
        | inl skipped ↦ rw (send_to, skipped) (Adds-send_to is e except g rest)
        | inr other ↦
            rw (send_to, other)
              (and_then g.trace (send_json i (relayed e) g).trace _
                (Adds-send_json i (relayed e) g here)
                (Adds-send_to is e except (send_json i (relayed e) g) rest))
      ]

  pub Adds-broadcast :
      (room : Text) (e : Envelope) (except : Text) (g : Gateway)
      → ((i : ℕ) → JsSet.has i (members_of room g.hub) ≡ true → P (sent i (relayed e)))
      → Adds P g.trace (broadcast room e except g).trace
  unfolding broadcast
  Adds-broadcast room e except g h = Adds-send_to (members_of room g.hub) e except g h

  pub Adds-guarded :
      (t : List Effect) (x : Bool × Gateway) (f : Gateway → Gateway)
      → Adds P t (x.1).trace
      → (x.0 ≡ true → Adds P (x.1).trace (f x.1).trace)
      → Adds P t (guarded x f).trace
  unfolding guarded
  Adds-guarded t (false, h) f a next = a
  Adds-guarded t (true, h) f a next = and_then t h.trace _ a (next refl)

-- What a socket's own handler may do, whatever room it is about.
pub record IsOwn (P : Effect → Type 0) (j : ℕ) : Type 0 where
  pub says : (m : Message) → P (sent j m)
  pub shuts : (t : Text) → P (closed j t)
  pub pushes : (room id : Text) → P (pushed room id)
  pub hooks : (event room : Text) (v : Js) → P (webhook event room v)

module _ (P : Effect → Type 0) (s : Services) (now j : ℕ) (own : IsOwn P j) where
  pub Adds-send_error :
      (room code text : Text) (g : Gateway)
      → Adds P g.trace (send_error now j room code text g).trace
  unfolding send_error
  Adds-send_error room code text g = Adds-send_json P j _ g (own.says _)

  Adds-reject :
      (room code text : Text) (g : Gateway) → Adds P g.trace (reject now j room code text g).trace
  unfolding reject close_socket log
  Adds-reject room code text g =
      and_then P g.trace _ _ (Adds-send_error room code text g)
        (closed j code ∷ [], refl, (own.shuts code, tt))

  pub Adds-authenticate_socket :
      (room sender : Text) (g : Gateway)
      → Adds P g.trace ((authenticate_socket s now j room sender g).1).trace
  unfolding authenticate_socket verify_socket
  Adds-authenticate_socket room sender g = elim (Option-cases s.auth) [
    | inl off ↦ rw (authenticate_socket, off) (nothing P g.trace g.trace refl)
    | inr (auth, on) ↦ elim (Checked-cases (verify_socket s auth now j g).0) [
      | inl (e, bad) ↦ rw (authenticate_socket, on, bad) (Adds-reject room _ _ _)
      | inr (claims, good) ↦ elim (Option-cases (scope_refusal claims room sender)) [
        | inl fits ↦ rw (authenticate_socket, on, good, fits) (nothing P g.trace g.trace refl)
        | inr (text, refused) ↦
            rw (authenticate_socket, on, good, refused) (Adds-reject room _ text _)
      ]
    ]
  ]

  pub Adds-check_locked :
      (room : Text) (policy : RoomPolicy) (g : Gateway)
      → Adds P g.trace ((check_locked s now j room policy g).1).trace
  unfolding check_locked verify_socket
  Adds-check_locked room policy g = elim (Bool-cases (or_else policy.locked false)) [
    | inr free ↦ rw (check_locked, free) (nothing P g.trace g.trace refl)
    | inl locked ↦ elim (Option-cases s.auth) [
      | inl off ↦ rw (check_locked, locked, off) (Adds-reject room _ _ _)
      | inr (auth, on) ↦ elim (Checked-cases (verify_socket s auth now j g).0) [
        | inl (e, bad) ↦ rw (check_locked, locked, on, bad) (nothing P g.trace g.trace refl)
        | inr (claims, good) ↦
            elim (Bool-cases (is_admin claims.role || is_moderator policy claims)) [
              | inl may ↦ rw (check_locked, locked, on, good, may) (nothing P g.trace g.trace refl)
              | inr no_way ↦ rw (check_locked, locked, on, good, no_way) (Adds-reject room _ _ _)
            ]
      ]
    ]
  ]

  pub Adds-check_e2ee :
      (room : Text) (policy : RoomPolicy) (g : Gateway)
      → Adds P g.trace ((check_e2ee s now j room policy g).1).trace
  unfolding check_e2ee verify_socket
  Adds-check_e2ee room policy g = elim (Bool-cases (or_else policy.e2ee_required false)) [
    | inr free ↦ rw (check_e2ee, free) (nothing P g.trace g.trace refl)
    | inl wanted ↦ elim (Option-cases s.auth) [
      | inl off ↦ rw (check_e2ee, wanted, off) (nothing P g.trace g.trace refl)
      | inr (auth, on) ↦ elim (Checked-cases (verify_socket s auth now j g).0) [
        | inl (e, bad) ↦ rw (check_e2ee, wanted, on, bad) (nothing P g.trace g.trace refl)
        | inr (claims, good) ↦
            elim (Bool-cases (or_else claims.e2ee false || is_admin claims.role)) [
              | inl may ↦ rw (check_e2ee, wanted, on, good, may) (nothing P g.trace g.trace refl)
              | inr no_way ↦ rw (check_e2ee, wanted, on, good, no_way) (Adds-reject room _ _ _)
            ]
      ]
    ]
  ]

  pub trace-actor_options :
      (policy : RoomPolicy) (g : Gateway) → ((actor_options s now j policy g).1).trace ≡ g.trace
  unfolding actor_options verify_socket
  trace-actor_options policy g = ground arith
