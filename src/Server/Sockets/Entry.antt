-- ===== src/Server/Sockets/Entry.antt =====
-- Who is registered for a room by a handler of packages/server/src/ws.ts.
use open_rtc.Base.{
  ℕ, ◌≡◌, sym, ◌∙◌, subst, true, Bool-cases, ◌⊎◌, inl, inr, some, Text, text_eq, nat_eq, nat_beq,
  nat_beq_iff, text_beq_iff, arith,
}
use open_rtc.Base.JsMap
use open_rtc.Server.Auth.{TokenClaims, passed}
use open_rtc.Server.Auth.Accepted.{Checked-cases}
use open_rtc.Server.Sockets.{
  SocketMeta, RoomHub, attach, detach, meta_for, AuthConfig, Services, Gateway, verify_socket,
}
use open_rtc.Server.Sockets.Joining.{authenticate_socket}
use open_rtc.Server.Sockets.Handling.{handle_message}
use open_rtc.Server.Sockets.Changes.{Change, kept, attached, detached, handle_message-Change}

-- The token of the socket passes its check, and names the room and the sender it is registered with.
pub record IsAdmitted (s : Services) (auth : AuthConfig) (now j : ℕ) (g : Gateway) (m : SocketMeta)
    : Type 0 where
  pub claims : TokenClaims
  pub token_checked : (verify_socket s auth now j g).0 ≡ passed claims
  pub room : claims.room_id ≡ m.room_id
  pub member : claims.participant_id ≡ m.sender_id

authenticated :
    (s : Services) (auth : AuthConfig) (now j : ℕ) (g : Gateway) (m : SocketMeta)
    → s.auth ≡ some auth
    → (authenticate_socket s now j m.room_id m.sender_id g).0 ≡ true
    → IsAdmitted s auth now j g m
unfolding authenticate_socket
authenticated s auth now j g m on let_in = elim (Checked-cases (verify_socket s auth now j g).0) [
  | inl (e, bad) ↦ absurd (ground (arith, on, bad, let_in))
  | inr (claims, good) ↦ record {
    claims = claims;
    token_checked = good;
    room = ground (arith, on, good, let_in, text_beq_iff claims.room_id m.room_id);
    member = ground (arith, on, good, let_in, text_beq_iff claims.participant_id m.sender_id);
  }
]

Change-IsAdmitted :
    (s : Services) (auth : AuthConfig) (now j : ℕ) (g : Gateway) (hub : RoomHub)
    → s.auth ≡ some auth
    → Change s now j g hub
    → (i : ℕ) (m : SocketMeta) → meta_for i hub ≡ some m
    → (meta_for i g.hub ≡ some m) ⊎ ((i ≡ j) × IsAdmitted s auth now j g m)
unfolding attach detach
Change-IsAdmitted s auth now j g _ on kept i m found = inl found
Change-IsAdmitted s auth now j g _ on (attached e outside let_in) i m found =
    let entry : SocketMeta = record {
      room_id = e.room_id;
      sender_id = e.sender_id;
      session_id = e.session_id;
    } in
    let got = sym (JsMap.get-set j i entry g.hub.metas) ∙ found in
    elim (Bool-cases (nat_beq j i)) [
      | inr other ↦ inl (ground (arith, other, got))
      | inl same ↦
          let is : entry ≡ m = ground (arith, same, got) in
          inr (
            ground (arith, same, nat_beq_iff j i),
            subst (λ x. IsAdmitted s auth now j g x) is
                (authenticated s auth now j g entry on let_in),
          )
    ]
Change-IsAdmitted s auth now j g _ on (detached old inside) i m found =
    let got = sym (JsMap.get-delete j i g.hub.metas) ∙ found in inl (ground (arith, got))

-- With authentication on, a message of a socket registers no socket but its own, and that only when
-- the socket's token passes its check and names the room and the sender of the registration;
-- whatever the message says.
pub handle_message-IsAdmitted :
    (s : Services) (auth : AuthConfig) (now j : ℕ) (raw : Text) (g : Gateway)
    → s.auth ≡ some auth
    → (i : ℕ) (m : SocketMeta) → meta_for i (handle_message s now j raw g).hub ≡ some m
    → (meta_for i g.hub ≡ some m) ⊎ ((i ≡ j) × IsAdmitted s auth now j g m)
handle_message-IsAdmitted s auth now j raw g on =
    Change-IsAdmitted s auth now j g _ on (handle_message-Change s now j g raw)
