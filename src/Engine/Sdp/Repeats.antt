-- ===== src/Engine/Sdp/Repeats.antt =====
-- A description that was received is a duplicate from then on.
use open_rtc.Base.{
  ℕ, ◌≤◌, ◌≡◌, refl, sym, ap, ◌∙◌, subst, true, Bool-cases, inl, inr, none, some, List, [], ◌∷◌,
  All, In, Text, text_beq, text_beq_iff, leb, if◌then◌else◌, arith,
}
use open_rtc.Engine.Sdp.{
  SdpOrigin, parse_sdp_origin, SdpType, Applied, Guard, repeats, is_duplicate, applied_of,
  record_applied, receive, receive_all,
}

-- A description of a session.
abbrev pub IsOf : Text → SdpType × Text → Type 0
IsOf session d = (o : SdpOrigin) × (parse_sdp_origin d.1 ≡ some o) × (o.session_id ≡ session)

-- The guard has seen the version of a session.
abbrev HasSeen : Text → ℕ → Guard → Type 0
HasSeen session v last =
    (a : Applied) × (last ≡ some a) × (a.session_id ≡ session) × (v ≤ a.version)

-- The guard is new, or has seen the session last.
abbrev IsFor : Text → Guard → Type 0
IsFor session none = Unit
IsFor session (some a) = a.session_id ≡ session

recorded :
    (type : SdpType) (sdp : Text) (last : Guard) (o : SdpOrigin)
    → parse_sdp_origin sdp ≡ some o
    → record_applied type sdp last ≡ some (applied_of type o)
unfolding record_applied
recorded type sdp last o q = rw (record_applied, q) refl

after_receive :
    (type : SdpType) (sdp : Text) (last : Guard) (o : SdpOrigin)
    → parse_sdp_origin sdp ≡ some o
    → (receive type sdp last).1 ≡ (if repeats last o then last else some (applied_of type o))
unfolding receive is_duplicate record_applied
after_receive type sdp last o q = elim (Bool-cases (repeats last o)) [
  | inl again ↦ rw (receive, is_duplicate, q, again) refl
  | inr fresh ↦ rw (receive, is_duplicate, q, fresh) (recorded type sdp last o q)
]

-- One description of the session, by what the guard makes of it.
next : SdpType → SdpOrigin → Guard → Guard
next type o last = if repeats last o then last else some (applied_of type o)

next-IsFor :
    (type : SdpType) (o : SdpOrigin) (session : Text) (last : Guard)
    → o.session_id ≡ session
    → IsFor session last
    → IsFor session (next type o last)
unfolding next
next-IsFor type o session none here h = here
next-IsFor type o session (some a) here h = elim (Bool-cases (repeats (some a) o)) [
  | inl again ↦ rw again h
  | inr fresh ↦ rw fresh here
]

next-HasSeen :
    (type : SdpType) (o : SdpOrigin) (session : Text) (last : Guard)
    → o.session_id ≡ session
    → IsFor session last
    → HasSeen session o.session_version (next type o last)
unfolding next
next-HasSeen type o session none here h = (applied_of type o, refl, here, ground arith)
next-HasSeen type o session (some a) here h =
    let same : text_beq a.session_id o.session_id ≡ true =
      (text_beq_iff a.session_id o.session_id).1 (h ∙ sym here) in
    elim (Bool-cases (leb o.session_version a.version)) [
      | inl old ↦ rw (same, old) (a, refl, h, ground (arith, old))
      | inr new ↦ rw (same, new) (applied_of type o, refl, here, ground arith)
    ]

next-keeps :
    (type : SdpType) (o : SdpOrigin) (session : Text) (last : Guard) (v : ℕ)
    → o.session_id ≡ session
    → IsFor session last
    → HasSeen session v last
    → HasSeen session v (next type o last)
unfolding next
next-keeps type o session none v here h (a, q, _, _) = absurd (cc q)
next-keeps type o session (some a) v here h (b, q, _, le) =
    let same : text_beq a.session_id o.session_id ≡ true =
      (text_beq_iff a.session_id o.session_id).1 (h ∙ sym here) in
    let is : a ≡ b = cc q in
    let below : v ≤ a.version = subst (λ (x : Applied). v ≤ x.version) (sym is) le in
    elim (Bool-cases (leb o.session_version a.version)) [
      | inl old ↦ rw (same, old) (a, refl, h, below)
      | inr new ↦ rw (same, new) (applied_of type o, refl, here, ground (arith, below, new))
    ]

HasSeen-is_duplicate :
    (session sdp : Text) (o : SdpOrigin) (last : Guard)
    → parse_sdp_origin sdp ≡ some o
    → o.session_id ≡ session
    → HasSeen session o.session_version last
    → is_duplicate sdp last ≡ true
unfolding is_duplicate
HasSeen-is_duplicate session sdp o last q here (a, held, mine, le) =
    let same : text_beq a.session_id o.session_id ≡ true =
      (text_beq_iff a.session_id o.session_id).1 (mine ∙ sym here) in
    rw (is_duplicate, q, held, same) (ground (arith, le))

receive_all-keeps :
    (session : Text) (ds : List (SdpType × Text)) (last : Guard) (v : ℕ)
    → All (IsOf session) ds
    → IsFor session last
    → HasSeen session v last
    → HasSeen session v (receive_all ds last)
unfolding receive_all next
receive_all-keeps session [] last v all h seen = seen
receive_all-keeps session ((type, sdp) ∷ ds) last v ((o, q, here), all) h seen =
    rw (after_receive type sdp last o q) (
      receive_all-keeps session ds (next type o last) v all (next-IsFor type o session last here h)
        (next-keeps type o session last v here h seen))

receive_all-HasSeen :
    (session : Text) (ds : List (SdpType × Text)) (last : Guard) (d : SdpType × Text)
    → All (IsOf session) ds
    → IsFor session last
    → In d ds
    → (o : SdpOrigin) × (parse_sdp_origin d.1 ≡ some o)
      × (o.session_id ≡ session)
      × HasSeen session o.session_version (receive_all ds last)
unfolding receive_all next
receive_all-HasSeen session [] last d all h inside = absurd inside
receive_all-HasSeen session ((type, sdp) ∷ ds) last d ((o, q, here), all) h (inl is) =
    let mine : parse_sdp_origin d.1 ≡ some o = ap (λ x. parse_sdp_origin x.1) is ∙ q in
    (
      o,
      mine,
      here,
      rw (after_receive type sdp last o q) (
          receive_all-keeps session ds (next type o last) o.session_version all
            (next-IsFor type o session last here h) (next-HasSeen type o session last here h)),
    )
receive_all-HasSeen session ((type, sdp) ∷ ds) last d ((o, q, here), all) h (inr inside) =
    rw (after_receive type sdp last o q) (
      receive_all-HasSeen session ds (next type o last) d all
        (next-IsFor type o session last here h) inside)

-- When a new guard has been asked about descriptions of one session, in whatever order and however
-- often each, and those it did not call duplicates were recorded, then it calls each of them a
-- duplicate, whether it was recorded or not.
pub receive_all-is_duplicate :
    (session : Text) (ds : List (SdpType × Text))
    → All (IsOf session) ds
    → (d : SdpType × Text) → In d ds
    → is_duplicate d.1 (receive_all ds none) ≡ true
receive_all-is_duplicate session ds all d inside =
    let (o, q, here, seen) = receive_all-HasSeen session ds none d all tt inside in
    HasSeen-is_duplicate session d.1 o _ q here seen
