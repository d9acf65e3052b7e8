-- ===== src/Transport/Presence/Stale.antt =====
-- Which peers a sweep reports, and which it keeps.
use open_rtc.Base.{
  ℕ, ◌+◌, ◌≤◌, ◌<◌, ◌≡◌, sym, subst, ◌∙◌, ◌↔◌, Bool, not, Bool-cases, inl, inr, Option, none, some,
  Text, In, text_eq, ltb, ltb→lt, lt→ltb, ltb→ge, arith, select, if◌then◌else◌,
}
use open_rtc.Base.JsMap
use open_rtc.Base.JsMap.{JsMap}
use open_rtc.Base.JsMap.Members.{In-get, get-In, In-select, select-In, In-map, map-In}
use open_rtc.Transport.Presence.{PresenceSweeper, touch, is_stale, sweep}

-- Each peer once.
abbrev pub IsTracked : PresenceSweeper → Type 0
IsTracked p = JsMap.Unique p.last_seen

pub touch-IsTracked :
    (id : Text) (now : ℕ) (p : PresenceSweeper) → IsTracked p → IsTracked (touch id now p)
unfolding touch
touch-IsTracked id now p u = JsMap.Unique-set id now p.last_seen u

-- A sweep reports exactly the peers last seen longer ago than the timeout.
pub sweep-In :
    (id : Text) (now : ℕ) (p : PresenceSweeper)
    → IsTracked p
    → In id (sweep now p).0
      ↔ ((seen : ℕ) × (JsMap.get id p.last_seen ≡ some seen) × (seen + p.timeout_ms < now))
unfolding sweep is_stale
sweep-In id now p u =
    let test : Text × ℕ → Bool = λ e. ltb (e.1 + p.timeout_ms) now in
    (
      λ i.
          let (e, there, same) = In-map (λ (x : Text × ℕ). x.0) id (select test p.last_seen) i in
          let (member, old) = In-select test e p.last_seen there in
          (
            e.1,
            subst (λ z. JsMap.get z p.last_seen ≡ some e.1) (sym same)
                (In-get e.0 e.1 p.last_seen u member),
            ltb→lt (e.1 + p.timeout_ms) now old,
          ),
      λ (seen, got, old).
          map-In (λ (x : Text × ℕ). x.0) (id, seen) (select test p.last_seen)
            (select-In test (id, seen) p.last_seen (get-In id seen p.last_seen got)
              (lt→ltb (seen + p.timeout_ms) now old)),
    )

kept_iff :
    (now timeout seen : ℕ) (o : Option ℕ)
    → ((elim o as (λ _. Option ℕ) [
      | none ↦ none
      | some v ↦ if not (ltb (v + timeout) now) then some v else none
    ])
        ≡ some seen)
      ↔ ((o ≡ some seen) × (now ≤ seen + timeout))
kept_iff now timeout seen none = (λ q. absurd (cc q), λ (q, _). absurd (cc q))
kept_iff now timeout seen (some v) = elim (Bool-cases (ltb (v + timeout) now)) [
  | inl stale ↦
      let old : v + timeout < now = ltb→lt (v + timeout) now stale in
      rw stale (
        λ q. absurd (cc q),
        λ (q, le). let same : v ≡ seen = cc q in absurd (omega (arith, old, le, same)),
      )
  | inr fresh ↦
      let le : now ≤ v + timeout = ltb→ge (v + timeout) now fresh in
      rw fresh (λ q. let same : v ≡ seen = cc q in (q, omega (arith, le, same)), λ (q, _). q)
]

-- After a sweep, a peer is tracked with its time exactly if it was and is not stale.
pub sweep-get :
    (id : Text) (now seen : ℕ) (p : PresenceSweeper)
    → IsTracked p
    → (JsMap.get id (sweep now p).1.last_seen ≡ some seen)
      ↔ ((JsMap.get id p.last_seen ≡ some seen) × (now ≤ seen + p.timeout_ms))
unfolding sweep is_stale
sweep-get id now seen p u =
    let kept = JsMap.get-select (λ e. not (ltb (e.1 + p.timeout_ms) now)) id p.last_seen u in
    let (out, into) = kept_iff now p.timeout_ms seen (JsMap.get id p.last_seen) in
    (λ q. out (sym kept ∙ q), λ h. kept ∙ into h)
