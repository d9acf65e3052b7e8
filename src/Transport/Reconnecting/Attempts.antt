-- ===== src/Transport/Reconnecting/Attempts.antt =====
-- How long a reconnection goes on, and how it ends.
use open_rtc.Base.{
  ℕ, zero, suc, ◌+◌, ◌*◌, ◌≤◌, ◌≡◌, refl, sym, ap, ◌∙◌, ◌⊎◌, inl, inr, subst, true, false,
  Option-cases, Option, none, some, List, [], ◌∷◌, ◌++◌, Text, arith, or_else,
}
use open_rtc.Transport.Reconnecting.{
  reconnecting, reconnected, failed, join_inner, leave_inner, Effect, asked, changed, delayed,
  Surroundings, ReconnectingTransport, Outcome, done, attempts_exceeded, bind_inner, backoff, ask,
  catch_up, attempt_join, settle, attempts, do_reconnect,
}
use open_rtc.Transport.Reconnecting.Pace.{
  join_count, is_success, pause, total, cap, backoff-le, Paced, quiet-Paced, quiet-total, Silent,
  Silent-none, Silent-then, Silent-log, replay-Silent, replay-bound, snoc_four,
}

module _ (around : Surroundings) where
  catch_up-Silent : (t : ReconnectingTransport) → Silent t.trace (catch_up around t).trace
  unfolding catch_up
  catch_up-Silent t = elim (Option-cases around.fetch_signals) [
    | inl never ↦ rw (catch_up, never) (Silent-none t.trace)
    | inr (fetch, present) ↦ elim (Option-cases (fetch t.trace t.room_id t.last_seq)) [
      | inl fails ↦ rw (catch_up, present, fails) (Silent-log t.trace _ tt)
      | inr (missed, found) ↦
          rw (catch_up, present, found)
            (Silent-then t.trace _ _ (Silent-log t.trace _ tt) (replay-Silent missed _))
    ]
  ]

  catch_up-bound : (t : ReconnectingTransport) → (catch_up around t).bound ≡ t.bound
  unfolding catch_up
  catch_up-bound t = elim (Option-cases around.fetch_signals) [
    | inl never ↦ rw (catch_up, never) refl
    | inr (fetch, present) ↦ elim (Option-cases (fetch t.trace t.room_id t.last_seq)) [
      | inl fails ↦ rw (catch_up, present, fails) refl
      | inr (missed, found) ↦ rw (catch_up, present, found) (replay-bound missed _)
    ]
  ]

  settle-Silent :
      (attempt : ℕ) (t : ReconnectingTransport) → Silent t.trace (settle around attempt t).trace
  unfolding settle bind_inner
  settle-Silent attempt t =
      Silent-then t.trace _ _ (catch_up-Silent (bind_inner t))
        (Silent-log _ (changed reconnected attempt) tt)

  -- The effects of an attempt, and those behind it.
  turn : ℕ → ReconnectingTransport → List Effect → List Effect
  turn attempt t rest =
      let waiting =
        (t.trace ++ changed reconnecting attempt ∷ []) ++ delayed (backoff t.opts attempt) ∷ [] in
      changed reconnecting attempt
      ∷ delayed (backoff t.opts attempt)
      ∷ asked leave_inner (around.inner waiting leave_inner)
      ∷ asked (join_inner t.room_id t.self) (attempt_join around attempt t).0
      ∷ rest

  attempt_join-turn :
      (attempt : ℕ) (t : ReconnectingTransport) (rest : List Effect)
      → (attempt_join around attempt t).1.trace ++ rest ≡ t.trace ++ turn attempt t rest
  unfolding attempt_join ask turn
  attempt_join-turn attempt t rest = snoc_four t.trace _ _ _ _ rest

  -- How a reconnection with so many attempts left ends.
  pub record Reconnection (left attempt : ℕ) (t : ReconnectingTransport)
      (r : Outcome × ReconnectingTransport) : Type 0 where
    pub new : List Effect
    pub extends : r.1.trace ≡ t.trace ++ new
    pub few : total join_count new ≤ left
    pub paced : Paced t.opts attempt false new
    pub brief : total pause new ≤ total join_count new * cap t.opts
    pub idle : r.1.is_reconnecting ≡ false
    pub ends :
        ((r.0 ≡ done) × (r.1.bound ≡ true) × (total is_success new ≡ 1))
        ⊎ ((r.0 ≡ attempts_exceeded) × (total join_count new ≡ left) × (total is_success new ≡ 0))

  attempts-joined :
      (left attempt : ℕ) (t : ReconnectingTransport)
      → (attempt_join around attempt t).0 ≡ none
      → attempts around (suc left) attempt t
        ≡ (done, settle around attempt (attempt_join around attempt t).1)
  unfolding attempts
  attempts-joined left attempt t joined =
      ap
        (λ (o : Option Text). elim o as (λ _. Outcome × ReconnectingTransport) [
          | none ↦ (done, settle around attempt (attempt_join around attempt t).1)
          | some _ ↦ attempts around left (attempt + 1) (attempt_join around attempt t).1
        ])
        joined

  attempts-failed :
      (left attempt : ℕ) (t : ReconnectingTransport) (e : Text)
      → (attempt_join around attempt t).0 ≡ some e
      → attempts around (suc left) attempt t
        ≡ attempts around left (attempt + 1) (attempt_join around attempt t).1
  unfolding attempts
  attempts-failed left attempt t e fails =
      ap
        (λ (o : Option Text). elim o as (λ _. Outcome × ReconnectingTransport) [
          | none ↦ (done, settle around attempt (attempt_join around attempt t).1)
          | some _ ↦ attempts around left (attempt + 1) (attempt_join around attempt t).1
        ])
        fails

  attempt_settles :
      (left attempt : ℕ) (t : ReconnectingTransport)
      → (attempt_join around attempt t).0 ≡ none
      → Reconnection
          (suc left)
          attempt
          t
          (done, settle around attempt (attempt_join around attempt t).1)
  unfolding settle bind_inner turn total backoff
  attempt_settles left attempt t joined =
      let r = attempt_join around attempt t in
      let (qs, tail, quiet) = settle-Silent attempt r.1 in
      let (no_join, no_success, no_pause) = quiet-total qs quiet in
      let tries : total join_count (turn attempt t qs) ≡ 1 = omega (arith, no_join) in
      let waits : total pause (turn attempt t qs) ≤ 1 * cap t.opts =
        omega (arith, no_pause, backoff-le t.opts attempt) in
      record {
        new = turn attempt t qs;
        extends = tail ∙ attempt_join-turn attempt t qs;
        few = omega (arith, tries);
        paced = (
          refl,
          refl,
          backoff-le t.opts attempt,
          subst
              (λ (o : Option Text).
                Paced t.opts attempt true (asked (join_inner t.room_id t.self) o ∷ qs))
              (sym joined) (refl, no_join, quiet-Paced t.opts (attempt + 1) false qs quiet),
        );
        brief = subst (λ k. total pause (turn attempt t qs) ≤ k * cap t.opts) (sym tries) waits;
        idle = refl;
        ends = inl (
          refl,
          catch_up-bound (bind_inner r.1),
          subst
              (λ (o : Option Text).
                0
                  + (0
                      + (0
                          + (is_success (asked (join_inner t.room_id t.self) o)
                              + total is_success qs)))
                ≡ 1)
              (sym joined) (omega (arith, no_success)),
        );
      }

  -- An attempt that failed, and the attempts behind it.
  goes_on :
      (left attempt : ℕ) (t : ReconnectingTransport) (e : Text)
      (r : Outcome × ReconnectingTransport)
      → (attempt_join around attempt t).0 ≡ some e
      → Reconnection left (attempt + 1) (attempt_join around attempt t).1 r
      → Reconnection (suc left) attempt t r
  unfolding turn total attempt_join ask backoff
  goes_on left attempt t e r fails h =
      let tries : total join_count (turn attempt t h.new) ≡ 1 + total join_count h.new =
        omega arith in
      let wins : total is_success (turn attempt t h.new) ≡ total is_success h.new =
        subst
          (λ (o : Option Text).
            0
              + (0
                  + (0
                      + (is_success (asked (join_inner t.room_id t.self) o)
                          + total is_success h.new)))
            ≡ total is_success h.new)
          (sym fails) (omega arith) in
      let waits : total pause (turn attempt t h.new) ≤ (1 + total join_count h.new) * cap t.opts =
        omega (arith, h.brief, backoff-le t.opts attempt) in
      record {
        new = turn attempt t h.new;
        extends = h.extends ∙ attempt_join-turn attempt t h.new;
        few = omega (arith, tries, h.few);
        paced = (
          refl,
          refl,
          backoff-le t.opts attempt,
          subst
              (λ (o : Option Text).
                Paced t.opts attempt true (asked (join_inner t.room_id t.self) o ∷ h.new))
              (sym fails) (refl, h.paced),
        );
        brief = subst (λ k. total pause (turn attempt t h.new) ≤ k * cap t.opts) (sym tries) waits;
        idle = h.idle;
        ends = elim h.ends [
          | inl (ok, set, one) ↦ inl (ok, set, wins ∙ one)
          | inr (over, all, no_one) ↦ inr (over, omega (arith, tries, all), wins ∙ no_one)
        ];
      }

  attempts-Reconnection :
      (left attempt : ℕ) (t : ReconnectingTransport)
      → Reconnection left attempt t (attempts around left attempt t)
  unfolding attempts total
  attempts-Reconnection zero attempt t = record {
    new = changed failed attempt ∷ [];
    extends = refl;
    few = omega arith;
    paced = tt;
    brief = omega arith;
    idle = refl;
    ends = inr (refl, omega arith, omega arith);
  }
  attempts-Reconnection (suc left) attempt t =
      elim (Option-cases (attempt_join around attempt t).0) [
        | inl joined ↦
            subst (Reconnection (suc left) attempt t) (sym (attempts-joined left attempt t joined))
              (attempt_settles left attempt t joined)
        | inr (e, fails) ↦
            subst (Reconnection (suc left) attempt t) (sym (attempts-failed left attempt t e fails))
              (goes_on left attempt t e _ fails
                (attempts-Reconnection left (attempt + 1) (attempt_join around attempt t).1))
      ]

  -- Termination: a reconnection that starts ends after at most `maxAttempts` joins. Before each join
  -- stands one delay, `backoffMs` times `backoffFactor` to the number of the attempt, and at most the cap. Either the last join
  -- succeeded, no other one did, and the transport is bound to the inner one again, or all attempts
  -- were made, none succeeded, and it throws. Then another reconnection may start.
  pub do_reconnect-Reconnection :
      (t : ReconnectingTransport)
      → t.is_reconnecting ≡ false
      → Reconnection (or_else (t.opts).max_attempts 5) 0 t (do_reconnect around t)
  unfolding do_reconnect
  do_reconnect-Reconnection t free =
      let h =
        attempts-Reconnection (or_else (t.opts).max_attempts 5) 0
          (record t { is_reconnecting = true }) in
      simp (do_reconnect, free)
        (record {
          new = h.new;
          extends = h.extends;
          few = h.few;
          paced = h.paced;
          brief = h.brief;
          idle = h.idle;
          ends = h.ends;
        })
