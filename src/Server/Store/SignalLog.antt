-- ===== src/Server/Store/SignalLog.antt =====
-- The signal log of a room: the numbers that `putSignal` gives, and what `listSignals` returns.
use open_rtc.Base.{
  text_eq, ◌==◌, eq_iff, ℕ, zero, suc, ◌+◌, ◌≤◌, ◌≡◌, refl, sym, ap, subst, true, false, Bool-cases,
  ◌++◌, List, [], ◌∷◌, Text, arith, length, length-append, select, or_else, ltb, inl, inr,
}
use open_rtc.Base.JsMap
use open_rtc.Protocol.{Envelope}
use open_rtc.Server.Types.{StoredSignal}
use open_rtc.Server.Store.{InMemoryStore, put_signal, list_signals}

-- The signals have the numbers after `n`, one by one.
abbrev pub Numbered : ℕ → List StoredSignal → Type 0
Numbered n [] = Unit
Numbered n (x ∷ xs) = (x.seq ≡ n + 1) × Numbered (n + 1) xs

abbrev pub log : Text → InMemoryStore → List StoredSignal
log room_id s = or_else (JsMap.get room_id s.signals) []

-- The log of a room is numbered from 1, and its counter is its length.
abbrev pub IsLog : Text → InMemoryStore → Type 0
IsLog room_id s =
    Numbered 0 (log room_id s)
    × (or_else (JsMap.get room_id s.signal_seqs) 0 ≡ length (log room_id s))

append-Numbered :
    (n : ℕ) (xs : List StoredSignal) (x : StoredSignal)
    → Numbered n xs
    → x.seq ≡ n + length xs + 1
    → Numbered n (xs ++ x ∷ [])
append-Numbered n [] x h q = (omega arith, tt)
append-Numbered n (y ∷ xs) x h q = (h.0, append-Numbered (n + 1) xs x h.1 (omega arith))

-- A stored signal gets the next number, and the logs of all rooms stay numbered.
pub put_signal-IsLog :
    (room_id other : Text) (e : Envelope) (now : ℕ) (s : InMemoryStore)
    → IsLog room_id s
    → IsLog other s
    → IsLog other (put_signal room_id e now s).1
unfolding put_signal
put_signal-IsLog room_id other e now s own its = elim (Bool-cases (room_id == other)) [
  | inl same ↦
      let seq = or_else (JsMap.get room_id s.signal_seqs) 0 + 1 in
      let x : StoredSignal = record {
        room_id = room_id;
        seq = seq;
        envelope = e;
        received_at = now;
      } in
      subst (λ z. IsLog z (put_signal room_id e now s).1) ((eq_iff room_id other).0 same)
        (rw
          (
            JsMap.get-set_self room_id (log room_id s ++ x ∷ []) s.signals,
            JsMap.get-set_self room_id seq s.signal_seqs,
          )
          (
            append-Numbered 0 (log room_id s) x own.0 (omega (arith, own.1)),
            omega (arith, own.1, length-append (log room_id s) (x ∷ [])),
          ))
  | inr ne ↦
      rw
        (
          JsMap.get-set_ne room_id other _ s.signals ne,
          JsMap.get-set_ne room_id other _ s.signal_seqs ne,
        )
        its
]

abbrev pub drop : ℕ → List StoredSignal → List StoredSignal
drop zero xs = xs
drop (suc n) [] = []
drop (suc n) (x ∷ xs) = drop n xs

later_all :
    (n since : ℕ) (xs : List StoredSignal)
    → Numbered n xs
    → since ≤ n
    → select (λ x. ltb since x.seq) xs ≡ xs
later_all n since [] h le = refl
later_all n since (x ∷ xs) h le =
    let later : ltb since x.seq ≡ true = ground (arith, h.0) in
    rw later (ap (◌∷◌ x) (later_all (n + 1) since xs h.1 (omega arith)))

later_drop :
    (n k : ℕ) (xs : List StoredSignal)
    → Numbered n xs
    → select (λ x. ltb (n + k) x.seq) xs ≡ drop k xs
later_drop n zero xs h = later_all n (n + 0) xs h (omega arith)
later_drop n (suc k) [] h = refl
later_drop n (suc k) (x ∷ xs) h =
    let earlier : ltb (n + suc k) x.seq ≡ false = ground (arith, h.0) in
    let next : n + suc k ≡ (n + 1) + k = omega arith in
    rw earlier (
      subst (λ z. select (λ x. ltb z x.seq) xs ≡ drop k xs) (sym next)
        (later_drop (n + 1) k xs h.1))

-- `listSignals` with `since` skips exactly the first `since` signals of the log, and returns the others in order.
pub list_signals-drop :
    (room_id : Text) (since : ℕ) (s : InMemoryStore)
    → IsLog room_id s
    → list_signals room_id since s ≡ drop since (log room_id s)
unfolding list_signals
list_signals-drop room_id since s h =
    let start : 0 + since ≡ since = omega arith in
    subst (λ z. select (λ x. ltb z x.seq) (log room_id s) ≡ drop since (log room_id s)) start
      (later_drop 0 since (log room_id s) h.0)
