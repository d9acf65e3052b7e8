-- ===== src/Transport/Chunker/Split.antt =====
-- packages/transport/src/internal/chunker.ts: the parts that `splitUtf8` makes.
use open_rtc.Base.{
  ℕ, zero, suc, ◌+◌, ◌≤◌, ◌≡◌, refl, sym, ap, ◌∙◌, ◌⊎◌, inl, inr, false, ◌&&◌, Bool-cases, none,
  some, List, [], ◌∷◌, ◌++◌, All, All-append, length, append_assoc, append-nil, arith, subst,
  ltb→ge, ltb,
}
use mathlib.Core.List.{flatten}
use open_rtc.Transport.Chunker.{utf8_size, split_loop, split_utf8}

pub flatten-append : (xs ys : List (List ℕ)) → flatten (xs ++ ys) ≡ flatten xs ++ flatten ys
unfolding flatten
flatten-append [] ys = refl
flatten-append (x ∷ xs) ys =
    ap (◌++◌ x) (flatten-append xs ys) ∙ sym (append_assoc x (flatten xs) (flatten ys))

flatten-snoc : (xs : List (List ℕ)) (y : List ℕ) → flatten (xs ++ y ∷ []) ≡ flatten xs ++ y
unfolding flatten
flatten-snoc xs y = flatten-append xs (y ∷ []) ∙ ap (◌++◌ (flatten xs)) (append-nil y)

split_loop-flatten :
    (max_bytes : ℕ) (input : List ℕ) (parts : List (List ℕ)) (current : List ℕ) (bytes : ℕ)
    → flatten (split_loop max_bytes input parts current bytes) ≡ flatten parts ++ (current ++ input)
unfolding split_loop
split_loop-flatten max_bytes [] parts current bytes =
    flatten-snoc parts current ∙ ap (◌++◌ (flatten parts)) (sym (append-nil current))
split_loop-flatten max_bytes (ch ∷ rest) parts current bytes =
    elim (Bool-cases (ltb max_bytes (bytes + utf8_size ch) && ltb 0 (length current))) [
      | inl full ↦
          rw (full, split_loop)
            (split_loop-flatten max_bytes rest (parts ++ current ∷ []) (ch ∷ []) (utf8_size ch)
              ∙ simp (flatten-snoc, append_assoc))
      | inr room ↦
          rw (room, split_loop)
            (split_loop-flatten max_bytes rest parts (current ++ ch ∷ []) (bytes + utf8_size ch)
              ∙ simp append_assoc)
    ]

-- The size of a text in bytes.
unfoldable pub text_size : List ℕ → ℕ
text_size [] = 0
text_size (c ∷ cs) = utf8_size c + text_size cs

text_size-append : (xs ys : List ℕ) → text_size (xs ++ ys) ≡ text_size xs + text_size ys
unfolding text_size
text_size-append [] ys = omega arith
text_size-append (x ∷ xs) ys = omega (arith, text_size-append xs ys)

-- Within the cap, or a single character, which is never torn.
abbrev pub Fits : ℕ → List ℕ → Type 0
Fits max_bytes part = (text_size part ≤ max_bytes) ⊎ (length part ≤ 1)

text_size_one : (c : ℕ) → text_size (c ∷ []) ≡ utf8_size c
unfolding text_size
text_size_one c = omega arith

-- A character is added only within the cap, or to an empty part.
grows :
    (max_bytes ch : ℕ) (current : List ℕ)
    → (ltb max_bytes (text_size current + utf8_size ch) && ltb 0 (length current)) ≡ false
    → Fits max_bytes (current ++ ch ∷ [])
grows max_bytes ch [] room = inr (omega arith)
grows max_bytes ch (c ∷ cs) room = inl (
    rw (text_size-append (c ∷ cs) (ch ∷ []), text_size_one ch)
      (ltb→ge max_bytes (text_size (c ∷ cs) + utf8_size ch) (ground arith)))

split_loop-Fits :
    (max_bytes : ℕ) (input : List ℕ) (parts : List (List ℕ)) (current : List ℕ)
    → All (Fits max_bytes) parts
    → Fits max_bytes current
    → All (Fits max_bytes) (split_loop max_bytes input parts current (text_size current))
unfolding split_loop
split_loop-Fits max_bytes [] parts current ps c =
    All-append (Fits max_bytes) parts (current ∷ []) ps (c, tt)
split_loop-Fits max_bytes (ch ∷ rest) parts current ps c =
    elim (Bool-cases (ltb max_bytes (text_size current + utf8_size ch) && ltb 0 (length current))) [
      | inl full ↦
          rw (full, split_loop)
            (subst
              (λ k.
                All (Fits max_bytes)
                  (split_loop max_bytes rest (parts ++ current ∷ []) (ch ∷ []) k))
              (text_size_one ch)
              (split_loop-Fits max_bytes rest (parts ++ current ∷ []) (ch ∷ [])
                (All-append (Fits max_bytes) parts (current ∷ []) ps (c, tt)) (inr (omega arith))))
      | inr room ↦
          rw (room, split_loop)
            (subst
              (λ k. All (Fits max_bytes) (split_loop max_bytes rest parts (current ++ ch ∷ []) k))
              (text_size-append current (ch ∷ []) ∙ ap (◌+◌ (text_size current)) (text_size_one ch))
              (split_loop-Fits max_bytes rest parts (current ++ ch ∷ []) ps
                (grows max_bytes ch current room)))
    ]

-- For a positive cap the parts join to the input, and each part either is within the cap or is a
-- single character that alone exceeds it; a cap of 0 is refused.
pub split_utf8_parts :
    (input : List ℕ) (max_bytes : ℕ)
    → ((max_bytes ≡ 0) × (split_utf8 input max_bytes ≡ none))
      ⊎ ((parts : List (List ℕ)) × (split_utf8 input max_bytes ≡ some parts)
          × (flatten parts ≡ input)
          × All (Fits max_bytes) parts)
unfolding split_utf8 flatten text_size
split_utf8_parts input zero = inl (refl, refl)
split_utf8_parts input (suc m) = inr (
  split_loop (suc m) input [] [] 0,
  ground arith,
  split_loop-flatten (suc m) input [] [] 0,
  split_loop-Fits (suc m) input [] [] tt (inl (omega arith)),
)
