-- ===== src/Engine/Sdp.antt =====
-- packages/core/src/sdp.ts: the origin line of a session description, and the guard against
-- retransmitted descriptions.
--
-- The regular expression of the origin line is matched on code units: none of its parts can match the
-- space behind it, so that it has one way to match at a place. A version is exact.
pub mod Repeats
mod Tests
use open_rtc.Base.{
  ℕ, ◌+◌, ◌-◌, ◌*◌, Bool, true, false, not, ◌&&◌, ◌||◌, ◌++◌, Option, none, some, List, [], ◌∷◌,
  Text, text_eq, codes, text_beq, ltb, leb, nat_beq, if◌then◌else◌,
}

pub record SdpOrigin : Type 0 where
  pub username : Text
  pub session_id : Text
  pub session_version : ℕ
  pub net_type : Text
  pub addr_type : Text
  pub unicast_address : Text

abbrev pub between : ℕ → ℕ → ℕ → Bool
between a b ch = leb a ch && leb ch b

-- `\s`, `\d`, `\w`, and the characters behind which `^` matches.
abbrev pub is_space : ℕ → Bool
is_space ch =
    between 9 13 ch
    || nat_beq ch 32
    || nat_beq ch 160
    || nat_beq ch 0x1680
    || between 0x2000 0x200a ch
    || between 0x2028 0x2029 ch
    || nat_beq ch 0x202f
    || nat_beq ch 0x205f
    || nat_beq ch 0x3000
    || nat_beq ch 0xfeff

abbrev pub is_digit : ℕ → Bool
is_digit = between 48 57

abbrev pub is_word : ℕ → Bool
is_word ch = is_digit ch || between 65 90 ch || between 97 122 ch || nat_beq ch 95

abbrev pub ends_line : ℕ → Bool
ends_line ch = nat_beq ch 10 || nat_beq ch 13 || between 0x2028 0x2029 ch

-- The longest beginning of characters of a class, and the rest.
unfoldable pub span : (ℕ → Bool) → Text → Text × Text
span p [] = ([], [])
span p (ch ∷ rest) = let r = span p rest in if p ch then (ch ∷ r.0, r.1) else ([], ch ∷ rest)

abbrev pub non_empty_word : Text × Text → Option (Text × Text)
non_empty_word ([], rest) = none
non_empty_word (ch ∷ word, rest) = some (ch ∷ word, rest)

-- One or more characters of a class.
unfoldable pub word_of : (ℕ → Bool) → Text → Option (Text × Text)
unfolding span
word_of p t = non_empty_word (span p t)

abbrev pub skip_space : Text × Text → Option (Text × Text)
skip_space (word, []) = none
skip_space (word, ch ∷ rest) = if nat_beq ch 32 then some (word, rest) else none

infixl 5 ◌>>=◌
abbrev pub ◌>>=◌ : {A B : Type 0} → Option A → (A → Option B) → Option B
none >>= f = none
some a >>= f = f a

unfoldable pub spaced : (ℕ → Bool) → Text → Option (Text × Text)
unfolding word_of
spaced p t = word_of p t >>= skip_space

abbrev pub after_prefix : Text → Option Text
after_prefix (o ∷ e ∷ rest) = if nat_beq o 111 && nat_beq e 61 then some rest else none
after_prefix _ = none

unfoldable pub to_number : ℕ → Text → ℕ
to_number n [] = n
to_number n (ch ∷ rest) = to_number (10 * n + (ch - 48)) rest

-- The expression at the start of a line.
unfoldable pub match_origin : Text → Option SdpOrigin
unfolding spaced word_of to_number
match_origin t = do
  t1 ← after_prefix t
  (username, t2) ← spaced (λ ch. not (is_space ch)) t1
  (session_id, t3) ← spaced (λ ch. not (is_space ch)) t2
  (version, t4) ← spaced is_digit t3
  (net_type, t5) ← spaced is_word t4
  (addr_type, t6) ← spaced is_word t5
  (address, t7) ← word_of (λ ch. not (is_space ch)) t6
  some (record {
    username = username;
    session_id = session_id;
    session_version = to_number 0 version;
    net_type = net_type;
    addr_type = addr_type;
    unicast_address = address;
  })

-- The first match, where the flag says whether a line starts here.
unfoldable pub find_origin : Bool → Text → Option SdpOrigin
unfolding match_origin
find_origin starts [] = none
find_origin starts (ch ∷ rest) = elim (if starts then match_origin (ch ∷ rest) else none) [
  | some origin ↦ some origin
  | none ↦ find_origin (ends_line ch) rest
]

unfoldable pub parse_sdp_origin : Text → Option SdpOrigin
unfolding find_origin
parse_sdp_origin sdp = find_origin true sdp

pub data SdpType : Type 0 where
  offer answer : SdpType

pub record Applied : Type 0 where
  pub session_id : Text
  pub version : ℕ
  pub type : SdpType

-- The state of `SdpIdempotencyGuard`: the description that was applied last.
abbrev pub Guard : Type 0
Guard = Option Applied

abbrev pub repeats : Guard → SdpOrigin → Bool
repeats none origin = false
repeats (some last) origin =
    if not (text_beq last.session_id origin.session_id)
    then false
    else leb origin.session_version last.version

unfoldable pub is_duplicate : Text → Guard → Bool
unfolding parse_sdp_origin
is_duplicate sdp last = elim (parse_sdp_origin sdp) [
  | none ↦ false
  | some origin ↦ repeats last origin
]

abbrev pub applied_of : SdpType → SdpOrigin → Applied
applied_of type origin = record {
  session_id = origin.session_id;
  version = origin.session_version;
  type = type;
}

unfoldable pub record_applied : SdpType → Text → Guard → Guard
unfolding parse_sdp_origin
record_applied type sdp last = elim (parse_sdp_origin sdp) [
  | none ↦ last
  | some origin ↦ some (applied_of type origin)
]

unfoldable pub reset : Guard → Guard
reset last = none

-- A description that arrives is left out as a duplicate, or applied and recorded, as
-- PeerConnectionManager does where no glare stops it and the browser takes it; the flag says whether.
unfoldable pub receive : SdpType → Text → Guard → Bool × Guard
unfolding is_duplicate record_applied
receive type sdp last =
    if is_duplicate sdp last then (false, last) else (true, record_applied type sdp last)

unfoldable pub receive_all : List (SdpType × Text) → Guard → Guard
unfolding receive
receive_all [] last = last
receive_all ((type, sdp) ∷ rest) last = receive_all rest (receive type sdp last).1
