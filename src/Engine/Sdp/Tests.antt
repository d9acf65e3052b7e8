-- ===== src/Engine/Sdp/Tests.antt =====
-- The guard at three descriptions: the witness of its theorem, and runs of the parser.
use open_rtc.Base.{◌≡◌, refl, true, none, some, List, [], ◌∷◌, ◌++◌, Text, codes, inl, inr}
use open_rtc.Engine.Sdp.{
  SdpOrigin, parse_sdp_origin, SdpType, offer, answer, is_duplicate, receive_all,
}
use open_rtc.Engine.Sdp.Repeats.{receive_all-is_duplicate}

abbrev line : Text → Text
line version = codes "o=- 42 " ++ version ++ codes " IN IP4 0.0.0.0"

-- Behind another line.
abbrev sdp : Text → Text
sdp version = codes "v=0" ++ 13 ∷ 10 ∷ line version ++ 13 ∷ 10 ∷ codes "s=-"

abbrev origin : SdpOrigin
origin = record {
  username = codes "-";
  session_id = codes "42";
  session_version = 2;
  net_type = codes "IN";
  addr_type = codes "IP4";
  unicast_address = codes "0.0.0.0";
}

parses : parse_sdp_origin (sdp (codes "2")) ≡ some origin
unfolding parse_sdp_origin
parses = refl

parses_first : parse_sdp_origin (sdp (codes "1")) ≡ some (record origin { session_version = 1 })
unfolding parse_sdp_origin
parses_first = refl

malformed : parse_sdp_origin (codes "o=- x y IN IP4 h") ≡ none
unfolding parse_sdp_origin
malformed = refl

-- Version 2 arrives before version 1, which is then a duplicate although it was never applied.
abbrev arrived : List (SdpType × Text)
arrived = (offer, sdp (codes "2")) ∷ (answer, sdp (codes "1")) ∷ []

receive_all-is_duplicate_example : is_duplicate (sdp (codes "1")) (receive_all arrived none) ≡ true
receive_all-is_duplicate_example =
    receive_all-is_duplicate (codes "42") arrived
      ((origin, parses, refl), ((record origin { session_version = 1 }, parses_first, refl), tt))
      (answer, sdp (codes "1")) (inr (inl refl))
