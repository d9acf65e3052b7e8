-- ===== src/Transport/Chunker.antt =====
-- packages/transport/src/internal/chunker.ts: payloads split into frames below a backend's size cap,
-- and put together again.
--
-- A string is the list of its code points, which is what `for (const ch of input)` walks. `throw` is
-- `none`. `Date.now()` and the random chunk id are arguments.
pub mod Split
pub mod Groups
pub mod Reassembly
pub mod Delivery
pub mod Sequence
pub mod Bounds
mod Tests
use open_rtc.Base.{
  nat_eq, text_eq, ◌==◌, ℕ, zero, suc, ◌+◌, ◌-◌, ◌≤◌, Bool, true, false, ◌&&◌, ◌||◌, ◌++◌, Option,
  none, some, List, [], ◌∷◌, Text, ltb, leb, if◌then◌else◌, or_else, select, length, flatten, map,
}
use open_rtc.Base.Int.{ℤ, pos, negsuc}
use open_rtc.Base.JsMap
use open_rtc.Base.JsMap.{JsMap}
use open_rtc.Base.JsSet

-- `TextEncoder.encode(ch).length`
unfoldable pub utf8_size : ℕ → ℕ
utf8_size c = if ltb c 0x80 then 1 else if ltb c 0x800 then 2 else if ltb c 0x10000 then 3 else 4

pub record ChunkFrame : Type 0 where
  pub id : Text
  pub i : ℤ
  pub n : ℕ
  pub d : List ℕ

-- A decoded frame: one whose marker `k` is 'chunk', or anything else.
pub data Frame : Type 0 where
  chunk : ChunkFrame → Frame
  other : Frame

unfoldable pub is_chunk_frame : Frame → Bool
is_chunk_frame (chunk _) = true
is_chunk_frame other = false

-- The loop of `splitUtf8`, over the characters left, the parts, and the current part with its size.
unfoldable pub split_loop : ℕ → List ℕ → List (List ℕ) → List ℕ → ℕ → List (List ℕ)
unfolding utf8_size
split_loop max_bytes [] parts current bytes = parts ++ current ∷ []
split_loop max_bytes (ch ∷ rest) parts current bytes =
    elim (ltb max_bytes (bytes + utf8_size ch) && ltb 0 (length current)) [
      | true ↦ split_loop max_bytes rest (parts ++ current ∷ []) (ch ∷ []) (utf8_size ch)
      | false ↦ split_loop max_bytes rest parts (current ++ ch ∷ []) (bytes + utf8_size ch)
    ]

unfoldable pub split_utf8 : List ℕ → ℕ → Option (List (List ℕ))
unfolding split_loop
split_utf8 input max_bytes =
    if leb max_bytes 0 then none else some (split_loop max_bytes input [] [] 0)

-- parts.map((d, i) => …), from index `i` on.
unfoldable pub number_parts : Text → ℕ → ℕ → List (List ℕ) → List ChunkFrame
number_parts id n i [] = []
number_parts id n i (d ∷ ds) =
    record { id = id; i = pos i; n = n; d = d } ∷ number_parts id n (i + 1) ds

unfoldable pub encode_chunks : List ℕ → ℕ → Option Text → Text → Option (List ChunkFrame)
unfolding number_parts
encode_chunks json max_bytes chunk_id random_id = elim (split_utf8 json max_bytes) [
  | none ↦ none
  | some parts ↦ some (number_parts (or_else chunk_id random_id) (length parts) 0 parts)
]

pub record Group : Type 0 where
  pub parts : JsMap ℕ (List ℕ)
  pub total : ℕ
  pub seen : List ℕ
  pub started_at : ℕ

pub record ChunkAssembler : Type 0 where
  pub groups : JsMap Text Group
  pub timeout_ms : ℕ
  pub max_groups : ℕ

unfoldable pub init : Option ℕ → Option ℕ → ChunkAssembler
init timeout_ms max_groups = record {
  groups = [];
  timeout_ms = or_else timeout_ms 10000;
  max_groups = or_else max_groups 64;
}

-- The search for the oldest group. `none` stands for the start, where `oldestTs` is infinite.
unfoldable pub oldest : Option (Text × ℕ) → JsMap Text Group → Option (Text × ℕ)
oldest best [] = best
oldest none ((id, g) ∷ m) = oldest (some (id, g.started_at)) m
oldest (some (b, ts)) ((id, g) ∷ m) =
    oldest (if ltb g.started_at ts then some (id, g.started_at) else some (b, ts)) m

unfoldable pub evict : ℕ → JsMap Text Group → JsMap Text Group
unfolding oldest JsMap.delete
evict max_groups groups =
    if leb max_groups (JsMap.size groups)
    then elim (oldest none groups) [ none ↦ groups | some (id, _) ↦ JsMap.delete id groups ]
    else groups

-- The group of a frame, made and stored if there is none.
unfoldable pub find_group : ℕ → ChunkFrame → ChunkAssembler → Group × JsMap Text Group
unfolding evict JsMap.get JsMap.set
find_group now f a = elim (JsMap.get f.id a.groups) [
  | some g ↦ (g, a.groups)
  | none ↦
      let g : Group = record { parts = []; total = f.n; seen = []; started_at = now } in
      (g, JsMap.set f.id g (evict a.max_groups a.groups))
]

-- Array.from({ length: g.total }, (_, i) => g.parts.get(i) ?? '').join(''), from index `i` on.
unfoldable pub join_parts : ℕ → ℕ → JsMap ℕ (List ℕ) → List ℕ
unfolding JsMap.get
join_parts i zero parts = []
join_parts i (suc k) parts = or_else (JsMap.get i parts) [] ++ join_parts (i + 1) k parts

unfoldable pub add_part : ℕ → List ℕ → Group → Group
unfolding JsMap.set JsSet.add
add_part i d g = record g { parts = JsMap.set i d g.parts; seen = JsSet.add i g.seen }

-- `push` of a chunk frame whose index is `i`.
unfoldable pub push_part : ℕ → ChunkFrame → ℕ → ChunkAssembler → Option (List ℕ) × ChunkAssembler
unfolding find_group add_part join_parts JsMap.set JsMap.delete
push_part now f i a =
    let (g, groups) = find_group now f a in
    if leb g.total i
    then (none, record a { groups = groups })
    else (let g' = add_part i f.d g in
        if length g'.seen == g'.total
        then (some (join_parts 0 g'.total g'.parts), record a { groups = JsMap.delete f.id groups })
        else (none, record a { groups = JsMap.set f.id g' groups }))

unfoldable pub push : ℕ → Frame → ChunkAssembler → Option (List ℕ) × ChunkAssembler
unfolding push_part find_group
push now other a = (none, a)
push now (chunk f) a = elim f.i [
  | pos i ↦ push_part now f i a
  | negsuc _ ↦ (none, record a { groups = (find_group now f a).1 })
]

unfoldable pub sweep : ℕ → ChunkAssembler → ChunkAssembler
sweep now a = record a { groups = select (λ e. leb (now - e.1.started_at) a.timeout_ms) a.groups }
