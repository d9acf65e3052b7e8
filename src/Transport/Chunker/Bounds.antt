-- ===== src/Transport/Chunker/Bounds.antt =====
-- The assembler's memory: how many groups it keeps, and which one makes room.
use open_rtc.Base.{
  nat_eq, text_eq, ℕ, ◌+◌, ◌-◌, ◌≤◌, ◌<◌, ◌≡◌, refl, sym, ◌⊎◌, inl, inr, true, Bool-cases,
  Option-cases, Option, none, some, List, [], ◌∷◌, All, In, arith, ◌==◌, eq_iff, leb, ltb, Text,
  max, tests, leb→le, ltb→lt, ltb→ge, subst, ap, length-select-le,
}
use open_rtc.Base.Int.{ℤ, pos, negsuc}
use open_rtc.Base.JsMap
use open_rtc.Base.JsMap.{JsMap}
use open_rtc.Transport.Chunker.{
  ChunkFrame, Frame, chunk, other, Group, ChunkAssembler, add_part, oldest, evict, find_group,
  push_part, push, sweep,
}

-- What `oldest` finds, `best` being the best group so far.
record Found (best : Text × ℕ) (m : JsMap Text Group) (r : Option (Text × ℕ)) : Type 0 where
  id : Text
  ts : ℕ
  found : r ≡ some (id, ts)
  place : ((id ≡ best.0) × (ts ≡ best.1)) ⊎ ((g : Group) × In (id, g) m × (g.started_at ≡ ts))
  below : ts ≤ best.1
  least : All (λ e. ts ≤ e.1.started_at) m

oldest-Found : (best : Text × ℕ) (m : JsMap Text Group) → Found best m (oldest (some best) m)
unfolding oldest
oldest-Found (b, ts) [] = record {
  id = b;
  ts = ts;
  found = refl;
  place = inl (refl, refl);
  below = omega arith;
  least = tt;
}
oldest-Found (b, ts) ((id, g) ∷ m) = elim (Bool-cases (ltb g.started_at ts)) [
  | inl older ↦
      let f = oldest-Found (id, g.started_at) m in
      rw older (record {
        id = f.id;
        ts = f.ts;
        found = f.found;
        place = elim f.place [
          | inl (same, at) ↦ inr (g, inl (λ i. (same i, g)), sym at)
          | inr (h, there, at) ↦ inr (h, inr there, at)
        ];
        below = omega (arith, f.below, ltb→lt g.started_at ts older);
        least = (f.below, f.least);
      })
  | inr kept ↦
      let f = oldest-Found (b, ts) m in
      rw kept (record {
        id = f.id;
        ts = f.ts;
        found = f.found;
        place = elim f.place [ inl s ↦ inl s | inr (h, there, at) ↦ inr (h, inr there, at) ];
        below = f.below;
        least = (omega (arith, f.below, ltb→ge g.started_at ts kept), f.least);
      })
]

-- The group that makes room: one of the groups, none of which is older.
pub record Evicted (groups left : JsMap Text Group) : Type 0 where
  pub id : Text
  pub group : Group
  pub member : In (id, group) groups
  pub eldest : All (λ e. group.started_at ≤ e.1.started_at) groups
  pub removed : left ≡ JsMap.delete id groups

-- At the limit, exactly one of the eldest groups is removed.
pub evict-Evicted :
    (max_groups : ℕ) (id : Text) (g : Group) (m : JsMap Text Group)
    → max_groups ≤ JsMap.size ((id, g) ∷ m)
    → Evicted ((id, g) ∷ m) (evict max_groups ((id, g) ∷ m))
unfolding evict oldest
evict-Evicted max_groups id g m h =
    let f = oldest-Found (id, g.started_at) m in
    let full : leb max_groups (JsMap.size ((id, g) ∷ m)) ≡ true = ground arith in
    rw (full, f.found)
      (elim f.place [
        | inl (same, at) ↦ record {
          id = f.id;
          group = g;
          member = inl (λ i. (same i, g));
          eldest = (omega arith, subst (λ t. All (λ e. t ≤ e.1.started_at) m) at f.least);
          removed = refl;
        }
        | inr (h, there, at) ↦ record {
          id = f.id;
          group = h;
          member = inr there;
          eldest = (
            omega (arith, f.below),
            subst (λ t. All (λ e. t ≤ e.1.started_at) m) (sym at) f.least,
          );
          removed = refl;
        }
      ])

get_of_In :
    (k : Text) (g : Group) (m : JsMap Text Group)
    → In (k, g) m
    → (v : Group) × (JsMap.get k m ≡ some v)
unfolding JsMap.get
get_of_In k g [] h = absurd h
get_of_In k g ((j, w) ∷ m) h = elim (Bool-cases (j == k)) [
  | inl hit ↦ (w, rw hit)
  | inr miss ↦ elim h [
    | inl q ↦ absurd (cc ((eq_iff j k).1 (sym (ap (λ (p : Text × Group). p.0) q))))
    | inr t ↦ let (v, e) = get_of_In k g m t in (v, rw miss e)
  ]
]

size-evict_full :
    (max_groups : ℕ) (id : Text) (g : Group) (m : JsMap Text Group)
    → max_groups ≤ JsMap.size ((id, g) ∷ m)
    → JsMap.size (evict max_groups ((id, g) ∷ m)) < JsMap.size ((id, g) ∷ m)
size-evict_full max_groups id g m full =
    let e = evict-Evicted max_groups id g m full in
    let (v, got) = get_of_In e.id e.group ((id, g) ∷ m) e.member in
    rw e.removed (JsMap.size-delete-lt e.id ((id, g) ∷ m) v got)

-- There is room for one more group after `evict`.
size-evict :
    (max_groups : ℕ) (m : JsMap Text Group)
    → JsMap.size m ≤ max max_groups 1
    → JsMap.size (evict max_groups m) + 1 ≤ max max_groups 1
unfolding evict oldest
size-evict max_groups [] h = ground arith
size-evict max_groups ((id, g) ∷ m) h =
    elim (Bool-cases (leb max_groups (JsMap.size ((id, g) ∷ m)))) [
      | inr room ↦ rw room (omega tests)
      | inl full ↦ omega (arith, size-evict_full max_groups id g m (leb→le max_groups _ full))
    ]

-- The number of groups stays within the limit.
abbrev pub IsBounded : ChunkAssembler → Type 0
IsBounded a = JsMap.size a.groups ≤ max a.max_groups 1

size-find_group :
    (now : ℕ) (f : ChunkFrame) (a : ChunkAssembler)
    → IsBounded a
    → (JsMap.size (find_group now f a).1 ≤ max a.max_groups 1)
      × (JsMap.has f.id (find_group now f a).1 ≡ true)
unfolding find_group
size-find_group now f a h = elim (Option-cases (JsMap.get f.id a.groups)) [
  | inr (g, found) ↦ rw (found, find_group) (h, rw found)
  | inl absent ↦
      let left = evict a.max_groups a.groups in
      let g : Group = record { parts = []; total = f.n; seen = []; started_at = now } in
      rw (absent, find_group)
        (
          ground (arith, size-evict a.max_groups a.groups, JsMap.size-set f.id g left),
          rw (JsMap.get-set_self f.id g left),
        )
]

size-push_part :
    (now i : ℕ) (f : ChunkFrame) (a : ChunkAssembler)
    → IsBounded a
    → (JsMap.size (push_part now f i a).1.groups ≤ max a.max_groups 1)
      × ((push_part now f i a).1.max_groups ≡ a.max_groups)
unfolding push_part
size-push_part now i f a h =
    let (bound, there) = size-find_group now f a h in
    let groups = (find_group now f a).1 in
    let g = add_part i f.d (find_group now f a).0 in
    ground (arith, JsMap.size-delete-le f.id groups, JsMap.size-set f.id g groups)

push_int :
    (now : ℕ) (f : ChunkFrame) (a : ChunkAssembler) (z : ℤ)
    → IsBounded a
    → IsBounded
        (elim z as (λ _. Option (List ℕ) × ChunkAssembler) [
          | pos i ↦ push_part now f i a
          | negsuc _ ↦ (none, record a { groups = (find_group now f a).1 })
        ]).1
push_int now f a (pos i) h = let (size, same) = size-push_part now i f a h in omega arith
push_int now f a (negsuc _) h = (size-find_group now f a h).0

-- However many messages are left incomplete, the assembler keeps at most `max_groups` groups (one,
-- if the limit is 0): a push keeps the bound, whatever frame it is given, and so does a sweep.
pub push-IsBounded :
    (now : ℕ) (f : Frame) (a : ChunkAssembler)
    → IsBounded a
    → IsBounded (push now f a).1 × IsBounded (sweep now a)
unfolding push sweep
push-IsBounded now other a h = (
  h,
  omega (
    arith,
    length-select-le (λ (e : Text × Group). leb (now - e.1.started_at) a.timeout_ms) a.groups,
  ),
)
push-IsBounded now (chunk f) a h = (
  push_int now f a f.i h,
  omega (
    arith,
    length-select-le (λ (e : Text × Group). leb (now - e.1.started_at) a.timeout_ms) a.groups,
  ),
)
