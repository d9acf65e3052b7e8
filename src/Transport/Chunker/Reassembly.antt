-- ===== src/Transport/Chunker/Reassembly.antt =====
-- The assembler: the chunks of a message in any order, repeated, and mixed with other traffic.
use open_rtc.Base.{
  nat_eq, text_eq, ℕ, ◌<◌, ◌≡◌, refl, sym, ap, ◌↔◌, ◌⊎◌, inl, inr, false, Bool-cases, Option-cases,
  Option, none, some, List, [], ◌∷◌, In, length, get_elem?, lt-length_of_get_elem?, arith, subst,
  eq_iff, true, ◌==◌, leb, Text,
}
use mathlib.Core.List.{flatten}
use open_rtc.Base.Int.{ℤ, pos, negsuc}
use open_rtc.Base.JsMap
use open_rtc.Base.JsMap.{JsMap}
use open_rtc.Transport.Chunker.Groups.{
  IsPartial, add_part-IsPartial, In-add_part, full_group, length-seen-full,
}
use open_rtc.Transport.Chunker.{
  ChunkFrame, chunk, Group, ChunkAssembler, evict, add_part, find_group, push_part, push,
}

-- No group is evicted for a frame: it has one, or eviction leaves all groups where they are.
abbrev pub EvictsNone : ChunkFrame → ChunkAssembler → Type 0
EvictsNone f a = (JsMap.has f.id a.groups ≡ true) ⊎ (evict a.max_groups a.groups ≡ a.groups)

module _ (id : Text) (parts : List (List ℕ)) where
  abbrev pub part_frame : ℕ → List ℕ → ChunkFrame
  part_frame i d = record { id = id; i = pos i; n = length parts; d = d }

  -- The group has seen the parts `os`.
  pub record Has (os : List ℕ) (g : Group) : Type 0 where
    pub partial : IsPartial parts g
    pub seen : (k : ℕ) → In k g.seen ↔ In k os

  abbrev pub Tracks : List ℕ → ChunkAssembler → Type 0
  Tracks os a =
      ((os ≡ []) × (JsMap.get id a.groups ≡ none))
      ⊎ ((g : Group) × (JsMap.get id a.groups ≡ some g) × Has os g)

  find_group-Has :
      (os : List ℕ) (now i : ℕ) (d : List ℕ) (a : ChunkAssembler)
      → Tracks os a
      → Has os (find_group now (part_frame i d) a).0
  unfolding find_group
  find_group-Has os now i d a (inl (start, absent)) =
      rw (absent, find_group)
        (record {
          partial = record { total = refl; below = tt; differ = tt; right = λ k i. absurd i };
          seen = λ k. subst (λ o. ⊥ ↔ In k o) (sym start) (λ i. i, λ i. i);
        })
  find_group-Has os now i d a (inr (g, found, has)) = rw (found, find_group) has

  Has-add_part :
      (os : List ℕ) (i : ℕ) (d : List ℕ) (g : Group)
      → get_elem? parts i ≡ some d
      → Has os g
      → Has (i ∷ os) (add_part i d g)
  Has-add_part os i d g h has = record {
    partial = add_part-IsPartial parts i d g h has.partial;
    seen = λ k. (
      λ there. elim ((In-add_part i k d g).0 there) [
        | inl old ↦ inr ((has.seen k).0 old)
        | inr new ↦ inl new
      ],
      λ there.
          (In-add_part i k d g).1
            (elim there [ inl new ↦ inr new | inr old ↦ inl ((has.seen k).1 old) ]),
    );
  }

  module _ (os : List ℕ) (now i : ℕ) (d : List ℕ) (a : ChunkAssembler)
      (h : get_elem? parts i ≡ some d) (t : Tracks os a) where
    g : Group
    g = (find_group now (part_frame i d) a).0

    has : Has (i ∷ os) (add_part i d g)
    unfolding g
    has = Has-add_part os i d g h (find_group-Has os now i d a t)

    in_range : leb g.total i ≡ false
    unfolding g
    in_range =
        ground
          (arith, lt-length_of_get_elem? parts i d h, (find_group-Has os now i d a t).partial.total)

    -- The frame that completes the message.
    pub own_last :
        ((k : ℕ) → k < length parts → In k (i ∷ os))
        → (push now (chunk (part_frame i d)) a).0 ≡ some (flatten parts)
    unfolding push push_part g
    own_last all =
        let full =
          (length-seen-full parts (add_part i d g) has.partial).1
            (λ k lt. (has.seen k).1 (all k lt)) in
        rw (in_range, (eq_iff (length (add_part i d g).seen) (add_part i d g).total).1 full)
          (ap some (full_group parts (add_part i d g) has.partial full))

    -- A frame while another one is still to come.
    pub own_more :
        (j : ℕ)
        → j < length parts
        → ¬ In j (i ∷ os)
        → ((push now (chunk (part_frame i d)) a).0 ≡ none)
          × Tracks (i ∷ os) (push now (chunk (part_frame i d)) a).1
    unfolding push push_part g
    own_more j lt missing =
        elim (Bool-cases (length (add_part i d g).seen == (add_part i d g).total)) [
          | inl full ↦ absurd (
              missing (
                (has.seen j).0 (
                  (length-seen-full parts (add_part i d g) has.partial).0
                    ((eq_iff (length (add_part i d g).seen) (add_part i d g).total).0 full) j lt)))
          | inr waits ↦
              rw (in_range, waits)
                (
                  refl,
                  inr (
                    add_part i d g,
                    JsMap.get-set_self id (add_part i d g) (find_group now (part_frame i d) a).1,
                    has,
                  ),
                )
        ]

  module _ (now : ℕ) (f : ChunkFrame) (a : ChunkAssembler) (ne : (f.id == id) ≡ false)
      (room : EvictsNone f a) where
    find_group-foreign : JsMap.get id (find_group now f a).1 ≡ JsMap.get id a.groups
    unfolding find_group
    find_group-foreign = elim (Option-cases (JsMap.get f.id a.groups)) [
      | inr (g, found) ↦ rw (found, find_group)
      | inl absent ↦ elim room [
        | inl there ↦ absurd (ground (arith, absent, there))
        | inr kept ↦ rw (absent, find_group, kept) (JsMap.get-set_ne f.id id _ a.groups ne)
      ]
    ]

    push_part-foreign :
        (i : ℕ) → JsMap.get id (push_part now f i a).1.groups ≡ JsMap.get id a.groups
    unfolding push_part
    push_part-foreign i =
        let g = (find_group now f a).0 in
        let groups = (find_group now f a).1 in
        ground (
          arith,
          find_group-foreign,
          JsMap.get-set_ne f.id id (add_part i f.d g) groups ne,
          JsMap.get-delete f.id id groups,
          ne,
        )

    push_int :
        (z : ℤ)
        → JsMap.get id
            (elim z as (λ _. Option (List ℕ) × ChunkAssembler) [
              | pos i ↦ push_part now f i a
              | negsuc _ ↦ (none, record a { groups = (find_group now f a).1 })
            ]).1.groups
          ≡ JsMap.get id a.groups
    push_int (pos i) = push_part-foreign i
    push_int (negsuc _) = find_group-foreign

    -- A frame of another message, where no group is evicted for it, leaves this one's group alone.
    pub foreign : JsMap.get id (push now (chunk f) a).1.groups ≡ JsMap.get id a.groups
    unfolding push
    foreign = push_int f.i
