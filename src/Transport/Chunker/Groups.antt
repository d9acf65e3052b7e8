-- ===== src/Transport/Chunker/Groups.antt =====
-- One group of chunks: the parts that have arrived, and the text that they join to.
use open_rtc.Base.{
  nat_eq, ℕ, suc, ◌+◌, ◌<◌, ◌≡◌, refl, sym, ap, ◌∙◌, ◌≢◌, ◌↔◌, ◌⊎◌, inl, inr, Bool-cases, some,
  List, [], ◌∷◌, ◌++◌, All, All-append, In, length, get_elem?, lt-length_of_get_elem?, arith, subst,
  eq_iff, ◌==◌,
}
use mathlib.Core.List.{flatten}
use open_rtc.Base.JsMap
use open_rtc.Base.JsMap.{JsMap}
use open_rtc.Base.JsSet
use open_rtc.Base.Counting.{Differ, In-or_not, all_of_length, le-length_of_all, length-le_of_below}
use open_rtc.Transport.Chunker.{Group, add_part, join_parts}

-- The group holds parts of `parts` and nothing else, and `seen` lists them.
pub record IsPartial (parts : List (List ℕ)) (g : Group) : Type 0 where
  pub total : g.total ≡ length parts
  pub below : All (λ i. i < length parts) g.seen
  pub differ : Differ g.seen
  pub right : (i : ℕ) → In i g.seen → JsMap.get i g.parts ≡ get_elem? parts i

Differ-snoc : (i : ℕ) (xs : List ℕ) → All (λ y. y ≢ i) xs → Differ xs → Differ (xs ++ i ∷ [])
Differ-snoc i [] h d = (tt, tt)
Differ-snoc i (x ∷ xs) h d =
    (All-append (λ y. y ≢ x) xs (i ∷ []) d.0 (λ e. h.0 (sym e), tt), Differ-snoc i xs h.1 d.1)

add-Differ : (i : ℕ) (xs : List ℕ) → Differ xs → Differ (JsSet.add i xs)
unfolding JsSet.add
add-Differ i xs d = elim (Bool-cases (JsSet.has i xs)) [
  | inl old ↦ rw old d
  | inr new ↦ rw new (
      Differ-snoc i xs
        (elim (In-or_not i xs) [ inl there ↦ absurd (cc (JsSet.In-has i xs there)) | inr h ↦ h ]) d)
]

add-All : (P : ℕ → Type 0) (i : ℕ) (xs : List ℕ) → P i → All P xs → All P (JsSet.add i xs)
unfolding JsSet.add
add-All P i xs p h = elim (Bool-cases (JsSet.has i xs)) [
  | inl old ↦ rw old h
  | inr new ↦ rw new (All-append P xs (i ∷ []) h (p, tt))
]

pub add_part-IsPartial :
    (parts : List (List ℕ)) (i : ℕ) (d : List ℕ) (g : Group)
    → get_elem? parts i ≡ some d
    → IsPartial parts g
    → IsPartial parts (add_part i d g)
unfolding add_part
add_part-IsPartial parts i d g h v = record {
  total = v.total;
  below = add-All (λ k. k < length parts) i g.seen (lt-length_of_get_elem? parts i d h) v.below;
  differ = add-Differ i g.seen v.differ;
  right = λ k there. rw (JsMap.get-set i k d g.parts) (elim (Bool-cases (i == k)) [
    | inl same ↦ rw same (sym h ∙ ap (get_elem? parts) ((eq_iff i k).0 same))
    | inr other ↦ rw other (elim ((JsSet.In-add i k g.seen).0 there) [
      | inl old ↦ v.right k old
      | inr new ↦ absurd (cc ((eq_iff i k).1 (sym new)))
    ])
  ]);
}

pub In-add_part :
    (i k : ℕ) (d : List ℕ) (g : Group) → In k (add_part i d g).seen ↔ (In k g.seen ⊎ (k ≡ i))
unfolding add_part
In-add_part i k d g = JsSet.In-add i k g.seen

join_parts-flatten :
    (ds : List (List ℕ)) (i : ℕ) (m : JsMap ℕ (List ℕ))
    → ((j : ℕ) → j < length ds → JsMap.get (i + j) m ≡ get_elem? ds j)
    → join_parts i (length ds) m ≡ flatten ds
unfolding join_parts flatten
join_parts-flatten [] i m h = refl
join_parts-flatten (d ∷ ds) i m h = rw (first) (
    ap (◌++◌ d) (
      join_parts-flatten ds (i + 1) m λ j lt.
        subst (λ k. JsMap.get k m ≡ get_elem? ds j) (omega arith) (h (suc j) (omega arith))))
  where
    first : JsMap.get i m ≡ some d
    first = subst (λ k. JsMap.get k m ≡ some d) (omega arith) (h 0 (omega arith))

-- A group that has seen as many parts as its total joins to the whole text.
pub full_group :
    (parts : List (List ℕ)) (g : Group)
    → IsPartial parts g
    → length g.seen ≡ g.total
    → join_parts 0 g.total g.parts ≡ flatten parts
full_group parts g v full = rw (v.total) (
    join_parts-flatten parts 0 g.parts λ j lt.
      subst (λ k. JsMap.get k g.parts ≡ get_elem? parts j) (omega arith)
        (v.right j
          (all_of_length (length parts) g.seen v.differ v.below (omega (arith, v.total)) j lt)))

-- A group is full exactly when it has seen every part.
pub length-seen-full :
    (parts : List (List ℕ)) (g : Group)
    → IsPartial parts g
    → (length g.seen ≡ g.total) ↔ ((i : ℕ) → i < length parts → In i g.seen)
length-seen-full parts g v = (
  λ full. all_of_length (length parts) g.seen v.differ v.below (omega (arith, v.total)),
  λ all. omega (
    arith,
    v.total,
    le-length_of_all (length parts) g.seen all,
    length-le_of_below (length parts) g.seen v.differ v.below,
  ),
)
