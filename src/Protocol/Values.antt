-- ===== src/Protocol/Values.antt =====
-- JavaScript values as far as the protocol's JSON documents go.
use open_rtc.Base.{
  ◌≡◌, refl, text_beq_self, ℕ, Bool, true, false, Text, text_beq, if◌then◌else◌, ltb, length,
}

mutual
  pub data Js : Type 0 where
    undefined : Js
    null : Js
    bool : Bool → Js
    num : ℕ → Js
    str : Text → Js
    arr : Items → Js
    obj : Fields → Js

  pub data Items : Type 0 where
    nil : Items
    cons : Js → Items → Items

  pub data Fields : Type 0 where
    end : Fields
    field : Text → Js → Fields → Fields

-- A property read; a missing property is `undefined`.
unfoldable pub get_field : Text → Fields → Js
get_field k end = undefined
get_field k (field j v fs) = if text_beq j k then v else get_field k fs

unfoldable pub prop : Text → Js → Js
unfolding get_field
prop k (obj fs) = get_field k fs
prop k _ = undefined

-- `typeof v === 'object' && v !== null`
abbrev pub is_object : Js → Bool
is_object (obj _) = true
is_object (arr _) = true
is_object _ = false

abbrev pub is_str : Js → Bool
is_str (str _) = true
is_str _ = false

abbrev pub is_num : Js → Bool
is_num (num _) = true
is_num _ = false

abbrev pub is_defined : Js → Bool
is_defined undefined = false
is_defined _ = true

-- The value in a condition.
abbrev pub truthy : Js → Bool
truthy undefined = false
truthy null = false
truthy (bool b) = b
truthy (num n) = ltb 0 n
truthy (str s) = ltb 0 (length s)
truthy (arr _) = true
truthy (obj _) = true

-- `s === v` for a string `s`.
abbrev pub is_text : Text → Js → Bool
is_text s (str t) = text_beq s t
is_text s _ = false

abbrev pub is_array : Js → Bool
is_array (arr _) = true
is_array _ = false

-- A property write to an object.
unfoldable pub set_field : Text → Js → Fields → Fields
set_field k v end = field k v end
set_field k v (field j w fs) = if text_beq j k then field j v fs else field j w (set_field k v fs)

-- A field that is left out if its value is `undefined`, as a spread or JSON does.
abbrev pub js_field : Text → Js → Fields → Fields
js_field k v fs = if is_defined v then field k v fs else fs

-- Reads past such a field, and reads of it.
pub skip_field :
    (k j : Text) (v : Js) (fs : Fields)
    → text_beq j k ≡ false
    → get_field k (js_field j v fs) ≡ get_field k fs
unfolding get_field
skip_field k j undefined fs other = refl
skip_field k j null fs other = rw other refl
skip_field k j (bool b) fs other = rw other refl
skip_field k j (num n) fs other = rw other refl
skip_field k j (str s) fs other = rw other refl
skip_field k j (arr i) fs other = rw other refl
skip_field k j (obj gs) fs other = rw other refl

pub hit_field :
    (k : Text) (v : Js) (fs : Fields)
    → get_field k fs ≡ undefined
    → get_field k (js_field k v fs) ≡ v
unfolding get_field
hit_field k undefined fs absent = absent
hit_field k null fs absent = rw (text_beq_self k) refl
hit_field k (bool b) fs absent = rw (text_beq_self k) refl
hit_field k (num n) fs absent = rw (text_beq_self k) refl
hit_field k (str s) fs absent = rw (text_beq_self k) refl
hit_field k (arr i) fs absent = rw (text_beq_self k) refl
hit_field k (obj gs) fs absent = rw (text_beq_self k) refl
