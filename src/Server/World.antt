-- ===== src/Server/World.antt =====
-- The state that the functions of packages/server/src/core.ts work on: the store, and the four maps
-- that the module keeps for itself. A function that throws keeps what it has changed before.
pub mod Runs
use open_rtc.Base.{ℕ, Bool, true, false, Option, none, some, List, Text}
use open_rtc.Base.JsMap.{JsMap}
use open_rtc.Server.Types.{Room, BanEntry, Poll}
use open_rtc.Server.Errors.{ServerError, room_not_found}
use open_rtc.Server.Store.{InMemoryStore, get_room}

pub record World : Type 0 where
  pub store : InMemoryStore
  pub ban_store : JsMap Text (JsMap Text BanEntry)
  pub lobby_store : JsMap Text (JsMap Text ℕ)
  pub hand_queue_store : JsMap Text (List Text)
  pub poll_store : JsMap Text (JsMap Text Poll)

pub data Result (A : Type 0) : Type 0 where
  ok : A → Result A
  err : ServerError → Result A

abbrev pub M : Type 0 → Type 0
M A = World → Result A × World

-- The code behind a call: a thrown error passes it by.
unfoldable pub proceed : {A B : Type 0} → (A → M B) → Result A × World → Result B × World
proceed f (ok a, w) = f a w
proceed f (err e, w) = (err e, w)

-- `await` of a call that may throw, and the code behind it.
infixl 5 ◌>>=◌ ◌>>◌
abbrev pub ◌>>=◌ : {A B : Type 0} → M A → (A → M B) → M B
m >>= f = λ w. proceed f (m w)

abbrev pub ◌>>◌ : {B : Type 0} → M (Unit {0}) → M B → M B
m >> k = m >>= λ _. k

unfoldable pub return : {A : Type 0} → A → M A
return a w = (ok a, w)

unfoldable pub throw : {A : Type 0} → ServerError → M A
throw e w = (err e, w)

-- `if (test) throw error;`
unfoldable pub throw_if : Bool → ServerError → M (Unit {0})
throw_if true e w = (err e, w)
throw_if false e w = (ok tt, w)

-- `if (!value) throw error;`, with the value behind it.
unfoldable pub present : {A : Type 0} → Option A → ServerError → M A
present none e w = (err e, w)
present (some a) e w = (ok a, w)

-- A query of the store, a write to it, and a change of the module's own maps.
unfoldable pub query : {A : Type 0} → (InMemoryStore → A) → M A
query f w = (ok (f w.store), w)

unfoldable pub write : (InMemoryStore → InMemoryStore) → M (Unit {0})
write f w = (ok tt, record w { store = f w.store })

-- A store operation with a result.
unfoldable pub update : {A : Type 0} → (InMemoryStore → A × InMemoryStore) → M A
update f w = let (a, s) = f w.store in (ok a, record w { store = s })

unfoldable pub run : {A : Type 0} → (World → A × World) → M A
run f w = let (a, w') = f w in (ok a, w')

unfoldable pub change : (World → World) → M (Unit {0})
change f w = (ok tt, f w)

unfoldable pub require_room : Text → M Room
require_room room_id = do room ← query (get_room room_id); present room (room_not_found room_id)
