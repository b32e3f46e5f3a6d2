-- ===== src/Msgcookie.antt =====
-- src/msgcookie.c: the cookies of a session's rendezvous requests. A cookie is a heap object, known by
-- its address; the session's chain is the list of them, and `time(NULL)` is an argument.
pub mod Held
pub mod Cache
mod Tests
use libfaim.Prelude.{
  ℕ, ◌≡◌, Bool, true, false, not, ◌&&◌, Option, none, some, List, [], ◌∷◌, ◌==◌, if◌then◌else◌,
}
use libfaim.Prelude.Alloc.{Allocator, Request}

-- `content` is the `data` pointer.
pub record Msgcookie : Type 0 where
  pub addr : ℕ
  pub cookie : List ℕ
  pub type : ℕ
  pub content : ℕ
  pub addtime : ℕ

-- `memcmp(a, b, 8) == 0` on two cookie strings of 8 bytes.
pub same_bytes : List ℕ → List ℕ → Bool
same_bytes [] [] = true
same_bytes [] (b ∷ bs) = false
same_bytes (a ∷ as') [] = false
same_bytes (a ∷ as') (b ∷ bs) = a == b && same_bytes as' bs

abbrev pub matches : List ℕ → ℕ → Msgcookie → Bool
matches ck type c = c.type == type && same_bytes c.cookie ck

abbrev pub is_at : ℕ → Msgcookie → Bool
is_at a c = c.addr == a

pub checkcookie : List Msgcookie → List ℕ → ℕ → Option Msgcookie
checkcookie [] ck type = none
checkcookie (cur ∷ next) ck type =
    if matches ck type cur then some cur else checkcookie next ck type

pub uncachecookie : List Msgcookie → List ℕ → ℕ → Option Msgcookie × List Msgcookie
uncachecookie [] ck type = (none, [])
uncachecookie (cur ∷ next) ck type =
    let (found, left) = uncachecookie next ck type in
    if matches ck type cur then (some cur, next) else (found, cur ∷ left)

-- `fresh` is the address that `calloc` returns.
mkcookie : Allocator → ℕ → List ℕ → ℕ → ℕ → Option Msgcookie
mkcookie calloc fresh c type content =
    if not (calloc Request.msgcookie)
    then none
    else some (record { addr = fresh; cookie = c; type = type; content = content; addtime = 0 })

-- The object is compared by its address, and the walk goes on to the end of the chain.
pub cookie_free : List Msgcookie → Msgcookie → List Msgcookie
cookie_free [] c = []
cookie_free (cur ∷ next) c =
    let left = cookie_free next c in if is_at c.addr cur then left else cur ∷ left

-- `newcook->addtime = time(NULL)` on the object at an address.
touch : ℕ → ℕ → List Msgcookie → List Msgcookie
touch a now [] = []
touch a now (cur ∷ next) =
    (if is_at a cur then record cur { addtime = now } else cur) ∷ touch a now next

pub append_front : ℕ → List Msgcookie → Msgcookie → ℕ × List Msgcookie
append_front now list c = (0, record c { addtime = now } ∷ list)

pub cachecookie : ℕ → List Msgcookie → Msgcookie → ℕ × List Msgcookie
cachecookie now list c = elim (checkcookie list c.cookie c.type) [
  | none ↦ append_front now list c
  | some newcook ↦
      if newcook.addr == c.addr
      then (1, touch c.addr now list)
      else append_front now (cookie_free list newcook) c
]

-- AIM_COOKIETYPE_* for AIM_CAPS_BUDDYICON, VOICE, IMIMAGE, CHAT, GETFILE and SENDFILE: OFTICON,
-- OFTVOICE, OFTIMAGE, CHAT, OFTGET and OFTSEND, else UNKNOWN.
gettype : ℕ → ℕ
gettype reqclass =
    if reqclass == 0x01
    then 0x15
    else if reqclass == 0x02
    then 0x13
    else if reqclass == 0x04
    then 0x14
    else if reqclass == 0x08
    then 0x05
    else if reqclass == 0x10
    then 0x11
    else if reqclass == 0x20
    then 0x12
    else 0x00
