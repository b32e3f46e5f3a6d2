-- ===== src/Rxhandlers.antt =====
-- src/rxhandlers.c: the modules of the protocol's families, the client's handlers on a connection, and
-- the dispatch of the incoming queue. A function pointer is a number; `Calls` says what the functions
-- do. A frame is known by its place in the queue. The modules' names are lists of bytes.
pub mod Registry
pub mod Handlers
pub mod Dispatch
mod Tests
use libfaim.Prelude.{
  ℕ, zero, suc, ◌+◌, ◌-◌, ◌%◌, ◌≡◌, Bool, true, false, not, ◌&&◌, ◌||◌, Option, none, some, List,
  [], ◌∷◌, ◌++◌, ltb, ◌==◌, if◌then◌else◌, length, get_elem?, set,
}
use libfaim.Prelude.Alloc.{Allocator, Request}
use libfaim.Bstream.{Bstream, empty, get8, get16, get32}
use libfaim.Tlv.{
  Tlv, Outcome, done, out_of_fuel, readtlvchain, gettlv, gettlv16, gettlv_str, Result, ok, fault,
}
use libfaim.Session.{
  Handler, Conn, Frame, Header, flap, oft, Session, conn_at, conn_type_auth, conn_type_rendezvous,
  conn_type_rendezvous_out,
}
use libfaim.Rxqueue.{purge_rxqueue}

-- `snachandler` and `shutdown` may be NULL.
pub record Module : Type 0 where
  pub family : ℕ
  pub version : ℕ
  pub toolid : ℕ
  pub toolversion : ℕ
  pub flags : ℕ
  pub name : List ℕ
  pub snachandler : Option ℕ
  pub shutdown : Option ℕ

pub record Modsnac : Type 0 where
  pub family : ℕ
  pub subtype : ℕ
  pub flags : ℕ
  pub id : ℕ

-- `strcmp(a, b) == 0`
unfoldable pub same_name : List ℕ → List ℕ → Bool
same_name [] [] = true
same_name [] (b ∷ bs) = false
same_name (a ∷ as') [] = false
same_name (a ∷ as') (b ∷ bs) = a == b && same_name as' bs

pub findmodulebygroup : List Module → ℕ → Option Module
findmodulebygroup [] group = none
findmodulebygroup (cur ∷ next) group =
    if cur.family == group then some cur else findmodulebygroup next group

unfoldable pub findmodule : List Module → List ℕ → Option Module
findmodule [] name = none
findmodule (cur ∷ next) name = if same_name name cur.name then some cur else findmodule next name

-- `shutdown` runs a module's function.
abbrev pub shut : {S : Type 0} → (ℕ → S → S) → Module → S → S
shut run m s = elim m.shutdown [ none ↦ s | some f ↦ run f s ]

-- `first` is what `modfirst` makes of the new module, none for its -1. The result is whether 0 is
-- returned, and the list.
unfoldable pub registermodule :
    {S : Type 0}
    → Allocator
    → (ℕ → S → S)
    → List Module
    → Option Module
    → S
    → Bool × List Module × S
registermodule malloc run mods first s =
    if not (malloc Request.module_s) then (false, mods, s) else elim first [
      | none ↦ (false, mods, s)
      | some m ↦ elim (findmodule mods m.name) [
        | some old ↦ (false, mods, shut run m s)
        | none ↦ (true, m ∷ mods, s)
      ]
    ]

unfoldable pub shutdownmodules : {S : Type 0} → (ℕ → S → S) → List Module → S → List Module × S
shutdownmodules run [] s = ([], s)
shutdownmodules run (cur ∷ next) s = shutdownmodules run next (shut run cur s)

-- What the functions behind the pointers do: a module's handler, a client's for a frame, and a client's
-- for a connection error, with the code and the message. Their results count as zero or not.
pub record Calls (S : Type 0) : Type 0 where
  pub snachandler : ℕ → Session → ℕ → Modsnac → S → Bool × Session × S
  pub callback : ℕ → Session → ℕ → S → Bool × Session × S
  pub connerr : ℕ → Session → ℕ → ℕ → Option (List ℕ) → S → Bool × Session × S

-- The SNACs that may not be hooked.
pub checkdisallowed : ℕ → ℕ → Bool
checkdisallowed group type =
    group == 1
    && (type == 2
        || (type == 3
            || (type == 6 || (type == 7 || (type == 8 || (type == 0x17 || type == 0x18))))))

-- The library's own handler, which stands where the client gives NULL.
abbrev pub bleck : ℕ
bleck = 0

-- Whether 0 is returned, and the list.
pub addhandler : Allocator → List Handler → (family type : ℕ) → Option ℕ → ℕ → Bool × List Handler
addhandler calloc list family type newhandler flags =
    if checkdisallowed family type || not (calloc Request.handler) then (false, list) else (
      true,
      list
          ++ record {
            family = family;
            type = type;
            handler = elim newhandler [ none ↦ bleck | some f ↦ f ];
            flags = flags;
          }
            ∷ [],
    )

pub clearhandlers : List Handler → List Handler
clearhandlers list = []

pub clonehandlers : Allocator → List Handler → List Handler → List Handler
clonehandlers calloc dest [] = dest
clonehandlers calloc dest (cur ∷ src) =
    clonehandlers calloc (addhandler calloc dest cur.family cur.type (some cur.handler) cur.flags).1
      src

-- AIM_CB_SPECIAL_DEFAULT
abbrev pub special_default : ℕ
special_default = 0xffff

-- The walk over the list.
pub find_handler : List Handler → ℕ → ℕ → Option ℕ
find_handler [] family type = none
find_handler (cur ∷ next) family type =
    if cur.family == family && cur.type == type
    then some cur.handler
    else find_handler next family type

-- The outer `none` is fuel that ran out.
pub callhandler_rec : ℕ → List Handler → ℕ → ℕ → Option (Option ℕ)
callhandler_rec zero list family type = none
callhandler_rec (suc fuel) list family type = elim (find_handler list family type) [
  | some f ↦ some (some f)
  | none ↦ elim (type == special_default) [
    | true ↦ some none
    | false ↦ callhandler_rec fuel list family special_default
  ]
]

-- Two calls are enough.
pub callhandler : List Handler → ℕ → ℕ → Option ℕ
callhandler list family type = elim (callhandler_rec 2 list family type) [
  | none ↦ none
  | some r ↦ r
]

-- An assignment to fields of the frame at a place of the queue.
abbrev pub change : {A : Type 0} → ℕ → (A → A) → List A → List A
change i f [] = []
change zero f (x ∷ xs) = f x ∷ xs
change (suc i) f (x ∷ xs) = x ∷ change i f xs

abbrev pub set_frame : Session → ℕ → (Frame → Frame) → Session
set_frame sess i f = record sess { queue_incoming = change i f sess.queue_incoming }
