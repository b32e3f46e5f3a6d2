-- ===== src/Service.antt =====
-- src/service.c: the beginning of every connection (the server's families, the versions, the rates) and
-- the requests of family 1. Rate classes belong to a connection; they are a list beside it.
pub mod Rates
pub mod Acknowledged
pub mod Groups
mod Tests
use libfaim.Prelude.{
  ℕ, zero, suc, ◌+◌, ◌-◌, ◌/◌, ◌%◌, Bool, true, false, not, ◌&&◌, Option, none, some, List, [], ◌∷◌,
  ◌++◌, ltb, ◌==◌, if◌then◌else◌, length, take, replicate, has_bit, set_bit,
}
use libfaim.Prelude.Alloc.{Allocator, Request}
use libfaim.Bstream.{Bstream, empty, get16, get32, copy_out, getraw, put16, put32, putraw}
use libfaim.Bstream.Words.{be32}
use libfaim.Os.{Os}
use libfaim.Session.{Conn, Frame, Session, conn_at, set_conn}
use libfaim.Rxhandlers.{Module, findmodulebygroup, callhandler}
use libfaim.Connection.{Whole, addgroup}
use libfaim.Requests.{Status, request, add_tlvs, reqrates}
use libfaim.Tlv.{writetlvchain}

pub record Rateclass : Type 0 where
  pub classid : ℕ
  pub windowsize : ℕ
  pub clear : ℕ
  pub alert : ℕ
  pub limit : ℕ
  pub disconnect : ℕ
  pub current : ℕ
  pub max : ℕ
  pub unknown : List ℕ
  pub members : List (ℕ × ℕ)

-- The copy is the last of the list.
rc_addclass : Allocator → List Rateclass → Rateclass → List Rateclass
rc_addclass malloc head inrc = if malloc Request.rateclass then head ++ inrc ∷ [] else head

-- The first class with the id: its place in the list.
pub rc_findclass : List Rateclass → ℕ → Option ℕ
rc_findclass [] id = none
rc_findclass (rc ∷ next) id = elim (rc.classid == id) [
  | true ↦ some 0
  | false ↦ elim (rc_findclass next id) [ none ↦ none | some i ↦ some (suc i) ]
]

rc_addpair : Allocator → (group type : ℕ) → Rateclass → Rateclass
rc_addpair malloc group type rc =
    if malloc Request.snacpair then record rc { members = rc.members ++ (group, type) ∷ [] } else rc

-- An assignment to the class at a place.
set_class : ℕ → (Rateclass → Rateclass) → List Rateclass → List Rateclass
set_class i f [] = []
set_class zero f (rc ∷ rest) = f rc ∷ rest
set_class (suc i) f (rc ∷ rest) = rc ∷ set_class i f rest

-- The parameters of one class; newer versions of family 1 have five bytes more.
read_class : (version : ℕ) → Bstream → Rateclass × Bstream
read_class version bs =
    let (classid, b1) = get16 bs in
    let (windowsize, b2) = get32 b1 in
    let (clear, b3) = get32 b2 in
    let (alert, b4) = get32 b3 in
    let (limit, b5) = get32 b4 in
    let (disconnect, b6) = get32 b5 in
    let (current, b7) = get32 b6 in
    let (max, b8) = get32 b7 in
    let (n, unknown, b9) = copy_out b8 5 in
    (
      record {
        classid = classid;
        windowsize = windowsize;
        clear = clear;
        alert = alert;
        limit = limit;
        disconnect = disconnect;
        current = current;
        max = max;
        unknown =
            if ltb version 3 then replicate 5 0 else if n == 0 then replicate 5 0 else unknown;
        members = [];
      },
      if ltb version 3 then b8 else b9,
    )

pub read_classes :
    Allocator → (version numclasses : ℕ) → Bstream → List Rateclass → List Rateclass × Bstream
read_classes malloc version zero bs rates = (rates, bs)
read_classes malloc version (suc n) bs rates =
    let (rc, bs') = read_class version bs in
    read_classes malloc version n bs' (rc_addclass malloc rates rc)

-- The pairs of one class are read even where there is no such class.
pub read_pairs :
    Allocator → Option ℕ → (count : ℕ) → Bstream → List Rateclass → List Rateclass × Bstream
read_pairs malloc place zero bs rates = (rates, bs)
read_pairs malloc place (suc n) bs rates =
    let (group, b1) = get16 bs in
    let (subtype, b2) = get16 b1 in
    read_pairs malloc place n b2
      (elim place [ none ↦ rates | some i ↦ set_class i (rc_addpair malloc group subtype) rates ])

pub read_members :
    Allocator → (numclasses : ℕ) → Bstream → List Rateclass → List Rateclass × Bstream
read_members malloc zero bs rates = (rates, bs)
read_members malloc (suc n) bs rates =
    let (classid, b1) = get16 bs in
    let (count, b2) = get16 b1 in
    let (rates', b3) = read_pairs malloc (rc_findclass rates classid) count b2 rates in
    read_members malloc n b3 rates'

-- The reading of the rate parameters, before they are acknowledged.
pub read_rates : Allocator → (version : ℕ) → Bstream → List Rateclass → List Rateclass × Bstream
read_rates malloc version bs rates =
    let (numclasses, b1) = get16 bs in
    let (rates', b2) = read_classes malloc version numclasses b1 rates in
    read_members malloc numclasses b2 rates'

-- The families of the server: each is stored in a block of as many bytes as the stream had, `room` of
-- which are left, and added to the connection. `none` is a write past the block.
read_groups : Allocator → (room : ℕ) → Bstream → Conn → Option Conn
read_groups malloc zero bs conn = if empty bs == 0 then some conn else none
read_groups malloc (suc zero) bs conn = if empty bs == 0 then some conn else none
read_groups malloc (suc (suc room)) bs conn = elim (empty bs == 0) [
  | true ↦ some conn
  | false ↦ let (group, bs') = get16 bs in read_groups malloc room bs' (addgroup malloc group conn)
]

-- The modules' numbers for those of the groups that have a module.
put_version : Bstream → Option Module → Bstream
put_version bs none = bs
put_version bs (some m) = (put16 (put16 bs m.family).1 m.version).1

put_versions : List Module → (groups : List ℕ) → Bstream → Bstream
put_versions mods [] bs = bs
put_versions mods (sg ∷ next) bs =
    put_versions mods next (put_version bs (findmodulebygroup mods sg))

put_tool : Bstream → Option Module → Bstream
put_tool bs none = bs
put_tool bs (some m) =
    (put16 (put16 (put16 (put16 bs m.family).1 m.version).1 m.toolid).1 m.toolversion).1

put_tools : List Module → (groups : List ℕ) → Bstream → Bstream
put_tools mods [] bs = bs
put_tools mods (sg ∷ next) bs = put_tools mods next (put_tool bs (findmodulebygroup mods sg))

pub put_words : List ℕ → Bstream → Bstream
put_words [] bs = bs
put_words (x ∷ xs) bs = put_words xs (put16 bs x).1

abbrev pub classids : List Rateclass → List ℕ
classids [] = []
classids (rc ∷ next) = rc.classid ∷ classids next

-- The 16 bytes that answer a request for a block of the client's memory: a hash that is given, the hash
-- of what is given or of nothing, or a known answer; otherwise nothing is written.
memblock_answer :
    (md5 : List ℕ → List ℕ) → (offset len : ℕ) → Option (List ℕ) → Bool → Bstream → Bstream
memblock_answer md5 offset len none hash bs =
    if len == 0
    then (putraw bs (md5 []) 0x10).1
    else if (offset == 0x03ffffff) && (len == 0x03ffffff)
    then (put32 (put32 (put32 (put32 bs 0x44a95d26).1 0xd2490423).1 0x93b8821f).1 0x51c54b01).1
    else bs
memblock_answer md5 offset len (some buf) hash bs =
    if hash && (len == 0x10)
    then (putraw bs buf 0x10).1
    else if ltb 0 len
    then (putraw bs (md5 (take len buf)) 0x10).1
    else (putraw bs (md5 []) 0x10).1

module _ {S : Type 0} (os : Os S) (malloc : Allocator) (ulong : ℕ) (block fresh : ℕ → List ℕ)
    (user_enqueue : ℕ → Session → Frame → S → Option (Session × S)) where
  -- A request of family 1 without content in the cache.
  abbrev family_one :
      (subtype size : ℕ) → (Bstream → Bstream) → Whole → Conn → S → Option (Status × Whole × S)
  family_one subtype size body w conn s =
      request os malloc ulong block fresh user_enqueue 0x0001 subtype size [] (λ bs. some (body bs))
        w conn s

  clientready : Whole → Conn → S → Option (Status × Whole × S)
  clientready w conn s = family_one 0x0002 1152 (put_tools w.modlist conn.groups) w conn s

  pub setversions : Whole → Conn → S → Option (Status × Whole × S)
  setversions w conn s = family_one 0x0017 1152 (put_versions w.modlist conn.groups) w conn s

  pub rates_addparam : List Rateclass → Whole → Conn → S → Option (Status × Whole × S)
  rates_addparam rates w conn s = family_one 0x0008 512 (put_words (classids rates)) w conn s

  rates_delparam : List Rateclass → Whole → Conn → S → Option (Status × Whole × S)
  rates_delparam rates w conn s = family_one 0x0009 512 (put_words (classids rates)) w conn s

  sendpauseack : Whole → Conn → S → Option (Status × Whole × S)
  sendpauseack w conn s = family_one 0x000c 1024 (put_words conn.groups) w conn s

  -- `0x00030000 | status`
  setextstatus : (status : ℕ) → Whole → Conn → S → Option (Status × Whole × S)
  setextstatus status w conn s =
      request os malloc ulong block fresh user_enqueue 0x0001 0x001e (10 + 8) []
        (λ bs. elim (add_tlvs malloc [] ((0x0006, be32 (set_bit 16 (set_bit 17 status))) ∷ [])) [
          | none ↦ none
          | some tl ↦ some (writetlvchain bs tl).1
        ])
        w conn s

  -- `buf` may be NULL; `hash` is the flag that says that it is a hash already.
  sendmemblock :
      (md5 : List ℕ → List ℕ)
      → (offset len : ℕ) → (buf : Option (List ℕ)) → (hash : Bool) → Whole
      → Conn
      → S
      → Option (Status × Whole × S)
  sendmemblock md5 offset len buf hash w conn s =
      family_one 0x0020 (10 + 2 + 16)
        (λ bs. memblock_answer md5 offset len buf hash (put16 bs 0x0010).1) w conn s

  -- The server's families are added to the frame's connection, and the versions are sent. The result is
  -- whether 1 is returned; `none` is a fault.
  pub hostonline : (addr : ℕ) → Bstream → Whole → S → Option (Bool × Whole × S)
  hostonline addr bs w s =
      if not (malloc (Request.bytes (empty bs)))
      then some (false, w, s)
      else elim (conn_at w.core.connlist addr) [
        | none ↦ none
        | some conn ↦ elim (read_groups malloc (empty bs) bs conn) [
          | none ↦ none
          | some conn' ↦
              elim (setversions
                (record w { core = set_conn w.core addr (λ c. record c { groups = conn'.groups }) })
                conn' s) [ none ↦ none | some (st, w', s') ↦ some (true, w', s') ]
        ]
      ]

  -- The versions are read over, and the rates asked for.
  hostversions : (conn : Conn) → Bstream → Whole → S → Option (Bool × Whole × S)
  hostversions conn bs w s = elim (reqrates os malloc ulong block fresh user_enqueue w conn s) [
    | none ↦ none
    | some (st, w', s') ↦ some (true, w', s')
  ]

  -- The classes are acknowledged, and the client hears that the connection is set up: `client` is its
  -- handler. The results are the connection's classes and the rest.
  acknowledge :
      (client : ℕ → Whole → S → Option (Whole × S))
      → (conn : Conn) → List Rateclass
      → Whole
      → S
      → Option (List Rateclass × Whole × S)
  acknowledge client conn rates w s = elim (rates_addparam rates w conn s) [
    | none ↦ none
    | some (st, w', s') ↦ elim (callhandler conn.handlerlist 0xffff 0x0006) [
      | none ↦ some (rates, w', s')
      | some f ↦ elim (client f w' s') [ none ↦ none | some (w'', s'') ↦ some (rates, w'', s'') ]
    ]
  ]

  pub rateresp :
      (version : ℕ)
      → (client : ℕ → Whole → S → Option (Whole × S)) → (conn : Conn) → List Rateclass
      → Bstream
      → Whole
      → S
      → Option (List Rateclass × Whole × S)
  rateresp version client conn rates bs w s =
      acknowledge client conn (read_rates malloc version bs rates).0 w s
