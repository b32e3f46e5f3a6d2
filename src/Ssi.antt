-- ===== src/Ssi.antt =====
-- src/ssi.c, parsedata: the list of items that the server stores for a user, and aim_ssi_reqdata, which
-- asks for it.
pub mod Entries
pub mod Items
mod Tests
use libfaim.Prelude.{
  ℕ, zero, suc, ◌+◌, Bool, true, false, not, Option, none, some, List, [], ◌∷◌, ltb, ◌==◌,
  if◌then◌else◌, length, drop,
}
use libfaim.Prelude.Alloc.{Allocator, Request}
use libfaim.Prelude.Int.{pos}
use libfaim.Bstream.{Bstream, init, empty, advance, get8, get16, get32, getstr, put16, put32}
use libfaim.Os.{Os}
use libfaim.Session.{Conn, Frame, Session, Handler}
use libfaim.Rxhandlers.{Modsnac}
use libfaim.Connection.{Whole}
use libfaim.Requests.{Status, request}
use libfaim.Tlv.{Tlv, done, out_of_fuel, readtlvchain}
use libfaim.Parsing.{Answer, crashed, unending, Client, tell}

-- aim_ssi_item
pub record SsiItem : Type 0 where
  pub name : Option (List ℕ)
  pub gid : ℕ
  pub bid : ℕ
  pub type : ℕ
  pub data_chain : List Tlv

-- What a part of the loop comes to: a value and the stream, a fault, or no end.
pub data Step (A : Type 0) : Type 0 where
  moved : A → Bstream → Step A
  torn stuck : Step A

pub read_name : Allocator → Bstream → Option (List ℕ) × Bstream
read_name malloc bs =
    let (namelen, b1) = get16 bs in if namelen == 0 then (none, b1) else getstr malloc b1 namelen

-- The chain is read from a stream of its own over the same memory, of the length that the item claims,
-- and then passed over. A length that goes past the memory is taken for a fault.
pub read_data : Allocator → (fuel tbslen : ℕ) → Bstream → Step (List Tlv)
read_data malloc fuel tbslen bs = elim (tbslen == 0) [
  | true ↦ moved [] bs
  | false ↦
      let memory = drop bs.offset bs.buf in
      elim (ltb (length memory) tbslen) [
        | true ↦ torn
        | false ↦ elim (readtlvchain malloc fuel (init memory tbslen)) [
          | out_of_fuel ↦ stuck
          | done list tbs ↦ moved list (advance bs (pos tbslen)).1
        ]
      ]
]

pub with_data : Option (List ℕ) → (gid bid type : ℕ) → Step (List Tlv) → Step SsiItem
with_data name gid bid type torn = torn
with_data name gid bid type stuck = stuck
with_data name gid bid type (moved list bs) =
    moved (record { name = name; gid = gid; bid = bid; type = type; data_chain = list }) bs

pub read_item : Allocator → (fuel : ℕ) → Bstream → Step SsiItem
read_item malloc fuel bs =
    let (name, b1) = read_name malloc bs in
    let (gid, b2) = get16 b1 in
    let (bid, b3) = get16 b2 in
    let (type, b4) = get16 b3 in
    let (tbslen, b5) = get16 b4 in with_data name gid bid type (read_data malloc fuel tbslen b5)

pub in_front : SsiItem → Step (List SsiItem) → Step (List SsiItem)
in_front it torn = torn
in_front it stuck = stuck
in_front it (moved list bs) = moved (it ∷ list) bs

-- The last four bytes are the stamp. The items are in their order; without memory the loop ends.
pub read_items : Allocator → (fuel rounds : ℕ) → Bstream → Step (List SsiItem)
read_items malloc fuel zero bs = stuck
read_items malloc fuel (suc rounds) bs = elim (ltb 4 (empty bs)) [
  | false ↦ moved [] bs
  | true ↦ elim (malloc Request.ssi_item) [
    | false ↦ moved [] bs
    | true ↦ elim (read_item malloc fuel bs) [
      | torn ↦ torn
      | stuck ↦ stuck
      | moved it bs' ↦ in_front it (read_items malloc fuel rounds bs')
    ]
  ]
]

-- The format, the number of items as the frame says, the stamp, and the items.
pub parsedata :
    {S : Type 0}
    → Allocator
    → (fuel rounds : ℕ) → List Handler
    → Modsnac
    → Client (ℕ × ℕ × ℕ × List SsiItem) S
    → Bstream
    → S
    → Answer S
parsedata malloc fuel rounds handlers snac client bs s =
    let (fmtver, b1) = get8 bs in
    let (itemcount, b2) = get16 b1 in
    elim (read_items malloc fuel rounds b2) [
      | torn ↦ crashed
      | stuck ↦ unending
      | moved list b3 ↦ tell handlers snac client (pos 0) (fmtver, itemcount, (get32 b3).0, list) s
    ]

ssi_reqdata :
    {S : Type 0} (os : Os S) (malloc : Allocator) (ulong : ℕ) (block fresh : ℕ → List ℕ)
    (user_enqueue : ℕ → Session → Frame → S → Option (Session × S))
    → (localstamp localrev : ℕ) → Whole
    → Conn
    → S
    → Option (Status × Whole × S)
ssi_reqdata os malloc ulong block fresh user_enqueue localstamp localrev w conn s =
    request os malloc ulong block fresh user_enqueue 0x0013 0x0005 (10 + 4 + 2) []
      (λ bs. some (put16 (put32 bs localstamp).1 localrev).1) w conn s
