-- ===== src/Parsing.antt =====
-- What the parsers of the protocol's families share: the reading of a TLV chain, and the call of the
-- client's handler with what was read. The handler is found by aim_callhandler in the list of the
-- frame's connection; what it does is a parameter.
use libfaim.Prelude.{ℕ, Option, none, some, List}
use libfaim.Prelude.Alloc.{Allocator}
use libfaim.Prelude.Int.{ℤ}
use libfaim.Bstream.{Bstream}
use libfaim.Session.{Handler}
use libfaim.Rxhandlers.{Modsnac, callhandler}
use libfaim.Tlv.{
  Tlv, Result, ok, fault, done, out_of_fuel, readtlvchain, gettlv16, gettlv32, gettlv_str,
}

-- How a parser ends: with its result, at a fault, or, as far as its fuel goes, not.
pub data Answer (S : Type 0) : Type 0 where
  answered : ℤ → S → Answer S
  crashed unending : Answer S

-- A client's function behind a pointer, with what it is given.
abbrev pub Client : Type 0 → Type 0 → Type 0
Client A S = ℕ → A → S → ℤ × S

-- `if ((userfunc = aim_callhandler(...))) ret = userfunc(...)`, with the result where there is none.
pub tell : {A S : Type 0} → List Handler → Modsnac → Client A S → (ret : ℤ) → A → S → Answer S
tell list snac client ret args s = elim (callhandler list snac.family snac.subtype) [
  | none ↦ answered ret s
  | some f ↦ let (r, s') = client f args s in answered r s'
]

-- A parser that goes on with the chain of the whole rest of the stream.
pub with_chain : {S : Type 0} → Allocator → (fuel : ℕ) → Bstream → (List Tlv → Answer S) → Answer S
with_chain malloc fuel bs go = elim (readtlvchain malloc fuel bs) [
  | out_of_fuel ↦ unending
  | done list bs' ↦ go list
]

infixl 5 ◌>>=◌
abbrev pub ◌>>=◌ : {A B : Type 0} → Result A → (A → Result B) → Result B
ok a >>= f = f a
fault >>= f = fault

pub or_crash : {A S : Type 0} → Result A → (A → Answer S) → Answer S
or_crash fault go = crashed
or_crash (ok a) go = go a

-- A number or a string of the first element of a type, where there is one.
pub number16 : List Tlv → ℕ → Result ℕ
number16 list t = gettlv16 list t 1

pub number32 : List Tlv → ℕ → Result ℕ
number32 list t = gettlv32 list t 1

pub string : Allocator → List Tlv → ℕ → Result (Option (List ℕ))
string malloc list t = gettlv_str malloc list t 1

-- The bytes of an element that may be NULL.
abbrev pub value_of : Option Tlv → Option (List ℕ)
value_of none = none
value_of (some t) = some t.value
