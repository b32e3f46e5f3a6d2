-- ===== src/Tlv.antt =====
-- src/tlv.c: chains of type-length-value records. A chain is the list of its elements; NULL is the
-- empty list, which the source does not tell from an empty chain. Memory given back is not modelled.
pub mod Encoding
pub mod Write
pub mod Read
pub mod Lookup
pub mod Build
pub mod RoundTrip
mod Tests
use libfaim.Prelude.{
  ℕ, zero, suc, ◌+◌, ◌<◌, ◌≡◌, Bool, true, false, not, ◌||◌, Option, none, some, List, [], ◌∷◌,
  ◌++◌, ltb, leb, ◌==◌, if◌then◌else◌, u16, take, length, All, IsByte, IsU16,
}
use libfaim.Prelude.Alloc.{Allocator, Request}
use libfaim.Bstream.{Bstream, init, empty, curpos, get16, getraw, put16, putraw}
use libfaim.Bstream.Words.{be8, be16, be32, get8_at, get16_at, get32_at}

-- `value` is the memory behind the pointer; a NULL value is empty.
pub record Tlv : Type 0 where
  pub type : ℕ
  pub len : ℕ
  pub value : List ℕ

-- One round of the loop of `aim_readtlvchain`: `stop` goes to `errout`.
pub data Round : Type 0 where
  stop : Bstream → Round
  item : Tlv → Bstream → Round

pub data Outcome : Type 0 where
  done : List Tlv → Bstream → Outcome
  out_of_fuel : Outcome

-- The value of an element whose header has been read.
pub read_value : Allocator → ℕ → ℕ → Bstream → Round
read_value malloc type len bs =
    if len == 0
    then item (record { type = type; len = 0; value = [] }) bs
    else let (ob, bs') = getraw malloc bs len in
      elim ob [ none ↦ stop bs' | some v ↦ item (record { type = type; len = len; value = v }) bs' ]

pub read_one : Allocator → Bstream → Round
read_one malloc bs =
    let (type, b1) = get16 bs in
    let (len, b2) = get16 b1 in
    if ltb (empty b2) len || not (malloc Request.tlvlist) || not (malloc Request.tlv)
    then stop b2
    else read_value malloc type len b2

-- The elements are put in front, so the chain that is returned is in reverse order.
pub readtlv_loop : Allocator → ℕ → Bstream → List Tlv → Outcome
readtlv_loop malloc zero bs list = out_of_fuel
readtlv_loop malloc (suc fuel) bs list = elim (ltb 0 (empty bs)) [
  | false ↦ done list bs
  | true ↦ elim (read_one malloc bs) [
    | stop bs' ↦ done [] bs'
    | item t bs' ↦ readtlv_loop malloc fuel bs' (t ∷ list)
  ]
]

pub readtlvchain : Allocator → ℕ → Bstream → Outcome
readtlvchain malloc fuel bs = readtlv_loop malloc fuel bs []

unfoldable pub counttlvchain : List Tlv → ℕ
counttlvchain [] = 0
counttlvchain (t ∷ ts) = counttlvchain ts + 1

unfoldable pub sizetlvchain : List Tlv → ℕ
sizetlvchain [] = 0
sizetlvchain (t ∷ ts) = 4 + t.len + sizetlvchain ts

pub put_tlv : Bstream → Tlv → Bstream
put_tlv bs t =
    let b1 = (put16 bs t.type).1 in
    let b2 = (put16 b1 t.len).1 in if t.len == 0 then b2 else (putraw b2 t.value t.len).1

pub put_tlvs : Bstream → List Tlv → Bstream
put_tlvs bs [] = bs
put_tlvs bs (t ∷ ts) = put_tlvs (put_tlv bs t) ts

-- The first run over the chain adds up what `sizetlvchain` does.
pub writetlvchain : Bstream → List Tlv → ℕ × Bstream
writetlvchain bs list =
    if ltb (empty bs) (sizetlvchain list) then (0, bs) else (1, put_tlvs bs list)

-- What a call does to the chain. `fault` is a copy to or from memory that is not there.
pub data Result (A : Type 0) : Type 0 where
  ok : A → Result A
  fault : Result A

-- The length returned and the chain. The allocation of the value is not checked.
pub addtlvtochain_raw : Allocator → List Tlv → ℕ → ℕ → List ℕ → Result (ℕ × List Tlv)
addtlvtochain_raw malloc list t l v =
    if not (malloc Request.tlvlist) || not (malloc Request.tlv)
    then ok (0, list)
    else if l == 0
    then ok (0, list ++ record { type = t; len = 0; value = [] } ∷ [])
    else if not (malloc (Request.bytes l)) || ltb (length v) l
    then fault
    else ok (l, list ++ record { type = t; len = l; value = take l v } ∷ [])

pub addtlvtochain8 : Allocator → List Tlv → ℕ → ℕ → Result (ℕ × List Tlv)
addtlvtochain8 malloc list t v = addtlvtochain_raw malloc list t 1 (be8 v)

pub addtlvtochain16 : Allocator → List Tlv → ℕ → ℕ → Result (ℕ × List Tlv)
addtlvtochain16 malloc list t v = addtlvtochain_raw malloc list t 2 (be16 v)

pub addtlvtochain32 : Allocator → List Tlv → ℕ → ℕ → Result (ℕ × List Tlv)
addtlvtochain32 malloc list t v = addtlvtochain_raw malloc list t 4 (be32 v)

addtlvtochain_noval : Allocator → List Tlv → ℕ → Result (ℕ × List Tlv)
addtlvtochain_noval malloc list t = addtlvtochain_raw malloc list t 0 []

-- `fresh` is the block that `malloc(buflen)` returns, whatever it holds. The stream's `len` and the
-- new element's length are 16 bits wide.
pub addtlvtochain_frozentlvlist :
    Allocator → List ℕ → List Tlv → ℕ → List Tlv → Result (ℕ × List Tlv)
addtlvtochain_frozentlvlist malloc fresh list type tl =
    let buflen = sizetlvchain tl in
    if buflen == 0 || not (malloc (Request.bytes buflen))
    then ok (0, list)
    else let bs = (writetlvchain (init fresh buflen) tl).1 in
      elim (addtlvtochain_raw malloc list type (u16 (curpos bs)) bs.buf) [
        | fault ↦ fault
        | ok (l, list') ↦ ok (buflen, list')
      ]

-- The loop of `aim_gettlv`; `i` counts the elements of type `t` so far.
pub gettlv_from : List Tlv → ℕ → ℕ → ℕ → Option Tlv
gettlv_from [] t n i = none
gettlv_from (x ∷ xs) t n i =
    let i' = if x.type == t then i + 1 else i in
    let later = gettlv_from xs t n i' in if leb n i' then some x else later

pub gettlv : List Tlv → ℕ → ℕ → Option Tlv
gettlv list t n = gettlv_from list t n 0

-- The string's terminating NUL is part of it; the allocation is not checked.
pub gettlv_str : Allocator → List Tlv → ℕ → ℕ → Result (Option (List ℕ))
gettlv_str malloc list t n = elim (gettlv list t n) [
  | none ↦ ok none
  | some tlv ↦
      if not (malloc (Request.bytes (tlv.len + 1))) || ltb (length tlv.value) tlv.len
      then fault
      else ok (some (take tlv.len tlv.value ++ 0 ∷ []))
]

-- A number of `k` bytes at the start of the value; the source does not look at the length first.
abbrev read_number : (List ℕ → ℕ → ℕ) → ℕ → Option Tlv → Result ℕ
read_number reader k none = ok 0
read_number reader k (some tlv) =
    if ltb (length tlv.value) k then fault else ok (reader tlv.value 0)

pub gettlv8 : List Tlv → ℕ → ℕ → Result ℕ
gettlv8 list t n = read_number get8_at 1 (gettlv list t n)

pub gettlv16 : List Tlv → ℕ → ℕ → Result ℕ
gettlv16 list t n = read_number get16_at 2 (gettlv list t n)

pub gettlv32 : List Tlv → ℕ → ℕ → Result ℕ
gettlv32 list t n = read_number get32_at 4 (gettlv list t n)

-- An element as the library makes it: its length is that of its value, and fits its field.
pub record IsTlv (t : Tlv) : Type 0 where
  pub type_u16 : IsU16 t.type
  pub len_u16 : IsU16 t.len
  pub len_lem : length t.value ≡ t.len
