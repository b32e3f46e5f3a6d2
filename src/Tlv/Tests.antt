-- ===== src/Tlv/Tests.antt =====
-- The TLV chains on small examples.
use libfaim.Prelude.{
  ◌≡◌, refl, true, List, [], ◌∷◌, ◌++◌, arith, All, ltb, if◌then◌else◌, drop, replicate,
}
use libfaim.Prelude.Alloc.{Allocator}
use libfaim.Bstream.{Bstream, IsValid, empty}
use libfaim.Bstream.View.{cursor, front, rest, back}
use libfaim.Bstream.Words.{be16}
use libfaim.Bstream.RoundTrip.{back_to}
use libfaim.Tlv.{
  Tlv, IsTlv, done, out_of_fuel, readtlvchain, writetlvchain, sizetlvchain, ok,
  addtlvtochain_frozentlvlist,
}
use libfaim.Tlv.Encoding.{chain_bytes}
use libfaim.Tlv.Write.{writetlvchain_lem}
use libfaim.Tlv.Read.{readtlvchain_short, readtlvchain_stuck, Grants}
use libfaim.Tlv.Build.{element, addtlvtochain_frozentlvlist_lem}
use libfaim.Tlv.RoundTrip.{readtlvchain-writetlvchain}

-- A screen name of three bytes, and a flag without a value.
abbrev screen_name : Tlv
screen_name = record { type = 1; len = 3; value = 0x61 ∷ 0x6f ∷ 0x6c ∷ [] }

abbrev flag : Tlv
flag = record { type = 0x4a; len = 0; value = [] }

abbrev chain : List Tlv
chain = screen_name ∷ flag ∷ []

chain-IsTlv : All IsTlv chain
chain-IsTlv = (
  record { type_u16 = omega arith; len_u16 = omega arith; len_lem = refl },
  (record { type_u16 = omega arith; len_u16 = omega arith; len_lem = refl }, tt),
)

abbrev always : Allocator
always q = true

always-Grants : Grants always
always-Grants q = refl

-- A buffer of twelve bytes, the first of them used: room for the chain.
abbrev twelve : Bstream
twelve = record { buf = 9 ∷ 0 ∷ 0 ∷ 0 ∷ 0 ∷ 0 ∷ 0 ∷ 0 ∷ 0 ∷ 0 ∷ 0 ∷ 0 ∷ []; len = 12; offset = 1 }

twelve-IsValid : IsValid twelve
twelve-IsValid = record {
  offset_in = omega arith;
  len_in = omega arith;
  len_u16 = omega arith;
  bytes_in = ground arith;
}

readtlvchain-writetlvchain_example :
    readtlvchain always 3 (back_to twelve (writetlvchain twelve chain).1)
    ≡ done (flag ∷ screen_name ∷ []) (writetlvchain twelve chain).1
unfolding empty sizetlvchain
readtlvchain-writetlvchain_example =
    readtlvchain-writetlvchain always always-Grants chain chain-IsTlv twelve 3 twelve-IsValid refl
      (omega arith)

writetlvchain_lem_example : writetlvchain twelve chain ≡ (
    if ltb (empty twelve) (sizetlvchain chain) then (0, twelve) else (
      1,
      cursor
          (front twelve ++ chain_bytes chain)
          (drop (sizetlvchain chain) (rest twelve))
          (back twelve),
    ))
writetlvchain_lem_example = writetlvchain_lem twelve chain twelve-IsValid chain-IsTlv

-- The last element claims nine bytes, and one is left.
readtlvchain_short_example :
    readtlvchain always 3 (cursor [] (chain_bytes chain ++ (be16 5 ++ (be16 9 ++ 1 ∷ []))) [])
    ≡ done [] (cursor ((([] ++ chain_bytes chain) ++ be16 5) ++ be16 9) (1 ∷ []) [])
unfolding be16
readtlvchain_short_example =
    readtlvchain_short always always-Grants [] [] chain chain-IsTlv 3 5 9 (1 ∷ []) (omega arith)
      (omega arith) (omega arith) (omega arith) (omega arith)

readtlvchain_stuck_example :
    readtlvchain always 1000 (cursor [] (chain_bytes chain ++ (7 ∷ [])) []) ≡ out_of_fuel
unfolding be16
readtlvchain_stuck_example =
    readtlvchain_stuck always always-Grants [] [] chain chain-IsTlv 1000 7 (omega arith)

addtlvtochain_frozentlvlist_lem_example :
    addtlvtochain_frozentlvlist always (replicate 11 0xff) [] 5 chain
    ≡ ok (11, element 5 (chain_bytes chain) ∷ [])
unfolding sizetlvchain
addtlvtochain_frozentlvlist_lem_example =
    addtlvtochain_frozentlvlist_lem always (replicate 11 0xff) [] 5 chain always-Grants chain-IsTlv
      refl (omega arith) (omega arith)
