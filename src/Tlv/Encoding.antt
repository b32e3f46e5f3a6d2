-- ===== src/Tlv/Encoding.antt =====
-- The bytes of a chain on the wire: type and length in network order, then the value.
use libfaim.Prelude.{
  ℕ, ◌+◌, ◌≡◌, refl, List, [], ◌∷◌, ◌++◌, arith, length, length-append, append_assoc, All, ap, ◌∙◌,
}
use libfaim.Bstream.Words.{be16}
use libfaim.Tlv.{Tlv, IsTlv, sizetlvchain}

abbrev pub tlv_bytes : Tlv → List ℕ
tlv_bytes t = be16 t.type ++ (be16 t.len ++ t.value)

abbrev pub chain_bytes : List Tlv → List ℕ
chain_bytes [] = []
chain_bytes (t ∷ ts) = tlv_bytes t ++ chain_bytes ts

pub length-be16 : (v : ℕ) → length (be16 v) ≡ 2
unfolding be16
length-be16 v = refl

pub length-tlv_bytes : (t : Tlv) → IsTlv t → length (tlv_bytes t) ≡ 4 + t.len
length-tlv_bytes t w = omega (
  arith,
  length-append (be16 t.type) (be16 t.len ++ t.value),
  length-append (be16 t.len) t.value,
  length-be16 t.type,
  length-be16 t.len,
  w.len_lem,
)

-- `aim_sizetlvchain` is the number of bytes that the chain takes.
pub length-chain_bytes : (ts : List Tlv) → All IsTlv ts → length (chain_bytes ts) ≡ sizetlvchain ts
unfolding sizetlvchain
length-chain_bytes [] w = refl
length-chain_bytes (t ∷ ts) w = omega (
  arith,
  length-append (tlv_bytes t) (chain_bytes ts),
  length-tlv_bytes t w.0,
  length-chain_bytes ts w.1,
)

-- The three fields of an element one after the other, as the readers meet them.
pub tlv_bytes-append :
    (t : Tlv) (r : List ℕ) → tlv_bytes t ++ r ≡ be16 t.type ++ (be16 t.len ++ (t.value ++ r))
tlv_bytes-append t r =
    append_assoc (be16 t.type) (be16 t.len ++ t.value) r
    ∙ ap (λ x. be16 t.type ++ x) (append_assoc (be16 t.len) t.value r)

pub pre-append :
    (pre : List ℕ) (t : Tlv) → ((pre ++ be16 t.type) ++ be16 t.len) ++ t.value ≡ pre ++ tlv_bytes t
pre-append pre t =
    append_assoc (pre ++ be16 t.type) (be16 t.len) t.value
    ∙ append_assoc pre (be16 t.type) (be16 t.len ++ t.value)
