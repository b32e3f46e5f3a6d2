-- ===== src/Tlv/RoundTrip.antt =====
-- A chain that is written and read again.
use libfaim.Prelude.{
  ℕ, ◌+◌, ◌<◌, ◌≡◌, refl, ap, sym, ◌∙◌, List, [], ◌++◌, arith, length, append-nil, All,
  append_assoc, length-append,
}
use mathlib.Core.List.{reverse}
use libfaim.Prelude.Alloc.{Allocator}
use libfaim.Bstream.{Bstream, IsValid, empty}
use libfaim.Bstream.View.{
  cursor, Bstream-eq, front, rest, back, cursor_lem, length-front, length-rest,
}
use libfaim.Bstream.RoundTrip.{back_to}
use libfaim.Tlv.{Tlv, IsTlv, done, sizetlvchain, writetlvchain, readtlvchain}
use libfaim.Tlv.Encoding.{chain_bytes, length-chain_bytes}
use libfaim.Tlv.Write.{writetlvchain-cursor}
use libfaim.Tlv.Read.{Grants, readtlvchain-chain}

module _ (malloc : Allocator) (grants : Grants malloc) (ts : List Tlv) (w : All IsTlv ts) where
  round_at :
      (pre old post : List ℕ) (fuel : ℕ)
      → length old ≡ sizetlvchain ts
      → length pre + sizetlvchain ts < 65536
      → length ts < fuel
      → (let t = (writetlvchain (cursor pre old post) ts).1 in
          readtlvchain malloc fuel (back_to (cursor pre old post) t) ≡ done (reverse ts) t)
  round_at pre old post fuel e fits enough = rw (written) (
      rw again (
        readtlvchain-chain malloc grants pre post ts w fuel (omega (arith, length-chain_bytes ts w))
          enough))
    where
      written : writetlvchain (cursor pre old post) ts ≡ (1, cursor (pre ++ chain_bytes ts) [] post)
      written =
          ap (λ x. writetlvchain (cursor pre x post) ts) (sym (append-nil old))
          ∙ writetlvchain-cursor ts pre old [] post w e (omega arith)

      again :
          back_to (cursor pre old post) (cursor (pre ++ chain_bytes ts) [] post)
          ≡ cursor pre (chain_bytes ts) post
      again =
          Bstream-eq (append_assoc pre (chain_bytes ts) post)
            (omega (arith, length-append pre (chain_bytes ts))) refl

  -- A well-formed chain that fills exactly the room of a valid stream is written and, read from the
  -- position where it was put, comes back in reverse order, with the stream at its end. Memory is
  -- granted, and the rounds allowed are more than the chain has elements.
  pub readtlvchain-writetlvchain :
      (bs : Bstream) (fuel : ℕ)
      → IsValid bs
      → sizetlvchain ts ≡ empty bs
      → length ts < fuel
      → readtlvchain malloc fuel (back_to bs (writetlvchain bs ts).1)
        ≡ done (reverse ts) (writetlvchain bs ts).1
  unfolding empty
  readtlvchain-writetlvchain bs fuel v e enough = rw (cursor_lem bs v) (
      round_at (front bs) (rest bs) (back bs) fuel (omega (arith, length-rest bs v))
        (omega (arith, length-front bs v, v.offset_in, v.len_u16)) enough)
