-- ===== src/Caps/RoundTrip.antt =====
-- aim_getcap after aim_putcap, and aim_addtlvtochain_caps.
use libfaim.Prelude.{
  ℕ, ◌≤◌, ◌<◌, ◌≡◌, refl, ap, sym, ◌∙◌, some, List, [], ◌∷◌, ◌++◌, arith, length, take, drop,
  length-take, length-drop, take-append-drop, append-nil, ne→==,
}
use libfaim.Prelude.Alloc.{Allocator}
use libfaim.Bstream.{init, curpos, rewind}
use libfaim.Bstream.View.{cursor, init-cursor, rewind-cursor}
use libfaim.Tlv.{Tlv, ok, addtlvtochain_raw}
use libfaim.Tlv.Read.{Grants}
use libfaim.Tlv.Build.{element, addtlvtochain_raw-front}
use libfaim.Caps.{aim_caps, getcap, putcap, addtlvtochain_caps}
use libfaim.Caps.Blocks.{blocks, putcap-cursor, getcap-blocks, length-blocks_all}

-- aim_putcap on a buffer that has room for the blocks.
putcap-init :
    (caps n : ℕ) (buf : List ℕ)
    → length buf ≡ n
    → n < 65536
    → length (blocks aim_caps caps) ≤ n
    → putcap (init buf n) caps
      ≡ cursor (blocks aim_caps caps) (drop (length (blocks aim_caps caps)) buf) []
putcap-init caps n buf e lt room =
    let m = length (blocks aim_caps caps) in
    let shape : init buf n ≡ cursor [] (take m buf ++ drop m buf) [] =
      init-cursor buf n (sym e) lt
      ∙ ap (λ t. cursor [] t []) (append-nil buf ∙ sym (take-append-drop m buf)) in
    ap (λ b. putcap b caps) shape
    ∙ putcap-cursor caps [] (take m buf) (drop m buf) [] (omega (arith, length-take m buf, e))
        (omega (arith, length-take m buf, length-drop m buf, e))

-- Any set of the seventeen capabilities, written by `aim_putcap` into a buffer of 272 bytes, is what
-- `aim_getcap` reads back from the bytes that were written, with memory granted; the stream stands
-- where the writing left it.
pub getcap-putcap :
    (malloc : Allocator) (caps : ℕ) (buf : List ℕ)
    → Grants malloc
    → caps < 131072
    → length buf ≡ 272
    → getcap malloc (rewind (putcap (init buf 272) caps)) (curpos (putcap (init buf 272) caps))
      ≡ some (caps, putcap (init buf 272) caps)
unfolding curpos
getcap-putcap malloc caps buf grants h e =
    let room = length-blocks_all caps in
    let xs = blocks aim_caps caps in
    let r = drop (length xs) buf in
    let put = putcap-init caps 272 buf e (omega arith) room in
    rw put (
      rw (rewind-cursor xs r []) (
        getcap-blocks malloc grants caps [] r [] h
          (omega (arith, length-drop (length xs) buf, room, e))))

-- The capabilities become one element, whose value is their blocks; up to 16 of them fit.
pub addtlvtochain_caps-append :
    (malloc : Allocator) (fresh : List ℕ) (list : List Tlv) (t caps : ℕ)
    → Grants malloc
    → length fresh ≡ 256
    → 0 < caps
    → length (blocks aim_caps caps) ≤ 256
    → addtlvtochain_caps malloc fresh list t caps
      ≡ ok (length (blocks aim_caps caps), list ++ element t (blocks aim_caps caps) ∷ [])
unfolding addtlvtochain_caps curpos
addtlvtochain_caps-append malloc fresh list t caps grants e some_cap room =
    let xs = blocks aim_caps caps in
    let put = putcap-init caps 256 fresh e (omega arith) room in
    rw (ne→== caps 0 (omega arith)) (
      rw put (
        ap (λ b. addtlvtochain_raw malloc list t (length xs) b)
          (ap (λ t. xs ++ t) (append-nil (drop (length xs) fresh)))
        ∙ addtlvtochain_raw-front malloc grants list t xs (drop (length xs) fresh)))

pub addtlvtochain_caps-none :
    (malloc : Allocator) (fresh : List ℕ) (list : List Tlv) (t : ℕ)
    → addtlvtochain_caps malloc fresh list t 0 ≡ ok (0, list)
unfolding addtlvtochain_caps
addtlvtochain_caps-none malloc fresh list t = refl
