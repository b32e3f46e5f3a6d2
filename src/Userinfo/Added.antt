-- ===== src/Userinfo/Added.antt =====
-- The additions of aim_putuserinfo make the chain of the parts that are given.
use libfaim.Prelude.{
  ℕ, ◌≡◌, refl, ap, sym, ◌∙◌, Bool, true, false, not, ◌&&◌, List, [], ◌∷◌, ◌++◌, arith, length,
  ◌==◌, Bool-cases, inl, inr, ==→eq, ==→ne, has_bit, append_assoc, append-nil,
}
use libfaim.Prelude.Alloc.{Allocator}
use libfaim.Bstream.Words.{be16, be32}
use libfaim.Tlv.{Tlv, Result, ok, addtlvtochain16, addtlvtochain32}
use libfaim.Tlv.Read.{Grants}
use libfaim.Tlv.Build.{element, addtlvtochain16-append, addtlvtochain32-append}
use libfaim.Caps.{aim_caps, addtlvtochain_caps}
use libfaim.Caps.Blocks.{blocks}
use libfaim.Caps.RoundTrip.{addtlvtochain_caps-append, addtlvtochain_caps-none}
use libfaim.Userinfo.{Userinfo, add_if, user_chain}
use libfaim.Userinfo.Chain.{Part, chain, InRange, user_parts, sessionlen_type}

abbrev opt : Bool → Tlv → List Tlv
opt true t = t ∷ []
opt false t = []

add_if-opt :
    (b : Bool) (add : List Tlv → Result (ℕ × List Tlv)) (l : List Tlv) (t : Tlv) (n : ℕ)
    → add l ≡ ok (n, l ++ t ∷ [])
    → add_if b add (ok l) ≡ ok (l ++ opt b t)
unfolding add_if
add_if-opt true add l t n e = rw (e, add_if) refl
add_if-opt false add l t n e = ap ok (sym (append-nil l))

chain-cons :
    {malloc : Allocator} (p : Part malloc) (ps : List (Part malloc)) (l : List Tlv)
    → (l ++ opt p.given p.tlv) ++ chain ps ≡ l ++ chain (p ∷ ps)
chain-cons p ps l = elim (Bool-cases p.given) [
  | inl h ↦ rw h (append_assoc l (p.tlv ∷ []) (chain ps))
  | inr h ↦ rw h (ap (λ t. t ++ chain ps) (append-nil l))
]

-- The chain that is built from the left.
abbrev left : {malloc : Allocator} → List Tlv → List (Part malloc) → List Tlv
left l [] = l
left l (p ∷ ps) = left (l ++ opt p.given p.tlv) ps

left-chain :
    {malloc : Allocator} (ps : List (Part malloc)) (l : List Tlv) → left l ps ≡ l ++ chain ps
left-chain [] l = sym (append-nil l)
left-chain (p ∷ ps) l = left-chain ps (l ++ opt p.given p.tlv) ∙ chain-cons p ps l

module _ (malloc : Allocator) (grants : Grants malloc) (fresh : List ℕ) (e : length fresh ≡ 256)
    (info : Userinfo) (w : InRange info) where
  add_caps :
      (b : Bool) (l : List Tlv)
      → add_if b (λ l. addtlvtochain_caps malloc fresh l 0x000d info.capabilities) (ok l)
        ≡ ok (
            l
            ++ opt
                (b && not (info.capabilities == 0))
                (element 0x000d (blocks aim_caps info.capabilities)))
  unfolding add_if
  add_caps false l = ap ok (sym (append-nil l))
  add_caps true l = elim (Bool-cases (info.capabilities == 0)) [
    | inl z ↦
        let z' = ==→eq _ _ z in
        rw z (
          rw
            (
              ap (λ c. addtlvtochain_caps malloc fresh l 0x000d c) z'
                  ∙ addtlvtochain_caps-none malloc fresh l 0x000d,
              add_if,
            )
            (ap ok (sym (append-nil l))))
    | inr nz ↦ rw nz (
        rw
          (
            addtlvtochain_caps-append malloc fresh l 0x000d info.capabilities grants e
                (omega (arith, ==→ne _ _ nz)) w.capabilities_fit,
            add_if,
          )
          refl)
  ]

  -- The left-nested chain of the additions, and the chain of the parts.
  pub user_chain_lem : user_chain malloc fresh info ≡ ok (chain (user_parts malloc grants info w))
  unfolding user_chain
  user_chain_lem =
      let p = info.present in
      let t1 = element 0x0001 (be16 info.flags) in
      let t2 = element 0x0002 (be32 info.membersince) in
      let t3 = element 0x0003 (be32 info.onlinesince) in
      let t4 = element 0x0004 (be16 info.idletime) in
      let t5 = element 0x000d (blocks aim_caps info.capabilities) in
      let t6 = element (sessionlen_type info) (be32 info.sessionlen) in
      let l1 = [] ++ opt (has_bit 0 p) t1 in
      let l2 = l1 ++ opt (has_bit 1 p) t2 in
      let l3 = l2 ++ opt (has_bit 2 p) t3 in
      let l4 = l3 ++ opt (has_bit 3 p) t4 in
      let l5 = l4 ++ opt (has_bit 7 p && not (info.capabilities == 0)) t5 in
      rw
        (add_if-opt (has_bit 0 p) (λ l. addtlvtochain16 malloc l 0x0001 info.flags) [] t1 2
          (addtlvtochain16-append malloc grants [] 0x0001 info.flags))
        (rw
          (add_if-opt (has_bit 1 p) (λ l. addtlvtochain32 malloc l 0x0002 info.membersince) l1 t2 4
            (addtlvtochain32-append malloc grants l1 0x0002 info.membersince))
          (rw
            (add_if-opt (has_bit 2 p) (λ l. addtlvtochain32 malloc l 0x0003 info.onlinesince) l2 t3
              4 (addtlvtochain32-append malloc grants l2 0x0003 info.onlinesince))
            (rw
              (add_if-opt (has_bit 3 p) (λ l. addtlvtochain16 malloc l 0x0004 info.idletime) l3 t4 2
                (addtlvtochain16-append malloc grants l3 0x0004 info.idletime))
              (rw (add_caps (has_bit 7 p) l4) (
                rw
                  (add_if-opt (has_bit 8 p)
                    (λ l. addtlvtochain32 malloc l (sessionlen_type info) info.sessionlen) l5 t6 4
                    (addtlvtochain32-append malloc grants l5 (sessionlen_type info)
                      info.sessionlen))
                  (ap ok (left-chain (user_parts malloc grants info w) [])))))))
