-- ===== src/Userinfo/Chain.antt =====
-- The chain that aim_putuserinfo makes, and what reading it back does.
use libfaim.Prelude.{
  ℕ, suc, ◌+◌, ◌≤◌, ◌<◌, ◌≡◌, refl, ap, sym, ◌∙◌, Bool, not, ◌&&◌, some, List, [], ◌∷◌, ◌++◌, arith,
  length, length-append, append_assoc, append-nil, All, ◌==◌, if◌then◌else◌, Bool-cases, inl, inr,
  has_bit, set_bit, IsU16, IsU32, ◌⊎◌,
}
use libfaim.Prelude.Alloc.{Allocator}
use libfaim.Bstream.View.{cursor}
use libfaim.Bstream.Words.{be16, be32}
use libfaim.Tlv.{Tlv, IsTlv, counttlvchain, sizetlvchain}
use libfaim.Tlv.Encoding.{tlv_bytes, chain_bytes, length-tlv_bytes}
use libfaim.Tlv.Read.{Grants}
use libfaim.Tlv.Build.{element}
use libfaim.Caps.{aim_caps}
use libfaim.Caps.Blocks.{blocks}
use libfaim.Userinfo.{Userinfo, read_fields}
use libfaim.Userinfo.Fields.{
  Field, read_fields-step, flags-Field, createtime-Field, onlinesince-Field, idletime-Field,
  sessionlen-Field, caps-Field,
}

-- An element that the chain may have, and what it does to the record that is read.
pub record Part (malloc : Allocator) : Type 0 where
  pub given : Bool
  pub tlv : Tlv
  pub effect : Userinfo → Userinfo
  pub wf : IsTlv tlv
  pub field : Field malloc tlv effect

module _ {malloc : Allocator} where
  abbrev pub chain : List (Part malloc) → List Tlv
  chain [] = []
  chain (p ∷ ps) = if p.given then p.tlv ∷ chain ps else chain ps

  abbrev pub effects : List (Part malloc) → Userinfo → Userinfo
  effects [] info = info
  effects (p ∷ ps) info = effects ps (if p.given then p.effect info else info)

  abbrev pub sizes : List (Part malloc) → ℕ
  sizes [] = 0
  sizes (p ∷ ps) = 4 + p.tlv.len + sizes ps

  pub chain-IsTlv : (ps : List (Part malloc)) → All IsTlv (chain ps)
  chain-IsTlv [] = tt
  chain-IsTlv (p ∷ ps) = elim (Bool-cases p.given) [
    | inl h ↦ rw h (p.wf, chain-IsTlv ps)
    | inr h ↦ rw h (chain-IsTlv ps)
  ]

  pub length-chain : (ps : List (Part malloc)) → length (chain ps) ≤ length ps
  length-chain [] = omega arith
  length-chain (p ∷ ps) = elim (Bool-cases p.given) [
    | inl h ↦ rw h (omega (arith, length-chain ps))
    | inr h ↦ rw h (omega (arith, length-chain ps))
  ]

  pub sizetlvchain-chain : (ps : List (Part malloc)) → sizetlvchain (chain ps) ≤ sizes ps
  unfolding sizetlvchain
  sizetlvchain-chain [] = omega arith
  sizetlvchain-chain (p ∷ ps) = elim (Bool-cases p.given) [
    | inl h ↦ rw h (omega (arith, sizetlvchain-chain ps))
    | inr h ↦ rw h (omega (arith, sizetlvchain-chain ps))
  ]

  -- Reading the chain's bytes has the effects of the elements that are there, in their order.
  pub read_fields-chain :
      (ps : List (Part malloc)) (pre r post : List ℕ) (info : Userinfo)
      → length pre + length (chain_bytes (chain ps)) + length r < 65536
      → read_fields malloc (length (chain ps)) (cursor pre (chain_bytes (chain ps) ++ r) post) info
        ≡ some (effects ps info, cursor (pre ++ chain_bytes (chain ps)) r post)
  unfolding read_fields
  read_fields-chain [] pre r post info fits =
      ap (λ t. some (info, cursor t r post)) (sym (append-nil pre))
  read_fields-chain (p ∷ ps) pre r post info fits = elim (Bool-cases p.given) [
    | inr h ↦ rw h (read_fields-chain ps pre r post info (rw h at fits))
    | inl h ↦
        let f = rw h at fits in
        let x = tlv_bytes p.tlv in
        let cs = chain_bytes (chain ps) in
        let lx = length-tlv_bytes p.tlv p.wf in
        let lc = length-append x cs in
        rw h (
          ap (λ b. read_fields malloc (suc (length (chain ps))) (cursor pre b post) info)
            (append_assoc x cs r)
          ∙ read_fields-step malloc p.tlv p.effect p.wf p.field (length (chain ps)) pre (cs ++ r)
              post info (omega (arith, f, lx, lc, length-append cs r))
          ∙ read_fields-chain ps (pre ++ x) r post (p.effect info)
              (omega (arith, f, lc, length-append pre x))
          ∙ ap (λ t. some (effects ps (p.effect info), cursor t r post)) (append_assoc pre x cs))
  ]

pub counttlvchain-length : (ts : List Tlv) → counttlvchain ts ≡ length ts
unfolding counttlvchain
counttlvchain-length [] = refl
counttlvchain-length (t ∷ ts) = omega (arith, counttlvchain-length ts)

-- The fields of a record that fit their widths on the wire.
pub record InRange (info : Userinfo) : Type 0 where
  pub warnlevel_u16 : IsU16 info.warnlevel
  pub flags_u16 : IsU16 info.flags
  pub membersince_u32 : IsU32 info.membersince
  pub onlinesince_u32 : IsU32 info.onlinesince
  pub idletime_u16 : IsU16 info.idletime
  pub sessionlen_u32 : IsU32 info.sessionlen
  pub capabilities_known : info.capabilities < 131072
  pub capabilities_fit : length (blocks aim_caps info.capabilities) ≤ 256

abbrev pub sessionlen_type : Userinfo → ℕ
sessionlen_type info = if has_bit 2 info.flags then 0x0010 else 0x000f

pub sessionlen_types :
    (info : Userinfo) → (sessionlen_type info ≡ 0x000f) ⊎ (sessionlen_type info ≡ 0x0010)
sessionlen_types info = elim (Bool-cases (has_bit 2 info.flags)) [
  | inl h ↦ inr (rw h)
  | inr h ↦ inl (rw h)
]

pub sessionlen-IsU16 : (info : Userinfo) → IsU16 (sessionlen_type info)
sessionlen-IsU16 info = elim (sessionlen_types info) [
  | inl h ↦ rw h (omega arith)
  | inr h ↦ rw h (omega arith)
]

pub element-IsTlv : (t : ℕ) (v : List ℕ) → IsU16 t → length v < 65536 → IsTlv (element t v)
element-IsTlv t v h l = record { type_u16 = h; len_u16 = l; len_lem = refl }

pub be16-IsTlv : (t v : ℕ) → IsU16 t → IsTlv (element t (be16 v))
unfolding be16
be16-IsTlv t v h = element-IsTlv t (be16 v) h (omega arith)

pub be32-IsTlv : (t v : ℕ) → IsU16 t → IsTlv (element t (be32 v))
unfolding be32
be32-IsTlv t v h = element-IsTlv t (be32 v) h (omega arith)

module _ (malloc : Allocator) (grants : Grants malloc) (info : Userinfo) (w : InRange info) where
  -- The creation time on the wire is the record's `membersince`.
  abbrev pub user_parts : List (Part malloc)
  user_parts =
      record {
        given = has_bit 0 info.present;
        tlv = element 0x0001 (be16 info.flags);
        effect = λ i. record i { flags = info.flags; present = set_bit 0 i.present };
        wf = be16-IsTlv 0x0001 info.flags (omega arith);
        field = flags-Field malloc info.flags w.flags_u16;
      }
      ∷ record {
        given = has_bit 1 info.present;
        tlv = element 0x0002 (be32 info.membersince);
        effect = λ i. record i { createtime = info.membersince; present = set_bit 9 i.present };
        wf = be32-IsTlv 0x0002 info.membersince (omega arith);
        field = createtime-Field malloc info.membersince w.membersince_u32;
      }
      ∷ record {
        given = has_bit 2 info.present;
        tlv = element 0x0003 (be32 info.onlinesince);
        effect = λ i. record i { onlinesince = info.onlinesince; present = set_bit 2 i.present };
        wf = be32-IsTlv 0x0003 info.onlinesince (omega arith);
        field = onlinesince-Field malloc info.onlinesince w.onlinesince_u32;
      }
      ∷ record {
        given = has_bit 3 info.present;
        tlv = element 0x0004 (be16 info.idletime);
        effect = λ i. record i { idletime = info.idletime; present = set_bit 3 i.present };
        wf = be16-IsTlv 0x0004 info.idletime (omega arith);
        field = idletime-Field malloc info.idletime w.idletime_u16;
      }
      ∷ record {
        given = has_bit 7 info.present && not (info.capabilities == 0);
        tlv = element 0x000d (blocks aim_caps info.capabilities);
        effect = λ i. record i { capabilities = info.capabilities; present = set_bit 7 i.present };
        wf =
            element-IsTlv 0x000d (blocks aim_caps info.capabilities) (omega arith)
              (omega (arith, w.capabilities_fit));
        field = caps-Field malloc grants info.capabilities w.capabilities_known;
      }
      ∷ record {
        given = has_bit 8 info.present;
        tlv = element (sessionlen_type info) (be32 info.sessionlen);
        effect = λ i. record i { sessionlen = info.sessionlen; present = set_bit 8 i.present };
        wf = be32-IsTlv (sessionlen_type info) info.sessionlen (sessionlen-IsU16 info);
        field =
            sessionlen-Field malloc info.sessionlen (sessionlen_type info) (sessionlen_types info)
              w.sessionlen_u32;
      }
      ∷ []
