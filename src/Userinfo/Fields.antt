-- ===== src/Userinfo/Fields.antt =====
-- What one element of a user's information does to the record.
use libfaim.Prelude.{
  ℕ, suc, ◌+◌, ◌<◌, ◌≡◌, refl, ap, ◌∙◌, some, List, ◌++◌, arith, length, length-append, le→ltb,
  set_bit, ◌⊎◌, inl, inr, IsU16, IsU32,
}
use libfaim.Prelude.Int.{pos}
use libfaim.Bstream.{curpos, setpos, get16}
use libfaim.Bstream.View.{cursor, Bstream-eq}
use libfaim.Bstream.Words.{be16, be32}
use libfaim.Bstream.Reads.{get16-cursor, get32-cursor}
use libfaim.Prelude.Alloc.{Allocator}
use libfaim.Tlv.{Tlv, IsTlv}
use libfaim.Tlv.Encoding.{tlv_bytes, tlv_bytes-append, pre-append, length-be16}
use libfaim.Tlv.Read.{Grants}
use libfaim.Tlv.Build.{element}
use libfaim.Caps.{aim_caps}
use libfaim.Caps.Blocks.{blocks, getcap-blocks}
use libfaim.Userinfo.{Userinfo, read_field, read_fields, read_caps}

-- A position that the stream has already.
setpos-cursor :
    (pre r post : List ℕ) (off : ℕ)
    → off ≡ length pre
    → length pre + length r < 65536
    → (setpos (cursor pre r post) (pos off)).1 ≡ cursor pre r post
unfolding setpos
setpos-cursor pre r post off e fits =
    rw (le→ltb (length pre + length r) off (omega arith)) (Bstream-eq refl refl (omega arith))

-- What the element's value does to the record, and the round of the loop that reads the element.
abbrev pub Field : Allocator → Tlv → (Userinfo → Userinfo) → Type 0
Field malloc t f =
    (pre r post : List ℕ) (info : Userinfo)
    → length pre + t.len + length r < 65536
    → read_field malloc t.type t.len (cursor pre (t.value ++ r) post) info
      ≡ some (f info, cursor (pre ++ t.value) r post)

pub read_fields-step :
    (malloc : Allocator) (t : Tlv) (f : Userinfo → Userinfo)
    → IsTlv t
    → Field malloc t f
    → (n : ℕ) (pre r post : List ℕ) (info : Userinfo) → length pre + (4 + t.len) + length r < 65536
    → read_fields malloc (suc n) (cursor pre (tlv_bytes t ++ r) post) info
      ≡ read_fields malloc n (cursor (pre ++ tlv_bytes t) r post) (f info)
unfolding read_fields curpos
read_fields-step malloc t f w field n pre r post info fits =
    let xs = t.value ++ r in
    let p1 = pre ++ be16 t.type in
    let p2 = p1 ++ be16 t.len in
    let l1 : length p1 ≡ length pre + 2 =
      omega (arith, length-append pre (be16 t.type), length-be16 t.type) in
    let l2 : length p2 ≡ length pre + 4 =
      omega (arith, length-append p1 (be16 t.len), length-be16 t.len, l1) in
    let lx = length-append t.value r in
    let len = w.len_lem in
    let type_read =
      ap get16 (ap (λ x. cursor pre x post) (tlv_bytes-append t r))
      ∙ get16-cursor pre (be16 t.len ++ xs) post t.type w.type_u16
          (omega (arith, length-append (be16 t.len) xs, length-be16 t.len, lx, len)) in
    let len_read = get16-cursor p1 xs post t.len w.len_u16 (omega (arith, l1, lx, len)) in
    rw (type_read, read_fields)
      (rw (len_read, read_fields)
        (rw (field p2 r post info (omega (arith, l2)), read_fields)
          (rw type_read (
            rw len_read (
              ap (λ b. read_fields malloc n b (f info))
                (setpos-cursor (p2 ++ t.value) r post (length p2 + t.len)
                    (omega (arith, length-append p2 t.value, len))
                    (omega (arith, length-append p2 t.value, len, l2))
                  ∙ ap (λ x. cursor x r post) (pre-append pre t)))))))

module _ (malloc : Allocator) (v : ℕ) where
  pub flags-Field :
      IsU16 v
      → Field malloc
          (element 0x0001 (be16 v))
          (λ info. record info { flags = v; present = set_bit 0 info.present })
  unfolding read_field
  flags-Field h pre r post info fits = rw (get16-cursor pre r post v h (unfold be16 in fits)) refl

  pub createtime-Field :
      IsU32 v
      → Field malloc
          (element 0x0002 (be32 v))
          (λ info. record info { createtime = v; present = set_bit 9 info.present })
  unfolding read_field
  createtime-Field h pre r post info fits =
      rw (get32-cursor pre r post v h (unfold be32 in fits)) refl

  pub onlinesince-Field :
      IsU32 v
      → Field malloc
          (element 0x0003 (be32 v))
          (λ info. record info { onlinesince = v; present = set_bit 2 info.present })
  unfolding read_field
  onlinesince-Field h pre r post info fits =
      rw (get32-cursor pre r post v h (unfold be32 in fits)) refl

  pub idletime-Field :
      IsU16 v
      → Field malloc
          (element 0x0004 (be16 v))
          (λ info. record info { idletime = v; present = set_bit 3 info.present })
  unfolding read_field
  idletime-Field h pre r post info fits =
      rw (get16-cursor pre r post v h (unfold be16 in fits)) refl

  -- The length of the session comes in either of two types.
  pub sessionlen-Field :
      (type : ℕ)
      → (type ≡ 0x000f) ⊎ (type ≡ 0x0010)
      → IsU32 v
      → Field malloc
          (element type (be32 v))
          (λ info. record info { sessionlen = v; present = set_bit 8 info.present })
  unfolding read_field
  sessionlen-Field type (inl e) h pre r post info fits =
      rw (e, get32-cursor pre r post v h (unfold be32 in fits)) refl
  sessionlen-Field type (inr e) h pre r post info fits =
      rw (e, get32-cursor pre r post v h (unfold be32 in fits)) refl

pub caps-Field :
    (malloc : Allocator)
    → Grants malloc
    → (caps : ℕ) → caps < 131072
    → Field malloc
        (element 0x000d (blocks aim_caps caps))
        (λ info. record info { capabilities = caps; present = set_bit 7 info.present })
unfolding read_field read_caps
caps-Field malloc grants caps h pre r post info fits =
    rw (getcap-blocks malloc grants caps pre r post h fits, read_caps) refl
