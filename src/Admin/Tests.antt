-- ===== src/Admin/Tests.antt =====
-- A frame with one piece of information, and one with a byte too many.
use libfaim.Prelude.{ℕ, ◌≡◌, refl, true, List, [], ◌∷◌, ◌++◌, arith, All}
use libfaim.Prelude.Alloc.{Allocator}
use libfaim.Prelude.Int.{ℤ, pos}
use libfaim.Bstream.View.{cursor}
use libfaim.Bstream.Words.{be16}
use libfaim.Session.{Handler}
use libfaim.Rxhandlers.{Modsnac}
use libfaim.Parsing.{answered, unending}
use libfaim.Admin.{Informing, infochange}
use libfaim.Admin.Informed.{Info, IsInfo, infos_bytes, tell_infos, infochange_lem}

abbrev always : Allocator
always q = true

abbrev handlers : List Handler
handlers = record { family = 7; type = 5; handler = 1; flags = 0 } ∷ []

abbrev reply : Modsnac
reply = record { family = 7; subtype = 5; flags = 0; id = 1 }

-- The client writes down what it is told.
abbrev note : ℕ → Informing → List Informing → ℤ × List Informing
note f args s = (pos 0, s ++ args ∷ [])

-- An email address and a number.
abbrev infos : List Info
infos =
    record {
      perms = 3;
      tlvs =
          record { type = 0x11; len = 2; value = 0x61 ∷ 0x40 ∷ [] }
          ∷ record { type = 0x13; len = 1; value = 1 ∷ [] }
          ∷ [];
    }
    ∷ []

infos-IsInfo : All IsInfo infos
infos-IsInfo = (
  record {
    perms_u16 = omega arith;
    count_u16 = omega arith;
    tlvs_fit = (
      record { type_u16 = omega arith; len_u16 = omega arith; len_lem = refl },
      (record { type_u16 = omega arith; len_u16 = omega arith; len_lem = refl }, tt),
    );
  },
  tt,
)

infochange_lem_example :
    (infochange always handlers reply note 2 (cursor [] (infos_bytes infos) []) []
      ≡ answered (pos 1) (tell_infos always handlers reply note infos []))
    × (infochange always handlers reply note 1000 (cursor [] (infos_bytes infos ++ 7 ∷ []) []) []
        ≡ unending)
unfolding be16
infochange_lem_example =
    infochange_lem always (λ q. refl) handlers reply note [] 2 1000 infos [] 7 [] (omega arith)
      infos-IsInfo (omega arith)
