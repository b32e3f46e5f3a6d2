-- ===== src/Ssi/Tests.antt =====
-- A stored list of two items.
use libfaim.Prelude.{ℕ, ◌≡◌, refl, true, List, [], ◌∷◌, arith, All}
use libfaim.Prelude.Alloc.{Allocator}
use libfaim.Prelude.Int.{ℤ, pos}
use libfaim.Bstream.View.{cursor}
use libfaim.Bstream.Words.{be16}
use libfaim.Session.{Handler}
use libfaim.Rxhandlers.{Modsnac}
use libfaim.Parsing.{tell}
use libfaim.Ssi.{SsiItem, parsedata}
use libfaim.Ssi.Entries.{Entry, IsEntry, told_items}
use libfaim.Ssi.Items.{list_bytes, parsedata_lem}

abbrev always : Allocator
always q = true

abbrev handlers : List Handler
handlers = record { family = 0x13; type = 6; handler = 1; flags = 0 } ∷ []

abbrev reply : Modsnac
reply = record { family = 0x13; subtype = 6; flags = 0; id = 1 }

-- The client keeps the items.
abbrev keep_items : ℕ → ℕ × ℕ × ℕ × List SsiItem → List SsiItem → ℤ × List SsiItem
keep_items f (fmtver, itemcount, stamp, list) s = (pos 1, list)

-- The root with the order of its groups, and a buddy.
abbrev entries : List Entry
entries =
    record {
      name = [];
      gid = 0;
      bid = 0;
      type = 1;
      tlvs = record { type = 0xc8; len = 2; value = 0 ∷ 5 ∷ [] } ∷ [];
    }
    ∷ record { name = 0x61 ∷ 0x6c ∷ []; gid = 5; bid = 9; type = 0; tlvs = [] }
    ∷ []

entries-IsEntry : All (IsEntry 3) entries
unfolding be16
entries-IsEntry = (
  record {
    name_len = omega arith;
    gid_u16 = omega arith;
    bid_u16 = omega arith;
    type_u16 = omega arith;
    tlvs_fit = (record { type_u16 = omega arith; len_u16 = omega arith; len_lem = refl }, tt);
    tlvs_few = omega arith;
    tlvs_len = omega arith;
  },
  (
    record {
      name_len = omega arith;
      gid_u16 = omega arith;
      bid_u16 = omega arith;
      type_u16 = omega arith;
      tlvs_fit = tt;
      tlvs_few = omega arith;
      tlvs_len = omega arith;
    },
    tt,
  ),
)

parsedata_lem_example :
    parsedata always 3 5 handlers reply keep_items
      (cursor [] (list_bytes 0 2 entries 1000000) [])
      []
    ≡ tell handlers reply keep_items (pos 0) (0, 2, 1000000, told_items entries) []
unfolding be16
parsedata_lem_example =
    parsedata_lem always (λ q. refl) 3 5 handlers reply keep_items 0 2 1000000 entries [] [] []
      (omega arith) (omega arith) (omega arith) (omega arith) entries-IsEntry (omega arith)
