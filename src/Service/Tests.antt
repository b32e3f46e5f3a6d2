-- ===== src/Service/Tests.antt =====
-- The setting up of a connection with one module and one rate class.
use libfaim.Prelude.{
  ℕ, zero, suc, All, IsU16, ◌≡◌, refl, true, none, some, Option, List, [], ◌∷◌, ◌++◌, arith,
  replicate, length-replicate,
}
use libfaim.Prelude.Alloc.{Allocator}
use libfaim.Prelude.Int.{pos}
use libfaim.Bstream.View.{cursor}
use libfaim.Bstream.Words.{be16, be32}
use libfaim.Os.Wire.{Wire, wire}
use libfaim.Session.{Conn, Frame, Session, queuebased, conn_at, set_conn}
use libfaim.Rxhandlers.{Module}
use libfaim.Connection.{Whole}
use libfaim.Requests.Room.{requested}
use libfaim.Service.{Rateclass, classids, hostonline, rateresp}
use libfaim.Service.Groups.{words, version_bytes, hostonline_lem}
use libfaim.Service.Rates.{rates_bytes, IsClass}
use libfaim.Service.Acknowledged.{then_client, rateresp_lem}

abbrev always : Allocator
always q = true

abbrev noise : ℕ → List ℕ
noise n = replicate n 0xff

abbrev not_called : ℕ → Session → Frame → Wire → Option (Session × Wire)
not_called f sess fr s = none

abbrev bos : Conn
bos = record {
  addr = 0x1000;
  fd = pos 5;
  type = 2;
  subtype = 0;
  seqnum = 7;
  status = 1;
  lastactivity = 0;
  forcedlatency = 0;
  handlerlist = [];
  groups = [];
}

abbrev general : Module
general = record {
  family = 1;
  version = 3;
  toolid = 0x0110;
  toolversion = 0x047b;
  flags = 0;
  name = [];
  snachandler = none;
  shutdown = none;
}

abbrev whole : Whole
whole = record {
  core = record {
    connlist = bos ∷ [];
    queue_outgoing = [];
    queue_incoming = [];
    tx_enqueue = queuebased;
  };
  snacs = record { snac_hash = replicate 16 []; snacid_next = 33 };
  msgcookies = [];
  modlist = general ∷ [];
  flags = 1;
  debug = 0;
}

abbrev quiet : Wire
quiet = record { incoming = []; outgoing = []; clock = 50 }

-- Families 1 and 2.
abbrev families : List ℕ
families = 1 ∷ 2 ∷ []

-- 300 families, more than the answer has room for.
abbrev many_families : List ℕ
many_families = replicate 300 1

all_ones : (n : ℕ) → All IsU16 (replicate n 1)
all_ones zero = tt
all_ones (suc n) = (omega arith, all_ones n)

many_small : All IsU16 many_families
many_small = all_ones 300

abbrev grouped : Conn → Conn
grouped c = record c { groups = 2 ∷ 1 ∷ [] }

hostonline_lem_example :
    ((left : List ℕ) × (hostonline wire always 4294967296 noise noise not_called 0x1000
          (cursor [] (words families) [])
          whole
          quiet
        ≡ some (
          true,
          requested wire always 4294967296
              (record whole { core = set_conn whole.core 0x1000 grouped })
              (grouped bos)
              quiet
              1
              0x17
              []
              (version_bytes (general ∷ []) (2 ∷ 1 ∷ []))
              left,
          quiet,
        )))
    × (hostonline wire always 4294967296 noise noise not_called 0x1000
          (cursor [] (words many_families ++ 9 ∷ []) [])
          whole
          quiet
        ≡ none)
unfolding conn_at be16
hostonline_lem_example =
    hostonline_lem wire always (λ q. refl) 4294967296 noise noise (λ n. length-replicate n 0xff)
      not_called whole bos quiet refl refl refl families [] [] (omega arith, (omega arith, tt))
      (omega arith) 9 many_families many_small (omega arith) (omega arith)

abbrev class_one : Rateclass
class_one = record {
  classid = 1;
  windowsize = 80;
  clear = 2500;
  alert = 2000;
  limit = 1500;
  disconnect = 800;
  current = 5912;
  max = 6000;
  unknown = 0 ∷ 0 ∷ 0 ∷ 0 ∷ 0 ∷ [];
  members = (1, 2) ∷ (1, 3) ∷ [];
}

class_one-IsClass : IsClass class_one
class_one-IsClass = record {
  classid_u16 = omega arith;
  windowsize_u32 = omega arith;
  clear_u32 = omega arith;
  alert_u32 = omega arith;
  limit_u32 = omega arith;
  disconnect_u32 = omega arith;
  current_u32 = omega arith;
  max_u32 = omega arith;
  unknown_len = refl;
  members_len = omega arith;
  members_u16 = ((omega arith, omega arith), ((omega arith, omega arith), tt));
}

abbrev silent : ℕ → Whole → Wire → Option (Whole × Wire)
silent f w s = none

rateresp_lem_example :
    (left : List ℕ) × (rateresp wire always 4294967296 noise noise not_called 3 silent bos []
        (cursor [] (rates_bytes (class_one ∷ []) ++ []) [])
        whole
        quiet
      ≡ then_client silent bos
          (class_one ∷ [])
          (requested wire always 4294967296 whole bos quiet 1 8 []
            (words (classids (class_one ∷ [])))
            left)
          quiet)
unfolding conn_at be16 be32
rateresp_lem_example =
    rateresp_lem wire always (λ q. refl) 4294967296 noise noise (λ n. length-replicate n 0xff)
      not_called whole bos quiet refl refl refl silent 3 (class_one ∷ []) [] [] [] (omega arith)
      (omega arith) (class_one-IsClass, tt) (tt, tt) (omega arith)
