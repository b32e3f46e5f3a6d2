-- ===== src/Requests/Tests.antt =====
-- Requests on a session with one connection.
use libfaim.Prelude.{
  ℕ, ◌≡◌, refl, true, none, some, Option, List, [], ◌∷◌, ◌++◌, arith, replicate, length-replicate,
}
use libfaim.Prelude.Alloc.{Allocator}
use libfaim.Prelude.Int.{pos}
use libfaim.Bstream.Words.{be8}
use libfaim.Os.Wire.{Wire, wire}
use libfaim.Session.{Conn, Frame, Session, queuebased, conn_at}
use libfaim.Connection.{Whole}
use libfaim.Requests.{zero_ret, add_buddy, remove_buddy, usersearch_address}
use libfaim.Requests.Payload.{after_request, requests_queued}

abbrev always : Allocator
always q = true

abbrev noise : ℕ → List ℕ
noise n = replicate n 0xff

abbrev not_called : ℕ → Session → Frame → Wire → Option (Session × Wire)
not_called f sess fr s = none

abbrev bos : Conn
bos = record {
  addr = 0x1000;
  fd = pos 5;
  type = 2;
  subtype = 0;
  seqnum = 7;
  status = 1;
  lastactivity = 0;
  forcedlatency = 0;
  handlerlist = [];
  groups = 4 ∷ [];
}

abbrev whole : Whole
whole = record {
  core = record {
    connlist = bos ∷ [];
    queue_outgoing = [];
    queue_incoming = [];
    tx_enqueue = queuebased;
  };
  snacs = record { snac_hash = replicate 16 []; snacid_next = 33 };
  msgcookies = [];
  modlist = [];
  flags = 1;
  debug = 0;
}

abbrev quiet : Wire
quiet = record { incoming = []; outgoing = []; clock = 50 }

abbrev name : List ℕ
name = 0x61 ∷ 0x6f ∷ 0x6c ∷ []

abbrev after : (family subtype : ℕ) → List ℕ → Whole
after family subtype xs =
    after_request wire always 4294967296 whole bos quiet family subtype family subtype
      (name ++ 0 ∷ []) xs

requests_queued_example :
    (add_buddy wire always 4294967296 noise noise not_called name whole bos quiet
      ≡ some (zero_ret, after 3 4 (be8 3 ++ name), quiet))
    × (remove_buddy wire always 4294967296 noise noise not_called name whole bos quiet
        ≡ some (zero_ret, after 3 5 (be8 3 ++ name), quiet))
    × (usersearch_address wire always 4294967296 noise noise not_called name whole bos quiet
        ≡ some (zero_ret, after 0xa 2 name, quiet))
unfolding conn_at
requests_queued_example =
    requests_queued wire always (λ q. refl) 4294967296 noise noise (λ n. length-replicate n 0xff)
      not_called whole bos quiet refl refl refl name (omega arith) (omega arith)
