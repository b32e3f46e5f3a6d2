-- ===== src/Flap.antt =====
-- The FLAP framing, as both directions have it (sendframe_flap of src/txqueue.c, aim_get_command of
-- src/rxqueue.c): 0x2a, the channel, the sequence number and the payload's length, then the payload.
use libfaim.Prelude.{ℕ, ◌≡◌, refl, List, ◌++◌, length}
use libfaim.Bstream.Words.{be8, be16}

abbrev pub flap_header : (type seqnum payloadlen : ℕ) → List ℕ
flap_header type seqnum payloadlen = be8 0x2a ++ (be8 type ++ (be16 seqnum ++ be16 payloadlen))

abbrev pub flap_bytes : (type seqnum : ℕ) → List ℕ → List ℕ
flap_bytes type seqnum payload = flap_header type seqnum (length payload) ++ payload

pub length-flap_header : (type seqnum n : ℕ) → length (flap_header type seqnum n) ≡ 6
unfolding be8 be16
length-flap_header type seqnum n = refl

pub length-be8 : (v : ℕ) → length (be8 v) ≡ 1
unfolding be8
length-be8 v = refl

pub length-be16 : (v : ℕ) → length (be16 v) ≡ 2
unfolding be16
length-be16 v = refl
