-- ===== src/Bstream/RoundTrip.antt =====
-- What a writer stores, the reader of the same width gives back.
use libfaim.Prelude.{
  ℕ, ◌≤◌, ◌<◌, ◌≡◌, refl, ap₂, ◌∷◌, List, u8, u16, u32, ◌++◌, arith, length, IsU16, IsU32,
  append_assoc, length-append,
}
use libfaim.Bstream.{
  Bstream, IsValid, empty, get8, get16, get32, getle16, getle32, put8, put16, put32, putle16,
  putle32,
}
use libfaim.Bstream.View.{cursor, split, Bstream-eq}
use libfaim.Bstream.Words.{be8, be16, be32, le16, le32}
use libfaim.Bstream.Reads.{get8-cursor, get16-cursor, get32-cursor, getle16-cursor, getle32-cursor}
use libfaim.Bstream.Writes.{put8-cursor, put16-cursor, put32-cursor, putle16-cursor, putle32-cursor}

-- The stream `t` with its position put back to that of `s`.
abbrev pub back_to : Bstream → Bstream → Bstream
back_to s t = record t { offset = s.offset }

-- A stream moved back over `xs`.
before :
    (pre xs r post : List ℕ)
    → record (cursor (pre ++ xs) r post) { offset = length pre } ≡ cursor pre (xs ++ r) post
before pre xs r post =
    Bstream-eq (rw (append_assoc pre xs (r ++ post), append_assoc xs r post))
      (omega (arith, length-append pre xs, length-append xs r)) refl

get8-put8 :
    (bs : Bstream) (v : ℕ)
    → IsValid bs
    → 1 ≤ empty bs
    → v < 256
    → get8 (back_to bs (put8 bs v).1) ≡ (v, (put8 bs v).1)
get8-put8 bs v k h u =
    let s = split bs 1 k h in
    rw (s.shape, put8-cursor s.pre s.old s.r s.post v s.width s.fits)
      (rw (before s.pre (be8 v) s.r s.post) (get8-cursor s.pre s.r s.post v u s.fits))

get16-put16 :
    (bs : Bstream) (v : ℕ)
    → IsValid bs
    → 2 ≤ empty bs
    → IsU16 v
    → get16 (back_to bs (put16 bs v).1) ≡ (v, (put16 bs v).1)
get16-put16 bs v k h u =
    let s = split bs 2 k h in
    rw (s.shape, put16-cursor s.pre s.old s.r s.post v s.width s.fits)
      (rw (before s.pre (be16 v) s.r s.post) (get16-cursor s.pre s.r s.post v u s.fits))

get32-put32 :
    (bs : Bstream) (v : ℕ)
    → IsValid bs
    → 4 ≤ empty bs
    → IsU32 v
    → get32 (back_to bs (put32 bs v).1) ≡ (v, (put32 bs v).1)
get32-put32 bs v k h u =
    let s = split bs 4 k h in
    rw (s.shape, put32-cursor s.pre s.old s.r s.post v s.width s.fits)
      (rw (before s.pre (be32 v) s.r s.post) (get32-cursor s.pre s.r s.post v u s.fits))

getle16-putle16 :
    (bs : Bstream) (v : ℕ)
    → IsValid bs
    → 2 ≤ empty bs
    → IsU16 v
    → getle16 (back_to bs (putle16 bs v).1) ≡ (v, (putle16 bs v).1)
getle16-putle16 bs v k h u =
    let s = split bs 2 k h in
    rw (s.shape, putle16-cursor s.pre s.old s.r s.post v s.width s.fits)
      (rw (before s.pre (le16 v) s.r s.post) (getle16-cursor s.pre s.r s.post v u s.fits))

getle32-putle32 :
    (bs : Bstream) (v : ℕ)
    → IsValid bs
    → 4 ≤ empty bs
    → IsU32 v
    → getle32 (back_to bs (putle32 bs v).1) ≡ (v, (putle32 bs v).1)
getle32-putle32 bs v k h u =
    let s = split bs 4 k h in
    rw (s.shape, putle32-cursor s.pre s.old s.r s.post v s.width s.fits)
      (rw (before s.pre (le32 v) s.r s.post) (getle32-cursor s.pre s.r s.post v u s.fits))

-- A writer stores what is left of the number at its width.
be8-u8 : (v : ℕ) → be8 v ≡ be8 (u8 v)
unfolding be8
be8-u8 v = ap₂ ◌∷◌ (omega arith) refl

put8-u8 : (bs : Bstream) (v : ℕ) → put8 bs v ≡ put8 bs (u8 v)
unfolding put8
put8-u8 bs v = rw (be8-u8 v)

be16-u16 : (v : ℕ) → be16 v ≡ be16 (u16 v)
unfolding be16
be16-u16 v = ap₂ ◌∷◌ (omega arith) (ap₂ ◌∷◌ (omega arith) refl)

put16-u16 : (bs : Bstream) (v : ℕ) → put16 bs v ≡ put16 bs (u16 v)
unfolding put16
put16-u16 bs v = rw (be16-u16 v)

be32-u32 : (v : ℕ) → be32 v ≡ be32 (u32 v)
unfolding be32
be32-u32 v =
    ap₂ ◌∷◌ (omega arith)
      (ap₂ ◌∷◌ (omega arith) (ap₂ ◌∷◌ (omega arith) (ap₂ ◌∷◌ (omega arith) refl)))

put32-u32 : (bs : Bstream) (v : ℕ) → put32 bs v ≡ put32 bs (u32 v)
unfolding put32
put32-u32 bs v = rw (be32-u32 v)

le16-u16 : (v : ℕ) → le16 v ≡ le16 (u16 v)
unfolding le16
le16-u16 v = ap₂ ◌∷◌ (omega arith) (ap₂ ◌∷◌ (omega arith) refl)

putle16-u16 : (bs : Bstream) (v : ℕ) → putle16 bs v ≡ putle16 bs (u16 v)
unfolding putle16
putle16-u16 bs v = rw (le16-u16 v)

le32-u32 : (v : ℕ) → le32 v ≡ le32 (u32 v)
unfolding le32
le32-u32 v =
    ap₂ ◌∷◌ (omega arith)
      (ap₂ ◌∷◌ (omega arith) (ap₂ ◌∷◌ (omega arith) (ap₂ ◌∷◌ (omega arith) refl)))

putle32-u32 : (bs : Bstream) (v : ℕ) → putle32 bs v ≡ putle32 bs (u32 v)
unfolding putle32
putle32-u32 bs v = rw (le32-u32 v)

-- Whatever number is written to a valid stream with four bytes of room, the reader of the same width
-- and byte order, from the position where it was written, returns the number modulo the width and
-- stops where the writer did.
pub get-put :
    (bs : Bstream) (v : ℕ)
    → IsValid bs
    → 4 ≤ empty bs
    → (get8 (back_to bs (put8 bs v).1) ≡ (u8 v, (put8 bs v).1))
      × (get16 (back_to bs (put16 bs v).1) ≡ (u16 v, (put16 bs v).1))
      × (get32 (back_to bs (put32 bs v).1) ≡ (u32 v, (put32 bs v).1))
      × (getle16 (back_to bs (putle16 bs v).1) ≡ (u16 v, (putle16 bs v).1))
      × (getle32 (back_to bs (putle32 bs v).1) ≡ (u32 v, (putle32 bs v).1))
get-put bs v k h = (
  rw (put8-u8 bs v) (get8-put8 bs (u8 v) k (omega arith) (omega arith)),
  rw (put16-u16 bs v) (get16-put16 bs (u16 v) k (omega arith) (omega arith)),
  rw (put32-u32 bs v) (get32-put32 bs (u32 v) k h (omega arith)),
  rw (putle16-u16 bs v) (getle16-putle16 bs (u16 v) k (omega arith) (omega arith)),
  rw (putle32-u32 bs v) (getle32-putle32 bs (u32 v) k h (omega arith)),
)
