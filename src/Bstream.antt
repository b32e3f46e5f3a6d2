-- ===== src/Bstream.antt =====
-- src/rxqueue.c (aim_bstream_*, aimbs_*) and the byte macros of include/aim.h: the byte stream that
-- every parser and builder of the library goes through. A stream is passed and returned. The source gives
-- lengths and positions as `int` and does not look whether they are negative: setpos, advance and
-- getrawbuf take a signed number. Elsewhere a length is a natural number, since the calls that are
-- modelled pass unsigned words, sizes and constants (those of src/im.c that subtract are not modelled).
pub mod Words
pub mod View
pub mod Reads
pub mod Writes
pub mod Room
pub mod RoundTrip
pub mod Bounds
mod Tests
use libfaim.Prelude.{
  ℕ, suc, ◌+◌, ◌-◌, ◌%◌, ◌≤◌, ◌<◌, Option, none, some, List, [], ◌∷◌, ◌++◌, ltb, if◌then◌else◌, not,
  u16, memcpy, bytes_at, take, length, All, IsByte,
}
use libfaim.Prelude.Alloc.{Allocator, Request}
use libfaim.Prelude.Int.{ℤ, pos, negsuc}
use Words.{get8_at, get16_at, get32_at, getle16_at, getle32_at, be8, be16, be32, le16, le32}

-- `buf` is the memory from `data` on; it may be longer than `len`.
pub record Bstream : Type 0 where
  pub buf : List ℕ
  pub len : ℕ
  pub offset : ℕ

-- `len` and `offset` are `fu16_t`.
unfoldable pub init : List ℕ → ℕ → Bstream
init buf len = record { buf = buf; len = u16 len; offset = 0 }

-- Where `offset` is past `len` C has a negative number, and all the tests below go the same way.
unfoldable pub empty : Bstream → ℕ
empty bs = bs.len - bs.offset

unfoldable pub curpos : Bstream → ℕ
curpos bs = bs.offset

-- A negative number in a field that is `fu16_t`: -(k + 1).
abbrev pub u16_negative : ℕ → ℕ
u16_negative k = 65535 - k % 65536

-- -1 for a position past the end. A negative position passes the test.
unfoldable pub setpos : Bstream → ℤ → ℤ × Bstream
setpos bs (pos off) =
    if ltb bs.len off then (negsuc 0, bs) else (pos off, record bs { offset = u16 off })
setpos bs (negsuc k) = (negsuc k, record bs { offset = u16_negative k })

unfoldable pub rewind : Bstream → Bstream
rewind bs = (setpos bs (pos 0)).1

-- `bs->offset += n`
unfoldable pub skip : Bstream → ℕ → Bstream
skip bs n = record bs { offset = u16 (bs.offset + n) }

-- A negative length is refused only where the offset lies past the end by more; else the offset moves
-- back, and from the start round to the end of its 16 bits.
pub advance : Bstream → ℤ → ℤ × Bstream
advance bs (pos n) = if ltb (empty bs) n then (pos 0, bs) else (pos n, skip bs n)
advance bs (negsuc k) =
    if ltb (bs.len + suc k) bs.offset then (pos 0, bs) else (negsuc k, skip bs (u16_negative k))

pub get8 : Bstream → ℕ × Bstream
get8 bs =
    if ltb (empty bs) 1
    then (0, bs)
    else let bs' = skip bs 1 in (get8_at bs'.buf (bs'.offset - 1), bs')

unfoldable pub get16 : Bstream → ℕ × Bstream
get16 bs =
    if ltb (empty bs) 2
    then (0, bs)
    else let bs' = skip bs 2 in (get16_at bs'.buf (bs'.offset - 2), bs')

pub get32 : Bstream → ℕ × Bstream
get32 bs =
    if ltb (empty bs) 4
    then (0, bs)
    else let bs' = skip bs 4 in (get32_at bs'.buf (bs'.offset - 4), bs')

-- `aimutil_getle8` is `aimutil_get8`.
pub getle8 : Bstream → ℕ × Bstream
getle8 bs =
    if ltb (empty bs) 1
    then (0, bs)
    else let bs' = skip bs 1 in (get8_at bs'.buf (bs'.offset - 1), bs')

pub getle16 : Bstream → ℕ × Bstream
getle16 bs =
    if ltb (empty bs) 2
    then (0, bs)
    else let bs' = skip bs 2 in (getle16_at bs'.buf (bs'.offset - 2), bs')

pub getle32 : Bstream → ℕ × Bstream
getle32 bs =
    if ltb (empty bs) 4
    then (0, bs)
    else let bs' = skip bs 4 in (getle32_at bs'.buf (bs'.offset - 4), bs')

-- A write at the current offset, which moves past what it wrote.
unfoldable pub emit : Bstream → List ℕ → Bstream
emit bs xs = record bs { buf = memcpy bs.buf bs.offset xs; offset = u16 (bs.offset + length xs) }

unfoldable pub put8 : Bstream → ℕ → ℕ × Bstream
put8 bs v = if ltb (empty bs) 1 then (0, bs) else (1, emit bs (be8 v))

unfoldable pub put16 : Bstream → ℕ → ℕ × Bstream
put16 bs v = if ltb (empty bs) 2 then (0, bs) else (2, emit bs (be16 v))

-- The source returns 1 here, though four bytes are written.
pub put32 : Bstream → ℕ → ℕ × Bstream
put32 bs v = if ltb (empty bs) 4 then (0, bs) else (1, emit bs (be32 v))

pub putle8 : Bstream → ℕ → ℕ × Bstream
putle8 bs v = if ltb (empty bs) 1 then (0, bs) else (1, emit bs (be8 v))

pub putle16 : Bstream → ℕ → ℕ × Bstream
putle16 bs v = if ltb (empty bs) 2 then (0, bs) else (2, emit bs (le16 v))

pub putle32 : Bstream → ℕ → ℕ × Bstream
putle32 bs v = if ltb (empty bs) 4 then (0, bs) else (1, emit bs (le32 v))

-- aimbs_getrawbuf with a length that is not negative: the number returned, and the bytes that are copied
-- to the caller's buffer.
pub copy_out : Bstream → ℕ → ℕ × List ℕ × Bstream
copy_out bs n =
    if ltb (empty bs) n then (0, [], bs) else (n, bytes_at bs.buf bs.offset n, skip bs n)

-- With a negative length, unless the offset lies past the end by more, memcpy is told to copy nearly the
-- whole address space: `none` is this fault.
pub getrawbuf : Bstream → ℤ → Option (ℕ × List ℕ × Bstream)
getrawbuf bs (pos n) = some (copy_out bs n)
getrawbuf bs (negsuc k) = if ltb (bs.len + suc k) bs.offset then some (0, [], bs) else none

-- `none` is the NULL of a refused allocation or of a stream that is too short.
pub getraw : Allocator → Bstream → ℕ → Option (List ℕ) × Bstream
getraw malloc bs n =
    if not (malloc (Request.bytes n))
    then (none, bs)
    else let (red, ob, bs') = copy_out bs n in if ltb red n then (none, bs') else (some ob, bs')

-- The terminating NUL is part of the result.
pub getstr : Allocator → Bstream → ℕ → Option (List ℕ) × Bstream
getstr malloc bs n =
    if not (malloc (Request.bytes (n + 1)))
    then (none, bs)
    else let (red, ob, bs') = copy_out bs n in
      if ltb red n then (none, bs') else (some (ob ++ 0 ∷ []), bs')

unfoldable pub putraw : Bstream → List ℕ → ℕ → ℕ × Bstream
putraw bs v n =
    if ltb (empty bs) n
    then (0, bs)
    else (n, record bs { buf = memcpy bs.buf bs.offset (take n v); offset = u16 (bs.offset + n) })

-- The two streams are distinct objects over distinct memory. The result is the number copied, the
-- destination and the source.
unfoldable pub putbs : Bstream → Bstream → ℕ → ℕ × Bstream × Bstream
putbs bs srcbs n =
    if ltb (empty srcbs) n then (0, bs, srcbs) else if ltb (empty bs) n then (0, bs, srcbs) else (
      n,
      record bs {
        buf = memcpy bs.buf bs.offset (bytes_at srcbs.buf srcbs.offset n);
        offset = u16 (bs.offset + n);
      },
      skip srcbs n,
    )

-- The stream lies inside its memory: what `aim_bstream_init` sets up over a buffer of `len` bytes.
pub record IsValid (bs : Bstream) : Type 0 where
  pub offset_in : bs.offset ≤ bs.len
  pub len_in : bs.len ≤ length bs.buf
  pub len_u16 : bs.len < 65536
  pub bytes_in : All IsByte bs.buf
