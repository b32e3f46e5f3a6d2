-- ===== src/Bstream/Tests.antt =====
-- The byte streams on small buffers.
use libfaim.Prelude.{◌≡◌, refl, List, [], ◌∷◌, arith, length, none, some}
use libfaim.Prelude.Int.{pos, negsuc}
use libfaim.Bstream.{
  Bstream, IsValid, empty, setpos, get8, get16, get32, getle16, getle32, put8, put16, put32,
  putle16, putle32, skip, emit,
}
use libfaim.Bstream.Words.{le32, get16_at}
use libfaim.Bstream.RoundTrip.{get-put, back_to}
use libfaim.Bstream.Bounds.{
  Op, run, run-IsValid, write16, write_raw, go_back, read_le32, move, read_raw, set_position, apply,
}

-- Six bytes, the first of them read.
abbrev six_bytes : Bstream
six_bytes = record { buf = 1 ∷ 2 ∷ 3 ∷ 4 ∷ 5 ∷ 6 ∷ []; len = 6; offset = 1 }

six_bytes-IsValid : IsValid six_bytes
six_bytes-IsValid = record {
  offset_in = omega arith;
  len_in = omega arith;
  len_u16 = omega arith;
  bytes_in = ground arith;
}

get16_middle : get16 six_bytes ≡ (0x0203, record six_bytes { offset = 3 })
unfolding get16 empty skip get16_at
get16_middle = refl

putle32_middle :
    putle32 six_bytes 0x01020304
    ≡ (1, record { buf = 1 ∷ 4 ∷ 3 ∷ 2 ∷ 1 ∷ 6 ∷ []; len = 6; offset = 5 })
unfolding putle32 empty le32 emit
putle32_middle = refl

setpos_past : setpos six_bytes (pos 7) ≡ (negsuc 0, six_bytes)
unfolding setpos
setpos_past = refl

get-put_example :
    (get8 (back_to six_bytes (put8 six_bytes 0x1234567).1) ≡ (0x67, (put8 six_bytes 0x1234567).1))
    × (get16 (back_to six_bytes (put16 six_bytes 0x1234567).1)
        ≡ (0x4567, (put16 six_bytes 0x1234567).1))
    × (get32 (back_to six_bytes (put32 six_bytes 0x1234567).1)
        ≡ (0x1234567, (put32 six_bytes 0x1234567).1))
    × (getle16 (back_to six_bytes (putle16 six_bytes 0x1234567).1)
        ≡ (0x4567, (putle16 six_bytes 0x1234567).1))
    × (getle32 (back_to six_bytes (putle32 six_bytes 0x1234567).1)
        ≡ (0x1234567, (putle32 six_bytes 0x1234567).1))
unfolding empty
get-put_example = get-put six_bytes 0x1234567 six_bytes-IsValid (omega arith)

abbrev calls : List Op
calls =
    write16 0xabcd
    ∷ write_raw (7 ∷ 8 ∷ 9 ∷ 10 ∷ [])
    ∷ go_back
    ∷ read_le32
    ∷ move (pos 9)
    ∷ read_raw (pos 2)
    ∷ []

run-IsValid_example :
    ((bs' : Bstream) × (run calls six_bytes ≡ some bs')
      × IsValid bs'
      × (bs'.len ≡ 6)
      × (length bs'.buf ≡ 6))
    × (run (read_raw (negsuc 3) ∷ calls) six_bytes ≡ none)
    × (apply (set_position (negsuc 3)) six_bytes ≡ some (record six_bytes { offset = 65532 }))
run-IsValid_example = run-IsValid calls six_bytes 3 six_bytes-IsValid (ground arith)
