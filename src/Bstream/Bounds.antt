-- ===== src/Bstream/Bounds.antt =====
-- Any sequence of stream operations stays inside the buffer.
use libfaim.Prelude.{
  Option, none, some, le→ltb, ◌%◌, ℕ, ◌+◌, ◌-◌, ◌≤◌, ◌≡◌, refl, ◌∙◌, List, [], ◌∷◌, arith, length,
  All, IsByte, take, length-memcpy, memcpy-bytes, u16, memcpy, zero, suc, if◌then◌else◌, ltb,
  ltb→le, Bool-cases, inl, inr, bytes_at,
}
use libfaim.Prelude.Int.{ℤ, pos, negsuc}
use libfaim.Bstream.{
  getrawbuf, Bstream, IsValid, empty, setpos, rewind, advance, skip, emit, get8, get16, get32,
  getle8, getle16, getle32, put8, put16, put32, putle8, putle16, putle32, copy_out, putraw,
}
use libfaim.Bstream.Words.{be8, be16, be32, le16, le32}

-- A call of the stream's interface, and the stream that it leaves.
pub data Op : Type 0 where
  set_position move read_raw : ℤ → Op
  go_back read8 read16 read32 read_le8 read_le16 read_le32 : Op
  write8 write16 write32 write_le8 write_le16 write_le32 : ℕ → Op
  write_raw : List ℕ → Op

abbrev pub IsNatural : ℤ → Type 0
IsNatural (pos n) = Unit {0}
IsNatural (negsuc k) = ⊥

-- The bytes that a caller hands over are bytes, and no length or position is negative.
abbrev pub IsProper : Op → Type 0
IsProper (write_raw xs) = All IsByte xs
IsProper (set_position n) = IsNatural n
IsProper (move n) = IsNatural n
IsProper (read_raw n) = IsNatural n
IsProper _ = Unit {0}

-- `none` is a fault.
pub apply : Op → Bstream → Option Bstream
apply (set_position n) bs = some (setpos bs n).1
apply (move n) bs = some (advance bs n).1
apply go_back bs = some (rewind bs)
apply read8 bs = some (get8 bs).1
apply read16 bs = some (get16 bs).1
apply read32 bs = some (get32 bs).1
apply read_le8 bs = some (getle8 bs).1
apply read_le16 bs = some (getle16 bs).1
apply read_le32 bs = some (getle32 bs).1
apply (write8 v) bs = some (put8 bs v).1
apply (write16 v) bs = some (put16 bs v).1
apply (write32 v) bs = some (put32 bs v).1
apply (write_le8 v) bs = some (putle8 bs v).1
apply (write_le16 v) bs = some (putle16 bs v).1
apply (write_le32 v) bs = some (putle32 bs v).1
apply (read_raw n) bs = elim (getrawbuf bs n) [ none ↦ none | some r ↦ some r.2 ]
apply (write_raw xs) bs = some (putraw bs xs (length xs)).1

pub run : List Op → Bstream → Option Bstream
run [] bs = some bs
run (o ∷ os) bs = elim (apply o bs) [ none ↦ none | some bs' ↦ run os bs' ]

-- What an operation may do: the size of the buffer and the limit stay, the offset stays in.
record Keeps (bs bs' : Bstream) : Type 0 where
  valid : IsValid bs'
  same_len : bs'.len ≡ bs.len
  same_size : length bs'.buf ≡ length bs.buf

module _ (bs : Bstream) (v : IsValid bs) where
  same : Keeps bs bs
  same = record { valid = v; same_len = refl; same_size = refl }

  moved : (n : ℕ) → n ≤ bs.len → Keeps bs (record bs { offset = u16 n })
  moved n h = record {
    valid = record {
      offset_in = omega arith;
      len_in = v.len_in;
      len_u16 = v.len_u16;
      bytes_in = v.bytes_in;
    };
    same_len = refl;
    same_size = refl;
  }

  stored :
      (xs : List ℕ) (n : ℕ)
      → All IsByte xs
      → n ≤ bs.len
      → Keeps bs (record bs { buf = memcpy bs.buf bs.offset xs; offset = u16 n })
  stored xs n h k = record {
    valid = record {
      offset_in = omega arith;
      len_in = omega (arith, length-memcpy bs.buf bs.offset xs);
      len_u16 = v.len_u16;
      bytes_in = memcpy-bytes bs.buf bs.offset xs v.bytes_in h;
    };
    same_len = refl;
    same_size = length-memcpy bs.buf bs.offset xs;
  }

  jumped :
      {A : Type 0} (n : ℕ) (x y : A)
      → let r : A × Bstream = if ltb (empty bs) n then (x, bs) else (y, skip bs n) in Keeps bs r.1
  unfolding skip empty
  jumped n x y = elim (Bool-cases (ltb (bs.len - bs.offset) n)) [
    | inl short ↦ rw short same
    | inr room ↦ rw room (moved (bs.offset + n) (omega (arith, ltb→le _ _ room, v.offset_in)))
  ]

  wrote :
      (xs : List ℕ) (n x y : ℕ)
      → All IsByte xs
      → let r : ℕ × Bstream =
          (if ltb (empty bs) n then (x, bs) else (
            y,
            record bs { buf = memcpy bs.buf bs.offset xs; offset = u16 (bs.offset + n) },
          )) in
        Keeps bs r.1
  unfolding empty
  wrote xs n x y h = elim (Bool-cases (ltb (bs.len - bs.offset) n)) [
    | inl short ↦ rw short same
    | inr room ↦ rw room (stored xs (bs.offset + n) h (omega (arith, ltb→le _ _ room, v.offset_in)))
  ]

  copied :
      (n : ℕ)
      → let r : ℕ × List ℕ × Bstream =
          if ltb (empty bs) n then (0, [], bs) else (n, bytes_at bs.buf bs.offset n, skip bs n) in
        Keeps bs r.2
  unfolding skip empty
  copied n = elim (Bool-cases (ltb (bs.len - bs.offset) n)) [
    | inl short ↦ rw short same
    | inr room ↦ rw room (moved (bs.offset + n) (omega (arith, ltb→le _ _ room, v.offset_in)))
  ]

  placed : (n : ℕ) → Keeps bs (setpos bs (pos n)).1
  unfolding setpos
  placed n = elim (Bool-cases (ltb bs.len n)) [
    | inl past ↦ rw past same
    | inr within ↦ rw within (moved n (ltb→le bs.len n within))
  ]

  take-bytes : (n : ℕ) (xs : List ℕ) → All IsByte xs → All IsByte (take n xs)
  take-bytes zero xs h = tt
  take-bytes (suc n) [] h = tt
  take-bytes (suc n) (x ∷ xs) h = (h.0, take-bytes n xs h.1)

  -- The operation is done, and keeps the stream valid.
  apply-Keeps : (o : Op) → IsProper o → (bs' : Bstream) × (apply o bs ≡ some bs') × Keeps bs bs'
  unfolding apply rewind advance get8 get16 get32 getle8 getle16 getle32 put8 put16 put32 putle8
      putle16 putle32 getrawbuf copy_out putraw emit be8 be16 be32 le16 le32 setpos
  apply-Keeps (set_position (pos n)) p = (_, refl, placed n)
  apply-Keeps (set_position (negsuc k)) p = absurd p
  apply-Keeps (move (pos n)) p = (_, refl, jumped n (pos 0) (pos n))
  apply-Keeps (move (negsuc k)) p = absurd p
  apply-Keeps (read_raw (pos n)) p = (_, refl, copied n)
  apply-Keeps (read_raw (negsuc k)) p = absurd p
  apply-Keeps go_back p = (_, refl, placed 0)
  apply-Keeps read8 p = (_, refl, jumped 1 0 _)
  apply-Keeps read16 p = (_, refl, jumped 2 0 _)
  apply-Keeps read32 p = (_, refl, jumped 4 0 _)
  apply-Keeps read_le8 p = (_, refl, jumped 1 0 _)
  apply-Keeps read_le16 p = (_, refl, jumped 2 0 _)
  apply-Keeps read_le32 p = (_, refl, jumped 4 0 _)
  apply-Keeps (write8 n) p = (_, refl, wrote (be8 n) 1 0 1 (omega arith))
  apply-Keeps (write16 n) p = (_, refl, wrote (be16 n) 2 0 2 (omega arith))
  apply-Keeps (write32 n) p = (_, refl, wrote (be32 n) 4 0 1 (omega arith))
  apply-Keeps (write_le8 n) p = (_, refl, wrote (be8 n) 1 0 1 (omega arith))
  apply-Keeps (write_le16 n) p = (_, refl, wrote (le16 n) 2 0 2 (omega arith))
  apply-Keeps (write_le32 n) p = (_, refl, wrote (le32 n) 4 0 1 (omega arith))
  apply-Keeps (write_raw xs) p =
      (_, refl, wrote (take (length xs) xs) (length xs) 0 (length xs) (take-bytes (length xs) xs p))

  -- A negative length passes the test of any valid stream.
  negative_read : (k : ℕ) → apply (read_raw (negsuc k)) bs ≡ none
  unfolding apply getrawbuf
  negative_read k = rw (le→ltb (bs.len + suc k) bs.offset (omega (arith, v.offset_in)), apply) refl

-- What a sequence of operations comes to.
record Stays (bs : Bstream) (os : List Op) : Type 0 where
  pub left : Bstream
  pub done : run os bs ≡ some left
  pub valid : IsValid left
  pub same_len : left.len ≡ bs.len
  pub same_size : length left.buf ≡ length bs.buf

run-Stays : (os : List Op) (bs : Bstream) → IsValid bs → All IsProper os → Stays bs os
unfolding run
run-Stays [] bs v h = record {
  left = bs;
  done = refl;
  valid = v;
  same_len = refl;
  same_size = refl;
}
run-Stays (o ∷ os) bs v h =
    let (bs', e, k) = apply-Keeps bs v o h.0 in
    let r = run-Stays os bs' k.valid h.1 in
    record {
      left = r.left;
      done = rw (e, run) r.done;
      valid = r.valid;
      same_len = r.same_len ∙ k.same_len;
      same_size = r.same_size ∙ k.same_size;
    }

-- From a valid stream every sequence of operations whose lengths and positions are not negative is done
-- without a fault and leads to a valid stream over a buffer of the same size and with the same limit: no
-- position passes the end, and no write goes past the buffer. But the stream's tests do not stop a
-- negative argument: a raw read of a negative length from a valid stream is a fault, and a negative
-- position is taken, modulo 65536.
pub run-IsValid :
    (os : List Op) (bs : Bstream) (k : ℕ)
    → IsValid bs
    → All IsProper os
    → ((bs' : Bstream) × (run os bs ≡ some bs')
        × IsValid bs'
        × (bs'.len ≡ bs.len)
        × (length bs'.buf ≡ length bs.buf))
      × (run (read_raw (negsuc k) ∷ os) bs ≡ none)
      × (apply (set_position (negsuc k)) bs ≡ some (record bs { offset = 65535 - k % 65536 }))
unfolding run apply setpos
run-IsValid os bs k v h =
    let r = run-Stays os bs v h in
    ((r.left, r.done, r.valid, r.same_len, r.same_size), rw (negative_read bs v k, run) refl, refl)
