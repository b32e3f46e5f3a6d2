-- ===== src/Bstream/View.antt =====
-- A stream as the bytes before the offset, those up to `len`, and the memory behind: the form in
-- which readers and writers are specified.
use libfaim.Prelude.{
  ℕ, ◌+◌, ◌-◌, ◌≤◌, ◌<◌, ◌≡◌, refl, ap, sym, ◌∙◌, List, [], ◌++◌, arith, length, take, drop,
  length-append, length-take, length-drop, append_assoc, take-append-drop, memcpy, memcpy-append,
  append-nil, le→ltb,
}
use libfaim.Bstream.{Bstream, IsValid, init, empty, setpos, rewind, skip, emit}

abbrev pub cursor : List ℕ → List ℕ → List ℕ → Bstream
cursor pre rest post = record {
  buf = pre ++ (rest ++ post);
  len = length pre + length rest;
  offset = length pre;
}

pub Bstream-eq : {s t : Bstream} → s.buf ≡ t.buf → s.len ≡ t.len → s.offset ≡ t.offset → s ≡ t
Bstream-eq p q r = λ i. record { buf = p i; len = q i; offset = r i }

abbrev pub front : Bstream → List ℕ
front bs = take bs.offset bs.buf

abbrev pub rest : Bstream → List ℕ
rest bs = take (bs.len - bs.offset) (drop bs.offset bs.buf)

abbrev pub back : Bstream → List ℕ
back bs = drop (bs.len - bs.offset) (drop bs.offset bs.buf)

-- Every valid stream has this form.
pub cursor_lem : (bs : Bstream) → IsValid bs → bs ≡ cursor (front bs) (rest bs) (back bs)
cursor_lem bs v = Bstream-eq buffers (omega (arith, lf, lr)) (omega (arith, lf))
  where
    lf : length (front bs) ≡ bs.offset
    lf = omega (arith, length-take bs.offset bs.buf, v.offset_in, v.len_in)

    lr : length (rest bs) ≡ bs.len - bs.offset
    lr = omega (
      arith,
      length-take (bs.len - bs.offset) (drop bs.offset bs.buf),
      length-drop bs.offset bs.buf,
      v.offset_in,
      v.len_in,
    )

    buffers : bs.buf ≡ front bs ++ (rest bs ++ back bs)
    buffers = rw (
      take-append-drop (bs.len - bs.offset) (drop bs.offset bs.buf),
      take-append-drop bs.offset bs.buf,
    )

pub length-front : (bs : Bstream) → IsValid bs → length (front bs) ≡ bs.offset
length-front bs v = omega (arith, length-take bs.offset bs.buf, v.offset_in, v.len_in)

pub length-rest : (bs : Bstream) → IsValid bs → length (rest bs) ≡ empty bs
unfolding empty
length-rest bs v = omega (
  arith,
  length-take (bs.len - bs.offset) (drop bs.offset bs.buf),
  length-drop bs.offset bs.buf,
  v.offset_in,
  v.len_in,
)

pub empty-cursor : (pre xs post : List ℕ) → empty (cursor pre xs post) ≡ length xs
unfolding empty
empty-cursor pre xs post = omega arith

-- Moving past `xs`.
pub skip-cursor :
    (pre xs r post : List ℕ) (n : ℕ)
    → n ≡ length xs
    → length pre + length xs + length r < 65536
    → skip (cursor pre (xs ++ r) post) n ≡ cursor (pre ++ xs) r post
unfolding skip
skip-cursor pre xs r post n e h =
    Bstream-eq (ap (λ t. pre ++ t) (append_assoc xs r post) ∙ sym (append_assoc pre xs (r ++ post)))
      (omega (arith, length-append xs r, length-append pre xs))
      (omega (arith, length-append pre xs))

-- Writing `xs` over as many bytes.
pub emit-cursor :
    (pre old xs r post : List ℕ)
    → length old ≡ length xs
    → length pre + length xs + length r < 65536
    → emit (cursor pre (old ++ r) post) xs ≡ cursor (pre ++ xs) r post
unfolding emit
emit-cursor pre old xs r post e h =
    Bstream-eq
      (ap (λ t. memcpy (pre ++ t) (length pre) xs) (append_assoc old r post)
        ∙ memcpy-append (length pre) pre old xs (r ++ post) refl e
        ∙ sym (append_assoc pre xs (r ++ post)))
      (omega (arith, length-append old r, length-append pre xs))
      (omega (arith, length-append pre xs))

-- A valid stream with room for `n` bytes, taken apart at the `n` bytes that come next.
pub record Split (bs : Bstream) (n : ℕ) : Type 0 where
  pub pre : List ℕ
  pub old : List ℕ
  pub r : List ℕ
  pub post : List ℕ
  pub shape : bs ≡ cursor pre (old ++ r) post
  pub width : length old ≡ n
  pub fits : length pre + n + length r < 65536

unfoldable pub split : (bs : Bstream) (n : ℕ) → IsValid bs → n ≤ empty bs → Split bs n
unfolding empty
split bs n v h = record {
  pre = front bs;
  old = take n (rest bs);
  r = drop n (rest bs);
  post = back bs;
  shape =
      cursor_lem bs v
      ∙ ap (λ t. cursor (front bs) t (back bs)) (sym (take-append-drop n (rest bs)));
  width = omega (arith, length-take n (rest bs), length-rest bs v);
  fits = omega (
    arith,
    length-drop n (rest bs),
    length-rest bs v,
    length-take bs.offset bs.buf,
    v.offset_in,
    v.len_u16,
  );
}

-- A stream that is set up over the whole of a buffer.
pub init-cursor :
    (buf : List ℕ) (n : ℕ) → n ≡ length buf → n < 65536 → init buf n ≡ cursor [] (buf ++ []) []
unfolding init
init-cursor buf n e h =
    Bstream-eq (sym (append-nil buf) ∙ sym (append-nil (buf ++ [])))
      (omega (arith, length-append buf [])) refl

-- A stream over the front of the memory.
pub init-front : (xs r : List ℕ) → length xs < 65536 → init (xs ++ r) (length xs) ≡ cursor [] xs r
unfolding init
init-front xs r h = Bstream-eq refl (omega (arith, h)) refl

pub rewind-cursor : (pre r post : List ℕ) → rewind (cursor pre r post) ≡ cursor [] (pre ++ r) post
unfolding rewind setpos
rewind-cursor pre r post =
    rw (le→ltb (length pre + length r) 0 (omega arith), rewind)
      (Bstream-eq (sym (append_assoc pre r post)) (omega (arith, length-append pre r)) refl)
