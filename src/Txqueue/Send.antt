-- ===== src/Txqueue/Send.antt =====
-- aim_send and aim_bstream_send over a line that keeps send(2)'s promises, and the FLAP frames on it.
use libfaim.Prelude.{
  ℕ, zero, suc, ◌+◌, ◌≤◌, ◌<◌, ◌≡◌, refl, ap, sym, ◌∙◌, Option, none, some, List, [], ◌∷◌, ◌++◌,
  ◌==◌, ◌⊎◌, inl, inr, arith, length, take, drop, append-nil, append_assoc, length-drop, Bool-cases,
  Option-cases, ==→eq, ==→ne, le→ltb, ne→==, bytes_at, bytes_at-append,
}
use libfaim.Prelude.Int.{pos}
use libfaim.Bstream.{Bstream}
use libfaim.Bstream.View.{cursor, empty-cursor}
use libfaim.Os.{Os, Sends}
use libfaim.Txqueue.{Sent, sent, failed, send_on, send_loop, send, advance_sent, bstream_send}

take_more : (n m : ℕ) (xs : List ℕ) → take n xs ++ take m (drop n xs) ≡ take (n + m) xs
take_more zero m xs = ap (λ k. take k xs) (omega arith)
take_more (suc n) m [] = take_nil m ∙ sym (take_nil (suc n + m))
  where
    take_nil : (k : ℕ) → take {A = ℕ} k [] ≡ []
    take_nil zero = refl
    take_nil (suc k) = refl
take_more (suc n) m (x ∷ xs) =
    ap (λ t. x ∷ t) (take_more n m xs) ∙ ap (λ k. take k (x ∷ xs)) (omega_suc n m)
  where
    omega_suc : (n m : ℕ) → suc (n + m) ≡ suc n + m
    omega_suc n m = omega arith

pub take_all : (xs : List ℕ) → take (length xs) xs ≡ xs
take_all [] = refl
take_all (x ∷ xs) = ap (λ t. x ∷ t) (take_all xs)

module _ {S : Type 0} (os : Os S) (laws : Sends os) (fd : ℕ) where
  -- How a sending of `xs` went, with `cur` bytes gone before: a number of bytes from the front is on the
  -- line, and that number is told, or an error.
  pub record Went (r : Sent × S) (cur : ℕ) (xs : List ℕ) (s : S) : Type 0 where
    pub count : ℕ
    pub most : count ≤ length xs
    pub line : os.written fd r.1 ≡ os.written fd s ++ take count xs
    pub told : (r.0 ≡ sent (cur + count)) ⊎ (r.0 ≡ failed)

  still : (cur : ℕ) (xs : List ℕ) (s : S) → Went (sent cur, s) cur xs s
  still cur xs s = record {
    count = 0;
    most = omega arith;
    line = sym (append-nil (os.written fd s));
    told = inl (ap sent (omega arith));
  }

  -- A piece of `n` bytes, and then the rest.
  Went-drop :
      (n cur : ℕ) (xs : List ℕ) (s : S)
      → (os.send fd xs s).0 ≡ some n
      → {r : Sent × S} → Went r (cur + n) (drop n xs) (os.send fd xs s).1
      → Went r cur xs s
  Went-drop n cur xs s e w = record {
    count = n + w.count;
    most = omega (arith, w.most, length-drop n xs, laws.send_most fd xs s e);
    line =
        w.line
        ∙ ap (λ l. l ++ take w.count (drop n xs)) (laws.send_next fd xs s e)
        ∙ append_assoc (os.written fd s) (take n xs) (take w.count (drop n xs))
        ∙ ap (λ l. os.written fd s ++ l) (take_more n w.count xs);
    told = elim w.told [ inl t ↦ inl (t ∙ ap sent (omega arith)) | inr t ↦ inr t ];
  }

  send_loop-Went :
      (fuel cur : ℕ) (xs : List ℕ) (s : S)
      → length xs ≤ fuel
      → Went (send_loop os (pos fd) fuel cur xs s) cur xs s
  unfolding send_loop send_on
  send_loop-Went zero cur [] s h = still cur [] s
  send_loop-Went zero cur (x ∷ xs) s h = absurd (omega arith)
  send_loop-Went (suc fuel) cur xs s h = elim (Bool-cases (length xs == 0)) [
    | inl z ↦ rw (z, send_loop) (still cur xs s)
    | inr z ↦
        rw (z, send_loop)
          (elim (Option-cases (os.send fd xs s).0) [
            | inl e ↦ rw e (record {
              count = 0;
              most = omega arith;
              line = laws.send_none fd xs s e ∙ sym (append-nil (os.written fd s));
              told = inr refl;
            })
            | inr (n, e) ↦ rw e (elim (Bool-cases (n == 0)) [
              | inl k ↦ rw k (record {
                count = 0;
                most = omega arith;
                line =
                    laws.send_next fd xs s e ∙ ap (λ m. os.written fd s ++ take m xs) (==→eq n 0 k);
                told = inl (ap sent (omega arith));
              })
              | inr k ↦ rw k (
                  Went-drop n cur xs s e (
                    send_loop-Went fuel (cur + n) (drop n xs) (os.send fd xs s).1
                      (omega (arith, length-drop n xs, ==→ne n 0 k))))
            ])
          ])
  ]

  send-Went : (xs : List ℕ) (s : S) → Went (send os (pos fd) xs s) 0 xs s
  unfolding send
  send-Went xs s = send_loop-Went (length xs) 0 xs s (omega arith)

  -- The same for a stream that is sent from its start to its limit.
  pub record Carried (r : Option ℕ × Bstream × S) (xs : List ℕ) (s : S) : Type 0 where
    pub count : ℕ
    pub most : count ≤ length xs
    pub line : os.written fd r.2 ≡ os.written fd s ++ take count xs
    pub told : (r.0 ≡ some count) ⊎ (r.0 ≡ none)

  carried :
      {r : Sent × S} (bs : Bstream) (xs : List ℕ) (s : S)
      → Went r 0 xs s
      → Carried (advance_sent os bs r) xs s
  unfolding advance_sent
  carried {r} bs xs s w = elim w.told [
    | inl t ↦
        let p : r ≡ (sent (0 + w.count), r.1) = λ i. (t i, r.1) in
        rw p (record {
          count = w.count;
          most = w.most;
          line = w.line;
          told = inl (ap some (omega arith));
        })
    | inr t ↦
        let p : r ≡ (failed, r.1) = λ i. (t i, r.1) in
        rw p (record { count = w.count; most = w.most; line = w.line; told = inr refl })
  ]

  pub bstream_send-Carried :
      (xs : List ℕ) (s : S)
      → 0 < length xs
      → Carried (bstream_send os (cursor [] xs []) (pos fd) (length xs) s) xs s
  unfolding bstream_send
  bstream_send-Carried xs s h =
      let bs = cursor [] xs [] in
      let whole : bytes_at bs.buf 0 (length xs) ≡ xs =
        bytes_at-append 0 (length xs) [] xs [] refl refl in
      rw
        (
          le→ltb bs.len 0 (omega arith),
          empty-cursor [] xs [],
          le→ltb (length xs) (length xs) (omega arith),
          ne→== (length xs) 0 (omega arith),
          whole,
        )
        (carried bs xs s (send-Went xs s))
