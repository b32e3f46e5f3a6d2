-- ===== src/Requests/Payload.antt =====
-- What the requests put into the outgoing queue.
use libfaim.Prelude.{
  ℕ, ◌+◌, ◌-◌, ◌≤◌, ◌<◌, ◌≡◌, refl, ap, sym, ◌∙◌, true, false, Option, some, List, [], ◌∷◌, ◌++◌,
  arith, length, take, drop, lt→ltb, take-append-drop, length-take, length-drop, length-append,
  append-nil, append_assoc, u16, ne→==, Bool-cases, inl, inr,
}
use libfaim.Prelude.Alloc.{Allocator, Request}
use libfaim.Bstream.{Bstream, init, put8, put16, put32, putraw}
use libfaim.Bstream.Words.{be8, be16, be32}
use libfaim.Bstream.View.{cursor, Bstream-eq}
use libfaim.Bstream.Writes.{put8-cursor, put16-cursor, put32-cursor, putraw-cursor}
use libfaim.Os.{Os}
use libfaim.Session.{
  Conn, Frame, Session, TxEnqueue, queuebased, flap, conn_at, is_rendezvous, in_progress, immediate,
  user,
}
use libfaim.Snac.{cachesnac, putsnac}
use libfaim.Txqueue.{framing_flap, tx_new, tx_enqueue, must_wait}
use libfaim.Txqueue.Enqueue.{next_session, flap_for, enqueue_one}
use libfaim.Connection.{Whole}
use libfaim.Requests.{
  zero_ret, put_name, submit, request_as, add_buddy, remove_buddy, usersearch_address,
}

abbrev pub snac_header : (family subtype flags id : ℕ) → List ℕ
snac_header family subtype flags id = ((be16 family ++ be16 subtype) ++ be16 flags) ++ be32 id

-- A list behind its first `n` elements.
split :
    (n : ℕ) (xs : List ℕ)
    → n ≤ length xs
    → (ys : List ℕ) × (zs : List ℕ) × (xs ≡ ys ++ zs)
      × (length ys ≡ n)
      × (length zs ≡ length xs - n)
split n xs h = (
  take n xs,
  drop n xs,
  sym (take-append-drop n xs),
  omega (arith, length-take n xs),
  length-drop n xs,
)

pub length-snac_header : (f t fl id : ℕ) → length (snac_header f t fl id) ≡ 10
unfolding be16 be32
length-snac_header f t fl id = refl

pub putsnac-cursor :
    (block : List ℕ) (f t fl id : ℕ)
    → 10 ≤ length block
    → length block < 65536
    → (rest : List ℕ) × ((putsnac (cursor [] block []) f t fl id).1
        ≡ cursor (snac_header f t fl id) rest [])
      × (length rest ≡ length block - 10)
unfolding putsnac
putsnac-cursor block f t fl id le lt =
    let (o1, r1, e1, l1, k1) = split 2 block (omega arith) in
    let (o2, r2, e2, l2, k2) = split 2 r1 (omega arith) in
    let (o3, r3, e3, l3, k3) = split 2 r2 (omega arith) in
    let (o4, r4, e4, l4, k4) = split 4 r3 (omega arith) in
    let a1 =
      ap (λ b. (put16 (cursor [] b []) f).1) e1
      ∙ ap (λ x. x.1) (put16-cursor [] o1 r1 [] f l1 (omega arith)) in
    let a2 =
      ap (λ b. (put16 b t).1) (a1 ∙ ap (λ b. cursor (be16 f) b []) e2)
      ∙ ap (λ x. x.1) (put16-cursor (be16 f) o2 r2 [] t l2 (unfold be16 in omega arith)) in
    let a3 =
      ap (λ b. (put16 b fl).1) (a2 ∙ ap (λ b. cursor (be16 f ++ be16 t) b []) e3)
      ∙ ap (λ x. x.1)
          (put16-cursor (be16 f ++ be16 t) o3 r3 [] fl l3 (unfold be16 in omega arith)) in
    let a4 =
      ap (λ b. (put32 b id).1) (a3 ∙ ap (λ b. cursor ((be16 f ++ be16 t) ++ be16 fl) b []) e4)
      ∙ ap (λ x. x.1)
          (put32-cursor ((be16 f ++ be16 t) ++ be16 fl) o4 r4 [] id l4
            (unfold be16 in omega arith)) in
    (r4, a4, omega arith)

pub init-cursor :
    (block : List ℕ) (n : ℕ) → length block ≡ n → n < 65536 → init block n ≡ cursor [] block []
unfolding init
init-cursor block n e lt = Bstream-eq (sym (append-nil block)) (omega (arith, e)) refl

-- The frame of a request before it is queued.
abbrev pub request_frame : Conn → Bstream → Frame
request_frame conn content = record {
  hdr = flap 2 0;
  content = content;
  handled = false;
  nofree = false;
  conn = some conn.addr;
}

pub tx_new-request :
    (malloc : Allocator) (block : List ℕ) (conn : Conn) (size : ℕ)
    → ((q : Request) → malloc q ≡ true)
    → is_rendezvous conn ≡ false
    → 0 < size
    → tx_new malloc block conn framing_flap 2 size ≡ some (request_frame conn (init block size))
unfolding tx_new
tx_new-request malloc block conn size grants kind lt =
    rw (kind, grants Request.frame, grants (Request.bytes size), lt→ltb 0 size lt) refl

-- A body that writes these bytes and no more.
abbrev pub Writes : (Bstream → Option Bstream) → List ℕ → Type 0
Writes body xs =
    (pre r : List ℕ)
    → length r ≡ length xs
    → length pre + length r < 65536
    → body (cursor pre r []) ≡ some (cursor (pre ++ xs) [] [])

put_name-Writes : (sn : List ℕ) → Writes (λ bs. some (put_name bs sn)) (be8 (length sn) ++ sn)
unfolding put_name
put_name-Writes sn pre r e lt =
    let n = length sn in
    let (o, r', q, l, k) = split 1 r (unfold be8 in omega (arith, e)) in
    let b1 =
      ap (λ b. (put8 (cursor pre b []) n).1) q
      ∙ ap (λ x. x.1) (put8-cursor pre o r' [] n l (unfold be8 in omega (arith, e, k))) in
    ap (λ b. some (putraw b sn n).1)
      (b1 ∙ ap (λ b. cursor (pre ++ be8 n) b []) (sym (append-nil r')))
    ∙ ap (λ x. some x.1)
        (putraw-cursor (pre ++ be8 n) r' [] [] sn n refl (unfold be8 in omega (arith, e, k))
          (unfold be8 in omega (arith, e, k, lt, length-append pre (be8 n))))
    ∙ ap (λ b. some (cursor b [] [])) (append_assoc pre (be8 n) sn)

putraw-Writes : (xs : List ℕ) → Writes (λ bs. some (putraw bs xs (length xs)).1) xs
putraw-Writes xs pre r e lt =
    ap (λ b. some (putraw (cursor pre b []) xs (length xs)).1) (sym (append-nil r))
    ∙ ap (λ x. some x.1) (putraw-cursor pre r [] [] xs (length xs) refl e (omega (arith, e, lt)))

-- What a request leaves: its SNAC is remembered, and the frame is the last of the queue.
abbrev pub after_request :
    {S : Type 0}
    → Os S
    → Allocator
    → (ulong : ℕ) → Whole
    → Conn
    → S
    → (family subtype cached_family cached_subtype : ℕ) (content xs : List ℕ) → Whole
after_request os malloc ulong w conn s family subtype cached_family cached_subtype content xs =
    record w {
      core = next_session w.core conn.addr (u16 (conn.seqnum + 1)) 2 (
          request_frame conn (
            cursor
              (snac_header family subtype 0
                  (cachesnac malloc ulong (os.time s) w.snacs cached_family cached_subtype 0
                    content).0
                ++ xs)
              [] []));
      snacs = (cachesnac malloc ulong (os.time s) w.snacs cached_family cached_subtype 0 content).1;
    }

by_queue :
    {A : Type 0} (t : TxEnqueue)
    → t ≡ queuebased
    → (x y : A) (f : ℕ → A) → (elim t [ queuebased ↦ x | immediate ↦ y | user g ↦ f g ]) ≡ x
by_queue t e x y f = rw e refl

module _ {S : Type 0} (os : Os S) (malloc : Allocator) (grants : (q : Request) → malloc q ≡ true)
    (ulong : ℕ) (block fresh : ℕ → List ℕ) (len_block : (n : ℕ) → length (block n) ≡ n)
    (user_enqueue : ℕ → Session → Frame → S → Option (Session × S)) (w : Whole) (conn : Conn)
    (s : S) (there : conn_at w.core.connlist conn.addr ≡ some conn)
    (kind : is_rendezvous conn ≡ false) (mode : w.core.tx_enqueue ≡ queuebased) where
  pub tx_enqueue-queued :
      (fr : Frame)
      → tx_enqueue os malloc fresh user_enqueue w.core (flap_for conn.addr 2 fr) s
        ≡ some (next_session w.core conn.addr (u16 (conn.seqnum + 1)) 2 fr, s)
  unfolding tx_enqueue must_wait
  tx_enqueue-queued fr =
      let queued = enqueue_one w.core conn.addr 2 fr there in
      rw (there, tx_enqueue)
        (elim (Bool-cases (in_progress conn)) [
          | inl p ↦ rw p (rw queued refl)
          | inr p ↦ rw p (by_queue w.core.tx_enqueue mode _ _ _ ∙ rw queued refl)
        ])

  request_as-queued :
      (cached_family cached_subtype family subtype size : ℕ) (content : List ℕ)
      (body : Bstream → Option Bstream) (xs : List ℕ)
      → size ≡ 10 + length xs
      → size < 65536
      → Writes body xs
      → request_as os malloc ulong block fresh user_enqueue cached_family cached_subtype family
          subtype size content body w conn s
        ≡ some (
          zero_ret,
          after_request os malloc ulong w conn s family subtype cached_family cached_subtype content
              xs,
          s,
        )
  unfolding request_as submit
  request_as-queued cached_family cached_subtype family subtype size content body xs e lt writes =
      let id =
        (cachesnac malloc ulong (os.time s) w.snacs cached_family cached_subtype 0 content).0 in
      let made = tx_new-request malloc (block size) conn size grants kind (omega arith) in
      let (rest, put, left) =
        putsnac-cursor (block size) family subtype 0 id (omega (arith, len_block size))
          (omega (arith, len_block size)) in
      let header =
        ap (λ b. (putsnac b family subtype 0 id).1)
          (init-cursor (block size) size (len_block size) lt)
        ∙ put in
      let written : body (putsnac (init (block size) size) family subtype 0 id).1
          ≡ some (cursor (snac_header family subtype 0 id ++ xs) [] []) =
        ap body header
        ∙ writes (snac_header family subtype 0 id) rest (omega (arith, left, len_block size))
            (omega (arith, left, len_block size, length-snac_header family subtype 0 id)) in
      rw (made, request_as)
        (rw written (
          rw
            (
              tx_enqueue-queued
                  (request_frame conn (cursor (snac_header family subtype 0 id ++ xs) [] [])),
              submit,
            )
            refl))

  -- With memory, on a FLAP connection of the session and with the queue-based function: asking to add or
  -- remove a buddy, or for the names behind an address, succeeds. The SNAC is remembered with the name,
  -- and the outgoing queue ends with a frame whose payload is the SNAC's header with the id that was
  -- remembered and the name, behind its length for a buddy; it fills the frame's memory to the last
  -- byte. The connection's counter gives its sequence number.
  pub requests_queued :
      (sn : List ℕ)
      → 0 < length sn
      → 11 + length sn < 65536
      → (add_buddy os malloc ulong block fresh user_enqueue sn w conn s
          ≡ some (
            zero_ret,
            after_request os malloc ulong w conn s 3 4 3 4 (sn ++ 0 ∷ []) (be8 (length sn) ++ sn),
            s,
          ))
        × (remove_buddy os malloc ulong block fresh user_enqueue sn w conn s
            ≡ some (
              zero_ret,
              after_request os malloc ulong w conn s 3 5 3 5 (sn ++ 0 ∷ []) (be8 (length sn) ++ sn),
              s,
            ))
        × (usersearch_address os malloc ulong block fresh user_enqueue sn w conn s
            ≡ some
                (zero_ret, after_request os malloc ulong w conn s 0xa 2 0xa 2 (sn ++ 0 ∷ []) sn, s))
  unfolding add_buddy remove_buddy usersearch_address
  requests_queued sn some_name lt =
      let full = ne→== (length sn) 0 (omega (arith, some_name)) in
      let size : 10 + 1 + length sn ≡ 10 + length (be8 (length sn) ++ sn) =
        unfold be8 in omega arith in
      (
        rw full (
            request_as-queued 3 4 3 4 (10 + 1 + length sn) (sn ++ 0 ∷ [])
              (λ bs. some (put_name bs sn)) (be8 (length sn) ++ sn) size (omega arith)
              (put_name-Writes sn)),
        rw full (
            request_as-queued 3 5 3 5 (10 + 1 + length sn) (sn ++ 0 ∷ [])
              (λ bs. some (put_name bs sn)) (be8 (length sn) ++ sn) size (omega arith)
              (put_name-Writes sn)),
        request_as-queued 0xa 2 0xa 2 (10 + length sn) (sn ++ 0 ∷ [])
            (λ bs. some (putraw bs sn (length sn)).1) sn refl (omega arith) (putraw-Writes sn),
      )
