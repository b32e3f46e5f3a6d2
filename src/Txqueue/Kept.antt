-- ===== src/Txqueue/Kept.antt =====
-- What sending leaves alone: the connections stay, and a frame its connection.
use mathlib.Core.Option
use libfaim.Prelude.{
  elim-if, ℕ, ◌+◌, ◌/◌, ◌%◌, ◌≡◌, refl, ap, sym, ◌∙◌, Bool, true, not, Option, none, some, List,
  ◌==◌, if◌then◌else◌, Bool-cases, inl, inr, none-some, true-false,
}
use libfaim.Prelude.Alloc.{Allocator, Request}
use libfaim.Bstream.{Bstream, init, putraw, put16, rewind, curpos}
use libfaim.Os.{Os}
use libfaim.Session.{Conn, Frame, Header, flap, oft, conn_at, update, in_progress}
use libfaim.Session.Conns.{conn_at-update, KeepsAddr, Retains, AreDistinct, update-AreDistinct}
use libfaim.Txqueue.{
  bstream_send, is_short, Ret, enomem, minus_one, minus_errno, fine, finish, sendframe_flap,
  sendframe_oft, sendframe,
}

-- Whether a connection is being connected; none if there is no connection.
abbrev pub connecting : List Conn → ℕ → Option Bool
connecting conns a = Option.map (λ c. in_progress c) (conn_at conns a)

-- From one list of connections to another: none comes or goes, none is connected.
pub record Stays (conns conns' : List Conn) : Type 0 where
  pub same_progress : (a : ℕ) → connecting conns' a ≡ connecting conns a
  pub distinct : AreDistinct conns → AreDistinct conns'

pub Stays-refl : (conns : List Conn) → Stays conns conns
Stays-refl conns = record { same_progress = λ a. refl; distinct = λ d. d }

pub Stays-trans : (a b c : List Conn) → Stays a b → Stays b c → Stays a c
Stays-trans a b c k l = record {
  same_progress = λ x. l.same_progress x ∙ k.same_progress x;
  distinct = λ d. l.distinct (k.distinct d);
}

map_eq :
    {A B : Type 0} (g : A → B) (f : A → A) (o : Option A)
    → ((x : A) → g (f x) ≡ g x)
    → Option.map g (Option.map f o) ≡ Option.map g o
map_eq g f none h = refl
map_eq g f (some x) h = ap (λ y. some y) (h x)

pub update-Stays :
    (a : ℕ) (f : Conn → Conn) (cs : List Conn)
    → KeepsAddr f
    → ((c : Conn) → (f c).status ≡ c.status)
    → Stays cs (update a f cs)
update-Stays a f cs k st = record {
  same_progress = λ b.
      ap (Option.map (λ c. in_progress c)) (conn_at-update a b f cs k)
      ∙ (elim (Bool-cases (a == b)) [
        | inl h ↦
            rw h (
              map_eq (λ c. in_progress c) f (conn_at cs b) (λ c. ap (λ x. x / 256 % 2 == 1) (st c)))
        | inr h ↦ rw h refl
      ]);
  distinct = update-AreDistinct a f cs k;
}

there_of :
    (o : Option Conn) {b : Bool}
    → Option.map (λ c. in_progress c) o ≡ some b
    → (c : Conn) × (o ≡ some c)
there_of none e = absurd (none-some e)
there_of (some c) e = (c, refl)

pub Stays-Retains : (conns conns' : List Conn) → Stays conns conns' → Retains conns conns'
Stays-Retains conns conns' k a (c, e) =
    there_of (conn_at conns' a) (k.same_progress a ∙ ap (Option.map (λ c. in_progress c)) e)

-- Sending a frame: what comes of the frame and the connections.
pub record IsSentFrom {S : Type 0} (malloc : Allocator) (conns : List Conn) (fr : Frame)
    (r : Ret × Frame × List Conn × S) : Type 0 where
  pub conns_stay : Stays conns r.2
  pub same_conn : r.1.conn ≡ fr.conn
  pub still_handled : fr.handled ≡ true → r.1.handled ≡ true
  pub sent_handled : ((q : Request) → malloc q ≡ true) → r.1.handled ≡ true

unsent :
    {S : Type 0} (malloc : Allocator) (conns : List Conn) (fr : Frame) (ret : Ret) (s : S)
    (q : Request)
    → not (malloc q) ≡ true
    → IsSentFrom malloc conns fr (ret, fr, conns, s)
unsent malloc conns fr ret s q refused = record {
  conns_stay = Stays-refl conns;
  same_conn = refl;
  still_handled = λ h. h;
  sent_handled = λ g. absurd (true-false (sym refused ∙ ap not (g q)));
}

module _ {S : Type 0} (os : Os S) where
  finish-IsSentFrom :
      (malloc : Allocator) (conns : List Conn) (fr : Frame) (content : Bstream) (a : ℕ) (err : Ret)
      (s : S)
      → IsSentFrom malloc conns fr (finish os conns fr content a err s)
  unfolding finish
  finish-IsSentFrom malloc conns fr content a err s = record {
    conns_stay = update-Stays a _ conns (λ c. refl) (λ c. refl);
    same_conn = refl;
    still_handled = λ h. refl;
    sent_handled = λ g. refl;
  }

  module _ (malloc : Allocator) (fresh : ℕ → List ℕ) where
    sendframe_flap-IsSentFrom :
        (conns : List Conn) (fr : Frame) (type seqnum : ℕ) (c : Conn) (s : S)
        → IsSentFrom malloc conns fr (sendframe_flap os malloc fresh conns fr type seqnum c s)
    unfolding sendframe_flap
    sendframe_flap-IsSentFrom conns fr type seqnum c s =
        let q = Request.bytes (6 + curpos fr.content) in
        elim-if (IsSentFrom malloc conns fr) (not (malloc q)) _ _
          (unsent malloc conns fr enomem s q) (λ g. finish-IsSentFrom malloc conns fr _ _ _ _)

    sendframe_oft-IsSentFrom :
        (conns : List Conn) (fr : Frame) (type : ℕ) (magic : List ℕ) (hdr2len : ℕ) (hdr2 : List ℕ)
        (c : Conn) (s : S)
        → IsSentFrom malloc conns fr
            (sendframe_oft os malloc fresh conns fr type magic hdr2len hdr2 c s)
    unfolding sendframe_oft
    sendframe_oft-IsSentFrom conns fr type magic hdr2len hdr2 c s =
        let hbslen = 8 + hdr2len in
        let b0 = init (fresh hbslen) hbslen in
        let b1 = (putraw b0 magic 4).1 in
        let b2 = (put16 b1 (hdr2len + 8)).1 in
        let b3 = (put16 b2 type).1 in
        let b4 = (putraw b3 hdr2 hdr2len).1 in
        let r = bstream_send os (rewind b4) c.fd hbslen s in
        let len = curpos fr.content in
        let r' = bstream_send os (rewind fr.content) c.fd len r.2 in
        let P = IsSentFrom {S = S} malloc conns fr in
        let q = Request.bytes hbslen in
        elim-if P (not (malloc q)) _ _ (unsent malloc conns fr minus_one s q) (λ g.
          elim-if P (is_short r.0 hbslen) _ _
            (λ e. finish-IsSentFrom malloc conns fr fr.content c.addr minus_errno r.2)
            (λ e.
              elim-if P (len == 0) _ _
                (λ e. finish-IsSentFrom malloc conns fr fr.content c.addr fine r.2)
                (λ e.
                  finish-IsSentFrom malloc conns fr r'.1 c.addr
                    (if is_short r'.0 len then minus_errno else fine) r'.2)))

    -- A connection that is there can be sent to.
    pub sendframe-some :
        (conns : List Conn) (fr : Frame) (s : S) (a : ℕ) (c : Conn)
        → fr.conn ≡ some a
        → conn_at conns a ≡ some c
        → (r : Ret × Frame × List Conn × S) × (sendframe os malloc fresh conns fr s ≡ some r)
          × IsSentFrom malloc conns fr r
    unfolding sendframe
    sendframe-some conns fr s a c e e' =
        let (r, q, k) = by_hdr fr.hdr in (r, simp (e, e', sendframe) q, k)
      where
        by_hdr :
            (h : Header)
            → (r : Ret × Frame × List Conn × S) × (elim h [
              | flap type seqnum ↦ some (sendframe_flap os malloc fresh conns fr type seqnum c s)
              | oft type magic hdr2len hdr2 ↦
                  some (sendframe_oft os malloc fresh conns fr type magic hdr2len hdr2 c s)
            ]
                ≡ some r)
              × IsSentFrom malloc conns fr r
        by_hdr (flap type seqnum) = (_, refl, sendframe_flap-IsSentFrom conns fr type seqnum c s)
        by_hdr (oft type magic hdr2len hdr2) =
            (_, refl, sendframe_oft-IsSentFrom conns fr type magic hdr2len hdr2 c s)
