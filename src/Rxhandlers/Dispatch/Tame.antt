-- ===== src/Rxhandlers/Dispatch/Tame.antt =====
-- What the handlers of a dispatch leave alone.
use libfaim.Prelude.{
  none-some, true-false, ℕ, zero, suc, ◌≡◌, refl, ap, sym, ◌∙◌, Bool, true, false, ◌||◌, Option,
  none, some, List, [], ◌∷◌, ◌==◌, if◌then◌else◌, arith, length, get_elem?, Bool-cases, inl, inr,
  suc-==,
}
use mathlib.Core.Option
use libfaim.Session.{Conn, Frame, Header, flap, oft, Session, conn_at}
use libfaim.Rxhandlers.{Modsnac, Calls, change, set_frame}

-- The channels whose handlers may leave a frame in the queue: version and negotiation.
abbrev pub is_control : Header → Bool
is_control (flap type seqnum) = type == 1 || type == 4
is_control (oft type magic hdr2len hdr2) = false

abbrev pub is_negotiation : Header → Bool
is_negotiation (flap type seqnum) = type == 4
is_negotiation (oft type magic hdr2len hdr2) = false

abbrev pub is_snac : Header → Bool
is_snac (flap type seqnum) = type == 2
is_snac (oft type magic hdr2len hdr2) = false

-- What the handlers of the frame at a place leave alone: no frame enters or leaves the queue or
-- changes its header or connection, none but that at the place is read, none that is handled becomes
-- unhandled, and no connection is freed.
pub record Keeps (i : ℕ) (sess sess' : Session) : Type 0 where
  pub same_length : length sess'.queue_incoming ≡ length sess.queue_incoming
  pub same_frame :
      (j : ℕ) (f' : Frame)
      → get_elem? sess'.queue_incoming j ≡ some f'
      → (f : Frame) × (get_elem? sess.queue_incoming j ≡ some f)
        × (f'.hdr ≡ f.hdr)
        × (f'.conn ≡ f.conn)
        × (f.handled ≡ true → f'.handled ≡ true)
        × ((i == j) ≡ false → f'.content ≡ f.content)
  pub same_conn :
      (a : ℕ) (c : Conn)
      → conn_at sess.connlist a ≡ some c
      → (c' : Conn) × (conn_at sess'.connlist a ≡ some c')

pub record AreTame {S : Type 0} (calls : Calls S) : Type 0 where
  pub snac_tame :
      (k : ℕ) (sess : Session) (i : ℕ) (snac : Modsnac) (s : S)
      → Keeps i sess (calls.snachandler k sess i snac s).1
  pub callback_tame :
      (k : ℕ) (sess : Session) (i : ℕ) (s : S) → Keeps i sess (calls.callback k sess i s).1
  pub connerr_tame :
      (k : ℕ) (sess : Session) (i code : ℕ) (msg : Option (List ℕ)) (s : S)
      → Keeps i sess (calls.connerr k sess i code msg s).1

pub Keeps-refl : (i : ℕ) (sess : Session) → Keeps i sess sess
Keeps-refl i sess = record {
  same_length = refl;
  same_frame = λ j f e. (f, e, refl, refl, (λ h. h), λ n. refl);
  same_conn = λ a c e. (c, e);
}

pub Keeps-trans : {i : ℕ} {a b c : Session} → Keeps i a b → Keeps i b c → Keeps i a c
Keeps-trans k l = record {
  same_length = l.same_length ∙ k.same_length;
  same_frame = λ j f e.
      let (g, p, h1, c1, d1, r1) = l.same_frame j f e in
      let (g', p', h2, c2, d2, r2) = k.same_frame j g p in
      (g', p', h1 ∙ h2, c1 ∙ c2, (λ h. d1 (d2 h)), λ n. r1 n ∙ r2 n);
  same_conn = λ x y e. let (z, e') = k.same_conn x y e in l.same_conn x z e';
}

pub length-change : {A : Type 0} (i : ℕ) (g : A → A) (q : List A) → length (change i g q) ≡ length q
length-change i g [] = refl
length-change zero g (x ∷ q) = refl
length-change (suc i) g (x ∷ q) = ap suc (length-change i g q)

pub get_elem?-change :
    {A : Type 0} (i j : ℕ) (g : A → A) (q : List A)
    → get_elem? (change i g q) j ≡ (if i == j then Option.map g (get_elem? q j) else get_elem? q j)
get_elem?-change i j g [] = ground arith
get_elem?-change zero zero g (x ∷ q) = refl
get_elem?-change zero (suc j) g (x ∷ q) = ground arith
get_elem?-change (suc i) zero g (x ∷ q) = ground arith
get_elem?-change (suc i) (suc j) g (x ∷ q) =
    get_elem?-change i j g q
    ∙ ap (λ b. if b then Option.map g (get_elem? q j) else get_elem? q j) (suc-== i j)

some_eq : {A : Type 0} {x y : A} → some x ≡ some y → x ≡ y
some_eq e = cc

pub map-some :
    {A B : Type 0} (g : A → B) (o : Option A) {y : B}
    → Option.map g o ≡ some y
    → (x : A) × (o ≡ some x) × (y ≡ g x)
map-some g none e = absurd (none-some e)
map-some g (some x) e = (x, refl, sym (some_eq e))

-- Where a frame that has been changed comes from.
pub changed_frame :
    {A : Type 0} (i j : ℕ) (g : A → A) (q : List A) (f' : A)
    → get_elem? (change i g q) j ≡ some f'
    → (f : A) × (get_elem? q j ≡ some f) × (f' ≡ (if i == j then g f else f))
changed_frame i j g q f' e =
    let k = sym (get_elem?-change i j g q) ∙ e in
    elim (Bool-cases (i == j)) [
      | inl h ↦
          let k' : Option.map g (get_elem? q j) ≡ some f' = rw h at k in
          let (f, p, r) = map-some g (get_elem? q j) k' in (f, p, r ∙ rw h)
      | inr h ↦ let k' : get_elem? q j ≡ some f' = rw h at k in (f', k', rw h)
    ]

-- A change that leaves header, connection and `handled` alone.
pub Keeps-set_frame :
    (sess : Session) (i : ℕ) (g : Frame → Frame)
    → ((f : Frame) → (g f).hdr ≡ f.hdr)
    → ((f : Frame) → (g f).conn ≡ f.conn)
    → ((f : Frame) → f.handled ≡ true → (g f).handled ≡ true)
    → Keeps i sess (set_frame sess i g)
Keeps-set_frame sess i g hh hc hd = record {
  same_length = length-change i g sess.queue_incoming;
  same_frame = λ j f' e.
      let (f, p, r) = changed_frame i j g sess.queue_incoming f' e in
      elim (Bool-cases (i == j)) [
        | inl h ↦
            let r' : f' ≡ g f = r ∙ rw h in
            (
              f,
              p,
              ap (λ x. x.hdr) r' ∙ hh f,
              ap (λ x. x.conn) r' ∙ hc f,
              (λ d. ap (λ x. x.handled) r' ∙ hd f d),
              λ n. absurd (true-false (sym h ∙ n)),
            )
        | inr h ↦
            let r' : f' ≡ f = r ∙ rw h in
            (
              f,
              p,
              ap (λ x. x.hdr) r',
              ap (λ x. x.conn) r',
              (λ d. ap (λ x. x.handled) r' ∙ d),
              λ n. ap (λ x. x.content) r',
            )
      ];
  same_conn = λ a c e. (c, e);
}
