-- ===== src/Rxhandlers/Dispatch/Settled.antt =====
-- aim_rxdispatch: the frames that are done with, as the walk goes on.
use libfaim.Prelude.{
  true-false, false, ℕ, zero, suc, ◌+◌, ◌≤◌, ◌<◌, ◌≡◌, refl, ap, sym, subst, ◌∙◌, Bool, true, ◌||◌,
  none, some, List, [], ◌∷◌, ◌==◌, if◌then◌else◌, arith, length, get_elem?, Bool-cases, inl, inr,
  ==→eq, ==→ne, ne→==,
}
use libfaim.Bstream.{get16}
use libfaim.Session.{Frame, Header, Session}
use libfaim.Rxhandlers.{Module, set_frame}
use libfaim.Rxhandlers.Dispatch.{Ending, went, crashed, hung, Dispatched, finished, out_of_rounds}
use libfaim.Rxhandlers.Dispatch.Tame.{
  is_control, is_negotiation, is_snac, Keeps, length-change, changed_frame,
}
use libfaim.Rxhandlers.Dispatch.OneFrame.{Ends, HasConn, IsServed}

pub some_eq : {A : Type 0} {x y : A} → some x ≡ some y → x ≡ y
some_eq e = cc

-- Every frame that waits has a connection.
abbrev pub HaveConns : Session → Type 0
HaveConns sess =
    (j : ℕ) (f : Frame)
    → get_elem? sess.queue_incoming j ≡ some f
    → f.handled ≡ false
    → HasConn sess f

-- A frame that is handled, or on a control channel.
abbrev pub is_settled : Frame → Bool
is_settled f = f.handled || is_control f.hdr

-- The frames before place `i` are.
abbrev pub SettledTo : ℕ → Session → Type 0
SettledTo i sess =
    (j : ℕ) (f : Frame) → j < i → get_elem? sess.queue_incoming j ≡ some f → is_settled f ≡ true

-- Of every waiting SNAC from place `i` on the family is served.
abbrev pub ServedFrom : List Module → ℕ → Session → Type 0
ServedFrom mods i sess =
    (j : ℕ) (f : Frame)
    → i ≤ j
    → get_elem? sess.queue_incoming j ≡ some f
    → f.handled ≡ false
    → is_snac f.hdr ≡ true
    → IsServed mods (get16 f.content).0

-- There is a negotiation frame.
abbrev pub HasNegotiation : Session → Type 0
HasNegotiation sess =
    (j : ℕ) × (f : Frame) × (get_elem? sess.queue_incoming j ≡ some f)
    × (is_negotiation f.hdr ≡ true)

-- What a loop that starts with the session may come to.
abbrev pub LoopEnds : {S : Type 0} → Session → Dispatched S → Type 0
LoopEnds sess (finished sess' s') =
    (j : ℕ) (f : Frame) → get_elem? sess'.queue_incoming j ≡ some f → is_settled f ≡ true
LoopEnds sess crashed = HasNegotiation sess
LoopEnds sess hung = HasNegotiation sess
LoopEnds sess out_of_rounds = ⊥

pub get_elem?-lt : {A : Type 0} (q : List A) (i : ℕ) {x : A} → get_elem? q i ≡ some x → i < length q
get_elem?-lt [] i e = absurd (none_some e)
  where
    none_some : {A : Type 0} {x : A} → none ≡ some x → ⊥
    none_some e = cc
get_elem?-lt (y ∷ q) zero e = omega arith
get_elem?-lt (y ∷ q) (suc i) e = omega (arith, get_elem?-lt q i e)

pub get_elem?-past : {A : Type 0} (q : List A) (i : ℕ) → get_elem? q i ≡ none → length q ≤ i
get_elem?-past [] i e = omega arith
get_elem?-past (y ∷ q) zero e = absurd (some_none e)
  where
    some_none : {A : Type 0} {x : A} → some x ≡ none → ⊥
    some_none e = cc
get_elem?-past (y ∷ q) (suc i) e = omega (arith, get_elem?-past q i e)

HasConn-Keeps :
    {i : ℕ} {a b : Session}
    → Keeps i a b
    → (g f : Frame) → f.conn ≡ g.conn
    → HasConn a g
    → HasConn b f
HasConn-Keeps k g f e (x, c, ec, er) = let (c', er') = k.same_conn x c er in (x, c', e ∙ ec, er')

HaveConns-Keeps : {i : ℕ} {a b : Session} → Keeps i a b → HaveConns a → HaveConns b
HaveConns-Keeps k h j f e waits =
    let (g, p, hh, hc, hd, hr) = k.same_frame j f e in
    elim (Bool-cases g.handled) [
      | inl d ↦ absurd (true-false (sym (hd d) ∙ waits))
      | inr d ↦ HasConn-Keeps k g f hc (h j g p d)
    ]

ServedFrom-Keeps :
    {a b : Session} (mods : List Module) (i : ℕ)
    → Keeps i a b
    → ServedFrom mods i a
    → ServedFrom mods (i + 1) b
ServedFrom-Keeps mods i k h j f le e waits snac =
    let (g, p, hh, hc, hd, hr) = k.same_frame j f e in
    let far : (i == j) ≡ false = ne→== i j (omega (arith, le)) in
    elim (Bool-cases g.handled) [
      | inl d ↦ absurd (true-false (sym (hd d) ∙ waits))
      | inr d ↦
          subst (λ c. IsServed mods (get16 c).0) (sym (hr far))
            (h j g (omega (arith, le)) p d (subst (λ x. is_snac x ≡ true) hh snac))
    ]

HasNegotiation-Keeps : {i : ℕ} {a b : Session} → Keeps i a b → HasNegotiation b → HasNegotiation a
HasNegotiation-Keeps k (j, f, e, n) =
    let (g, p, hh, hc, hd, hr) = k.same_frame j f e in
    (j, g, p, subst (λ h. is_negotiation h ≡ true) hh n)

LoopEnds-Keeps :
    {S : Type 0} {i : ℕ} {a b : Session}
    → Keeps i a b
    → (d : Dispatched S) → LoopEnds b d
    → LoopEnds a d
LoopEnds-Keeps k (finished sess' s') l = l
LoopEnds-Keeps k crashed l = HasNegotiation-Keeps k l
LoopEnds-Keeps k hung l = HasNegotiation-Keeps k l
LoopEnds-Keeps k out_of_rounds l = l

SettledTo-Keeps : {a b : Session} (i : ℕ) → Keeps i a b → SettledTo i a → SettledTo i b
SettledTo-Keeps i k h j f lt e =
    let (g, p, hh, hc, hd, hr) = k.same_frame j f e in
    elim (Bool-cases g.handled) [
      | inl d ↦ rw (hd d) refl
      | inr d ↦
          let c : is_control g.hdr ≡ true = rw d at (h j g lt p) in
          subst (λ x. (f.handled || is_control x) ≡ true) (sym hh) (rw c (or_true f.handled))
    ]
  where
    or_true : (b : Bool) → (b || true) ≡ true
    or_true b = ground arith

-- The frame at `i` is marked, or unmarked, after its handling.
abbrev mark : Session → ℕ → Bool → Session
mark sess i b = set_frame sess i (λ f. record f { handled = b })

module _ (sess : Session) (i : ℕ) (b : Bool) where
  marked :
      (j : ℕ) (f' : Frame)
      → get_elem? (mark sess i b).queue_incoming j ≡ some f'
      → (f : Frame) × (get_elem? sess.queue_incoming j ≡ some f)
        × (f'.hdr ≡ f.hdr)
        × (f'.conn ≡ f.conn)
        × (f'.handled ≡ (if i == j then b else f.handled))
        × (f'.content ≡ f.content)
  marked j f' e =
      let (f, p, r) = changed_frame i j (λ x. record x { handled = b }) sess.queue_incoming f' e in
      elim (Bool-cases (i == j)) [
        | inl h ↦
            let r' : f' ≡ record f { handled = b } = r ∙ rw h in
            (
              f,
              p,
              ap (λ x. x.hdr) r',
              ap (λ x. x.conn) r',
              ap (λ x. x.handled) r' ∙ rw h refl,
              ap (λ x. x.content) r',
            )
        | inr h ↦
            let r' : f' ≡ f = r ∙ rw h in
            (
              f,
              p,
              ap (λ x. x.hdr) r',
              ap (λ x. x.conn) r',
              ap (λ x. x.handled) r' ∙ rw h refl,
              ap (λ x. x.content) r',
            )
      ]

  HaveConns-mark :
      ((f : Frame) → get_elem? sess.queue_incoming i ≡ some f → HasConn sess f)
      → HaveConns sess
      → HaveConns (mark sess i b)
  HaveConns-mark at_i h j f' e waits =
      let (f, p, hh, hc, hd, hr) = marked j f' e in
      let there : HasConn sess f = elim (Bool-cases (i == j)) [
        | inl k ↦ at_i f (ap (get_elem? sess.queue_incoming) (==→eq i j k) ∙ p)
        | inr k ↦ h j f p (sym (hd ∙ rw k refl) ∙ waits)
      ] in
      let (x, c, ec, er) = there in (x, c, hc ∙ ec, er)

  ServedFrom-mark :
      (mods : List Module) → ServedFrom mods (i + 1) sess → ServedFrom mods (i + 1) (mark sess i b)
  ServedFrom-mark mods h j f' le e waits snac =
      let (f, p, hh, hc, hd, hr) = marked j f' e in
      let far : (i == j) ≡ false = ne→== i j (omega (arith, le)) in
      subst (λ c. IsServed mods (get16 c).0) (sym hr)
        (h j f le p (sym (hd ∙ rw far refl) ∙ waits) (subst (λ x. is_snac x ≡ true) hh snac))

  HasNegotiation-mark : HasNegotiation (mark sess i b) → HasNegotiation sess
  HasNegotiation-mark (j, f, e, n) =
      let (g, p, hh, hc, hd, hr) = marked j f e in
      (j, g, p, subst (λ h. is_negotiation h ≡ true) hh n)

  LoopEnds-mark : {S : Type 0} (d : Dispatched S) → LoopEnds (mark sess i b) d → LoopEnds sess d
  LoopEnds-mark (finished sess' s') l = l
  LoopEnds-mark crashed l = HasNegotiation-mark l
  LoopEnds-mark hung l = HasNegotiation-mark l
  LoopEnds-mark out_of_rounds l = l

  SettledTo-mark :
      (h : Header)
      → ((f : Frame) → get_elem? sess.queue_incoming i ≡ some f → f.hdr ≡ h)
      → (b || is_control h) ≡ true
      → SettledTo i sess
      → SettledTo (i + 1) (mark sess i b)
  SettledTo-mark h at_i good before j f' lt e =
      let (f, p, hh, hc, hd, hr) = marked j f' e in
      elim (Bool-cases (i == j)) [
        | inl k ↦
            let q : get_elem? sess.queue_incoming i ≡ some f =
              ap (get_elem? sess.queue_incoming) (==→eq i j k) ∙ p in
            let d : f'.handled ≡ b = hd ∙ rw k refl in
            subst (λ x. (f'.handled || is_control x) ≡ true) (sym (hh ∙ at_i f q))
              (subst (λ x. (x || is_control h) ≡ true) (sym d) good)
        | inr k ↦
            let d : f'.handled ≡ f.handled = hd ∙ rw k refl in
            subst (λ x. (f'.handled || is_control x) ≡ true) (sym hh)
              (subst (λ x. (x || is_control f.hdr) ≡ true) (sym d)
                (before j f (omega (arith, ==→ne i j k)) p))
      ]

-- One round, before the rest of the walk.
module _ {S : Type 0} (mods : List Module) (i : ℕ) (fr : Frame) (sess : Session)
    (there : get_elem? sess.queue_incoming i ≡ some fr) (waits : fr.handled ≡ false)
    (conns : HaveConns sess) (served : ServedFrom mods i sess) (before : SettledTo i sess)
    (next : Session → S → Dispatched S)
    (later : (sess' : Session) (s' : S)
      → length sess'.queue_incoming ≡ length sess.queue_incoming
      → HaveConns sess'
      → ServedFrom mods (i + 1) sess'
      → SettledTo (i + 1) sess'
      → LoopEnds sess' (next sess' s')) where
  pub round-LoopEnds :
      (e : Ending S)
      → Ends i sess fr.hdr e
      → LoopEnds sess
          (elim e [ crashed ↦ crashed | hung ↦ hung | went b sess' s' ↦ next (mark sess' i b) s' ])
  round-LoopEnds crashed k = (i, fr, there, k)
  round-LoopEnds hung k = (i, fr, there, k)
  round-LoopEnds (went b sess' s') (k, good) = LoopEnds-Keeps k _ (
      LoopEnds-mark sess' i b _ (
        later (mark sess' i b) s' (length-change i _ sess'.queue_incoming ∙ k.same_length)
          (HaveConns-mark sess' i b same_conn (HaveConns-Keeps k conns))
          (ServedFrom-mark sess' i b mods (ServedFrom-Keeps mods i k served))
          (SettledTo-mark sess' i b fr.hdr same_hdr good (SettledTo-Keeps i k before))))
    where
      same_hdr : (f : Frame) → get_elem? sess'.queue_incoming i ≡ some f → f.hdr ≡ fr.hdr
      same_hdr f e =
          let (g, p, hh, hc, hd, hr) = k.same_frame i f e in
          hh ∙ ap (λ x. x.hdr) (some_eq (sym p ∙ there))

      same_conn : (f : Frame) → get_elem? sess'.queue_incoming i ≡ some f → HasConn sess' f
      same_conn f e =
          let (g, p, hh, hc, hd, hr) = k.same_frame i f e in
          HasConn-Keeps k fr f (hc ∙ ap (λ x. x.conn) (some_eq (sym p ∙ there)))
            (conns i fr there waits)
