-- ===== src/Session/Conns.antt =====
-- Lookups and assignments in the list of connections.
use libfaim.Prelude.{
  All-map, All-append, ◌++◌, ℕ, ◌≡◌, refl, ap, sym, ◌∙◌, subst, Bool, true, false, Option, none,
  some, List, [], ◌∷◌, ◌==◌, if◌then◌else◌, arith, All, Bool-cases, inl, inr, none-some, some-eq,
  ==→eq,
}
use mathlib.Core.Option
use libfaim.Session.{Conn, Frame, Session, conn_at, update, set_conn}

-- Fields of an object change, its address does not.
abbrev pub KeepsAddr : (Conn → Conn) → Type 0
KeepsAddr f = (c : Conn) → (f c).addr ≡ c.addr

pub conn_at-update :
    (a b : ℕ) (f : Conn → Conn) (cs : List Conn)
    → KeepsAddr f
    → conn_at (update a f cs) b ≡ (if a == b then Option.map f (conn_at cs b) else conn_at cs b)
unfolding conn_at update
conn_at-update a b f [] k = ground arith
conn_at-update a b f (c ∷ cs) k = ground (arith, k c, conn_at-update a b f cs k)

abbrev pub IsThere : List Conn → ℕ → Type 0
IsThere conns a = (c : Conn) × (conn_at conns a ≡ some c)

-- A frame that waits points to a connection.
abbrev pub IsLinked : List Conn → Frame → Type 0
IsLinked conns f = f.handled ≡ false → (a : ℕ) × (f.conn ≡ some a) × IsThere conns a

-- No connection has gone.
abbrev pub Retains : List Conn → List Conn → Type 0
Retains conns conns' = (a : ℕ) → IsThere conns a → IsThere conns' a

pub IsLinked-Retains :
    (conns conns' : List Conn)
    → Retains conns conns'
    → (f : Frame) → IsLinked conns f
    → IsLinked conns' f
IsLinked-Retains conns conns' r f l waits = let (a, e, t) = l waits in (a, e, r a t)

map-there :
    (f : Conn → Conn) (o : Option Conn) {c : Conn} → o ≡ some c → Option.map f o ≡ some (f c)
map-there f o e = rw e refl

pub update-Retains :
    (a : ℕ) (f : Conn → Conn) (cs : List Conn) → KeepsAddr f → Retains cs (update a f cs)
update-Retains a f cs k b (c, e) = elim (Bool-cases (a == b)) [
  | inl h ↦ (f c, conn_at-update a b f cs k ∙ rw h (map-there f (conn_at cs b) e))
  | inr h ↦ (c, conn_at-update a b f cs k ∙ rw h e)
]

-- No two connections have one address.
abbrev pub AreDistinct : List Conn → Type 0
AreDistinct [] = Unit
AreDistinct (c ∷ cs) = (conn_at cs c.addr ≡ none) × AreDistinct cs

pub update-AreDistinct :
    (a : ℕ) (f : Conn → Conn) (cs : List Conn)
    → KeepsAddr f
    → AreDistinct cs
    → AreDistinct (update a f cs)
unfolding update
update-AreDistinct a f [] k d = tt
update-AreDistinct a f (c ∷ cs) k (d, ds) = (
  subst (λ x. conn_at (update a f cs) x ≡ none) (same_addr (c.addr == a)) (stays_none c.addr d),
  update-AreDistinct a f cs k ds,
)
  where
    same_addr : (b : Bool) → c.addr ≡ (if b then f c else c).addr
    same_addr true = sym (k c)
    same_addr false = refl

    stays_none : (b : ℕ) → conn_at cs b ≡ none → conn_at (update a f cs) b ≡ none
    stays_none b e = conn_at-update a b f cs k ∙ ground (arith, e)

pub conn_at-addr : (cs : List Conn) (a : ℕ) {c : Conn} → conn_at cs a ≡ some c → c.addr ≡ a
unfolding conn_at
conn_at-addr [] a e = absurd (none-some e)
conn_at-addr (x ∷ cs) a {c = c} e = elim (Bool-cases (x.addr == a)) [
  | inl h ↦
      let e' : some x ≡ some c = rw h at e in ap (λ y. y.addr) (sym (some-eq e')) ∙ ==→eq x.addr a h
  | inr h ↦ let e' : conn_at cs a ≡ some c = rw h at e in conn_at-addr cs a e'
]

-- What the library and its client rely on: the connections have addresses of their own, and every frame
-- that waits in a queue points to one of them.
pub record IsLive (sess : Session) : Type 0 where
  pub distinct : AreDistinct sess.connlist
  pub incoming : All (IsLinked sess.connlist) sess.queue_incoming
  pub outgoing : All (IsLinked sess.connlist) sess.queue_outgoing

pub set_conn-IsLive :
    (sess : Session) (a : ℕ) (f : Conn → Conn)
    → KeepsAddr f
    → IsLive sess
    → IsLive (set_conn sess a f)
set_conn-IsLive sess a f k live =
    let cs' = update a f sess.connlist in
    let r = IsLinked-Retains sess.connlist cs' (update-Retains a f sess.connlist k) in
    record {
      distinct = update-AreDistinct a f sess.connlist k live.distinct;
      incoming = All-map r sess.queue_incoming live.incoming;
      outgoing = All-map r sess.queue_outgoing live.outgoing;
    }

pub received-IsLive :
    (sess : Session) (fr : Frame)
    → IsLinked sess.connlist fr
    → IsLive sess
    → IsLive (record sess { queue_incoming = sess.queue_incoming ++ fr ∷ [] })
received-IsLive sess fr l live = record {
  distinct = live.distinct;
  incoming =
      All-append (IsLinked sess.connlist) sess.queue_incoming (fr ∷ []) live.incoming (l, tt);
  outgoing = live.outgoing;
}
