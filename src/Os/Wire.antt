-- ===== src/Os/Wire.antt =====
-- A concrete system for the tests: one peer on every descriptor, whose bytes come in pieces of at most
-- four, and a line that takes at most three bytes at a time.
use libfaim.Prelude.{
  ℕ, ◌+◌, ◌≡◌, sym, ap, List, ◌++◌, Option, none, some, length, take, drop, arith, length-take,
  take-append-drop, min,
}
use libfaim.Os.{Os, Receives, Sends}

pub record Wire : Type 0 where
  pub incoming : List ℕ
  pub outgoing : List ℕ
  pub clock : ℕ

abbrev pub wire : Os Wire
wire = record {
  recv = λ fd n s. (take (min n 4) s.incoming, record s { incoming = drop (min n 4) s.incoming });
  send = λ fd xs s. (
    some (length (take 3 xs)),
    record s { outgoing = s.outgoing ++ take (length (take 3 xs)) xs },
  );
  close = λ fd s. s;
  time = λ s. s.clock;
  sleep = λ n s. record s { clock = s.clock + n };
  pending = λ fd s. s.incoming;
  written = λ fd s. s.outgoing;
}

pub wire-Receives : Receives wire
wire-Receives = record {
  recv_most = λ fd n s. omega (arith, length-take (min n 4) s.incoming);
  recv_next = λ fd n s. sym (take-append-drop (min n 4) s.incoming);
  recv_some = λ fd n s h k. omega (arith, length-take (min n 4) s.incoming);
}

number : Option ℕ → ℕ
number none = 0
number (some n) = n

pub wire-Sends : Sends wire
unfolding number
wire-Sends = record {
  send_most = λ fd xs s {n} e. omega (arith, ap number e, length-take 3 xs);
  send_next = λ fd xs s {n} e. ap (λ k. s.outgoing ++ take k xs) (ap number e);
  send_none = λ fd xs s e. absurd (nothing e);
}
  where
    nothing : {n : ℕ} → some n ≡ none → ⊥
    nothing e = cc
