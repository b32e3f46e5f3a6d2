-- ===== src/Os.antt =====
-- The calls into the operating system, which the library only makes: sockets and the clock. `S` is the
-- state of the world, a descriptor is a number, and the laws are what recv(2) and send(2) document for
-- blocking stream sockets. `pending` and `written` say what a peer has sent and been sent.
pub mod Wire
use libfaim.Prelude.{ℕ, ◌≤◌, ◌<◌, ◌≡◌, List, ◌++◌, Option, none, some, length, take}

pub record Os (S : Type 0) : Type 0 where
  -- The bytes that arrive, none on an error or at the end of the stream.
  pub recv : ℕ → ℕ → S → List ℕ × S
  -- How many of the bytes are taken; `none` is -1.
  pub send : ℕ → List ℕ → S → Option ℕ × S
  pub close : ℕ → S → S
  pub time : S → ℕ
  pub sleep : ℕ → S → S
  pub pending : ℕ → S → List ℕ
  pub written : ℕ → S → List ℕ

-- recv(2): at most `n` bytes, the next ones of the stream, and one at least while there are any.
pub record Receives {S : Type 0} (os : Os S) : Type 0 where
  pub recv_most : (fd n : ℕ) (s : S) → length (os.recv fd n s).0 ≤ n
  pub recv_next :
      (fd n : ℕ) (s : S) → os.pending fd s ≡ (os.recv fd n s).0 ++ os.pending fd (os.recv fd n s).1
  pub recv_some :
      (fd n : ℕ) (s : S) → 0 < n → 0 < length (os.pending fd s) → 0 < length (os.recv fd n s).0

-- send(2): a number of bytes from the front is taken, at most all and at least one, or -1 is returned
-- and nothing is taken.
pub record Sends {S : Type 0} (os : Os S) : Type 0 where
  pub send_most :
      (fd : ℕ) (xs : List ℕ) (s : S) {n : ℕ} → (os.send fd xs s).0 ≡ some n → n ≤ length xs
  pub send_next :
      (fd : ℕ) (xs : List ℕ) (s : S) {n : ℕ}
      → (os.send fd xs s).0 ≡ some n
      → os.written fd (os.send fd xs s).1 ≡ os.written fd s ++ take n xs
  pub send_none :
      (fd : ℕ) (xs : List ℕ) (s : S)
      → (os.send fd xs s).0 ≡ none
      → os.written fd (os.send fd xs s).1 ≡ os.written fd s
