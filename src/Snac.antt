-- ===== src/Snac.antt =====
-- src/snac.c: the SNACs that wait for their replies, in a hash table of 16 chains. `time(NULL)` is
-- an argument; `ulong` is the number of values of an `unsigned long`.
pub mod Chains
pub mod Stored
pub mod Invariant
mod Tests
use libfaim.Prelude.{
  ℕ, zero, suc, ◌+◌, ◌%◌, ◌<◌, ◌≡◌, Bool, true, false, not, ◌&&◌, Option, none, some, List, [], ◌∷◌,
  ltb, ◌==◌, if◌then◌else◌, get_or, set, replicate, take, length, All,
}
use libfaim.Prelude.Alloc.{Allocator, Request}
use libfaim.Prelude.Int.{ℤ, pos, negsuc}
use libfaim.Bstream.{Bstream, put16, put32}

pub record Snac : Type 0 where
  pub id : ℕ
  pub family : ℕ
  pub type : ℕ
  pub flags : ℕ
  pub content : List ℕ
  pub issuetime : ℕ

-- The part of a session that snac.c keeps.
pub record SnacCache : Type 0 where
  pub snac_hash : List (List Snac)
  pub snacid_next : ℕ

-- FAIM_SNAC_HASH_SIZE
abbrev pub hash_size : ℕ
hash_size = 16

unfoldable pub initsnachash : SnacCache → SnacCache
initsnachash c = record c { snac_hash = replicate hash_size [] }

abbrev pub bucket : SnacCache → ℕ → List Snac
bucket c i = get_or c.snac_hash i []

-- The copy in the table carries the time of its entry. The result is the id, 0 without memory.
unfoldable pub newsnac : Allocator → ℕ → SnacCache → Snac → ℕ × SnacCache
newsnac malloc now c s =
    if not (malloc Request.snac)
    then (0, c)
    else let index = s.id % hash_size in
      (
        s.id,
        record c {
          snac_hash = set c.snac_hash index (record s { issuetime = now } ∷ bucket c index);
        },
      )

-- The counter moves on even if there is no memory.
unfoldable pub cachesnac :
    Allocator → (ulong now : ℕ) → SnacCache → (family type flags : ℕ) → List ℕ → ℕ × SnacCache
cachesnac malloc ulong now c family type flags content =
    let c' = record c { snacid_next = (c.snacid_next + 1) % ulong } in
    let s : Snac = record {
      id = c.snacid_next;
      family = family;
      type = type;
      flags = flags;
      content = content;
      issuetime = 0;
    } in
    if not (length content == 0) && not (malloc (Request.bytes (length content)))
    then (0, c')
    else newsnac malloc now c' s

-- The walk along a chain: the first element with the id is unlinked.
pub unlink : ℕ → List Snac → Option Snac × List Snac
unlink id [] = (none, [])
unlink id (cur ∷ next) =
    let (found, left) = unlink id next in
    if cur.id == id then (some cur, next) else (found, cur ∷ left)

pub remsnac : SnacCache → ℕ → Option Snac × SnacCache
remsnac c id =
    let index = id % hash_size in
    let (found, left) = unlink id (bucket c index) in
    (found, record c { snac_hash = set c.snac_hash index left })

-- `(curtime - issuetime) > maxage`
abbrev pub is_old : ℕ → ℤ → Snac → Bool
is_old now (pos maxage) s = ltb (s.issuetime + maxage) now
is_old now (negsuc k) s = ltb s.issuetime (now + suc k)

unfoldable pub clean_chain : ℕ → ℤ → List Snac → List Snac
clean_chain now maxage [] = []
clean_chain now maxage (cur ∷ next) =
    let left = clean_chain now maxage next in if is_old now maxage cur then left else cur ∷ left

-- The clock is read once for each chain, from chain `i` on.
unfoldable pub clean_chains : (ℕ → ℕ) → ℤ → ℕ → List (List Snac) → List (List Snac)
clean_chains clock maxage i [] = []
clean_chains clock maxage i (ch ∷ chs) =
    clean_chain (clock i) maxage ch ∷ clean_chains clock maxage (i + 1) chs

unfoldable pub cleansnacs : (ℕ → ℕ) → SnacCache → ℤ → SnacCache
cleansnacs clock c maxage = record c { snac_hash = clean_chains clock maxage 0 c.snac_hash }

unfoldable pub putsnac : Bstream → (family subtype flags snacid : ℕ) → ℕ × Bstream
putsnac bs family subtype flags snacid =
    let b1 = (put16 bs family).1 in
    let b2 = (put16 b1 subtype).1 in let b3 = (put16 b2 flags).1 in (10, (put32 b3 snacid).1)
