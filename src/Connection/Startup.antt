-- ===== src/Connection/Startup.antt =====
-- aim_session_init and aim_session_kill.
use libfaim.Prelude.{
  ℕ, ◌+◌, ◌-◌, ◌/◌, ◌%◌, ◌≡◌, refl, Bool, true, false, Option, none, some, List, [], ◌∷◌, ◌==◌,
  if◌then◌else◌, All-map, replicate, subst, map, keep, All, ◌≤◌, arith, lt→ltb, ap, ◌∙◌, sym,
}
use mathlib.Core.List.{reverse_aux}
use libfaim.Prelude.Int.{negsuc}
use libfaim.Prelude.Alloc.{Allocator, Request}
use libfaim.Os.{Os}
use libfaim.Session.{Conn, Session, queuebased}
use libfaim.Snac.{SnacCache, initsnachash, cleansnacs, hash_size}
use libfaim.Rxhandlers.{Module, registermodule, findmodule, same_name, shutdownmodules, shut}
use libfaim.Families.{
  misc_modfirst, general_modfirst, locate_modfirst, buddylist_modfirst, msg_modfirst,
  adverts_modfirst, invite_modfirst, admin_modfirst, popups_modfirst, bos_modfirst, search_modfirst,
  stats_modfirst, translate_modfirst, chatnav_modfirst, chat_modfirst, ssi_modfirst, icq_modfirst,
  auth_modfirst,
}
use libfaim.Rxhandlers.Registry.{register_all}
use libfaim.Snac.{Snac, clean_chain, clean_chains}
use libfaim.Rxqueue.{purge_rxqueue}
use libfaim.Txqueue.{purgequeue}
use libfaim.Connection.{Whole, connrst, connrst_loop, logoff}
use libfaim.Session.Conns.{IsLive}
use libfaim.Connection.Kill.{logoff-empty, logoff-snacs}

-- The modules in the order of their registration.
abbrev pub modfirsts : List (Option Module)
modfirsts =
    misc_modfirst ∷ general_modfirst ∷ locate_modfirst ∷ buddylist_modfirst ∷ msg_modfirst
    ∷ adverts_modfirst ∷ invite_modfirst ∷ admin_modfirst ∷ popups_modfirst ∷ bos_modfirst
    ∷ search_modfirst ∷ stats_modfirst ∷ translate_modfirst ∷ chatnav_modfirst ∷ chat_modfirst
    ∷ ssi_modfirst ∷ icq_modfirst ∷ auth_modfirst ∷ []

-- AIM_SESS_FLAGS_XORLOGIN is bit 1, AIM_SESS_FLAGS_SNACLOGIN is bit 0.
abbrev pub has_xorlogin : ℕ → Bool
has_xorlogin flags = flags / 2 % 2 == 1

-- `flags | AIM_SESS_FLAGS_SNACLOGIN`
abbrev pub with_snaclogin : ℕ → ℕ
with_snaclogin flags = flags + (1 - flags % 2)

module _ {S : Type 0} (os : Os S) (cookie_of : Conn → List ℕ)
    (free_internal free_priv free_name : Conn → S → S) (run : ℕ → S → S) where
  -- The structure is zeroed first, whatever it held; the client's debugging function is left out.
  unfoldable pub session_init : Allocator → ℕ → ℕ → S → Whole × S
  session_init malloc flags debuglevel s =
      let core : Session = record {
        connlist = [];
        queue_outgoing = [];
        queue_incoming = [];
        tx_enqueue = queuebased;
      } in
      let zeroed : Whole = record {
        core = core;
        snacs = record { snac_hash = replicate hash_size []; snacid_next = 0 };
        msgcookies = [];
        modlist = [];
        flags = 0;
        debug = 0;
      } in
      let (w, s') = connrst os cookie_of free_internal free_priv free_name zeroed s in
      let (mods, s'') = register_all malloc run [] modfirsts s' in
      (
        record w {
          core = record w.core {
            queue_outgoing = [];
            queue_incoming = [];
            tx_enqueue = queuebased;
          };
          snacs = record (initsnachash w.snacs) { snacid_next = 1 };
          msgcookies = [];
          modlist = mods;
          flags = if has_xorlogin flags then flags else with_snaclogin flags;
          debug = debuglevel;
        },
        s'',
      )

  -- `clock` is what time(NULL) says at each chain of the SNACs.
  pub session_kill : (ℕ → ℕ) → Whole → S → Whole × S
  session_kill clock w s =
      let (w', s') =
        logoff os cookie_of free_internal free_priv free_name
          (record w { snacs = cleansnacs clock w.snacs (negsuc 0) }) s in
      let (mods, s'') = shutdownmodules run w'.modlist s' in (record w' { modlist = mods }, s'')

-- A name that is not taken is registered, with memory, in front.
registermodule-fresh :
    {S : Type 0} (malloc : Allocator) (run : ℕ → S → S) (mods : List Module) (m : Module) (s : S)
    → malloc Request.module_s ≡ true
    → findmodule mods m.name ≡ none
    → registermodule malloc run mods (some m) s ≡ (true, m ∷ mods, s)
unfolding registermodule
registermodule-fresh malloc run mods m s g e = rw (g, e) refl

abbrev AreFresh : List Module → List Module → Type 0
AreFresh mods [] = Unit
AreFresh mods (m ∷ ms) = (findmodule mods m.name ≡ none) × AreFresh (m ∷ mods) ms

register_all-reverse :
    {S : Type 0} (malloc : Allocator) (run : ℕ → S → S) (mods ms : List Module) (s : S)
    → malloc Request.module_s ≡ true
    → AreFresh mods ms
    → register_all malloc run mods (map (λ m. some m) ms) s ≡ (reverse_aux ms mods, s)
register_all-reverse malloc run mods [] s g h = refl
register_all-reverse malloc run mods (m ∷ ms) s g (h, hs) =
    ap (λ r. register_all malloc run r.1 (map (λ m. some m) ms) r.2)
      (registermodule-fresh malloc run mods m s g h)
    ∙ register_all-reverse malloc run (m ∷ mods) ms s g hs

abbrev somes : {A : Type 0} → List (Option A) → List A
somes [] = []
somes (none ∷ os) = somes os
somes (some x ∷ os) = x ∷ somes os

modfirsts-AreFresh : AreFresh [] (somes modfirsts)
unfolding findmodule same_name
modfirsts-AreFresh = (
  refl,
  (
    refl,
    (
      refl,
      (
        refl,
        (
          refl,
          (
            refl,
            (
              refl,
              (
                refl,
                (refl, (refl, (refl, (refl, (refl, (refl, (refl, (refl, (refl, (refl, tt)))))))))),
              ),
            ),
          ),
        ),
      ),
    ),
  ),
)

abbrev pub lacks_handler : Module → Bool
lacks_handler m = elim m.snachandler [ none ↦ true | some f ↦ false ]

module _ {S : Type 0} (os : Os S) (cookie_of : Conn → List ℕ)
    (free_internal free_priv free_name : Conn → S → S) (run : ℕ → S → S) where
  pub initialised-IsLive :
      (malloc : Allocator) (flags debuglevel : ℕ) (s : S)
      → IsLive
          (session_init os cookie_of free_internal free_priv free_name run malloc flags debuglevel
            s).0.core
  unfolding session_init connrst connrst_loop
  initialised-IsLive malloc flags debuglevel s = record {
    distinct = tt;
    incoming = tt;
    outgoing = tt;
  }

  -- A session that is initialised with memory is live, with nothing in it. It asks the modules in the
  -- reverse order of their registration, so that the catch-all misc module (family 0xffff) comes last;
  -- those of the families 6 and 0xc have no handler. The SNAC login is chosen unless the client asks for
  -- the XOR login.
  pub session_init-IsLive :
      (malloc : Allocator) (flags debuglevel : ℕ) (s : S)
      → malloc Request.module_s ≡ true
      → let w =
          (session_init os cookie_of free_internal free_priv free_name run malloc flags debuglevel
            s).0 in
        IsLive w.core
        × (w.core.connlist ≡ [])
        × (map (λ m. m.family) w.modlist
            ≡ 0x17 ∷ 0x15 ∷ 0x13 ∷ 0xe ∷ 0xd ∷ 0xc ∷ 0xb ∷ 0xa ∷ 9 ∷ 8 ∷ 7 ∷ 6 ∷ 5 ∷ 4 ∷ 3 ∷ 2 ∷ 1
              ∷ 0xffff ∷ [])
        × (map (λ m. m.family) (keep lacks_handler w.modlist) ≡ 0xc ∷ 6 ∷ [])
        × (has_xorlogin flags ≡ false → w.flags % 2 ≡ 1)
  unfolding session_init connrst connrst_loop
  session_init-IsLive malloc flags debuglevel s g = (
    initialised-IsLive malloc flags debuglevel s,
    refl,
    ap (λ r. map (λ m. m.family) r.0) registered,
    ap (λ r. map (λ m. m.family) (keep lacks_handler r.0)) registered,
    λ x. rw x (omega arith),
  )
    where
      registered : register_all malloc run [] modfirsts s ≡ (reverse_aux (somes modfirsts) [], s)
      registered = register_all-reverse malloc run [] (somes modfirsts) s g modfirsts-AreFresh

  abbrev IsIssued : (ℕ → ℕ) → SnacCache → Type 0
  IsIssued clock c = All (All (λ x. (i : ℕ) → x.issuetime ≤ clock i)) c.snac_hash

  clean_chain-All :
      (now : ℕ) (ch : List Snac)
      → All (λ x. x.issuetime ≤ now) ch
      → clean_chain now (negsuc 0) ch ≡ []
  unfolding clean_chain
  clean_chain-All now [] h = refl
  clean_chain-All now (x ∷ ch) (h, hs) =
      rw (lt→ltb x.issuetime (now + 1) (omega (arith, h))) (clean_chain-All now ch hs)

  clean_chains-All :
      (clock : ℕ → ℕ) (i : ℕ) (chs : List (List Snac))
      → All (All (λ x. (i : ℕ) → x.issuetime ≤ clock i)) chs
      → All (λ ch. ch ≡ []) (clean_chains clock (negsuc 0) i chs)
  unfolding clean_chains
  clean_chains-All clock i [] h = tt
  clean_chains-All clock i (ch ∷ chs) (h, hs) = (
    clean_chain-All (clock i) ch (All-map (λ x k. k i) ch h),
    clean_chains-All clock (i + 1) chs hs,
  )

  shutdownmodules-none : (mods : List Module) (s : S) → (shutdownmodules run mods s).0 ≡ []
  unfolding shutdownmodules
  shutdownmodules-none [] s = refl
  shutdownmodules-none (m ∷ mods) s = shutdownmodules-none mods (shut run m s)

  -- The end of a session where every waiting frame points to a connection and no SNAC was issued in the
  -- future: no connection, no module and no SNAC is left, and the queues are empty once they are purged.
  pub session_kill-empty :
      (clock : ℕ → ℕ) (w : Whole) (s : S)
      → IsLive w.core
      → IsIssued clock w.snacs
      → let w' = (session_kill os cookie_of free_internal free_priv free_name run clock w s).0 in
        (w'.core.connlist ≡ [])
        × ((purge_rxqueue w'.core).queue_incoming ≡ [])
        × ((purgequeue w'.core).queue_outgoing ≡ [])
        × (w'.modlist ≡ [])
        × All (λ ch. ch ≡ []) w'.snacs.snac_hash
  unfolding session_kill cleansnacs
  session_kill-empty clock w s live issued =
      let w' : Whole = record w { snacs = cleansnacs clock w.snacs (negsuc 0) } in
      let (conns, incoming, outgoing) =
        logoff-empty os cookie_of free_internal free_priv free_name w' s live in
      let left = logoff os cookie_of free_internal free_priv free_name w' s in
      (
        conns,
        incoming,
        outgoing,
        shutdownmodules-none left.0.modlist left.1,
        subst (λ c. All (λ ch. ch ≡ []) c.snac_hash)
            (sym (logoff-snacs os cookie_of free_internal free_priv free_name w' s))
            (clean_chains-All clock 0 w.snacs.snac_hash issued),
      )
