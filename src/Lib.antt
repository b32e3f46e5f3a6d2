-- ===== src/Lib.antt =====
-- libfaim: a library for the AOL OSCAR protocol. Its core takes bytes from sockets to frames in a
-- queue, and parsers and builders work on the frames' payloads.
--
-- Bstream (src/rxqueue.c, include/aim.h): aim_bstream_t and the aimbs_* readers and writers. A stream is
--   a record that each operation takes and returns; the memory behind `data` is a list of bytes.
-- Tlv (src/tlv.c): chains of type-length-value records over the streams. A chain is a list.
-- Snac (src/snac.c): the hash table of requests that wait for a reply. Its table is a list of 16 chains.
-- Msgcookie (src/msgcookie.c): the cookies of rendezvous requests; a cookie is a heap object with an
--   address, since the source compares pointers.
-- Session (include/aim.h): connections, frames and the part of aim_session_t that holds them. Frames
--   point to connections by address.
-- Flap: the framing on the wire.
-- Rxqueue (src/rxqueue.c): aim_get_command, which reads a FLAP frame from a connection's socket through
--   Bstream and appends it to the queue of incoming frames, and the cleaning of that queue.
-- Txqueue (src/txqueue.c): aim_tx_new, the two ways of enqueueing with the sequence numbers, aim_send
--   and the writing of FLAP and OFT frames to a socket, the flushing and cleaning of the queue, and
--   aim_getconn_type of src/conn.c, which it calls. Roundtrip joins it to Rxqueue.
-- Rxhandlers (src/rxhandlers.c): the registry of the protocol's modules, the handlers that a client hangs
--   on a connection, and aim_rxdispatch, which walks over the incoming queue, gives each frame to the
--   handlers of its channel and cleans the queue by Rxqueue. The functions behind the pointers are the
--   record Calls.
-- Families: the modules that the families' modfirst functions describe.
-- Connection (src/conn.c, the closing and killing of a rendezvous in src/ft.c, and aim_conn_kill_chat of
--   src/chat.c): the list of connections with aim_conn_kill and aim_logoff, aim_session_init, which
--   registers the modules of Families, and aim_session_kill, aim_select and aim_conn_completeconnect. Its
--   record Whole joins the parts of aim_session_t that the other components keep; Reach is a session's
--   life as a step relation.
-- Requests (src/misc.c, and short requests of src/bos.c, buddylist.c, admin.c, search.c, service.c, ssi.c,
--   adverts.c, chatnav.c and im.c): the builders that make a frame, remember its SNAC, write the payload
--   and queue the frame, on top of Txqueue, Snac and Tlv.
-- Caps (src/info.c): the table of capabilities with aim_getcap and aim_putcap. Userinfo (src/info.c, and
--   elements of src/tlv.c): a buddy's information on the wire, read and written; Userinfo/Profile
--   is the requests about it and the answer.
-- Parsing: how the families' parsers end, read their chains and call the client.
-- Notices (src/bos.c, buddylist.c, popups.c, stats.c, admin.c, info.c, search.c, misc.c, service.c,
--   ssi.c): the parsers that read a few values and hand them to the client.
-- Admin (src/admin.c): infochange. Ssi (src/ssi.c): the list that the server stores, and the request for
--   it.
-- Login (src/auth.c): the login at the authorizer by SNAC or, for ICQ, by a masked password; Login/Response
--   is its answers.
-- Service (src/service.c): the setting up of every connection: the server's families, the versions, the
--   rate classes, and the requests of family 1.
-- Directory (src/misc.c): the requests that set the profile, the directory entry and the buddy list.
-- Util (src/util.c): lists of items in strings and aim_sncmp, the comparison of screen names.
-- Os: the calls into the system (recv, send, close, time, sleep) as a record over a state of the world,
--   with what recv(2) and send(2) document as laws; Os/Wire is one system that keeps them. Prelude:
--   Boolean tests, lists, bytes and the allocator, a function that grants or refuses each request.
--
-- Names are those of the source without the prefixes aim_, aimbs_ and aim_bstream_. A list that may be
-- NULL is a list that may be empty; a result that may be NULL is an Option. Machine words are natural
-- numbers, with the remainder written out where the source assigns to a narrower field; an `unsigned
-- long` has `ulong` values, a parameter. Loops are structural, or have fuel: aim_recv and aim_send have
-- as many rounds as bytes are wanted, since each round takes a byte; aimutil_itemcnt and aim_sncmp as
-- many as their strings have characters; aim_getcap as many as its length has blocks, hostonline as many
-- as its block has room for; infochange and the loop of parsedata take the number of rounds, and one more
-- than the frame has parts is enough; aim_readtlvchain takes the fuel as an argument, and one round more
-- than the chain has elements is enough. aim_rxdispatch takes the number of its rounds, and one more than
-- there are frames is enough; aim_callhandler has two calls.
--
-- Not modelled: freeing of memory, but that of a connection's private data in aim_conn_kill, debugging
-- output, NULL session arguments, client-to-client connections (src/ft.c), which aim_get_command takes
-- as a parameter as it does the completion of a connect, the SOCKS proxy and the making of sockets in
-- src/conn.c, MD5 (src/md5.c), which is a parameter, and of the protocol's families the redirect of
-- src/service.c, aim_bos_changevisibility, messages (src/im.c), chat and the ICQ requests.
-- ICQ_OSCAR_SUPPORT is taken as not defined. What the client's handlers do is a parameter. Two pieces
-- of state stand beside the records instead of in them: the rate classes of a connection, and the
-- session's own name, which only the login's answer sets.
pub mod Prelude
pub mod Bstream
pub mod Tlv
pub mod Snac
pub mod Msgcookie
pub mod Os
pub mod Session
pub mod Flap
pub mod Rxqueue
pub mod Txqueue
pub mod Rxhandlers
pub mod Families
pub mod Connection
pub mod Requests
pub mod Parsing
pub mod Caps
pub mod Userinfo
pub mod Login
pub mod Service
pub mod Directory
pub mod Notices
pub mod Admin
pub mod Ssi
pub mod Util
