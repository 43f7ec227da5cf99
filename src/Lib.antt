-- ===== src/Lib.antt =====
-- The SSL/TLS library under ssl/, with the bee2evp extensions: the handshake state machines of
-- client and server, and the parts of DTLS that keep state of their own.
--
-- The program. An application drives a connection (`SSL`, ssl/ssl_local.h) through a message
-- flow (ssl/statem/statem.c), which alternates between reading and writing. Before a message
-- is processed, a read transition decides whether it is allowed in the handshake state and
-- moves to the next state; before one is sent, a write transition picks the next state, and
-- the state picks the message. Client (ssl/statem/statem_clnt.c) and server
-- (ssl/statem/statem_srvr.c) each have a transition of either kind for TLSv1.3 and for the
-- versions below. In DTLS, records are checked against a replay window before they are
-- processed (ssl/record/dtls1_bitmap.c), messages wait in priority queues (ssl/pqueue.c), and
-- a timer asks for retransmissions (ssl/d1_lib.c). Fragments of messages are put together and
-- messages are handed on in sequence (ssl/statem/statem_dtls.c). The version of the protocol
-- is agreed on between the ClientHello and the ServerHello (ssl/statem/statem_lib.c,
-- ssl/methods.c). A context keeps its sessions in a hash table and in a doubly linked list
-- that is ordered by their timeouts (ssl/ssl_sess.c). An application protocol is chosen from
-- two lists (`SSL_select_next_proto` of ssl/ssl_lib.c).
--
-- The files.
-- - Ssl.antt: the enumerations of ssl/statem/statem.h and ssl/ssl_local.h, and the members of
--   `SSL` that the state machines use. The record `Env` holds what is called and not modelled.
-- - Statem.antt: ssl/statem/statem.c, the functions that other code calls (`clear` is
--   `ossl_statem_clear`, `fatal` is `ossl_statem_send_fatal`, and so on), and the label `err`
--   of the read transitions. Statem/Control.antt has the lemmas on errors, Statem/Trace.antt
--   sequences of messages that are read.
-- - Statem/Client, Statem/Server: the two sides. Read.antt and Write.antt are the transitions:
--   each case of a switch is a clause of a function on the state, and cases that fall through
--   are functions that call the next. Messages.antt is the message of each state and the size
--   limits, Process.antt the function that processes it, Rejection.antt is about refusals,
--   Dispatch.antt about the function a message is handed to, Sends.antt about the message
--   after a move to write, Statem/Server/Length.antt about the length of a flight,
--   Flight12.antt and Flight13.antt the flights of messages that are accepted.
-- - Statem/Work: the work before and after a message is written (`ossl_statem_client_pre_work`
--   and so on), `statem_flush`, and `tls_finish_handshake` of ssl/statem/statem_lib.c.
-- - Statem/Flow: the message flow of ssl/statem/statem.c. Reading.antt and Writing.antt are
--   one pass of the loop of `read_state_machine` and `write_state_machine`, Machine.antt is
--   `state_machine`; Errors, Failure.antt and Success.antt are about what these return.
-- - Statem/Renegotiation.antt: `ssl3_renegotiate_check` of ssl/s3_lib.c and what the server
--   writes after it.
-- - Statem/Agreement: client and server against one another.
-- - Versions.antt: the version negotiation of ssl/statem/statem_lib.c: the tables
--   (`tls_version_table` and `dtls_version_table`), `ssl_method_error`, the tests of a version
--   and the sentinels of a random number. Versions/Range.antt is `ssl_get_min_max_version`,
--   Versions/Server.antt `ssl_choose_server_version` and `ssl_check_version_downgrade`,
--   Versions/Client.antt `ssl_choose_client_version` and the versions that a client offers.
--   Best, Legacy, Failing and Fallback.antt are about the server's choice, Accepting.antt
--   about the client's, Contiguous, Found and RealMax.antt about the range, Filled, Marks and
--   Sentinel.antt about the sentinels, Honest.antt about a client and a server against one
--   another.
-- - Dtls/Bitmap, Dtls/Pqueue, Dtls/Timer: the replay window, the queue and the timer.
-- - Dtls/Message.antt: the header of a handshake message of DTLS; Dtls/Message/Header.antt is
--   about writing and reading it.
-- - Dtls/Reassembly.antt: the bitmask of the bytes that have arrived, and
--   `dtls1_reassemble_fragment` on one message. Mask and Complete.antt are about the bitmask,
--   Pieces.antt about a fragment that arrives, Content.antt about all of them.
-- - Dtls/Inbox.antt: `dtls1_preprocess_fragment`, `dtls1_reassemble_fragment` and
--   `dtls1_process_out_of_seq_message`. Dtls/Inbox/Receive.antt is
--   `dtls1_retrieve_buffered_fragment` and `dtls_get_reassembled_message`. Items, Limits,
--   Sound and Pass.antt are about what the queue holds, InOrder.antt about the message that is
--   handed on, Fits.antt about the buffer for a message.
-- - Sessions.antt: the list of sessions, `SSL_SESSION_list_add` (`list_add`) and
--   `SSL_SESSION_list_remove` (`list_remove`), and the timeouts (`timeoutcmp`,
--   `sess_timedout`, `ssl_session_calculate_timeout`). Sessions/Timeouts.antt is about the
--   order of timeouts, Linked.antt and Spots.antt about the pointers of a list and a place in
--   it, Removed.antt and Remove.antt about the removal, Place.antt about the place by the
--   order, Added, Ways, Placing and Add.antt about the insertion.
-- - Sessions/Context.antt: list and table of a context: `SSL_CTX_add_session` (`add_session`),
--   `remove_session_lock` (`remove_session`), `SSL_CTX_flush_sessions` (`flush_sessions`),
--   `SSL_SESSION_set_time` and `SSL_SESSION_set_timeout`. Index.antt has what is relied on of
--   the table and what it holds, Held.antt the invariant, Drop.antt and Room.antt are about
--   sessions that go, Insert, Adding, Entered and NoMemory.antt about a session that is added,
--   Removal, Flush and Times.antt about the other operations.
-- - Protocols.antt: `SSL_select_next_proto`; Protocols/Select.antt is about what it chooses.
-- - Statem/Fixtures.antt, Statem/Tests, Versions/Tests.antt, Dtls/Tests, Sessions/Tests.antt,
--   Protocols/Tests.antt: concrete connections, tests and examples.
--
-- The model. A read transition returns the new connection and whether the message is allowed.
-- The counters that C keeps in machine integers are natural numbers; the wrap-around of the
-- timer's `unsigned int`s and of the 64-bit sequence numbers is written out. A word of 64 bits
-- is a list of 64 Booleans, on a platform whose `unsigned long` has 64 bits. A read past the
-- end of a vector of bytes is a failure of the function. Bits of flag words and pointers that
-- are only compared with NULL are Booleans, one for each bit that is tested. In the version
-- negotiation, what the packet functions return is given as a value, the security level and
-- the search for a certificate are functions in a record, and the members of the methods that
-- are not read are left out. In the reception of DTLS messages, the results of
-- `ssl_read_bytes` are a list that is given, of which each call takes the first; a byte of the
-- bitmask is the list of its bits; the contents of new memory and `BUF_MEM_grow_clean` are
-- parameters. The jump to `redo` of `dtls_get_reassembled_message` is an outcome of a pass.
-- Sessions are in a store, a function from pointers; a write or read through a pointer that is
-- not a session's is a failure of the function. The hash table is a parameter, the record
-- `Table`, whose documented behaviour is the hypothesis `IsTable`; memory that is not there is
-- a test of the table. Whether the lock of the context is taken is an argument of
-- `add_session`; `remove_session` and `flush_sessions` run in the lock. The loops of
-- `SSL_SESSION_list_add`, `SSL_CTX_add_session` and `SSL_CTX_flush_sessions` take fuel: the
-- length of the list is enough for the first, and one more for the others. All other functions
-- are total without fuel. The loops of the message flow, which end when the peer or the
-- network lets them, are relations: `Loops` is a loop pass by pass, `Flows` the alternation of
-- reading and writing, and `Runs` a call of `state_machine`; a result about them is a result
-- about every call that returns.
--
-- Not modelled. The construction and the parsing of messages, the retransmission of DTLS
-- messages, the other extensions than the one for versions, the record layer, the
-- cryptography, the lookup of sessions for a resumption and the interface of the library are
-- left out. What the state machines call of them is a parameter: the records `Env`, `Calls`
-- and `FlowCalls` hold one function for each function that is called, which returns the
-- connection and whether it succeeded; `everything_else` of a connection stands for all that
-- the model does not look into and a call may change, the network included. What processing a
-- message leaves alone is a hypothesis, `Keeps12` or `Keeps13`. The numbers of public headers
-- are parameters too. The flag `parsed` of the extension for versions, the failure to allocate
-- a single object, and assertions on the lengths of a bitmask are left out. SCTP, the release
-- of a session that has no references left, the callbacks, the counters of a context and the
-- error queue are left out.
pub mod Prelude
pub mod Ssl
pub mod Statem
pub mod Dtls
pub mod Protocols
pub mod Versions
pub mod Sessions
