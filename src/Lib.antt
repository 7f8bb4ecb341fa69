-- ===== src/Lib.antt =====
-- UMBRA (tradep2p): a mediator coordinates the settlement of a trade between two parties in small
-- tranches, and never holds or sees the assets.
--
-- The parts. Clients and the mediator exchange frames whose payloads src/protocol.cpp encodes and
-- decodes. The mediator keeps one MediatorSession (src/mediator.cpp) for each room: it says whose
-- turn it is and what amount goes where, takes the reports of sending and receiving, asks both
-- parties for an acknowledgement before the final tranche, and collects the operator's fee. The
-- lobby (src/lobby.cpp) connects the two.
--
-- The files.
--   Base            lists, Boolean tests and outcomes: an exception is an `err` of its class
--   Protocol        include/tradep2p/protocol.hpp and src/protocol.cpp
--     Wire          the classes Writer and Reader; Wire/RoundTrip and Wire/Canonical hold the rules
--                   by which an encoder is followed field by field
--     Types         the constants and the structs that messages share
--     Validate      validate_... for texts, ids, terms, fees and nodes
--     Tranche       tranche_amount and other_party
--     Hex           ids as hexadecimal text
--     Terms         append_... and read_... for terms, fees and nodes, encode_terms, decode_terms
--     Offers Pages Registry Invites Trade Receipts Issued Disclosure
--                   encode_... and decode_... of the messages, under the names of the source
--   Mediator        include/tradep2p/mediator.hpp and src/mediator.cpp
--     Session       the members of MediatorSession as a record, the constructor, restore, join, and
--                   the const methods
--     Step          the methods that move a settlement on, and `step`, one call of a method
--     Invariant     what holds of a session between two calls
--     Turn          whose turn it is
--     Announce      the turn of a session as a message on the wire
--     Ledger        a run of calls, of which those that throw change nothing, and what the accepted
--                   reports claim was transferred
--     Settlement FeePaid Runs
--                   what the ledger holds at any time and at the end
--     Ends Bounded  a bound on the calls that can still be accepted
--     Honest Liveness
--                   the calls of honest participants, and where they lead
--   Recovery        include/tradep2p/recovery.hpp and src/recovery.cpp: what a client may resend
--     Classes       when each class is answered
--   RoomPersistence include/tradep2p/room_persistence.hpp and src/room_persistence.cpp: the bytes of
--                   the file of rooms
--     Restart       persisted_room_snapshot and the constructor of RoomEntry in src/lobby.cpp
--   Crypto          SHA-256, two signature schemes and a cipher of OpenSSL as parameters
--   Journal         include/tradep2p/journal.hpp and src/journal.cpp: the log of a client
--     Types Format  the entries, and the bytes of records and of the head file
--     Store         is_valid_transition, append, checkpoint, checkpoint_mldsa65, latest_for_trade
--     Replay        Journal::open()
--     RoundTrip Canonical Framing Resume
--                   each record as it is written and as it is read, and the loop over the records
--     Appends Consistent Reopen Written Crash
--                   the files while a journal is written, opened again, also after a crash
--     Linked Tamper Collision
--                   what any log that opens is like
--     Transitions   the local states beside those of a mediator session
--   Channel         send_frame and receive_frame of src/secure_channel.cpp; TLS is an ordered stream
--     Header Delivery Order
--                   the header, what arrives of what was sent, and what arrives of any bytes
--   History         src/history.cpp, include/tradep2p/history.hpp: the encrypted notes on counterparties
--     Types Cipher Format
--                   the entries; seal and open_sealed over the EVP calls; the bytes of the payload and
--                   of the file, persist and open_history
--     Store         the calls of LocalCounterpartyHistory and what is displayed; a failing call returns
--                   no state, the clock, the key and the random nonces are parameters
--     Text          fingerprints and hashes as hexadecimal text
--     RoundTrip Lookup Update Reopen Size Total Refusal
--                   the file reads back, the lookups, the calls as updates, the file that a call leaves,
--                   the length of the payload, and when a call throws
-- The modules named Examples apply the theorems to concrete messages, sessions and rooms.
--
-- The model. Numbers are natural numbers; a field of w bits has its range as a hypothesis where an
-- encoder writes it, and arithmetic that can wrap has `% 2 ^ w` written out. A std::array of bytes
-- is a list with its length in the range hypothesis. An enum class can hold any value of its base
-- type, so Party and SessionState have a constructor for the values without a name. A Writer is a
-- function on the bytes written so far, a Reader a function on the bytes left; loops over a list or
-- a count are structural recursion, so no fuel is needed. `honest_calls` takes a number of calls;
-- its bound is `calls_left`, which at the start is 16 per round and 7. The replay of a log takes its
-- length as fuel; each record takes at least five bytes, and `Resume.replay_fuel` shows that more
-- fuel changes nothing. The log and the head file of a journal are byte strings, and a crash is a
-- prefix of the log or a head file that was not replaced.
--
-- Not modelled: the texts of exceptions, memory limits, the lobby's threads and sockets, TLS, the
-- insides of cryptography, failing system calls, dashboards and the command line; the
-- locale of std::isalnum is "C".
pub mod Base
pub mod Crypto
pub mod Protocol
pub mod Mediator
pub mod Recovery
pub mod RoomPersistence
pub mod Journal
pub mod Channel
pub mod History
