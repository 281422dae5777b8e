-- ===== src/Lib.antt =====
-- girth moves a file over UDP: a sender paces DATA PDUs at a target rate, a receiver stages and writes
-- the blocks, finds the missing ones, asks for them with NACKs in its FEEDBACK PDUs, and reports its
-- rate and the end. A handshake over TCP authenticates the peers and agrees on a cipher.
--
-- Protocol (src/protocol.rs): Data is the DATA header, Feedback the FEEDBACK PDU, Marks START and FIN,
--   Blocks `num_blocks`; Bytes has the little-endian integers and the copies into a buffer. A buffer
--   is the list of its bytes, and an index out of range, which panics, is `none`.
-- LossTracker (src/losstracker.rs): Bitmap is `RecvBitmap`, Heap the heap of requests as a sorted list,
--   Scanner `LossScanner`. `advance` runs on one round of fuel for each block left, and `collect_due` on
--   one for each item of the heap and each block that it may return.
-- Rate (src/rate.rs): the RTT estimator and the rate controller, where limits that are not in order panic,
--   which is `none`. Floats are the interface Shared/Float, whose laws a theorem names.
-- Io (src/io.rs): sources and sinks as interfaces, the checksum by chunks, and the memory source and
--   sink. The loop of the checksum has a round of fuel for each chunk and two more.
-- Crypto (src/crypto.rs): Payload seals and opens a payload in place, Negotiate is the key exchange.
-- Auth (src/auth.rs): the transcripts and proofs of the pre-shared key.
-- Sender (src/sender.rs): Pdu builds the DATA PDU of a block for the first transmission and for a
--   retransmission, Layout and Build say what it is; Queue is the retransmit queue, Control the
--   feedback handler and the tick; Setup is the configuration and the initial state, and Pacing the
--   turns, batches and deadlines of `pacing_loop`, whose batch has fuel for each queued block and each place;
--   Prefetch is the loop of the prefetch thread, and Peer the wait for START.
-- Receiver (src/receiver.rs): Setup is `new_receiver`, Ingest `handle_packet`, Flusher a round of
--   `flusher_loop`, Feedback a round of `feedback_loop`; Accept joins the sender's PDUs to the checks, and
--   Delivery says what is staged and written, also over the datagrams of a batch, and Delivery/Run follows a
--   transfer from the new receiver on, as a sequence of datagrams and rounds of the flusher.
-- Recovery (src/sender.rs, src/receiver.rs): a report of the receiver at the sender, the batch that follows
--   and its arrival, with `deliver` for a sequence of datagrams that are not lost.
-- Runtime (src/runtime.rs): the control that pauses and limits a transfer, and its phases.
-- Error (src/error.rs): the errors of a transfer, and Classify, what a rejection text means.
-- Control (src/control.rs): the messages of the handshake and the knobs; Framing is `write_json` and
--   `read_json` over a connection.
-- Transfer (src/transfer.rs): the checks of a hello; Names has object names and addresses; Client, Push and
--   Pull are the client's `send_core_with_stream` and `recv_core_with_stream`; Server and Serve are
--   `recv_from_client` and `send_to_client`; Connection is `handle_conn`, and Connection/Listen
--   `listen_and_serve`; Session is `ClientSession`. Agreement joins the two sides, and Integrity is the
--   checksum at the end. A connection is a state with its reads and writes, and the runs of the data plane
--   are functions of their configuration that may give any result.
-- Stats (src/stats.rs): the counters, the snapshot, the rates between two of them, and `human_bytes`, whose
--   loop has six rounds of fuel, as each takes ten of 64 bits; Lines are the texts that show them.
-- Sys (src/sys/mod.rs): the loops of `write_all_at` and `read_exact_at`, with fuel for each byte and each
--   interruption that the file may still give. Batch (src/sys/linux.rs) is `BatchSender`, with such fuel too.
-- Cli (src/bin/girth.rs): `parse` as a loop over the words, and Main, `main` up to the transfer that it runs.
-- Prelude and Shared: the helpers that the parts share; 64-bit integers are native numbers with their
--   wrap-around written out.
--
-- A thread's handler runs to its end as one step on the shared state, and several threads are the
-- sequences of such steps. Parameters stand for the ciphers, HMAC, X25519, HKDF, CRC32C, the clock, the
-- resolver, the file system and the results of sockets. Not modelled: the sockets, received batches and
-- hints of src/sys, JSON, logging, the thread that prints statistics, and the wrappers that open a file for a transfer
-- and print its progress; they only call the system or format text.
pub mod Prelude
pub mod Shared
pub mod Protocol
pub mod LossTracker
pub mod Rate
pub mod Error
pub mod Control
pub mod Io
pub mod Crypto
pub mod Sender
pub mod Runtime
pub mod Transfer
pub mod Auth
pub mod Receiver
pub mod Recovery
pub mod Sys
pub mod Stats
pub mod Cli
