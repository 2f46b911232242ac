-- ===== src/Lib.antt =====
-- A verification library for Online jam: the wire protocol, the session handshake, the network and
-- control threads that run it, the buffers between the network and the audio callbacks, and the
-- pipelines that those callbacks run.
--
-- The program is a Rust workspace. A host and up to four clients exchange UDP datagrams. Each
-- datagram is a header and a body (crates/jam-protocol/src/packet.rs), its sequence number lives on
-- the ring of 2 ^ 16 (crates/jam-protocol/src/seq.rs), and the control packets drive two state
-- machines, the client's and the host's (crates/jam-protocol/src/handshake.rs). In each process a
-- receive thread parses what arrives and routes it (crates/jam-core/src/net.rs): audio goes to a
-- stream's jitter buffer, control packets to the control thread (crates/jam-core/src/control.rs),
-- which runs the handshake, keeps the shared state of crates/jam-core/src/lib.rs and tells the
-- other threads the clients' addresses; a transmit thread sends what the audio callback made. Audio
-- frames that arrive are pushed into a jitter buffer, from which the audio callback pops them,
-- under a playout policy (crates/jam-audio/src/jitter.rs); a ring of samples bridges the sizes of
-- hardware buffers and frames (crates/jam-audio/src/accum.rs), and stages what the resampler makes
-- of the decoded frames of a stream (crates/jam-core/src/playout.rs). A pipeline
-- (crates/jam-core/src/pipeline.rs) pulls a frame from each stream, mixes
-- (crates/jam-audio/src/mixer.rs), encodes (crates/jam-audio/src/codec.rs) and hands datagrams to
-- the transmit thread; the audio callbacks (crates/jam-core/src/engine.rs) feed it from the capture
-- ring and cut what it makes to the blocks of the device.
--
-- Prelude           what the modules share: Boolean tests, lists and integers over the native
--                   numbers, bytes
-- Protocol          the constants of crates/jam-protocol/src/lib.rs
-- Protocol.Seq      seq.rs; Order: what the order means on the ring
-- Protocol.Packet   packet.rs: Types (`PacketType`, `Header`, `Control`, ...), Endian
--                   (`to_be_bytes`, `from_be_bytes`), Text (UTF-8 and character boundaries), Writer
--                   and Reader (the two cursors), Write (`Header::write`, `AudioPacket::write`,
--                   `Control::write`), Parse (`Header::parse`, `AudioPacket::parse`,
--                   `parse_datagram`; Body: `Control::parse`), Outcome (a parser returns a value,
--                   an error or panics). Layout is the independent description of the bytes of a
--                   datagram, which Write is shown to emit and Parse to read; RoundTrip joins the
--                   two; Accept is about `accept_control_seq`.
-- Protocol.Handshake
--                   handshake.rs: Client (`ClientHandshake`) and Host (`HostHandshake`). A method
--                   that changes the state returns the new state and its actions; `now_ms` is an
--                   argument. Client.Runs, Host.Invariant and Host.Expiry are about sequences of
--                   calls, Host.Admit, Host.Answer, Host.Seats, Host.Slots and Host.Mapping about
--                   single ones, and Join about both machines together.
-- Audio.Jitter      `JitterBuffer` of jitter.rs, call by call; Slots, Holds, Play, Position, Once
--                   and Invariant are the proofs. Race has `push`, `take` and `reset` on one slot load by
--                   load and store by store, in any interleaving; Race.Held, Race.Steps, Race.Rank and
--                   Race.Atomic are the proofs about it.
-- Audio.Playout     `PlayoutController` of jitter.rs; Bounds and Outage are the proofs
-- Audio.Fifo        `SampleFifo` of accum.rs; Queue reads it as a queue, Put, Append and Newest are
--                   about a push
-- Audio.Codec       `AudioEncoder` and `AudioDecoder` of codec.rs; Codecs is the interface of libopus
--                   and of the conversions of samples. Pcm has the loops over samples, Sound the
--                   proofs.
-- Audio.Mixer       mixer.rs; Real is the interface of f32
-- Session           the shared state of crates/jam-core/src/lib.rs, with solo and mute; Solo is the
--                   proof
-- Network           net.rs: AddrUpdate and the address tables; Receive (`spawn_rx`, for one
--                   datagram), Transmit (`TxItem`, `spawn_tx`), Arrival (`ArrivalJitter` of jitter.rs,
--                   which the receive thread keeps). Receive.Spoof is the proof.
-- Control           control.rs: `ControlIo` and what the two threads share; Host
--                   (`spawn_host_control`) and Client (`spawn_client_control`): a round of the loop
--                   is a function of the thread's variables, an event, the clock's readings and what
--                   the receive thread has stored in the streams since the last round. Room: what
--                   the threads send fits the buffer. Host.Effect, Host.Run, Host.Clears,
--                   Host.Calls, Host.Follows: what the handshake's actions do to the address tables;
--                   Host.Mirror and Host.Rounds: the invariant of the host's loop.
--                   Client.Consistent, Client.Batch, Client.Steps and Client.Rounds: that of the
--                   client's.
-- Playout           playout.rs of crates/jam-core: `StreamPlayout`, which joins a stream's jitter
--                   buffer, playout policy and sample ring; Dsp is the interface of the decoder, the
--                   resampler and the float computations. Pull, Stage and Total are the proofs.
-- Pipeline          pipeline.rs: `PrevFrame`, `write_audio_datagram`, and what the two pipelines share
--                   from an encoded frame to its datagram; Host (`HostPipeline`) and Client
--                   (`ClientPipeline`). Send is about one frame on its way out, Repair about its
--                   redundant copy at the receiver, Host.Lanes, Host.Emits, Host.Total and
--                   Client.Total about a whole tick, Host.New about a new pipeline.
-- Engine            engine.rs: the audio callbacks; Capture and Output are the proofs about the two
--                   rings, Callback has the closures that join rings and pipelines, and
--                   Callback.Total is about them
-- Stun              the parser of crates/jam-app/src/stun.rs; Attributes has the layout of a response
--                   and the proof
--
-- An unsigned integer of the program is a native number, with its wrap-around written out where the
-- code can reach it; a byte string is a list of numbers below 256; a String is its UTF-8 bytes; a
-- socket address, which the code only copies and compares, is a number. A panic is a value of the
-- model (`panic` of Outcome, or `none`), so that a theorem can say that there is none. Five loops
-- run on fuel. In Playout, `stage` has the length of a frame, since each round stages a sample at
-- least, and `drain` the number of staged samples, since each round takes one at least; in Stun,
-- `parse_attrs` has the length of the attributes, of which each round passes four bytes at least; in
-- Engine, `fill` and `serve` have the number of samples to play, since each round makes or plays one
-- at least.
-- Every other loop is over a list or a count.
--
-- Not modelled: the meters and the resampler, which are floating-point signal processing. The
-- operations of f32 that the mixer and the codecs use, libopus, the float computations of the playout
-- controller, of the jitter estimate and of the round-trip average, and the comparison of the loss
-- simulation are parameters. But for a slot of the jitter buffer, whose loads and stores take effect
-- in the order of a schedule, the calls of one component run one at a time. Meters and snapshots for
-- display are left out of the shared state, and the gains are arguments of the pipelines. Of the
-- engine, only the callbacks are modelled: what opens sockets, devices and threads is I/O. Nor are
-- devices and user interfaces modelled, nor the rest of crates/jam-app.
--
-- These debug assertions are left out: that of `Control::write` on its header's type, those of the
-- coders on the size of a frame, and that of `pop_next` on the size of its buffer. So are two panics
-- at values that the program never makes: the remainder by the capacity of a `SampleFifo` of capacity
-- 0, and the index of `shared.clients` in the answer to a PONG, at an id that is not one of a slot.
pub mod Audio
pub mod Control
pub mod Engine
pub mod Network
pub mod Pipeline
pub mod Playout
pub mod Prelude
pub mod Protocol
pub mod Session
pub mod Stun
