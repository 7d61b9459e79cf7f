-- ===== src/Lib.antt =====
-- The core of the waddle SDK: the episode and lease machine (waddle-fsm/src), the gate
-- (waddle-gate/src), the local watchdogs (waddle-tripwire/src), stamping at arrival
-- (waddle-ingest/src), parts of the control-plane client (waddle-controlplane/src), the sidecar of an
-- episode (waddle-sidecar/src) and the reducer that connects these parts (waddle-runtime/src), with
-- the vocabulary that they take from waddle-types/src. Paths below are relative to waddle-core/crates.
--
-- The program. A site runs one session; the session machine decides, event by event, which phase
-- the one active episode is in, who holds the claim, who holds the write lease, and in which mode
-- the gate dispatches. It is a pure function: a state and an event go in, the next state and a list
-- of effects come out, or the event is rejected. Its effects set the plan of the gate, which stamps
-- and records every tick of the caller's control loop and either lets the caller's action out, or
-- dispatches what a claim's stream has due, or nothing. The watchdogs read what arrived from the
-- sensors, stamped by the hub, and request verbs; the control-plane client carries events and
-- heartbeats. One thread of the runtime, the reducer, owns the machine: it takes events from one
-- channel, steps the machine and interprets the effects, one by one: it stores the gate's plan and
-- clears its stream, arms and fires timers, asks for verbs, sends itself the answers that the
-- machine waits for, records the episode and reports to the plane and to the status that the
-- callers read. The other parts are modelled by themselves, and their inputs are arguments.
--
-- The files.
--   Types, Types/Time, Types/Actor: waddle-types/src outcome.rs, grants.rs, handoff.rs,
--     provenance.rs, time.rs and the identifiers of ids.rs, as texts.
--   Outcome: the result of a handler. Rust's expect and unreachable are the constructor panicked.
--   Lease: waddle-fsm/src/lease.rs; Lease/Authority: which commands are denied.
--   GrantHealth: waddle-fsm/src/granthealth.rs; GrantHealth/Hysteresis: what one sample may do;
--     GrantHealth/Streaks: what a row of them does.
--   Session/Episode, Session/Emission, Session/Effect, Session/Event, Session/State: episode.rs,
--     claim.rs, emit.rs, effect.rs, event.rs, config.rs and the state of session.rs.
--   Session/Context, Session/Reset, Session/Engage: the methods of Ctx in session.rs. A method that
--     changes the context takes it and returns it.
--   Session/Handlers: the arms of step's match on the event, one function on_<event> per arm.
--   Session/Machine: Ctx::finish, the dispatch and step, and runs over a list of events, in which a
--     rejected event leaves the state as it was, as in the source.
--   Session/Safety: an invariant of the session's state, one module per group of handlers that
--     keeps it, and what follows for every reached state.
--   Session/Guarantees: the gate plan's re-projection, the freeze of grants, partitions, whose
--     claims are admitted, and ended episodes.
--   Gate/Action, Gate/Plan, Gate/Tick: gate.rs, plan.rs and record.rs of waddle-gate; Gate/Jitter:
--     jitter.rs; Gate/Blend: blend.rs; Gate/Stats: stats.rs; Gate/DualWrite: dualwrite.rs. The
--     modules below them say what a tick agrees with, what the buffer plays and keeps, which pairs
--     cross-fade, how percentiles are ordered, and what the detector answers to a history.
--   Tripwire: waddle-tripwire/src/lib.rs; Tripwire/Edges, Tripwire/Outages: the requests of its
--     threads.
--   Ingest/Offset, Ingest/Clock, Ingest/Hub: offset.rs, the test clock of clock.rs, hub.rs with the
--     slot of ring.rs; Ingest/Offset/Window and Ingest/Hub/Latest: histories of samples.
--   ControlPlane/Backoff, ControlPlane/Buffer, ControlPlane/Inflight, ControlPlane/Heartbeat: the
--     files of those names in waddle-controlplane/src.
--   Actions/Errors, Actions/Space, Actions/Message: error.rs and space.rs of waddle-types, and the wire
--     fields that action.rs reads; Actions/Flatten, Actions/Step, Actions/Unflatten: action.rs, with
--     the round trips and the sizes of steps in the modules below them. A type that holds an option
--     or a list of itself is a mutual block.
--   Types/Chunking, Types/Wrapping: two enums of space.rs, and i64 arithmetic that wraps.
--   ControlPlane/Messages, ControlPlane/Client: transport.rs, flags.rs and client.rs of
--     waddle-controlplane/src: which messages are kept for a reconnect, and one connection from its
--     dial to its end; ControlPlane/Client/Offline, ControlPlane/Client/Barrier: what is kept and
--     what leaves.
--   Sidecar, Sidecar/Spans, Sidecar/Finish: waddle-sidecar/src/builder.rs; Sidecar/Tiling: what the
--     spans cover.
--   Runtime/Acks: waddle-runtime/src/ack.rs; Runtime/Verbs: verbs.rs there; Runtime/Directives: the
--     plane's directives, forward_server_msg of pumps.rs there; Runtime/Bypass: the bypass pump of
--     pumps.rs, and what it leaves for the recording in Runtime/Bypass/Audit; Runtime/Timers,
--     Runtime/Proprio, Runtime/Rows, Runtime/Recording, Runtime/Recording/Episode, Runtime/Mirror,
--     Runtime/Reducer, Runtime/Reducer/Step, Runtime/Reducer/Loop: reducer.rs there with the
--     records of session.rs, pumps.rs, mirror.rs and jog.rs that it uses. The modules below them say
--     how often a directive is answered, which timers fire, what a refused event changes, and what
--     the effects of an accepted one make of the gate.
--   Prelude: shared names, lists, ordered association lists, bounded queues, float operations.
--   The files named Examples, and Session/Endings, run the definitions on concrete inputs.
--
-- How the model is built. Texts stand for ids, native naturals for counters (u32 ones wrap at
-- 2 ^ 32), and integers over them for i64 nanoseconds; a deadline saturates as in the source. Every
-- loop of the source goes over a list and is structural recursion, so there is no fuel. The f64
-- product that gives the recovery band of grant health is a function in the configuration, about
-- which nothing is assumed. The floats of the other parts are parameters too, records of operations
-- with no law but, for a tick of the gate, that 1 < 1 is false. i64 differences and sums wrap, as in a
-- release build. A BTreeMap is an ascending association list; the rtrb rings are a list and, for
-- the records, a flag that says whether there is room. Locks are not modelled: one caller at a time
-- changes a part, except for the in-flight bound, whose atomic accesses interleave as steps. The
-- rounds of a thread's loop are a list. The order in which the effects are pushed is the source's.
-- The reducer's clock and its fresh lease tokens are a sequence of readings each; its channels are
-- lists. The ack groups, which events share, stand at addresses. A connection is given by how many
-- sends succeed on it and by what its polls receive.
--
-- The provisos. A reset window's timer that fires before any episode was opened panics in the
-- source, at the expect of Ctx::episode. The histories of the safety theorems are those in which
-- that timer fires only once an episode was opened; the machine asks for that timer only when it
-- opens a window of an episode. That an ended episode keeps its outcome is shown where no reset
-- window of it is left open: the source closes a run without clearing a window that is open.
--
-- Not modelled: the protobuf conversions other than those of actions, the enum tables of emit.rs,
-- the ids of the configuration, SuccessorSpec, the constructors of gate.rs, whole chunks of actions
-- and the conversion of declared spaces, the production clock of waddle-ingest, negotiation, the
-- loop over connections and the transports of waddle-controlplane, sleeping and shutting down of
-- threads, the session host with its other pumps, jog control and inboxes in waddle-runtime, the names
-- that a sidecar copies and its files, the other crates (waddle-media, waddle-codecs, waddle-ffi,
-- waddle-conformance), and the SDK's front ends.
pub mod Prelude
pub mod Outcome
pub mod Types
pub mod Lease
pub mod GrantHealth
pub mod Session
pub mod Gate
pub mod Tripwire
pub mod Ingest
pub mod ControlPlane
pub mod Actions
pub mod Runtime
pub mod Sidecar
