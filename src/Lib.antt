-- ===== src/Lib.antt =====
-- Steerloop: a control plane by which a person watches, steers and approves long-running agents.
--
-- An agent beside the coding tool of a host publishes numbered events to a relay and takes commands
-- from it. The relay keeps the last events in a journal, sends them to browsers, lets browsers in by
-- pairing codes and device tokens, and forwards their commands to the host they name. A browser folds
-- the events into a view. The relay and the browser share the data of the protocol.
--
--   packages/protocol/src/schema.ts      Protocol/Schema (data), Protocol/Schema/Checks (constraints)
--   packages/protocol/src/state.ts       Protocol/View (the state), Protocol/Handlers (one function
--                                        per event), Protocol/State (reduceEvent, reduceEvents)
--   packages/protocol/src/approval.ts    Protocol/Approval
--   apps/relay/src/event-journal.ts      Relay/Journal
--   apps/relay/src/device-registry.ts    Relay/Devices
--   apps/relay/src/server.ts             Relay/Sockets (state, sending, closing), Relay/Server
--                                        (authentication and frames), Relay/Server/Http (requests),
--                                        Relay/Server/Lifetime (start and stop)
--   apps/relay/src/config.ts             Relay/Config
--   apps/agent/src/relay-client.ts,
--   apps/agent/src/event-factory.ts      Agent/RelayClient
--   apps/agent/src/config.ts             Agent/Config
--   apps/agent/src/controller.ts         Agent/Controller
--   apps/agent/src/demo-adapter.ts       Agent/Demo
--   apps/agent/src/codex-app-server.ts   Agent/AppServer
--   apps/agent/src/codex-adapter.ts      Agent/Codex: Values (reading and limiting values), Adapter
--                                        (state, commands), Requests (approvals that Codex asks for),
--                                        Notices (what Codex tells)
--   apps/agent/src/compatibility.ts      Agent/Compatibility
--   apps/web/src/connection.ts           Web/Connection (ControlClient), Web/Commands (commands,
--                                        signatures, the stored key, the answers to requests)
--   apps/web/src/approval-integrity.ts   Web/Integrity
--
-- Functions carry the source's names in snake case. The modules below each of these hold its theorems,
-- and a module Tests with runs and instances. Common holds tests, lists, texts, maps, JSON values
-- (Common/Json) and effects that may throw (Common/Effects).
--
-- State is passed explicitly. A text is its list of UTF-16 code units; an object or a Map with string
-- keys is an association list in insertion order. A failure is a value. What a socket sends and closes
-- is recorded in the state. A step is one callback, and a task of the relay's queue or a command of the
-- agent runs as one step, with what its awaits bring as arguments: faults of the disk, random values,
-- times, what the host makes of a command, and what the Codex process replies to a call. All loops are
-- over finite lists, so no fuel is used.
--
-- The runtime is a parameter: Date.parse, toISOString, JSON, Unicode normalization and upper case,
-- UTF-8, SHA-256, the import of a key, signatures and their check, how `Number` rounds, and which events
-- the schema that stands behind an adapter's `emit` accepts. A promise that is dropped and rejected ends
-- the process, which is a throw of the step that made it. A WebSocket of a browser is closed by the page only with
-- a code that the browser allows. Dates are counted in milliseconds from an earliest date,
-- so that comparisons are those of the source. The theorems on the journal assume of the JSON codec
-- that an event reads back as itself, is one line, and that no proper part of it reads as an event.
--
-- Not modelled: names that an object inherits from its prototype (ids such as "constructor"), the
-- making of directories and temporary files, starting and stopping child processes, the browser's
-- interface, finding the version in the output of the Codex command line, and the tool plugin.
mod Common
pub mod Protocol
pub mod Relay
pub mod Agent
pub mod Web
