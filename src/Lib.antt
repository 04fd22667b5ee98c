-- ===== src/Lib.antt =====
-- Free Claude Code: a gateway that serves Claude-compatible clients from other model providers, and a
-- bot that runs coding sessions from chat messages. This library models the program's own concurrency,
-- bookkeeping and translation of streams, with the guarantees that its parts give each other.
--
-- The parts and their files. Paths are from the repository's root.
--   Core/RateLimit: src/free_claude_code/core/rate_limit.py, `StrictSlidingWindowLimiter`. `pass` is one
--     locked pass of `_acquire` with its readings of the clock, `serve` any sequence of passes by any
--     callers.
--   Providers/Admission: src/free_claude_code/providers/admission.py, `ProviderAdmissionController` with
--     its sessions, permits and attempts. Every provider call opens its attempts through it. State,
--     Delay, Gate and Attempt hold the records and the locked sections; Task is one caller, as a
--     program counter and the section it runs next; System interleaves any number of callers, each
--     of which may be cancelled where it is suspended, also in the shielded part of `aclose`, which
--     then still runs before the caller does anything else. Invariant and its child modules hold the
--     invariant and its proof by cases over the sections, Safety what follows.
--   Providers/Credentials: src/free_claude_code/providers/credentials_provider.py,
--     `RotatingCredentialProvider`. Its operations get what they read of the clock and of `random` as
--     arguments.
--   Providers/KeyRotation: src/free_claude_code/providers/openai_chat/key_rotation.py, the choice of a key by
--     `ProviderCredentialPool` and what it records, and in Client the fallback over the keys. The
--     provider call, the classes of its errors and the lengths of cooldowns are arguments. So is
--     what other requests do to the pool during a call.
--   Providers/StreamRecovery: src/free_claude_code/providers/stream_recovery.py, the buffer that holds
--     the first events of a stream back, and what happens when the stream fails. Delivery adds what
--     the client was sent.
--   Messaging/Trees: src/free_claude_code/messaging/trees. Node holds the values of node.py,
--     identity.py and transitions.py and of messaging/models.py, Queue the FIFO of queue.py, Graph the
--     graph of graph.py, and Runtime the aggregate `MessageTree` of runtime.py: who runs, who waits,
--     and what a cancellation does. Runtime/Cancel and Runtime/Claimed hold its other operations,
--     and Runtime/Removal the removal of the replies below a message, which Graph/References finds.
--     Runtime/Sound states the invariant, Handover, Halting, Stop, Failing, Steps, Cancelling and
--     Subtree treat the operations, and Life sequences of them.
--   Core/Thinking: src/free_claude_code/core/anthropic/thinking.py, `ThinkTagParser`, which splits the
--     text of a stream into text and thinking.
--   Core/Streaming: src/free_claude_code/core/anthropic/streaming/ledger.py and
--     core/anthropic/stream_contracts.py. Block is `ContentBlockManager`, Ledger the bookkeeping of
--     `AnthropicStreamLedger`, Emit the methods that emit Anthropic events and record them. An
--     operation is a function from a ledger to the events it emits and the next ledger. Contract is
--     the assertion on a whole stream and the texts that a reader extracts from it. Sync relates a
--     ledger to the state in which that reader is after the events so far; Follows and the modules
--     after it show that each operation keeps the two in step.
--   Providers/ToolCalls: src/free_claude_code/providers/openai_chat/tool_calls.py,
--     `OpenAIToolCallAssembler`: streamed fragments of tool calls become tool blocks, some of whose
--     arguments are buffered until they are complete.
--   Providers/ChatStream: src/free_claude_code/providers/openai_chat/provider.py, the translation of
--     an OpenAI chat stream to Anthropic events, with the encrypted reasoning of
--     providers/open_router/client.py. It drives ToolCalls and the ledger: `write_part` is one part of a
--     chunk, `stream_response` a stream that ends, `fail_response` one that fails.
--   Core/GatewayModelIds: src/free_claude_code/core/gateway_model_ids.py, the model ids that the gateway
--     advertises. The `partition` of a text at its first slash is `partition`.
--   Application/Routing: src/free_claude_code/application/routing.py, `ModelRouter`, with config/model_refs.py
--     and the validators of config/settings.py. Application/Reasoning: application/reasoning.py, what
--     a request and the settings ask of a provider's reasoning. A raised error is a value. Routing/Refs is
--     the list of configured models, Routing/Counting the requests that count tokens.
--   Prelude: Python's `dict`, sets and texts, Boolean tests and list lemmas.
--
-- How the code is modelled.
--   A section of `async` code between two suspensions is one function on the state that its lock
--   guards, since only one task of the event loop runs at a time. Times are natural numbers of some
--   fine unit; a comparison or a difference of times is written so that it means what it means for
--   the code's floating point numbers. Clock readings, `uuid4` and random noise are arguments. An
--   exception is a value; a tree operation that raises leaves the tree that it has changed so far.
--   Shared objects are reached through the container that owns them, under their key.
--
-- Loops. `get_descendants` and `get_reference_descendants` run on fuel that is counted from the nodes,
--   `claim_next` on the length of the queue, and the parser's `feed` on the length of its buffer; each
--   is shown to end in time. The waiting loops of the limiter and of the gate are sequences of steps.
--
-- Streams. What the parsers of thinking tags and of written tool calls cut a chunk into is a sequence of
--   parts, any sequence of which is allowed. `json.loads` and `json.dumps` are arguments, on which
--   nothing is assumed, and the token estimate and the fresh tool ids are arguments as well.
--
-- Not modelled: log lines and trace events, HTTP and chat platform I/O, process management, the settings
--   that routing does not read and the admin pages. Of the trees, the restoring of a snapshot is left
--   out, as are the repository and the processor around them. Of the streams, the text form of
--   the events, the collector of buffered tool calls, and the bodies by which a broken attempt is
--   continued or repaired are left out. Of the keys, the cached clients are left out.
pub mod Prelude
pub mod Core
pub mod Providers
pub mod Messaging
pub mod Application
