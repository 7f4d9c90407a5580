-- ===== src/Lib.antt =====
-- chat-rag is a chat service in front of large language models. A request for the model "auto" is
-- routed to one of several configured models; the service then calls models one after the other until
-- one answers, with retries, and with idle timeouts that all attempts of a request share.
--
-- Parts of the program and the modules that model them:
-- - Router.Priority: internal/router/strategies/priority (priority.go, round_robin.go) and its part of
--   internal/config/config.go. Config is `validateConfig`; Group the groups of models and
--   `selectVisibleModelByRoundRobin`; Visible `isCandidateVisible`, `buildOrderedCandidates` and
--   `appendVisibleFallback`; Strategy `New` and `Run`. A map is an association list. `Run` holds a
--   read lock and a selection its group's lock, so a run is one step from strategy to strategy.
-- - Router.Semantic: internal/router/strategies/semantic/semantic.go. The scoring and ordering of the
--   candidates stand in Semantic itself, the label of an answer, the retries and `Run` in Analyzer.
--   The analyzer's answers, the clock and the result of the rule engine are fields of SemanticEnv.
-- - Idle: internal/timeout/idle.go. Tracker is `IdleTracker`, Timer `IdleTimer` with its methods, and
--   Watch the goroutine `watch` as a step relation beside the methods that the request calls. A method
--   that holds `it.mu` throughout is one step; `handleTimeout` is two, `charge` and `time_out`, since
--   `SetFirstTokenReceived` does not take `it.mu` and can come between.
-- - Chat: internal/logic/chat.go with the errors of internal/types/errors.go. Errors classifies
--   failures, and Trace is the trace of events that is kept of a request. Retry is
--   `callModelWithRetry` with `getRetryConfig` and `degradationErrorFields`, Degradation
--   `callWithDegradation`, and Streaming the loops of `ChatCompletionStream`. The model's endpoint, the
--   request's context and the shared idle budget are functions of the calls made so far (the fields of
--   Logic); one attempt of `handleStreamingWithTools` is such a function too (Streams).
--   Chunks reads the lines of an upstream stream (extractStreamingData and extractSSEFunctionResp of
--   internal/logic/response_handler.go), and Window is one attempt with its window of six contents:
--   handleStreamChunk, detectAndHandleTool, completeStreamResponse and what they send. Parsing JSON,
--   the success of a write, the clock and the token counter are fields of StreamEnv.
-- - Request with Json: the decoding and encoding of requests in internal/types/request.go on values
--   that encoding/json has parsed, with the fields that the service does not know, and
--   internal/logic/prefill_continue.go. Params, Body and Passthrough are about what is kept.
-- - Tools: internal/functions/tool_executor.go up to the call of a tool's client. Executor is
--   GenericToolExecutor and the loops of the parser; strconv and the type of floats are parameters.
-- - Processor: internal/promptflow/processor. Processor itself is the prompt of base.go, taken apart and
--   assembled, Filter the patterns of tools and the environment details of filter.go, System the
--   changes of a system message and the whole filter, and Rules the rules of rules_injector.go.
-- - Service.Sampler: internal/service/error_log_sampler.go; the clock is an argument.
-- - Messages: the selections of messages of internal/utils/msg_util.go.
-- - Types holds the data that these pass to one another (internal/types/request.go and internal/model),
--   Common the shared tests, list functions, integers and texts.
--
-- Conventions: a Go int is an integer of unbounded size, a Go string a list of bytes, a
-- time.Duration an integer and an instant a natural number of nanoseconds. A JSON number is the
-- float64 that it is parsed to; where its conversion to an int does not fit, the result is a field
-- of the number. Logging, response headers other than the name of the model, and metrics are left
-- out. One loop runs on fuel, `remove_pairs` of Processor.Filter: it gets as many rounds as the
-- content has bytes, and each round but the last makes the content shorter. The other loops run
-- over lists, and the retries over the rounds that the retry count leaves (Chat.Retry.rounds).
--
-- Not modelled: the clients of other services (HTTP, Redis, the model's own endpoint, the tools'
-- own endpoints), storage, configuration loading, the HTTP handlers and the metrics service, which
-- are input and output; the other prompt processors and the order in which they run; of the
-- semantic router the input and the rules' context, which rest on regular expressions and JSON
-- paths; and in internal/logic the prompt's processing, the recursion after a tool's execution and
-- the raw mode of a stream.
pub mod Common
pub mod Types
pub mod Router
pub mod Idle
pub mod Chat
pub mod Service
pub mod Messages
pub mod Json
pub mod Request
pub mod Tools
pub mod Processor
