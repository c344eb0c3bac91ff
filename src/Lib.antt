-- ===== src/Lib.antt =====
-- The verification of the gateway's run loop, its chain runtime, its rate limiter, its stream of
-- server-sent events, the limits on its requests and the safety checks of its tools.
--
-- Types and Types.Usage are the wire types (pkg/core/types): blocks, messages, responses and the
-- sum of usage, in which the addition of float64, for the cost, is an argument.
--
-- RunLoop is pkg/gateway/runloop: Controller.run as a pass of the loop and a loop on fuel, with
-- its turn of the model and its tools in RunLoop.Tools, StreamAccumulator in RunLoop.Accumulator
-- and what it calls (provider, tools, clock, context) as the fields of the record Controller in
-- RunLoop.Model. RunLoop.Client is the strict history handler of sdk/history.go. A run whose
-- limit of turns is on needs no more fuel than that limit and one, which RunLoop.Totality shows.
-- The checks on entry, the transcription of audio, the audio of a streamed turn and the parallel
-- execution of tools are left out.
--
-- Chains.Model and Chains.Replay are the chains of pkg/gateway/chains/manager.go as far as a
-- reconnecting client sees them: bufferAndEmit and replayAfter over the record HotChain. The
-- encoding of an event (json.Marshal) and its strict decoding (UnmarshalChainServerEventStrict,
-- pkg/core/types) are arguments, of which Replay.Exact assumes that the entries in the buffer
-- decode.
--
-- Chains.Access is who may read, change and attach to a chain, with its laws in Access.Laws, and
-- Chains.Defaults is mergeDefaults (manager.go), with the fields of the defaults as data.
--
-- Chains.Manager is the single writer of a chain and its single run: AttachChain and Detach in
-- Manager, UpdateChain in Manager.Update (manager.go), startRun in Manager.Start, with its
-- rollback, and in Manager.Launch, the end of executeRun and commitHistory in Manager.Finish
-- (executor.go). What the code does under the chain's lock is one function, from a chain to a
-- chain. The store is an interface there: Manager.Calls logs the calls, and their answers are a
-- function of the log. Manager.Writer gives these sections as data, an Action each, which
-- Manager.Runs uses too. Random ids and tokens and the time are arguments; so are the hash of a
-- token, strings.ToLower, types.ValidateCapability and, for UpdateChain, the emission of its
-- event. Left out are the scope and the sink of a lease, the ids that the code adds to an error,
-- the metadata that the gateway adds to a run's, and StartChain.
--
-- Chains.ClientTools is the tool calls that a run hands to its client (executor.go): the
-- enqueueing, the submission of a result, and the wait, along a sequence of what the client and
-- the clock do. ClientTools.WriteOnce sees the pending calls as registers that are written once;
-- ClientTools.Waiting is about the end of a wait, and ClientTools.Batch about a whole batch of
-- calls (resolveToolBatch), without its timeline; its events are in Chains.Execution. A sequence
-- of steps that has the end of the timer or of the context in it is long enough for a wait to
-- end.
--
-- Chains.Execution is executeRun and executeModelTurn (executor.go): a pass of the loop, and the
-- loop on fuel, over what a run calls as the fields of the record Runner. Answers and Moves are
-- about what a pass adds to the history, Ends and Outcome about the run. A run whose context has
-- ended by some step needs no more fuel than that step's index and one; a run whose context
-- never ends may go on for ever, since the code has no limit on its turns. The timeline items,
-- the buffering of the events for a replay, the assembly of the provider's request and the
-- registry of its images are left out.
--
-- Chains.Branch is manager_branch.go, ForkChain and RegenerateRun, with requireChain and
-- GetChain (manager.go) in Branch.Loading, over the chains in memory and a store in memory, and
-- the previews in Branch.Preview. Branch.Created is about what a fork leaves, Branch.Again about
-- a fork that is asked for again, Branch.Cut about where the messages are cut for a
-- regeneration, and Branch.Regenerated about the whole of it. The hash of a payload and the
-- value of a JSON number are arguments.
--
-- Chains.MemoryStore is pkg/gateway/chains/memstore.go: the maps of MemoryStore as a record, and
-- a function for each method, which is none where the code returns ErrNotFound; its child
-- Messages is buildChainMessageRecords. Writes gives the calls of the store interface (store.go)
-- as data, and runs a sequence of them. The sorted listings and the Postgres store are left out.
--
-- RateLimit is pkg/gateway/ratelimit: the limiter with its map and, by address, every
-- principal's limiter that has been made; RateLimit.Bucket is allowToken, with rates in
-- billionths of a token per second, time in nanoseconds, and exact numbers for the float64 of
-- the code. Reachable gives the calls of a limiter as data, and runs a sequence of them.
--
-- Sse is the writer of server-sent events (pkg/gateway/sse) and their parser
-- (pkg/core/sseframe), on lists of bytes.
--
-- Safety is the check of the addresses that tools may connect to, and the limit on what they
-- read of an answer (pkg/gateway/tools/safety), with addresses as lists of bytes. Safety.Ranges
-- is about the blocked ranges, Safety.Dial about connections. The parsing of URLs and redirects
-- are left out.
--
-- Limits is ValidateMessageRequest (pkg/gateway/limits). Limits.Budget is what its checks amount
-- to for a list of texts and payloads, and Limits.Request about a whole request. The number of a
-- text's bytes and strings.EqualFold are arguments; the payload of a block is its JSON.
--
-- Prelude holds what the parts share: Boolean tests, lists over the native numbers,
-- strings.TrimSpace and Go's maps as association lists.
--
-- Numbers that the code keeps in int and int64 are natural numbers here, which the code does not
-- let pass 2^63, but for the limit on an answer (Safety.read_limit), which wraps around; values
-- that it copies through JSON are the values themselves.
pub mod Prelude
pub mod Types
pub mod RunLoop
pub mod Chains
pub mod RateLimit
pub mod Sse
pub mod Safety
pub mod Limits
