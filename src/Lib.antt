-- ===== src/Lib.antt =====
-- KALUA: a verification library of the core of the runtime and of its tools.
--
-- KALUA runs Lua scripts as desktop and server applications. In serve mode a server
-- (internal/server) keeps a pool of workers, each with a Lua state of its own: a request leases
-- a worker, takes its slot, runs a Lua handler and releases it, while a hot reload may put a new
-- pool in its place and a shutdown closes every worker. The workers share a key-value store and
-- the hubs of the open WebSocket and TCP connections. Every layer writes structured logs through
-- internal/klog, which caps and quotes what a row holds. The visual builder (internal/builder)
-- edits documents of forms and merges what an AI generated into the one that is open.
--
-- The modules, and the code that they model:
--   Prelude   shared names, tests, list and map lemmas. Go's maps are association lists (Dict), and
--             no statement depends on the order of their entries; a string is the list of its
--             bytes (Text).
--   Pool      internal/server/worker.go and server.go: leaseWorker, release, acquireSlot,
--             freeSlot, retire, Reload, buildWorkers and shutdown, as a step function on the state of
--             all workers and threads. Each atomic operation of the code is one step, the two channel
--             operations of waitIdle among them, so that a schedule is a list of actions. The counters wrap at 2^32 and 2^64 as in the code.
--   Serve     Shared is internal/server/shared.go: Set, Get, Del, Keys and Incr; an int64 is its
--             bit pattern below 2^64. Hub is internal/server/ws.go and tcp.go: connections are
--             references to objects, so that a sender that has found a connection goes on with it after
--             it is unregistered. Mode is modeHas of internal/server/server.go.
--   Http      CallHTTP, callRoutedHTTP, decodeHTTPResponse, CallWS, CallTCP, CallInit and
--             CallShutdown of internal/server/worker.go, with the
--             lookups of internal/server/router.go. The interpreter is a record of functions on its
--             state, which holds the request table; the index of the matched route is given. A run of an
--             event handler gives the calls of the hub that are made while it lasts.
--   Klog      internal/klog: levels, TruncateMessage and TruncateData with itoa and quoteJSON,
--             and ParseRetention.
--   Config    internal/config/config.go: the parser of INI files, the lookups and ApplyFlags, which
--             puts the values of the file under those of the command line. Package flag is a parameter:
--             a function that says what Set of a flag makes of the store of all values, which
--             several flags can share.
--   Builder   internal/builder/model.go and merge.go: the documents and MergeDocument with the functions
--             that it calls. The values of options are of a parameter type, as is the text that %q
--             makes.
--   Mqtt      internal/bindings/mqtt.go: the filters of topics, the checks of the bindings and the
--             dispatch of a message to the handlers of a script. The hub, which talks to the broker, and
--             the interpreter are parameters.
--   TableDb   internal/bindings/tabledb.go and parts of db.go: the SQL of a page of a linked table, its
--             filters and its counts, as text. The database is a parameter, whose answer to a query
--             may depend on all queries before. The arithmetic of the pages is that of 64-bit integers.
--   Session   internal/session/session.go, types.go and internal/common/outbox.go: the stack of forms with
--             the idle timers, the tables of suspended coroutines, the requests to the browser and the
--             dispatch of its answers. A coroutine is a number. The steps of the actor as a whole are not
--             modelled.
--   Agent     internal/ai/agent.go and tools.go: AgentRun, the loop in which a model calls the tools of a
--             script, and ExtractToolCalls. The stream of the model, the executor, the regular expression
--             and JSON are fields of a parameter.
--   App       internal/vm/app.go: the loop that drives the main coroutine. One resume of it is a parameter.
--             Rounds says what the loop makes of a resume, apart from its code.
--   Brain     internal/common/brain.go: the router of a session's outbox, with the switch of
--             internal/cli/wasm_assets/app.minimal.js as the vocabulary of the page.
--   Printer   internal/format/printer.go: the layout of the tokens of a script, which come with their
--             source text and line.
--   Diff      internal/format/format.go: the diff that the formatter shows, from the table of longest common
--             subsequences to the hunks and the text.
--   Lsp       internal/lsp/feature.go: byteOffset and posAt, between offsets and positions, whose numbers
--             wrap at 2^32.
--
-- How they interact: the pool hands a worker to a request, and Http is what the worker does with it, with
-- the routes and the shared store of Serve. The handlers of a session run as coroutines: App drives the main
-- one until it is suspended, Session resumes it and the others on what the browser answers, and Brain turns
-- what they send into commands of the page. Printer and Diff are the two halves of the formatter around the
-- parser of the interpreter.
--
-- Fuel: retention_loop has the length of the text, of which every round takes a byte at least;
-- itoa_loop has the number itself, which every round divides by 10; walk_back has the number of kept
-- bytes, which every round lowers; quote_runes has the length of the text; run_main of App has a
-- number that is a parameter, since the script may go on for ever. agent_loop counts
-- the turns down from the bound of the code. Other loops are by structural recursion. The wait of a
-- shutdown for a worker receives the token of its slot and puts it back in a second step, or times out.
--
-- Not modelled: the Lua interpreter and its lexer and parser, sockets and TLS, the files and the databases
-- themselves, the rendering of forms and grids, the other bindings of Lua functions, the import and
-- export of the builder, the command line, and the requests of the language server beyond positions, which are
-- I/O, glue or walks over syntax trees of the interpreter; floating-point numbers, and with them
-- ParseSize. Of the session, handleAsyncDone with the AI tools, the repeating timers, the events of
-- controls and Close are left out. Text is ASCII where the code looks at its case or its white space, and a range
-- over a Go map is a list in some order. Conditions of the standard library (strconv, the string
-- functions on ASCII text, channels and atomics) are modelled as the language documents them.
pub mod Prelude
pub mod Pool
pub mod Builder
pub mod Klog
pub mod Serve
pub mod Config
pub mod Http
pub mod Mqtt
pub mod TableDb
pub mod Printer
pub mod Diff
pub mod Session
pub mod Brain
pub mod Agent
pub mod App
pub mod Lsp
