-- ===== src/Lib.antt =====
-- A verification library for inspethct, an Ethereum virtual machine built for inspection: the
-- interpreter of internal/engine with the world state it runs on, the engine and the breakpoints
-- around it, the state of a forked chain, source maps, the variables of a contract while it runs,
-- and the matching of bytecode with builds.
--
-- The parts of the program and the files that model them:
-- Base: lists, 64-bit arithmetic, maps, signed integers and the interface of a state with
-- snapshots (Base/Journal), which the storage and the accounts implement.
-- Engine/Types: the words, errors, statuses and results of internal/engine/types.go and
-- result.go. A Word, Hash or Address is the number that its big-endian bytes denote.
-- Engine/Stack, Engine/Memory, Engine/Gas, Engine/Opcodes: stack.go, memory.go and gas.go. Go
-- panics are values: `panic` of a Result, or `none`.
-- Engine/World: the account state, the storage and the access list of state_impl.go. Maps are
-- functions into Option, so a missing key is kept apart from a zero.
-- Engine/Evm: the fields of EVM and evmState in one record, and a monad of steps that pass it on
-- and end in a value, an error or a panic. Engine/Evm/Hooks: access_hooks.go and dispatchHooks of
-- interpreter.go.
-- Engine/Ops: one definition for each handler of op_*.go, named as the handler, and
-- ExecuteMessage, opCallCommon and opCreate (message.go, op_system.go), cut into definitions at
-- the points where they branch.
-- Engine/Interpreter: interpreter.go. The two switches over the opcode, calcDynamicGas and
-- execute, are tables of rows, each a range of opcodes with its handler; the first row that has
-- the opcode answers. A round is one turn of the loop of Run, and `attempt` and `recover` are its
-- deferred recover.
-- Engine/Debug: Registry is SimpleHookRegistry (hook_registry.go), Breakpoint has
-- BreakpointCondition.Match and Breakpoint.Fire, Manager is BreakpointManager (breakpoint.go).
-- Registry/Lists and Registry/Order compare the registry with a list of hooks,
-- Breakpoint/Matching says when a breakpoint fires, Manager/Synced relates the breakpoints that
-- are listed to the hooks.
-- Fork: Overlay is internal/forkengine/overlay/overlay.go; Slots is forkStorage of
-- internal/forkengine/state_adapter.go. Slots/Lazy, Slots/Views and Slots/Refinement compare it
-- with a map of the whole chain. Accounts is forkAccountState of the same file, and
-- Accounts/Seeded says what a loaded account reads as.
-- Srcmap: Map is internal/srcmap/source_map.go, Ranges is SourceRange of types.go, Texts has the
-- parts of strings and strconv that these use. Map/Pcs, Map/Entries, Map/Trimming, Map/Parsing
-- and Ranges/Overlaps are the proofs.
-- Engine/Facade: SimpleEngine of engine_impl.go; run_on is Run once the state is made.
-- Facade/Undone and Facade/Intrinsic are the proofs.
-- Bytematch: internal/contractmeta/bytematch/matcher.go, with Footer for the metadata at the end
-- of code. Bytematch/Masked, Bytematch/Compared and Bytematch/Stripped are the proofs.
-- Engine/Precompiles: precompile.go. Bytes has what the contracts read and write, ModExp the
-- modular exponentiation and Blake2 the compression function, with their gas. Bytes/Digits,
-- ModExp/Encoded, Blake2/Sizes and Addresses are the proofs.
-- Varpeek: internal/varpeeker. Tracker is the hook of tracker.go; Tracker/Log says what a log of
-- the writes answers, Tracker/Search, Tracker/Retained, Tracker/Sources, Tracker/Follows and
-- Tracker/Latest compare it with that. Decode has decodeBytesValue of decode.go and
-- decodeSlotPrimitive of storage.go; Decode/Segments and Decode/Packed are the proofs.
--
-- How they interact: `run` takes rounds until one stops; a round charges gas, fires the hooks and
-- runs the handler. The handlers of calls and creations take the function that sends a message as
-- an argument, and `call_message` ties the knot by recursion on the depth of calls.
-- The engine makes a state of its configuration and calls `run`; the state of a fork stands in
-- for the accounts and the storage of the engine, on which it is built. The interpreter reads the
-- hooks of a registry, and a breakpoint is a hook. The program counters of a source map are the
-- starts of the instructions that the interpreter runs.
-- The contracts of a fork are the precompiles that the state of the interpreter has.
-- The tracker of Varpeek is a hook as well, and looks up the program counter that the state gives
-- to hooks, which is not the one that the interpreter counts, among the instructions of a source
-- map.
--
-- Bounds: `call_message` has two measures. The depth bounds the nesting of calls, and
-- ExecuteMessage refuses a message at depth 1024, so 1025 is enough. The fuel bounds the rounds
-- of one frame; where it runs out, the result is `no_fuel`, which no run of the program gives. A
-- round spends gas or goes one byte further in the code, so that the gas and one, times more than
-- the length of the longest code, is enough fuel; Engine/Ending proves this of static messages.
--
-- Parameters: Keccak256 and the derivations of addresses (Crypto) are library code, and so are
-- the hashes, curves and contracts that the precompiled contracts call (Library). Hooks are
-- functions of the state and the event.
-- What the fork storage asks of the upstream node is a function into Option, none where the node
-- fails; the theorem on it takes a node that answers every request. A debugger's handler of a
-- breakpoint is a function of the event and the state.
--
-- Not modelled: locks (a message runs on one goroutine), failing allocations, opcode names, and
-- fork names outside the list of constants. The hash of the code of a contract is not kept, since
-- no handler reads it.
--
-- The proofs: Engine/Evm/Rules says what it is for a handler to respect a relation between the
-- states before and after it, and has the rules for the parts that handlers are made of;
-- Engine/Respecting takes the handlers, the dynamic gas and the rounds of the loop through it
-- once, for every relation that allows changes of the frame alone. Engine/Frame (snapshots and
-- contracts of the callers) and Engine/Static (static calls) are two such relations, and add the
-- handlers that change the world. Engine/Ending says how far a handler moves the program counter
-- and what it spends, and carries that through the handlers (Handlers, Ready, Messages, which
-- rests on Charges and Sends), the rounds (Handled, Rounds), the loop (Loop) and the calls
-- (Settled, Calls). A child module of a component holds what is proved of it alone: Stack/Items,
-- Memory/Bytes, Memory/Growth, Ops/Big/Signed, Ops/Compare/Zeros, Interpreter/Jumpdests/Exact,
-- Interpreter/Jumpdests/Jump, Interpreter/Uint64/Exact, Ops/Storage/Refund, Ops/Message/Transfer,
-- World/Storage/Snapshots, World/Account/Snapshots. Engine/Tests runs concrete programs.
pub mod Base
pub mod Bytematch
pub mod Engine
pub mod Fork
pub mod Srcmap
pub mod Varpeek
