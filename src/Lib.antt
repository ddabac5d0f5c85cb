-- ===== src/Lib.antt =====
-- Javex runs JavaScript, compiled to WebAssembly by the Javy plugin, for an Elixir application. The
-- Elixir library (lib/javex) opens one worker process for each call, a Rust program; within it, or
-- in the NIF that a trusted application may use in its place, wasmtime executes the module under the
-- budgets of the call. This library models the Rust program under native/javex_nif/src, and the
-- provider under native/javex_plugin/src that runs in the guest: what bounds a call, what it may do to
-- the host, and what reaches the BEAM.
--
-- A call goes through these parts:
--
--   - The worker (native/javex_nif/src/worker.rs) is started twice. `supervise` reads a request from the
--     port, starts a child, and from then on four threads work side by side: one writes the request
--     and then the completions to the child, one reads completions from the BEAM, one checks each
--     event of the child before it passes the event on, and the last waits for the child to end.
--       Ipc          the frames, requests and events of the pipes: `read_frame`, `write_frame`, `request`,
--                    `event`, `response`. A pipe is the list of its bytes; an input is what is left of
--                    it. `read_frame` returns the rest of the budget that it takes as `&mut`.
--       Relay        the thread that checks the child's events: `round` is the body of its loop.
--       Supervisor   `plan` (the limits that follow from the request), the waiting loop as a function of
--                    what it sees at each poll, the exit code, and the checks of the command line.
--       Supervisor.Completions
--                    the two threads that pass completions on, as a step relation over all their
--                    interleavings: the channel, its capacity, the budgets and the cancellation flag.
--       Supervisor.Line
--                    the command line: how `main` reads it, as bytes, and how `supervise` writes that
--                    of the child.
--   - The child restricts itself (native/javex_nif/src/isolation.rs) before it reads any input.
--       Isolation    the program of seccomp that `restrict_syscalls` installs, instruction by
--                    instruction, for both architectures.
--       Isolation.Machine
--                    the kernel's machine for these instructions.
--       Isolation.Prepare
--                    `prepare`: the requests to the kernel, each of which may be refused.
--       Isolation.Install
--                    `restrict_syscalls`: the program is handed to the kernel.
--   - The sandbox (native/javex_nif/src/sandbox.rs) is what a call executes in.
--       Engine       `initialize_engine`: the one engine of a process, with the thread of its clock.
--       Engine.Runtime
--                    `build_runtime`: a plugin becomes a runtime.
--       Control      `Control`: the deadline and the shared cancellation flag.
--       Budgets      `Budgets` and the limits of frames that it computes.
--       Limiter      `Limiter`: one budget over all the memories of the store.
--       Cache        `Cache`: the compiled modules of a runtime.
--       Output       `Output` of native/javex_nif/src/output.rs: stdout and stderr with their quotas.
--       Sandbox      `Sandbox::finish`: how a call is reported.
--       Sandbox.Create
--                    `Sandbox::new`: what a call is created with, and the epoch callback.
--       Execution    `Execution`, and acts that take the world of a call and return it with a result.
--       Execution.Load
--                    how `Execution::start` comes by a module, from the cache or from the compiler.
--       Execution.Start
--                    `Execution::start`.
--       Execution.Advance
--                    `Execution::advance`.
--   - The child, `child` in worker.rs, serves one request.
--       Child.Setup  what it does up to the request, as a list of deeds.
--       Child.Operate
--                    the choice of the operation, and the response.
--       Child.Process
--                    `child` as a whole.
--       Child        the loop of `run`, which sends each state and reads the answer.
--   - The compiler (native/javex_nif/src/compiler.rs) runs the provider in the same sandbox.
--       Compiler     the permits of `CompilerPermit`, and `provider`, which keeps one runtime.
--       Compiler.Source
--                    the first check of `compile`, and the closure that calls the provider.
--       Compiler.Wrapper
--                    the `_start` function that `wrapper` builds, on a machine for its instructions.
--       Compiler.Wrapper.Assemble
--                    `wrapper`: the module around that function, its imports and exports.
--       Compiler.Compile
--                    `compile` as a whole.
--   - Nif            the slot of an execution in native/javex_nif/src/lib.rs, and the replies to Elixir.
--       Nif.Calls    the other functions of the NIF.
--   - The provider (native/javex_plugin/src/lib.rs) is what the host calls in the guest.
--       Plugin.Memory
--                    the memory of the guest, a byte at each address.
--       Plugin.Realloc
--                    `cabi_realloc`.
--       Plugin.Settle
--                    the loop of `step` that runs the jobs of QuickJS.
--       Plugin.Step  the other exported functions; the thread-locals are the state of an instance.
--       Plugin.Step.Host
--                    the provider as Execution calls it, with this plugin behind it.
--       Plugin.Bridge
--                    the callbacks of native/javex_plugin/src/bridge.js, which the provider evaluates.
--
-- Base holds what the parts share. Numbers are naturals. `usize` and `u64` have 64 bits and wrap, as in
-- a release build; where the code saturates, so does the model. An `Arc` is a place: the states behind
-- the streams live on a heap, the flags of the controls in a store of flags, so that clones are copies of
-- the place. `anyhow::Result` is a result whose error is a message or a trap of wasmtime; `?` is bind. A
-- panic (`unwrap` of nothing) is an outcome of its own. Bytes are numbers, of which the frames use only
-- how many there are, but for the four of a length.
--
-- Loops: the loops over a list or a range recurse on it, and so does `evict` on the queue; the waiting
-- loop recurses on what it sees, and is shown to end when that includes a time past the deadline. The
-- loop of the child takes the number of its passes as fuel, and more than stdin has bytes are enough. The
-- loop over the jobs of a script, which need not end, takes their number as fuel; it is compared with a
-- relation that needs none, and a guest whose jobs go on for ever is out of fuel. A number is written
-- with as many digits as it has units at most, and one more.
--
-- Parameters: what wasmtime's limits answer to a request to grow (Limiter), the image range of a
-- module and the keys (Cache), the encoding of JSON (Ipc, Relay), the numbers of libc and the answers
-- of the kernel and of tokio (Isolation, Child), the text of errors and the builders of the store
-- (Sandbox), wasmtime's engine and wasmparser (Engine), wasmtime's compiler, its linker and the guest's
-- functions (Execution, Compiler), walrus (Compiler), the allocation of binaries (Nif), and QuickJS with
-- Javy and the allocator of the guest (Plugin). The guest may change all of the world of its call.
-- SHA-256, wasmtime, walrus, Javy, serde and libc are not modelled.
-- Neither are the Elixir library, the promises and the texts of the bridge
-- (native/javex_plugin/src/bridge.js), nor the start of the child's process itself.
pub mod Base
pub mod Output
pub mod Cache
pub mod Control
pub mod Budgets
pub mod Limiter
pub mod Ipc
pub mod Relay
pub mod Supervisor
pub mod Isolation
pub mod Sandbox
pub mod Engine
pub mod Execution
pub mod Child
pub mod Nif
pub mod Compiler
pub mod Plugin
