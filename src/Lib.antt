-- ===== src/Lib.antt =====
-- A model of mavlink_hub, the program that connects agents to MAVLink endpoints, and the theorems that
-- make its core correct. The file paths below and in the other files start at the repository's root.
--
-- The parts. The hub (src/app/App.cpp) owns an agent registry, a library loader that fills it from
-- plugins, a manager of endpoints and agents that looks the definitions up in a view of the registry,
-- and a service that carries out textual commands on the manager. At startup a configuration is
-- applied: libraries are loaded, and a plan of endpoints and agents may be loaded and executed.
--
--   Base         names and types that all share: maps with string keys as association lists, whose
--                order stands for the unspecified order of std::unordered_map (Base/Dict), and the
--                signed counters (Base/Count).
--   Common       src/common/types/OperationResult.h: a flag with messages, and merge.
--   Sdk          the packages that are not part of the repository, as one record: agents and their
--                definitions, MAVLink endpoints, the transport registry. Everything takes it as a
--                parameter. The code of an agent may call back into the manager: a Script is the tree
--                of these calls.
--   Registry     src/agent_registry: AgentRegistry (Admin) and the views it hands out (User). The map
--                lies at an address of a memory that both refer to.
--   Manager      src/manager: the state of Manager.cpp (State), its queries, the handles on endpoints
--                and their reference counts (Users, and Handles for MavlinkEndpointUser.cpp), the
--                requesters (Requests, ManagerResourceRequester.cpp), the operations on endpoints and
--                on agents, and validatePlan and executePlan (Plan, Execute). An operation returns the
--                manager as it is afterwards with its OperationResult. Proofs: Validity, Discard,
--                Applied, Effect, Steps, Reports, Frame, Counts, Handled, History, Preserved, Scripts,
--                Stale, Calls, Evolution, Identity, Lifetime, Grows, Program, Operations, Range,
--                Order. Destroy is the manager's destructor.
--   Loader       src/app/lib_loader: the plugin libraries. dlopen and dlsym are parameters, and the
--                handles that are opened and closed are logged. Proofs: Laws, Balance,
--                Kept.
--   Json         src/common/json_utils/JsonUtils.cpp over a record of the calls of jsoncons (Api): the
--                readers of plans and configurations (Decode, Config), the writers (Encode), and the
--                readers of the status lists (Status). Proofs: PlanLaws, PlanKeys, LibLaws,
--                ConfigLaws, RoundTrip.
--   Service      src/app/app_service: the table of commands and executeCommand.
--   Startup      src/app/startup/AppConfigurator.cpp: applyConfig, ArgsParser.cpp: parseArgs (Args), and
--                App::run of src/app/App.cpp up to the start of the threads (Begin), and its destructor
--                (Teardown). Program puts the program together: the start, and then commands of the
--                user and code of the agents in any order. Proofs: Laws, Running, Libraries,
--                Mapped, Loaded.
--   Cli          src/app/ui_handler/CliUiController.cpp: the state of the terminal interface, and runs of
--                it in which the user's actions and the worker thread's steps come in any order
--                (Controller, Run); CliUiHandler.cpp: what is shown of that state (View), the whole
--                screen (Screen), the keys and buttons (Events). Operation adds the code of the agents.
--                Proofs: Menu, Laws, Labelled, Labels, ViewLaws, InfoBox, ScreenLaws.
--   Runtime      the threads of the running hub: the main thread in App::run (src/app/App.cpp) with
--                ShutdownController.cpp, SignalHandler.cpp and the start and stop of
--                CliUiHandler.cpp, the UI thread with CliRoutine.cpp, the sigwait thread, and the worker
--                thread of a command with its redraw callback. A state is where each thread stands
--                and what they share (State), Threads has the steps of each thread, and Actions the
--                interleavings with the user's acts and the signals. Proofs: Places, Invariant,
--                Termination, Progress, Safe, Shutdown, Completion, Hazards.
--   Signals      src/app/signal_handler/SignalHandler.cpp as its caller sees it: start and stop, with
--                what the system calls may answer, and what happens in between (Meanwhile). A
--                signal that arrives within one of the two calls is in Runtime only. Proofs: Laws,
--                Stops.
--   Tests        a small SDK, JSON library and plugin libraries, and the theorems applied to them.
--
-- How code corresponds to the model. A class with mutable state is a record, a method a function from
-- the record to the record and the result; getters only read. Every loop runs over a map or a list
-- and is a recursion on it, so there is no fuel. A C++ exception that leaves a function is a result of
-- its own (thrown in Json, none in Service and Startup). A field that the code leaves uninitialised is
-- an argument, and the policy of a plan has a third value for what no enumerator names. The reference counter is a C++ int and does not wrap in the model. Two calls never
-- interleave: the manager has no locks and is driven by one command at a time. The code that an agent
-- runs on a thread of its own comes between two commands in Startup.Program and in the histories of
-- Manager, and not within one.
--
-- In Runtime a step is one access to what the threads share: a test of the flag under its mutex, a call
-- of App::Active(), a signal taken. An action that a thread cannot take is none, so a blocked thread has
-- no step. What the POSIX and FTXUI calls do there is their documented behaviour; a signal that meets no
-- mask ends the process, as it does by default.
--
-- Not modelled: how FTXUI lays out the elements of the screen and delivers events, data races on the
-- manager and the controller, and the vendored copies of jsoncons, FTXUI and CLI11.
pub mod Base
pub mod Common
pub mod Sdk
pub mod Registry
pub mod Manager
pub mod Loader
pub mod Json
pub mod Service
pub mod Startup
pub mod Cli
pub mod Runtime
pub mod Signals
pub mod Tests
