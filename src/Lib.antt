-- ===== src/Lib.antt =====
-- Verification of the scheduler, of the simulation loop, of the agent runtime and of the coroutines of
-- an agent of iams, the industrial agent-based manufacturing system.
--
-- An agent of the program plans its work with a scheduler: it creates events, each with an estimated
-- time of arrival and one of departure (ETX), saves them, and reports their life (arrived, started,
-- finished, departed, canceled). `SchedulerInterface` registers the events and lists them, which
-- also removes the events of the past; `BufferScheduler` reads the listed events in whole steps of
-- time, spans a window of time about them and gives both to a constraint solver. A simulation is
-- configured by a file that describes many runs; a run executes callbacks of agents in the order of a
-- queue of events. Agents run as services of a docker swarm: the gRPC servicers check a call and pass
-- it to the runtime, which asks the docker daemon. A running agent is a set of coroutines in one event
-- loop: it answers the calls of other agents, keeps gRPC channels and connections to them, and talks to
-- devices and to the workflow engine Zeebe. What agents offer each other is kept in a graph database.
--
-- The files:
-- - Base: the names of the libraries that the development shares, and Python's integers (Base/Int).
-- - Py: exceptions as a result, methods as functions of the object, and the values that stand for
--   times, which are numbers, datetimes or objects of other types. Py/Filtered describes what a loop with
--   an `if` keeps of a list, Py/Calls has blocks of calls on an
--   object, Py/Text the operations on texts, and Py/Dict dictionaries with texts for keys.
-- - Etx: `class ETX` of iams/interfaces/scheduler.py. `Etx.init` is `__post_init__`, Etx/Methods has
--   the other methods under their names; Etx/Margins, Etx/Validity and Etx/Relative are the proofs.
-- - Event: `class States` and `class Event` of the same file. `Event.init` is `__post_init__`,
--   Event/Methods the methods, Event/Order the comparison `__lt__`.
-- - Scheduler: `class SchedulerInterface` of the same file: `create` is `__call__`, `get_events` the
--   generator together with the loop that consumes it, `save` the registration. The abstract method
--   `add` is a parameter. Scheduler/Limits and Scheduler/Listing are the proofs about the listing.
-- - Buffer: `class Event` and `class BufferScheduler` of iams/utils/scheduler.py: the conversions
--   between seconds and steps, `get_variables` (Buffer/Variables), and `get_event_variables`
--   (Buffer/Horizon), `build_model` (Buffer/Model, with the meaning of its constraints in
--   Buffer/Model/Meaning), and `optimize_model`, `solve_model`, `add`, `can_schedule` and `validate`
--   (Buffer/Solve). The solver of ortools is a parameter, and so is Python's `sorted`; Buffer/Solve/Written
--   describes what an answer leaves in the events, and Buffer/Solve/Checked has a solver that keeps the
--   promise which the proofs rely on.
-- - Simulation: `class Queue` and `class SimulationInterface` of iams/interfaces/simulation.py: the
--   queue of simulation events, `schedule`, `cancel`, and the loop of `__call__`, of which `turn` is
--   one round. Simulation/Heap states what is relied on of Python's heapq, Simulation/Loop counts the
--   events, Simulation/Chronology orders them, Simulation/Termination ends the loop, and
--   Simulation/Sorted shows that the laws can hold. Simulation/Agents is the registry of the agents and
--   the phases of `__call__` about the loop, and Simulation/Agents/Stopping the proofs about the last.
-- - Runtime: `class DockerSwarmRuntime` of iams/runtime.py. `World` is the outside: the docker daemon
--   and the packages, as operations on a state that is not known. Runtime/Names has the names of
--   agents and images, Runtime/Agents the service of one agent, Runtime/Secrets `set_secret`,
--   `set_config` and `get_expired`, Runtime/Update the plan that `update_agent` makes and Runtime/Apply
--   what it then does. Runtime/Unchanged, Runtime/Created and Runtime/Refusals
--   are the proofs about `update_agent`, Runtime/Naming, Runtime/Picked and Runtime/Expiry those about the rest, and
--   Runtime/Memory is a daemon in memory for the tests.
-- - Servicer: the calls of iams/servicer.py and the decorator `credentials` of iams/utils/grpc.py;
--   Servicer/Answers has the proofs.
-- - Agent: the servicer of an agent and `credentials` in iams/agent.py; Agent/Access has the proofs.
-- - Aio: the coroutines of iams/aio. Aio/Channels is the pool of gRPC channels of `GRPCCoroutine`: `begin`,
--   `close_instance` and `connect` are the parts of `_channel`, `enter` and `leave` the two halves of
--   `channel`; Channels/Counts lets users come and go in any order, and Users, Joining, Opening,
--   Entering, Leaving and Releasing are the steps of its proof. Aio/Connection is `_main` of
--   `GRPCConnectionCoroutine`, with its calls (Order), what it processes (Answers) and what it sleeps
--   (Waits, Bounds). Aio/Retry is the loop that tries again, which Aio/Tcp, Aio/Opcua and Aio/Zeebe use.
--   Aio/Events is the loop of `EventCoroutine`, Aio/Tcp the connection and heartbeat of `TCPCoroutine`,
--   Aio/Opcua the cache, the session and the calls of `OPCUACoroutine`, and Aio/Zeebe the calls of
--   `ZeebeCoroutine` and, in Zeebe/Jobs, the callback of its worker with the watchdogs.
-- - Topology: `create_agent` of iams/utils/arangodb.py, as the commands that it gives to the database.
-- - Configuration: the functions of iams/simulation.py that turn a configuration into runs and agents:
--   `process_config`, `prepare_run` and the end of `main`, and `load_agent` in Configuration/Agents.
--   A `Platform` is the formatting of texts, the import of classes and the file system.
--   The runs that `process_config` yields share one dict of settings; `kept_runs` is what `main` has, which
--   copies each, and `listed_runs` what is had without. Configuration/Product and Configuration/Runs are the
--   proofs.
--
-- How the model stands for the code:
-- - A method that may raise is a function from the object to a result and the object afterwards, so
--   what was written before the raise is there. Assertions are enabled.
-- - Times are whole numbers: Python also takes `float`, which is not modelled. A datetime is the whole
--   seconds since a fixed moment. The resolution of a scheduler is a number that is not negative, and
--   a division by zero raises. `round` is computed on the exact fraction, to even in the middle.
-- - The uid of an event stands for the object, as `__eq__` and `__hash__` of the source do, and a
--   registered event is the record itself: one ETX object shared by two events is not modelled.
-- - A dictionary is a list of pairs in the order of insertion; a set of times is a list, of which the
--   code takes only the least and the greatest.
-- - The callbacks of a simulation are a parameter: a function that answers with the calls it makes on
--   the simulation and with how it ends, and that has a state of its own. The hook `event_callback` is
--   the default, which does nothing. The event loop may run for ever, so its runs are a relation;
--   `loop` runs it for a number of rounds, and as many as the queue is long, and one more, are enough
--   where no callback schedules an event.
-- - Every other loop runs over a finite list and is a structural recursion, so it needs no fuel.
-- - A call of the runtime is a function from the state of the outside to a result and the state
--   afterwards; a read leaves the state as it is. What a daemon answers to a filter is a parameter. The
--   request that `update_agent` fills in is passed on as a value, since its callers read no more of it
--   than its name, image and version. The first four characters of the namespace are plain text for
--   the regular expression, and the field of a request may be None, which those of gRPC never are.
-- - A coroutine runs undisturbed between two awaits. What others do meanwhile, what a stream or a client
--   answers, and how a callback ends is given as a list of events, turns, attempts or steps, in the
--   order in which they happen; a coroutine that still waits at the end of the list is one that runs.
-- - Between `begin` and `close_instance` of a channel others may come and go, as the old gRPC channel is
--   closed meanwhile. `enter` is an entry during whose wait none do, and what is said of all orders has
--   this condition; Channels/Tests has a run in which a user leaves meanwhile. A channel object is a
--   number, under which its attributes are kept, since users hold it after it has left the dict. Tasks
--   and timers of Zeebe are numbers too; a task that its watchdog cancels ends.
-- - The wait of a connection is counted in tenths of a second, without the rounding of floating point.
-- - Identities of the peers of an agent are texts. The database of the topology is asked in order and
--   raises nothing; whether it knows an agent is a parameter.
--
-- Not modelled: the command line and the processes of a simulation, the servers of gRPC, the manager of
-- the coroutines, which is calls of asyncio, the coroutines for MQTT and InfluxDB, the subscriptions of
-- OPC UA, and the queries that run inside the database. Logging and printing are left out.
pub mod Base
pub mod Py
pub mod Etx
pub mod Event
pub mod Scheduler
pub mod Buffer
pub mod Simulation
pub mod Agent
pub mod Aio
pub mod Configuration
pub mod Runtime
pub mod Servicer
pub mod Topology
