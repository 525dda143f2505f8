-- ===== src/Lib.antt =====
-- Konro is a run-time resource manager for Linux: it keeps a set of applications, listens to what
-- the kernel tells of their processes, and gives them cpus, cpu time and memory through cgroups. A
-- policy decides how much; a security monitor rates each application, and the security policy
-- contains those whose rating is high.
--
-- How the parts work together. The workload manager (rm/workloadmanager) handles fork, exec and exit
-- events and requests of the HTTP interface, keeps the set of applications and publishes what
-- changes on the event bus (rm/librmcommon/eventbus.h). The bus puts the events into the queue of
-- the policy manager (rm/policymanager, rm/librmcommon/threadsafequeue.h), whose thread takes them
-- out one by one, keeps an AppMapping for each application and calls the policy. Each AppMapping
-- caches what the files of the application's cgroup hold (rm/platformcontrol).
--
-- The files, and the code that they model:
--   Base         numbers, lists, options, tests, integers (Int: int, short and uint64_t with their
--                conversions), sorted sets and maps (OrderedSet: std::set, std::map)
--   Float        the C++ type float, a parameter
--   Effect       exceptions and undefined behaviour as exits that keep the state
--   SecState     rm/policymanager/policies/secstate.cpp: target, step, clear
--   Cpuset       rm/librmcommon/cpusetvector.cpp: countPUs, containsPU, toSet, toVector,
--                toCpusetVector, addPU, removePU (Vectors: its overload)
--   Text         decimal numbers: strtol and the printing of numbers
--   CpusetText   rm/platformcontrol/cgroup/controllers/cpusetcontrol.cpp: parseCpuSet, setCpus, and
--                toString of rm/librmcommon/cpusetvector.cpp
--   NumericValue rm/librmcommon/numericvalue.cpp: init, operator<<, operator>>
--   App          rm/librmcommon/app.h
--   Queue        rm/librmcommon/threadsafequeue.h: each method is one atomic call
--   EventReceiver    rm/librmcommon/baseeventreceiver.cpp over basethread.cpp: the thread's loop over
--                its queue, step by step, and its stop
--   Events       rm/librmcommon/events: the classes of events
--   EventBus     rm/librmcommon/eventbus.h: subscribe, publish
--   WorkloadManager  rm/workloadmanager/workloadmanager.cpp: every event handler
--   AppMapping   rm/policymanager/appmapping.h: the cached getters and the setters
--   PolicyManager    rm/policymanager/policymanager.cpp: every event handler, over the interface of
--                rm/policymanager/policies/ibasepolicy.h
--   PolicyTimer  rm/policymanager/policytimer.cpp: the loop of the timer's thread
--   Policies     rm/policymanager/policies: NoPolicy, Rand, SecurityAware, PuProgressive with PuChoice
--                (which PU an app is given or loses), Quota (the scaling of cpu.max, of
--                puprogressivepolicy.cpp and securityawarepolicy.cpp), Counters (appsOnPu_)
--                MinCores: rm/policymanager/policies/mincorespolicy.cpp; Factory: makePolicy of
--                policymanager.cpp, with each policy as an instance of the interface
--   Streams      what the parsers use of the C++ and C libraries: words and numbers of a stream, strtol
--   Os           rm/librmcommon/dir.cpp over the calls of the operating system, a parameter
--   Cgroup       rm/platformcontrol/cgroup: cgrouputil.cpp and cgroupcontrol.cpp (the directories of the
--                apps, activateController, the reads and writes), Controllers (cpu, cpuset, memory,
--                pids), Moves (addApplication, removeApplication, cleanup), Platform (CGroupControl as
--                the workload manager uses it), Files (what is written is read back)
--   KeyValueParser   rm/platformcontrol/utilities/keyvalueparser.cpp and the controller of io.max
--   ProcFs       rm/securitymonitor/securitymonitor.cpp: what is taken from the texts of
--                /proc, and Processes: the reads
--   Sai          rm/librmcommon/sai.cpp: the baselines and the anomaly index
--   SecurityMonitor  rm/securitymonitor/securitymonitor.cpp: the baselines and
--                what a scan makes of its reads, and Scan: the apps, a scan and its event
--   Locks        the mutexes of eventbus.h and securitymonitor.h, and the threads that take them
--   ProcListener rm/workloadmanager/proclistener.cpp: the loops over datagrams and messages
--   PlatformMonitor  rm/platformmonitor/platformmonitor.cpp: loads, and Sensors:
--                temperatures, battery
--   PlatformDescription  rm/platformdescription/platformdescription.cpp: PUs and their distances
--   Namespaces   rm/librmcommon/namespaces.cpp: pids of other namespaces
--   KonroHttp    rm/src/konrohttp.cpp: the requests of the HTTP interface, and Server: its paths and
--                handlers
--   KonroManager rm/src/konromanager.cpp, common/src/config.cpp: configuration, order of the threads
--                with Settings: where the configuration comes from, and Wiring: the
--                subscriptions of all parts and where a published event goes
--   Main         rm/src/main.cpp: the options and the level of the log, and the main thread from its start
--                to its end (Shutdown) with the handler of Ctrl-C
--   Konrolib     konrolib/konrolib.cpp: what applications send, and Loopback: the same over the server
--   System       the managers with the queue between them, as a relation of steps by several threads
--   Examples     the theorems at concrete inputs
-- A method of C++ has its name in snake_case; its object is an argument and a result.
--
-- Bounds and fuel. The loop of parseCpuSet runs on as many rounds as the line has bytes, and one
-- more: each round that reads a range takes at least one byte. The loop of parseLineNv runs on as many
-- rounds as the line has bytes, since each takes at least three. A loop from a first to a last PU runs
-- on the number of its rounds. The loop over the messages of a datagram is on fuel since it need not
-- end; in Main as many rounds as there are messages, and one more, are enough for it to end or to be at
-- a NOOP message. An int, a short and a uint64_t wrap where the code converts to them; a PU number is a short
-- where the code stores it. Counters of apps, of connections and of samples stay below 2 ^ 31.
--
-- Not modelled: the kernel's side of files, sockets, /proc, hwloc and libsensors (parameters: Os,
-- Netlink, the chains of hwloc objects, the chips, SysInfo), the JSON, HTTP and ini libraries (Json,
-- JsonWriter, Client, HttpServer, and the configuration as a map), getopt, logging and JSON output,
-- and the threads themselves: their calls are steps in any order. The loops of the platform monitor's
-- and the security monitor's threads are that of the policy timer with other work, and are not
-- modelled again.
pub mod Base
pub mod Float
pub mod SecState
pub mod Cpuset
pub mod Text
pub mod CpusetText
pub mod NumericValue
pub mod Streams
pub mod App
pub mod EventReceiver
pub mod Queue
pub mod Events
pub mod EventBus
pub mod WorkloadManager
pub mod Effect
pub mod AppMapping
pub mod PolicyManager
pub mod PolicyTimer
pub mod System
pub mod Policies
pub mod Sai
pub mod Os
pub mod Cgroup
pub mod ProcFs
pub mod ProcListener
pub mod KeyValueParser
pub mod PlatformMonitor
pub mod PlatformDescription
pub mod Namespaces
pub mod KonroHttp
pub mod Konrolib
pub mod KonroManager
pub mod Main
pub mod SecurityMonitor
pub mod Locks
pub mod Examples
