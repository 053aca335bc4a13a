-- ===== src/Lib.antt =====
-- The Ascend device plugin for Kubernetes (internal/, Go): it tells kubelet and HAMi which Ascend NPUs a
-- node has, hands them to containers, cleans up virtual NPUs that no container uses, and exports metrics.
--
-- The manager (internal/manager) asks the driver for the cards, keeps the list of those that the node's
-- filter lets through, and picks the configuration entry (internal/vnpu.go) that fits the chip. The server
-- (internal/server) answers kubelet: Allocate finds the pod that waits, matches each request with a
-- container of the pod's annotation, builds the container's environment and mounts, and writes back what
-- is left of the annotation. It also registers the node's devices with HAMi by node annotations. The
-- monitor (internal/monitor) finds the containers by the directories that Allocate mounts into them, reads
-- what they use from shared memory, and adds the driver's numbers.
--
-- Files and code:
--   Base         Boolean tests, lists, the integers, Go's decimal printing, maps, results and panics
--   Config       internal/vnpu.go: the configuration types, LoadConfig, LoadNodeConfig
--   Manager      internal/manager/manager.go
--     Driver     the driver's interface (devmanager.DeviceInterface), a record of functions
--     Select     indexVNPUConfig and what it calls
--     State      AscendManager, LoadConfig, LoadNodeConfig, shouldIgnoreDevice and the accessors
--     Devices    UpdateDevice, GetDevices, GetDeviceByUUID, GetIDs, GetUnHealthIDs
--     Cleanup    CleanupIdleVNPUs
--   Server       internal/server
--     Plugin     server.go: PluginServer, NewPluginServer, and the interface to the manager
--     Allocate   server.go: Allocate (Handler), and several calls for a pod (Calls); allocate.go:
--                popNextContainerDevices (Pending) and buildContainerAllocateResponse (Response)
--     Publish    server.go: apiDevices; register.go: deviceFingerprint
--     Register   register.go: registerHAMi and what it calls
--     Watch      register.go: watchAndRegister, one round of it; server.go: ListAndWatch, to one stream
--                and (Streams) to any number of them
--     DeviceShare  device_share.go
--     Lifecycle  server.go: Start, Stop, serve, startPeriodicCheckIdleVNPUs; register.go:
--                registerKubelet, dial
--     HostResources  util.go
--   Main         cmd/main.go: start
--     Setup      checkFlags and main, and version/version.go
--     Watchers   internal/wachers.go
--     Metrics    the goroutine of main that serves the metrics
--   Monitor      internal/monitor
--     Shmem      registry.go: OpenLocalShmem, ReadPodStats, ReadMemoryByDevice; Layout and Region are the
--                region as the limiter lays it out
--     Containers container.go: ascendDeviceResource, ListContainers
--     Host       dsmi.go: getDcManager, collectHostDeviceStats
--     Collector  collector.go: the descriptions, Describe, Collect and what it calls
--     Setup      container.go: NewContainerLister; collector.go: newVNPUCollector; metrics.go
--   Tests        concrete cards, configurations and pods, and the theorems at these
--
-- State is passed explicitly. An operation of the manager takes the driver `d`, the state `w` of the
-- hardware and the manager, and returns a result with the state that it leaves; only the destruction of a
-- vNPU changes the hardware. A Go (value, error) pair is a `Result`, and a function that can panic has an
-- `Outcome`. What Allocate does outside the plugin is the list of its effects in order, also on the paths
-- that end with an error. A Go map is an association list; int32 and int64 are ℤ, since the code only
-- compares, divides and converts them; a conversion wraps around as in Go, and so do a sum and a difference
-- of uint64. A float64 is an element of a parameter with the operations that the code applies.
--
-- All loops are structural recursion on the list that they go through, but for two on fuel: the decimal
-- printing of a number n takes n + 1 steps, while every step divides by ten, and the wait for a gRPC
-- connection takes one round more than the round in which the deadline is met.
--
-- Parameters: the driver and its management library, HAMi's and encoding/json's codecs, yaml.Unmarshal, os,
-- mmap, float64, npu-smi, fsnotify, the cluster's API and clients, the pod lister and the Prometheus registry.
--
-- A goroutine of the server is a member of its wait group from its start until Stop waits for it; what the
-- goroutines do between two events of the main loop, and what Start finds outside at each start, are
-- arguments. The loops over events, over rounds of watchAndRegister and over crashes of the gRPC server go
-- through the list, or the steps, of what happens.
--
-- In a sequence of Allocate calls each finds the pod as the one before reported it, with the annotation that
-- it wrote. A handler of ListAndWatch is the devices that it sent last; a stream that kubelet has left is not
-- told apart from the others, since the source looks neither at the error of Send nor at the stream's context.
--
-- Not modelled: logging, the parsing of flags, locks, the test hooks, what the clients, the informer, the
-- Prometheus registry and fsnotify do inside, and the plugin's calls that answer with a constant
-- (GetDevicePluginOptions, GetPreferredAllocation, PreStartContainer).
pub mod Base
pub mod Config
pub mod Manager
pub mod Server
pub mod Monitor
pub mod Main
mod Tests
