-- ===== src/Lib.antt =====
-- docker-in-kubernetes: a daemon that speaks the Docker API on a socket and runs each container as
-- a pod. This library models the program's own logic and proves what makes it correct.
--
-- Parts, and the files that model them:
--
-- Podspec (internal/podspec). Name is name.go: SanitizeName, GeneratedName and imageBase. Ports,
-- User and Build are spec.go: the published ports, the user and the resources, and Build, from a
-- create request to a pod with its annotations. Identity is id.go and labels.go, Pod the fields of
-- a Kubernetes pod that the program touches, Codec the parameters for encoding/json and RFC3339.
--
-- K8s (internal/k8s). Create, Delete, Get, List, FindByID and WaitForReady of pods.go stand on a
-- record Api of calls on the API server, with an abstract state of the cluster. The record
-- PodStore is the interface that the handlers use (internal/server/server.go), and pod_store makes
-- one from an Api. Remote is the rest of pods.go (StreamLogs, Attach, Exec, PodIP and the
-- settings), Connect is client.go.
--
-- Server (internal/server). Pending is pending.go, the containers that were created and not
-- started; an entry's flags and channel stand in a heap of signals, since attach and wait keep an
-- entry that has left the store. Containers is containers.go: its helpers, Handlers (create,
-- start), Stopping (stop, kill, rm, the end of wait and the watcher of a pod's end), Waiting
-- (wait, and the loops that poll a pod), Attaching (attach, logs, resize) and Views (list,
-- inspect). A handler takes the daemon's state, that is the pending store, the registry and the
-- cluster, and returns the state after it with its reply (Reply, render.go). Frames and Streams
-- are what attach, logs and exec send on a connection. Summary and Summary.Inspect are summary.go,
-- ImagesApi is images.go, NetworksApi networks.go, Exec exec.go and Events events.go. Router is
-- server.go and info.go: the version prefix, the routes (Routes), their choice (Dispatch) and the
-- constant handlers (Info).
--
-- Forwarder (internal/forwarder). Registry is forwarder.go; Tcp is tcp.go, the ports that Open and
-- Close listen on, with the accept loop and the proxy in Accepting; Spdy is spdy.go. Images and
-- Networks are the stores of internal/images and internal/networks, Dockerapi is
-- internal/dockerapi/stringorslice.go.
--
-- Process is cmd/docker-in-kubernetes/main.go and internal/logutil/logutil.go, its child Socket
-- internal/sockutil/sockutil.go.
--
-- Create reserves a name in the pending store and asks the cluster for a pod of that name; start
-- creates the pod, wakes those who wait, and opens a forwarder once the pod is ready; the watcher
-- closes it when the pod has ended.
--
-- Conventions. A text is a list of code points. A Go map is a list of entries with distinct keys,
-- whose order stands for the order of range. A mutex makes a method one step. Instants are numbers
-- of nanoseconds, and a handler's readings of the clock one instant. An int64 sum or product that
-- can wrap has its wrap-around written out (milli_cpus, seconds, since). Libraries are parameters:
-- SHA-256, JSON, the time formats, the API server, the random digits, the listeners.
--
-- Handlers that wait take what they see while they wait as functions of the poll (the cluster `at
-- i`, the context's end `cancelled i`), and what waitForStart returns as a parameter that Pending
-- describes. A select is a choice among the cases that are ready.
--
-- Fuel. write_chunks takes a round for each chunk, and as many rounds as there are bytes, and one
-- more, are enough, and so for the lines of copy_lines; wait_loop takes a round for each poll, and
-- enough rounds to reach the deadline are enough. The polls of wait and attach end with the
-- container or with their context, and fuel past that poll is enough. accept_loop ends with the
-- listener.
--
-- Not modelled: the text of the logs, the bodies that are only drained, hosts and %-escapes in
-- paths, the queue of terminal sizes, which is never set, the goroutine that serves (net/http),
-- and a failing Write in the TCP proxy as other than the end of its source.
--
-- Tests at concrete inputs are in Examples.
pub mod Dockerapi
pub mod Examples
pub mod Forwarder
pub mod Images
pub mod K8s
pub mod Networks
pub mod Pod
pub mod Podspec
pub mod Prelude
pub mod Process
pub mod Server
