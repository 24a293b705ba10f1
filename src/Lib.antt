-- ===== src/Lib.antt =====
-- dfs-csi, the CSI driver of a distributed file system: a verification library beside the Go code.
--
-- The program mounts a file system on a node for the pods that use its volumes. The node service binds a
-- volume's directory at a target path. Where a pod of its own does the mount (a mount pod), the targets
-- that use it are annotations of that pod, the references. Mounting adds a reference or creates the pod;
-- unmounting takes the reference off and deletes a pod without references, at once or after a delay. A
-- reconciler reads the mount pods of the node, takes off references of pods that are gone, and deletes,
-- recovers or rebinds what is left. Its parts meet in the annotations and the finalizers of mount pods.
-- The reconciler runs on the pods that the node's kubelet lists, or, where no kubelet can be reached, as
-- a controller of the API server. A controller of its own, the warm-up, has the mount pods of a claim
-- read its files into their caches.
--
-- Each call that leaves the repository is a field of System (System.antt): the Kubernetes API, the
-- kernel, commands, the console's HTTP interface, the environment and the clock. A field gets the calls
-- made so far with their answers, so an answer may depend on all of them and on what others do
-- meanwhile. Code that makes calls is in the monad Io (System/Io.antt): it returns, fails, panics, or
-- runs out of fuel (hung), with the calls made. System/Keeps.antt and System/Traces.antt hold the rules
-- for properties of the calls, System/Steps.antt and System/Calls.antt what a run that returned has done.
-- Log lines are left out, and of an error message the fixed text is kept.
--
-- The files, and the code that they are about:
--   Prelude, Strings: the library that the rest shares, and Go's strings, path and strconv functions.
--   Kube: the fields of the Kubernetes types that the driver uses.
--   Config, Config/Setting: pkg/juicefs/config/config.go and setting.go (ParseSetting is parse_setting).
--   Util: pkg/util/util.go and pod.go. Util/Status has IsPodReady, IsPodError and their kin; Util/Patches
--     the reference keys, RemoveFinalizer and the annotation patches; Util/Paths ParseMntPath and
--     GetMountPathOfPod; Util/Delay ShouldDelay; Util/Locks ObjLocks.
--     Util/Endpoint is ParseEndpoint.
--   K8sClient: pkg/juicefs/k8sclient. K8sClient has CreatePod of client.go, K8sClient/Methods the other
--     methods, K8sClient/Kubelet is kubelet_client.go and K8sClient/Fake fake_client.go.
--   Mount: pkg/juicefs/mount. Mount/Builder is pod.go; Mount is PodMount.JMount; Mount/Wait the loops of
--     waitUntilMount and waitUtilMountReady; Mount/Refs JUmount and AddRefOfMount; Mount/Process
--     process_mount.go. Mount/Reading and Mount/Builder/Reading are about the command that is read back.
--   Juicefs: pkg/juicefs/juicefs.go. Juicefs has the volumes and snapshots, Juicefs/Auth AuthFs and
--     ceFormat, Juicefs/Mounting JfsMount. Juicefs/ConsoleApi is pkg/juicefs/console.go, and Juicefs/Http its
--     runHttpRequestRaw.
--   Driver/Node, Driver/Publish: pkg/driver/node.go (CreateTarget, checkBindAndMount and
--     NodeUnpublishVolume; NodePublishVolume).
--   Driver/Capability, Driver/Controller: pkg/driver/controller.go.
--   Driver/Server: NewDriver and Run of pkg/driver/driver.go, with the making of the two services.
--   Driver/Identity: pkg/driver/identity.go and version.go, and the constant answers of the services.
--   Controller: pkg/controller. Controller/MountInfo and Controller/Target are mountinfo.go;
--     Controller/Handlers and Controller/Driver are the handlers and Run of pod_driver.go;
--     Controller/PodController is pod_controller.go, with SetupWithManager in
--     Controller/PodController/Watch; Controller/Reconciler is reconciler.go.
--   Warmup: Reconcile of pkg/warmup/controllers/cache_controller.go.
--   Commands: init and main of cmd/driver/main.go. Commands/PodManager is cmd/app/pod_manager.go,
--     Commands/WarmUp is Run of pkg/warmup/warmup.go with cmd/warmup/main.go.
--   References: what the operations leave of the references of one mount pod, as the API server keeps them.
--     It is about no file of its own: the parts above meet in it. IsApi (References) is an API server on
--     which others write the rest of the pod; IsServer (References/Objects) one on which nobody does.
--   Tests: a concrete system, and the theorems at concrete inputs.
-- A Go function keeps its name, in snake case. A map is an association list, whose order stands for one
-- of the orders in which Go may visit the map.
--
-- Bounds: the loops with a count in the source (30 rounds, LOOP_TIMEOUT) have that count. The retries on
-- a conflict, the wait for the mount point, CreateTarget and the loop of umount have none, and take fuel:
-- more fuel than Go makes rounds is enough, and a run that uses it up is told apart as hung. The loop of
-- doReconcile has no end, and takes the number of the rounds that are looked at. Numbers that the code
-- only compares or counts are natural numbers; instants and durations are integers without a bound, but
-- the timeout of the kubelet's client, which the code multiplies, has 64 bits.
--
-- Goroutines: those of a round of doReconcile run one after the other, in any order, and each may find
-- its context over; what happens in between two calls of one is an answer of System. What the variable err,
-- which they share, holds where one of them looks at it is a parameter.
--
-- Not modelled: mutexes (the calls between two calls of a handler are answers of System), nil pods and
-- settings, the variable that ceFormat leaves to later commands, the interleaving of two handlers of
-- the controller service, the flag package and the logger, the gRPC server, the generated copies of the
-- types of pkg/warmup/api, the fake driver (pkg/driver/fakes.go) and the fake provider of tests/sanity,
-- which lacks methods of the interface that it stands for. The goroutine of main that runs the pod manager
-- is not interleaved with main. vendor holds other projects, among them the
-- back-off of client-go and the TLS of its transport, whose behaviour is a parameter.
pub mod Prelude
pub mod Strings
pub mod Kube
pub mod System
pub mod Config
pub mod Util
pub mod K8sClient
pub mod Juicefs
pub mod Driver
pub mod Mount
pub mod References
pub mod Controller
pub mod Warmup
pub mod Commands
pub mod Tests
