-- ===== src/Lib.antt =====
-- microkube: a single node kubernetes cluster under one supervisor, modelled and verified.
--
-- The program microkubed (cmd/microkubed) picks an address and network ranges, starts etcd and five
-- kubernetes services as child processes, probes their health over HTTP, puts their output
-- together into log lines, waits for the node to become ready, and drains it at the end.
--
-- Base: names and lemmas that all modules share: Boolean tests and lists over the native numbers
--   (Base/Tests, Base/Lists), byte strings (Base/Bytes), texts (Base/Texts), integers (Base/Int),
--   Go's `error` and github.com/pkg/errors (Base/Errors). An error is the text that it prints, and
--   `none` is nil.
-- Args: evalArgs of internal/cmd/ArgHandler.go, from the flags to the environment that all services
--   start from.
-- Log: internal/log. Log/Stream is BaseLogParser.HandleData over any line handler, and the
--   chunks in which output arrives; Log/Etcd and Log/Kube are the two line handlers, over what
--   they ask logrus to write (Log/Entry).
-- Network: internal/cmd/Network.go. Network/Ip defines what the code uses of Go's package net;
--   Network/Bind is FindBindAddress, and Network/Ranges is CalculateIPRanges.
-- Handlers: pkg/handlers. Handlers/Env is ExecutionEnvironment; Handlers/Health is healthCheckFun,
--   Handlers/Retry is HandleExit, and Handlers/Lifecycle is EnableHealthChecks and Stop with their
--   goroutines, as a step relation over all interleavings.
-- Services: pkg/handlers/etcd and pkg/handlers/kube. For each service its handler record, its
--   constructor and its command line (`start`); Services/Health has the validators and
--   Services/Kubeconfig is KubeconfigHandler.go.
-- KubeClient: pkg/kube/KubeClient.go, over the answers of the API server and the clock.
-- Supervisor: cmd/microkubed/cmd/Microkubed.go. Supervisor/Startup is start: it starts the services in order,
--   Supervisor/Watch is the goroutine that watches one service, and Supervisor/Addons is
--   startServices and printIndented.
-- Files: Go's package path on texts (Files/Path), and the files of a machine by their paths
--   (Files/Store).
-- Pki: pkg/pki. Pki/Manager is CertManager.go, Pki/Credentials is MicrokubeCredentials.go. A call
--   takes the files and the number of keys made so far and returns a result, an error or a panic
--   with what it leaves; Pki/Post says what holds after a call, and Pki/Issue what the manager
--   leaves on disk. The certificates keep their paths and, where they were just made, the template
--   and the key in memory.
-- Manifests: internal/manifests. Manifests/Documents and Manifests/Codegen are ParseFile and
--   parseDoc, Manifests/Generated is WriteFiles with the text of both generated files and what the
--   generated constructor does when it runs, and Manifests/Applied is KubeManifestBase.go.
-- Directories: EnsureDir of internal/cmd/FSHelpers.go, FindBinary of pkg/helpers/CmdHelper.go, and
--   createDirectories and findBinaries of cmd/microkubed/cmd/Microkubed.go.
-- Process: CmdHandler of pkg/helpers/CmdHelper.go, with its goroutines as a step relation.
--
-- The parts meet as in the code: the supervisor builds each handler of Services from a copy of one
-- environment (Handlers/Env), feeds the output of its process to a parser of Log, and receives
-- the messages of Handlers/Lifecycle, whose content Handlers/Health finds with a validator of
-- Services/Health. In a module the definitions stand in the file of its name and what is proved of
-- them in its children. Records keep the fields and data types the cases of the source; names are
-- those of the source in snake case.
--
-- Loops and bounds. HandleData calls itself once for each line, so its fuel is the number of
-- complete lines and one more; the chunks use one more than the bytes at hand, which is enough.
-- healthCheckFun needs at most eight requests, since the pause doubles from 0.1 s and the limit is
-- 7 s. WaitForNode and DrainNode run until a deadline; with the deadline passed in round d,
-- d + 1 rounds are enough. dumpToFile writes an object in one round where file.Write takes all of
-- it, so as many rounds as the object has bytes and one more are enough. All other loops are
-- structural. Ports are Go ints; the node port range uses integers, since it subtracts.
--
-- Parameters. The extractors that ldetool generates from logs.lde, the IPv6 half of package net,
-- rsa.GenerateKey and x509.CreateCertificate, base64, html/template's escaping, the Kubernetes codecs, kubectl,
-- strings.Title, errors.Wrap (with its documented behaviour on nil), the answers of HTTP requests,
-- certificates, home directories and file modes, network interfaces, the API server and the clock.
--
-- Not modelled: the cryptography behind pkg/pki, the registration and parsing of flags, file modes,
-- process groups, text templates, waitUntilNodeReady, PrintInfoMessage and the order of calls in
-- Run, the main functions (cmd/codegen among them), and the helpers for tests. Time is only
-- counted: sleeps are summed in milliseconds where a bound is of interest. Log output matters where
-- it is the purpose of the code (Log) and is left out elsewhere.
pub mod Base
pub mod Files
pub mod Args
pub mod Log
pub mod Network
pub mod Pki
pub mod Manifests
pub mod Directories
pub mod Process
pub mod Handlers
pub mod Services
pub mod KubeClient
pub mod Supervisor
