-- ===== src/Lib.antt =====
-- easyshift: a model of the program that creates, starts, stops and deletes single-node OpenShift
-- clusters on one host, and theorems on it.
--
-- The program's core is a pipeline. `app/manager.go` validates the spec of a cluster, fills in
-- defaults and assembles 18 stages; `app/runner.go` applies them in order, records each in the
-- cluster's state.json so that a failed run can be resumed, and rolls the recorded ones back when
-- the cluster is deleted. The stages under `stages/` act on the config of the host (config.json,
-- `config/`) and, through the narrow interfaces of `interfaces/`, on the hypervisor, the network,
-- DNS and the installer.
--
-- Files and what they model:
--   Base/          lists, maps, Go's int, texts, and actions: a state goes in, and a state and a
--                  value or an error come out; what was done before an error stays done
--   Interfaces/    interfaces/interfaces.go and interfaces/stage.go as records of actions on an
--                  unknown world, and the calls of os and encoding/json with their laws
--   Config/        config/config.go (Types, Constants, Memory, Load), config/cluster.go (Cluster),
--                  config/paths.go and config/pullsecret.go (Paths, Secrets). Memory holds the
--                  config, the clusters by pointer, since the manager and the stages share and
--                  mutate them, and the world
--   Runner         app/runner.go: Apply, Rollback, Preflight, loadState, saveState
--   Stages/        the packages of stages/. Allocate: allocatenetwork; Register: registercluster,
--                  ensureclusterdir and finalize; Dns: upsertdns; Binaries: downloadbinaries;
--                  Rhcos: downloadrhcos; BakeStore: bakeimagestore; SshKey: generatesshkey;
--                  Ignition: generateignition; BootIso: embedignitioniso; Pxe: publishpxeassets;
--                  Network: createnetwork; MasterVm: createmastervms; VerifyIp: verifymasterip;
--                  Wait: waitforinstall; TlsCerts: applytlscerts; Kubeconfig: mergekubeconfig; Odf:
--                  installodf
--   Providers/     the packages of providers/. Libvirt: libvirt, with the network in
--                  Libvirt/Networks; Vfkit: vfkit; Dns: dns; Csr: csr; Odf: odf; Host:
--                  host, but for macOS; Download: exec/downloader.go
--   Manager/       Validate: validateName, validateNew, applyDefaults and resolveMagicDNS; Pipeline:
--                  buildStages; Lifecycle: Create, Start, Stop, Delete, List, find and vmNames, all
--                  of app/manager.go; Converge: app/converge.go; NatReset: app/natreset.go;
--                  Status: app/status.go
--   Tests/         concrete file systems, clocks, hosts and encoders, and runs on them
--
-- Functions keep their names in snake_case (validateNew is validate_new); a loop is a function of
-- its own, and a long function is cut where the source has a block. The loops run over lists or
-- counted numbers, but for three that poll, which have fuel: verify-master-ip for 49 rounds, the
-- API for 92 and convergence for 62. A wait of 10 seconds between rounds exhausts their deadlines of
-- 480, 900 and 600 seconds before that.
--
-- Start and Stop of a VM by virsh look at it for 30 rounds, as the source does, and the loop over the
-- PEM blocks of a bundle has a round for each of its bytes. The manager of vfkit waits for a killed
-- process for 101 rounds of a tenth of a second and watches a console for 901 of two seconds, whose
-- deadlines are 10 seconds and 30 minutes. The installer of ODF polls every 10 seconds for m minutes in
-- 6 m + 2 rounds, which exhaust its deadline.
--
-- Parameters: the file system, the encoders of JSON, PEM and base 64, gzip, regexp, the clock, random
-- bytes, the parsers of packages net and netip, libdns, sort.Strings, the environment, and the runner
-- of commands. The hypervisor, the network, DNS, the host, the installer, the baker and the issuers
-- are interfaces of the program, and their implementations in Providers/ fill some of them.
--
-- Not modelled: the helpers that run beside wait-for-install, whose steps the pipeline takes as a
-- parameter; the resolution of a channel, which is a parameter of the manager; the providers that
-- wrap other tools (the installer and the baker, the network helper of vfkit, the inspection of a Mac,
-- local certificates, trust stores, the file server); output to the terminal and the log; and the
-- command line. Go's int is taken as unbounded, but the conversions to uint64 in create-master-vms
-- and the sizes in bytes that the host's inspection gives wrap at 2^64, and the sum of uint32 in
-- download-rhcos at 2^32.
pub mod Base
pub mod Interfaces
pub mod Config
pub mod Stages
pub mod Runner
pub mod Providers
pub mod Manager
pub mod Tests
