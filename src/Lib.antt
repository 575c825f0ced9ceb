-- ===== src/Lib.antt =====
-- The decisions of bacchus that everything else relies on: which signed documents are believed,
-- what is kept on disk against a rollback, which release replaces a running binary, which exit a
-- client is given, and what a node may still serve.
--
-- The parts and how they interact. The root key signs delegation certificates, each for one role
-- (core/delegation). A key delegated to the policy role signs policy documents (core/policy), and
-- one delegated to the revocations role signs the list of revoked devices (core/revocation); both
-- are kept in a state file beside a floor that later documents may not go below, written through
-- core/atomicfile. Credentials of clients and nodes are signed by admission authorities, each
-- trusted for some roles (core/admission); a device shows a credential under an issuer that the
-- root certified (core/devicecred). The coordinator (cmd/coordinator) refreshes the policy, refuses
-- new work without a fresh one, and picks an exit by the share that one more session would get
-- (core/capacity). Release versions gate who may serve (core/version). A key delegated to the
-- update role signs release manifests; an updater checks for a newer one, stages its artifact
-- beside the binary, puts it in the place of the binary, and a watchdog at the start of the process
-- takes back a release that is never confirmed (core/update). Observed addresses resolve to a
-- country (core/geoip) and to an autonomous system (core/asn) in local tables, and a client orders
-- what it tries (core/selection). It races that list, and commits to the first path that comes up
-- (core/pool.go); its UDP flows go as frames over the stream to the exit (core/udprelay.go). On its
-- machine a privileged helper sets routes, the kill switch and the resolver at the request of the
-- client that holds its session (cmd/bacchus-netd), and the addresses that a pooled transport dials
-- are kept out of the tunnel (clients/internal/enforcement). A courier's request for a first list
-- of nodes is a STUN message (core/coldstart).
--
-- Which file models which part:
--   Delegation          core/delegation/delegation.go: OpenSigned, ParseCert, VerifyDelegationCert
--   Delegation/Envelope the signed envelope; Delegation/Gate the certificate
--   Version             core/version/version.go: Parse, String, Compare, the two gates
--   Atomicfile          core/atomicfile: Write, WriteDurable, SyncDir, over a directory with faults
--   FloorCache          core/policy/cache.go, and core/revocation/cache.go, which is the same code
--   Policy              core/policy/verify.go; Policy/Document is core/policy/policy.go
--   Policy/Rows         the tiers table; Policy/Fence the serving floor; Policy/Accept the verification;
--                       Policy/Cache the state file of policies
--   Revocation          core/revocation/revocation.go and verify.go; Revocation/Cache its cache.go
--   Admission           core/admission/credential.go and verify.go; Admission/Crl is crl.go;
--                       Admission/Revocations the list of revoked serials with its file
--   Capacity/Share      core/capacity/assign.go
--   Capacity/Quota      core/capacity/quota.go; Quota/Saved is its checkpoint on disk, Quota/Restart a
--                       restart of the node, Quota/Cap the metered reader
--   Capacity/Limiter    WaitN of core/capacity/limiter.go, and meterN of core/forwarder.go, which asks it
--                       and the quota; the bucket behind WaitN is a parameter
--   Coordinator/PolicyGate  cmd/coordinator/policy.go: one refresh cycle, the loop, the backoff
--   Coordinator/Assign  cmd/coordinator/assign.go and tier.go: chooseExit, excludedExits and
--                       what they call; Assign/Choice and Assign/Exclude
--   Coordinator/Idempotency cmd/coordinator/idempotency.go: the answers replayed to a repeated connect
--   Update/Manifest     core/update/manifest.go, and VerifyArtifact of verify.go
--   Update/Bundle       the rest of core/update/verify.go
--   Update/Apply        core/update/apply.go with the marker of state.go: Apply, Confirm, CheckStartup;
--                       Apply/Crash, Apply/Windows and Apply/Target are about Apply, Apply/Probation
--                       about the other two
--   Update/State        core/update/state.go: the floor and the staged artifact
--   Update/Updater      core/update/updater.go, and Stage of apply.go; Updater/Check is Check and
--                       ApplyPending, Updater/Target and Updater/News what a check publishes,
--                       Updater/Floor and Updater/Rollback what calls do to the floor
--   Devicecred          core/devicecred: Devicecred/Present the presentation, Devicecred/Assertion the
--                       signed message
--   Ranges              what core/geoip and core/asn use of net/netip and slices, and the lookup that both
--                       make in a sorted table; Ranges/Search is the binary search, Ranges/Rows the table
--   Geoip               core/geoip/ranges.go and geoip.go; Geoip/Loaded a loaded table, Geoip/Find the lookup
--   Asn                 core/asn/asn.go; Asn/Loaded and Asn/Find likewise
--   Selection           core/selection/selection.go; Selection/Rungs the tiers, Selection/Dedup dedup,
--                       Selection/Ladder the ladder; Selection/Store is store.go, Store/Best its recall
--   Wire                core/coldstart/wire.go: frames and the courier request; Wire/Attrs is the round trip
--                       of attributes and messages, Wire/Courier that of the request
--   Netd                cmd/bacchus-netd: the types of server.go, dns.go and netdwire; `Kernel` is what the
--                       helper calls of the machine
--   Netd/Parse          the texts of a request; Netd/Routes, Netd/Tun, Netd/Ipv6, Netd/Lockdown and
--                       Netd/Served are the handlers of server.go, and Netd/Dns is dns.go
--   Netd/Serve          dispatch, the peer check and the end of a connection; Serve/Token is about who is
--                       served, Serve/Held about the kill switch, Serve/Invariant about a session;
--                       Netd/Frame is what leaves the firewall alone
--   PoolRoutes          clients/internal/enforcement/poolroutes.go, calls of it interleaved;
--                       PoolRoutes/Known is about what it records, PoolRoutes/Orphans about a teardown,
--                       PoolRoutes/Allowlist about a tunnel that is up
--   UdpRelay            core/udprelay.go, under the limits of Capacity/Limiter; UdpRelay/Frame is about
--                       the two frame formats, UdpRelay/Flow about a flow, UdpRelay/Replies about its replies
--   Pool                core/pool.go: the race and selectPath; Pool/Racing is about a race, Pool/Chosen
--                       about what is selected
--   Tests               each theorem at a concrete input, over a toy platform
--   Shared              results, lists and texts, Boolean tests, integers
--
-- How state and operations correspond. `(T, error)` is `Result`, a package's sentinel errors are
-- the constructors of its `Error`, and a wrapped error is a constructor with an argument. A mutable
-- object is a record that an operation takes and returns: `policyGate` is `Gate`, the directory of
-- a state file is `Disk`, the loop of the coordinator is a run over a list of `Cycle`s, one for
-- each turn, with what was fetched, the clock and the faults of the file system. The directory of a
-- binary is `Site`, and one call of an updater takes its `Events`. The helper's session and its
-- machine are passed through its handlers, and a run of it is a list of `Event`s: `step` is one
-- turn of `serve`. The calls of `reserve` that are in progress are `Job`s, any of which takes the
-- next `Step`; a race is run over the `Tick`s of its select. Texts that the code walks byte by byte
-- are lists of numbers. A time is a number of nanoseconds from Go's zero time and does not wrap; a
-- `time.Duration` or a Go `int` that may be negative is an integer; `% 2 ^ 64` is written where the
-- code relies on unsigned 64-bit arithmetic that could wrap.
--
-- What is not under the repository's control is a parameter: ed25519, JSON, base64, Unicode tables
-- and the parsing of addresses are fields of a `Platform`, `Json` or `Unicode` record, and the only
-- thing assumed of any is that what JSON encoded decodes to the same (an `IsJson` for each file
-- that the code writes), that a CRC has four bytes, that only the calls on the helper's own table
-- lift it (`Firewall`), and that a file system does what POSIX says (`Files`). The estimators that
-- rate a node count in floats, and enter as what they say.
--
-- Fuel: the printing of a decimal number runs on one more than the number, which falls tenfold in
-- each round, and the round trip of versions proves that it is enough; the binary search runs on
-- the length of the table, and the theorem on it proves that it is enough; the parsing of
-- attributes runs on the number of their bytes, and a theorem proves that more changes nothing; the
-- loops that read frames run on the number of frames, and the theorems on a flow and on its replies
-- prove that one for each datagram is enough. Every other loop is structural.
--
-- Not modelled: the file of core/selection's store, the rest of core/coldstart, core/accounting,
-- core/devicestore, the estimators of core/capacity, the coordinator's session table and its
-- handlers, core/coordpool.go; nor sockets, WebRTC and TLS (core/engine.go, core/relaychain.go and
-- the transports), the desktop client, the split tunnel and the firewalls of clients, the netlink
-- and nftables messages of cmd/bacchus-netd, command lines, and third_party.
pub mod Shared
pub mod Delegation
pub mod Version
pub mod Atomicfile
pub mod Policy
pub mod FloorCache
pub mod Revocation
pub mod Admission
pub mod Capacity
pub mod Coordinator
pub mod Update
mod Tests
pub mod Ranges
pub mod Geoip
pub mod Asn
pub mod Selection
pub mod Devicecred
pub mod Wire
pub mod Netd
pub mod PoolRoutes
pub mod UdpRelay
pub mod Pool
