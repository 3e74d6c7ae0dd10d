-- ===== src/Lib.antt =====
-- HELIOS-NET, a campaign engine for authorised network reconnaissance, written in Python.
--
-- A campaign starts in core/orchestrator.py: `run_campaign` checks the target against the scope of
-- core/scope.py, asks core/planner.py for a plan and for its waves, checks every step of the plan
-- against the scope, and runs the waves, whose steps call the registered modules. It keeps its state
-- in core/state.py. core/wal.py is an encrypted write-ahead log with transactions.
--
-- Planner (core/planner.py). Steps holds the data, Plan has `Planner.plan` with one definition per
--   stage, Schedule has `Planner.schedule`. Plan/Numbered and Plan/Stages keep the invariant on the
--   step numbers through the stages; Schedule/Remaining, Rounds, Total and Order follow the rounds of
--   the loop; Run joins the two operations. A step number is a natural number, a priority an integer.
-- Scope (core/scope.py). The class `ScopeEnforcer`: its construction, `is_target_allowed`, `check` and
--   `check_ports`. Scope/Targets is about targets and Scope/Ports about ports.
--   Scope/Config has `_ports` and `_strings`, which validate the lists of a scope file, Document has
--   the parser `_parse_scope_yaml` on the lines of the file and Load has `_validate_document`; Quoted
--   is about quoted values.
-- Campaign (core/state.py, core/orchestrator.py). The parent has `CampaignState.transition` and the
--   waves down to `_safe_run`, Authorize has `_authorize_steps`, and Run has `run_campaign` with one
--   definition per stretch between two points at which it can raise. A world is the log of the
--   campaign and the context that the runners share; `Ended` is what is left of a run. State has
--   `to_dict` and `from_dict`.
--   Store is the class `StateStore` over the files of its directory, with `recover` and `report`;
--   Store/Names is about the names of files, Store/Keeps about what the operations keep, with the lines
--   of a log in Store/Keeps/Lines.
-- Assets (modules/discovery/assets.py). Redirects has `_follow_redirects` and `_probe_documents`, Walk
--   has `discover_assets`. InScope, with Hops, Invariant and Ports, is about what the walk sends.
-- Ct (modules/discovery/ct.py). The names of a certificate log, from `normalise_name` to
--   `fetch_ct_names`; Ct/Safe is about their characters and Ct/Names about the list.
-- Dns (modules/discovery/dns_resolver.py). The query and the reading of a response; Resolve has the
--   class `EliteDNSResolver` with its cache. Question is about what is skipped and Reading about a whole
--   response.
-- Wal (core/wal.py). Cipher has the three record layouts, Log the class `TransactionalWAL` over the
--   file as bytes. Log/Frames is about records in a stream, Log/Machine has the ledger that the log
--   stands for, Log/Refines relates the operations to it, Log/Recovery and Log/Crash are about replay
--   and Log/Reopen about a restart.
-- Signatures and Digests (core/c_core_bridge.py). The pure part of the bridge: case folding,
--   `find_all_occurrences`, byte offsets and `_load_signatures` (Signatures/Search is about the search,
--   Signatures/File/Lines and Pairs about what the lines of the file say), and the three digests, with
--   Digests/Bounds on their widths.
-- Accel (core/accel.py). The parent has the registry of backends, the order of preference and the loop
--   that every operation runs over it; Match has `match_signatures`, Ops has `fingerprint`,
--   `_graph_dispatch` and `scan_ports`, Compare has `compare_backends`. Serve is about the loop,
--   Normalise, PythonMatch and Scan about single functions, Outcomes about what `match_signatures`
--   returns and Corroboration about the comparison.
-- Graph (engine/graph/core.py). The parent has `AssetGraph` with `add_node`, `add_edge`, `ingest` and
--   `_neighbours`, ShortestPath has `_shortest_path_python`, Components the loops in Python of
--   `connected_components`. Adjacency and WellFormed are about the operations; Rebuild, Invariant,
--   Levels and Ends, under ShortestPath, about the search for a path, and Reach, Classes and Partition,
--   under Components, about components.
-- Algorithms (engine/algorithms/__init__.py) is the registry of algorithms, and Balancing
--   (engine/algorithms/balancing.py, engine/scanner.py) what distributes jobs over workers: the parent
--   has `_lpt` and `_brute`, Batches has `solve` and `Scanner.balanced_batches`. Spread is about loads
--   and assignments, Search and Brute about the search, Loads, Placed and Lpt about the greedy
--   distribution, Partition and Batches/Tasks about what the buckets hold.
-- Drift (core/drift.py). `compute_surface_drift`; Drift/Changes is about what it tells apart.
-- Prelude. Tests and lists on native numbers, sorted and repetition-free lists, integers, a stable
--   sort, text, its order and what is stripped from it, equality as an interface,
--   sets and dictionaries as lists, and bytes.
--
-- Loops. `schedule` runs its loop for as many rounds as there are distinct ids, `replay` for one round
-- more than the file has bytes, a keystream for one block per byte that is asked for, the search for a
-- pattern for one round per character of the text; each loop makes progress in a round, so they are
-- enough. The search for a path has a round for each node and one for its source, the search for a
-- component one for each node. What can run out of rounds has a value for it. The walk over the assets
-- recurses on the hosts that it may still see and on its queue, and redirects on `MAX_REDIRECTS`, as
-- the loops do.
--
-- Text is a list of code points, of which none is a surrogate, with Python's string methods as they are on ASCII. Times are numbers
-- that are copied, and the weights of jobs are natural numbers.
--
-- Outside the source and so parameters: `ipaddress` (Scope.IpAddress), `hmac`, `hashlib` and
-- `os.urandom` (Wal.Cipher.Crypto and the nonces), `json` (Wal.Log.Codec, Campaign.Store.Codec,
-- Planner.Json.StepCodec, Ct), the resolver, the probe and `urlsplit` (Assets.Outside), which answer
-- by what was sent before, and the fetcher of Ct. The runners of the modules, the order in which the
-- steps of a wave complete, the clock and `uuid4` are parameters of a run; a step runs whole, with
-- no other step of its wave in between. So are the calls of the native cores (`Accel.Match.Cores`
-- and the arguments of the operations in Accel/Ops), whose exceptions are `none`, and what a probe
-- of a port answers. A runner changes the context and leaves its step as it is. The reasons of an
-- outcome are a list of causes, not their text.
--
-- Not modelled: what loads or starts the native cores and tells whether they are there, scope files
-- in JSON and the reading of files, the key file of the log and its lock, failures of the file
-- system, the lock of the store, what a response holds that the walk over the assets only reports,
-- sockets, HTTP and TLS, the analyses of the asset graph except paths and components, attack paths,
-- verdicts, fingerprints, the registry of modules and its runners, the daemon, the reports, the
-- command line and the build.
mod Prelude
pub mod Planner
pub mod Wal
pub mod Scope
pub mod Campaign
pub mod Signatures
pub mod Digests
pub mod Accel
pub mod Graph
pub mod Drift
pub mod Algorithms
pub mod Assets
pub mod Balancing
pub mod Ct
pub mod Dns
