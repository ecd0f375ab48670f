-- ===== src/Lib.antt =====
-- go-snmpsim, an SNMP simulator that answers requests from recorded walks. This library models the
-- parts that decide what is answered.
--
-- The parts and their files:
--   * Oid: the order of OIDs, isOIDLess and parseOIDComponent of internal/store/database.go. An OID is
--     the list of its bytes; the numbers in it are int64 bit patterns that wrap. Oid/Components has
--     the independent description, the list of numbers and its lexicographic order; Oid/Render
--     prints numbers as an OID.
--   * Sort: quickSortOIDs and partitionOIDs of the same file over any comparison, and sort.Search and
--     sort.SliceStable of the standard library.
--   * Positions: the search for the place of an OID, searchOIDPosition of
--     internal/store/index_manager.go, which table.go and database.go have as well.
--   * Database: OIDDatabase of internal/store/database.go, its shards, Insert, BatchInsert, Get,
--     GetNext, Walk, GetAll and SortOIDs.
--   * DeviceMapping: internal/store/device_mapping.go, the values bound to a port or a device, and
--     the parser of their lines.
--   * Routing: internal/routing/routing.go, which dataset answers a request.
--   * Datasets: internal/store/dataset_store.go, the datasets by their paths, which the agent selects from
--     in Agent/Dataset.
--   * Table: internal/store/table.go, SNMPTable with its rows and columns; Table/Structure finds the
--     tables among OIDs.
--   * Index: OIDIndexManager of internal/store/index_manager.go, BuildIndex and GetNext; GetNextBulk is
--     in Index/Bulk, and Index/Built is about the index of a database without tables. The agent takes
--     its next OID from here.
--   * Loader: internal/store/loader.go, internal/store/template.go and internal/store/parser.go. Types and
--     values of record files are in Loader, lines that stand for a range of OIDs in Loader/Templates,
--     the output of snmpwalk in Loader/Snmpwalk and Loader/MibNames, and whole files, with
--     LoadOIDDatabase of database.go, in Loader/Files.
--   * SnmprecFormat: internal/snmprecfmt/snmprecfmt.go, the record files that the recorder writes;
--     SnmprecFormat/Fields is about one line of them.
--   * WalkDiff: internal/walkdiff/diff.go, two record files compared.
--   * Security: internal/v3/types.go, the configuration of SNMPv3, with the boots of engine.go;
--     Security/Hex has its identifiers, Security/Keys internal/v3/crypto.go.
--   * Traps: internal/traps/traps.go, the configuration, the events and the queue; Traps/Targets parses
--     targets, Traps/Wanted says which notifications events ask for, Traps/Made what a new manager
--     decides by, Traps/Send builds clients and sends.
--   * Engine: internal/engine/simulator.go, the agents that a simulator starts with, on which ports and
--     with which boots.
--   * Workloads: internal/webui/workload_manager.go, test workloads in memory and in files; Workloads/Files
--     and Workloads/Restart are about what is loaded from a directory.
--   * Labs: cmd/snmpsim-api/main.go, the labs and engines of ResourceManager; Labs/Lifecycle starts and stops
--     simulators, Labs/Resources keeps endpoints, users and datasets, Labs/Routes is the router, and
--     Labs/Perform runs the handlers that it calls on requests that come one after the other.
--   * Recorder: internal/recorder/record.go, the walk of an agent into record entries; Recorder/Connect makes
--     the client.
--   * Variation: internal/variation/variation.go and binder.go, how the value of an answer varies over
--     time, and which answers vary.
--   * Agent: internal/agent/agent.go, the lookup of a value and of the next OID, the handlers of GET,
--     GETNEXT, GETBULK and SET in Agent/Handlers, and the time window of SNMPv3 in Agent/Usm. A handler
--     takes the names of a request and gives the variables of the response, before gosnmp encodes it.
--     Agent/Decode is decodePacket, Agent/Hmac verifyIncomingHMAC, and Agent/Response makes the packet
--     of a response or a report. Agent/Packets is HandlePacketFrom, which runs all of these on the bytes
--     of a packet.
--   * Snmp, Strconv, Prelude: the types of gosnmp that the program names, what it uses of strconv,
--     strings and fmt.Sscanf, and shared helpers.
-- Record files are loaded into a database with their templates expanded (Loader), and the index is
-- built of its OIDs and tables (Index, Table). A packet is decoded and checked (Agent, Security).
-- A request is routed to a dataset (Routing), whose database answers it (Database, through Positions,
-- Sort and Oid), unless a mapping for its port or device does (DeviceMapping), as the agent's lookup
-- decides (Agent); the answer then goes through the variations bound to its prefix (Variation).
--
-- Conventions. An operation that changes state returns the new state. A lock is left out, since each
-- operation is one step under it. A Go map is an association list. A machine integer is its bit
-- pattern, and wraps where it is computed. An error is none, without its text. A text is a list of
-- bytes; TrimSpace and ToLower are modelled for ASCII.
--
-- Fuel. The loop of isOIDLess has one round more than its first text has bytes: each round consumes a
-- byte of a dotted decimal text, and on other texts the source may not return. Quicksort has one level
-- of recursion for each entry, since a range gets shorter with each call, and sort.Search one round more
-- than there are entries, since its interval does. The loop over a range template has one round for
-- each number of the range and one more, and the one that repeats a passphrase one round more than the
-- length that it fills, since each round adds a byte. The walk of the recorder asks an agent with a database
-- once for each OID and once more; with another agent it may not end.
--
-- Parameters. The random source of a jitter and time.ParseDuration are arguments of the definitions
-- that use them, and so are the readings of the clock and of random numbers that the agent answers.
-- The handlers take the index manager as the one function that they use of it, and the store of datasets
-- takes the reading and the indexing of a dataset. The simulators of labs are a parameter that may fail,
-- the body of a request is given decoded, and the agent of a walk is a function of the OID that is
-- asked for and a state. The bytes of a file are an argument, or a function from
-- paths. The hashes, with GenerateEngineID, the HMAC and the ciphers are parameters, as are the decoders
-- of gosnmp, the network of a trap, and the directory of the workloads with encoding/json. A time is a
-- number of nanoseconds.
--
-- Not modelled: sockets, HTTP, logging, YAML, JSON and ASN.1, which the source leaves to libraries; the
-- sleep of a timeout variation; the hooks and the statistics of the agent, and its encoding of packets; the
-- default record file that the loader writes, and the statistics of templates; the schedule of cron and
-- the goroutine of the traps; the rate limit of the recorder, the listeners of the simulator, the
-- metrics, the HTTP API behind the web pages with its network tests, and the command line programs.
pub mod Prelude
pub mod Sort
pub mod Oid
pub mod Snmp
pub mod Strconv
pub mod Positions
pub mod Database
pub mod DeviceMapping
pub mod Engine
pub mod Routing
pub mod Variation
pub mod Agent
pub mod Table
pub mod Index
pub mod Loader
pub mod SnmprecFormat
pub mod WalkDiff
pub mod Workloads
pub mod Labs
pub mod Recorder
pub mod Security
pub mod Traps
pub mod Datasets
