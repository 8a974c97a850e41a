-- ===== src/Lib.antt =====
-- Venn, a proxy for the JSON-RPC interface of Ethereum nodes: the parts through which a request goes
-- and the stores that they read.
--
-- A node of venn serves each chain by a cluster of remotes. A request passes the middlewares of the
-- chain, which may answer it, refuse it or rewrite it; the cluster then tries its remotes in order.
-- Every remote stands behind middlewares of its own, which decide whether it is used: a doctor
-- checks its health, a backer holds it back after errors, a validator watches the heads that it
-- reports. A stalker asks each cluster for the latest block and puts its number into the head store,
-- which the middlewares of the chain read. The cacher of the chain answers blocks, receipts and logs
-- from stores of blocks, of which the last asks the cluster; the forger makes the receipts of a block
-- out of its logs and transactions; the subcenter serves subscriptions from the head store. An
-- election among the nodes decides which of them stalks. Nodes share heads and blocks over Redis. A
-- gateway stands before the nodes and checks the origin, the size and the method of a request.
--
-- A handler maps a request and a state to the replies that it sends, in order, and the next state;
-- a middleware is a function of handlers that adds its own state to that of the next one. A method
-- that holds a mutex is one step. Errors are values with what errors.Is and errors.As can find in
-- them; a run-time panic is the outcome `none` where it can occur.
--
--   Rpc            requests, replies, JSON documents and errors (lib/jrpcutil, lib/subctx,
--                  lib/callcenter/errors.go); Rpc.Hexutil stands for the packages of go-ethereum
--   Util           the classes of errors (lib/util/error.go)
--   Callcenter     lib/callcenter: Cluster for cluster.go (Add, ServeRPC), Backer for backer.go (ok,
--                  limit, error, Middleware), Validator for validator.go (updateHead and the
--                  handlers), Doctor for doctor.go (check, CanUse, ServeRPC, Close, and Loop
--                  for its goroutine), Proxier for proxier.go (ServeRPC) and HybridProxy for hybridproxy.go (the pool of sockets,
--                  handleEthSubscription, handleHttp), over connections that are parameters
--   Ethtypes       lib/ethtypes: Logs for logs.go, BlockNumber and BlockNumberOrHash for rpc.go,
--                  Filter for filter.go
--   Stores         lib/stores/headstore: the interface Store and Atomic (Get, Put, On); Blocks for
--                  lib/stores/blockstore: the compound store, and Recent for lru.go, over a cache
--                  that is a parameter with its laws; Redihead for
--                  svc/node/stores/headstores/redihead (Get, Put, On, setHead, run, start);
--                  Rediblock for svc/node/stores/vennstores/rediblock (Get, Put, reorg and the
--                  scripts); Heads reads the numbers of a header, and Chain (blocks and receipts)
--                  and ChainLogs (logs) are svc/node/stores/vennstores/chainblock (Get)
--   Middlewares    LookBack for svc/node/middlewares/blockLookBack, HeadReplacer for
--                  svc/node/middlewares/headreplacer, InputData for lib/callcenter/inputData.go,
--                  Guards for filterer.go, ratelimiter.go, collector.go and logger.go, and Target
--                  for the stack of a remote in svc/node/quarks/cluster/cluster.go; Cacher for
--                  svc/node/atoms/cacher (Middleware), with Blocks for its rewriting of a block and
--                  LogFilter for its filter on stored logs; Forger for
--                  svc/node/middlewares/forger
--   Subscriptions  svc/node/atoms/subcenter: the checks of eth_subscribe, and the loops of newHeads
--                  and logs
--   Election       svc/node/atoms/election (New, RunWithLease); Redilock for lib/election/redsync.go
--                  (loop, discoverLeader, mutiny, AcquireLease, updateSubs)
--   Config         lib/config: ParseNodeConfig, with Endpoints for the check of the names in
--                  NodeFileParser, Gateway for ParseGatewayConfig, and Presets for NewRemoteTarget
--                  of svc/node/quarks/cluster/cluster.go, which reads the filters
--   Oracles        lib/oracles/oracle.go: MaxTrimOracle, MaxOracle, MedianOracle, FallbackOracle and
--                  TtlOracle over oracles that are steps of the program's state
--   Node           Clusters.Middleware of svc/node/quarks/cluster/cluster.go, the metrics of
--                  svc/node/middlewares/promcollect and the identifiers of svc/app/node/api.go;
--                  Clusters for the clusters that New builds from the configuration;
--                  Paths for the mounting of the chains there, from the accepted configuration,
--                  and Stack for the middlewares of New in their order
--   Dashboard      dashboard/handler.go: getRemoteInfos, getChainInfos, getChainStatus and the page of
--                  a chain
--   Gateway        svc/app/gateway/api.go: Security for its handlers over HTTP, Guards for the
--                  middlewares of its JSON-RPC, with lib/util/validation.go and
--                  lib/ratelimit/identifier.go; Telemetry for svc/gateway/quarks/telemetry
--   Stalker        svc/node/atoms/stalker: tick, Loop for New and the goroutines that tick, in any
--                  interleaving, and Delay for delay.go
--   Prelude        numbers, lists, maps, durations and sorting that the parts share
--   Tests          runs at concrete inputs, with a concrete Hexutil
--
-- A definition keeps the name of the function that it models, in this language's spelling. Integers
-- of 64 bits keep their wrap-around: durations, unsigned heads and the running mean. Loops are
-- structural recursion on the list or the count of rounds. CanUse calls itself after it has waited
-- for the first check; two rounds are its fuel, and Callcenter.Doctor.Checks shows that they are
-- enough.
-- A range of a store has as many rounds as numbers; a range that ends at the last number of 64 bits,
-- at which the loop of the program starts again from zero, is left out. A decimal print has 20
-- rounds, the digits of a number of 64 bits. discoverLeader asks until it knows the leader: its fuel
-- is the number of its rounds, and what holds of a run holds for every number of them.
--
-- Not modelled: the protocol of Redis (its commands are a parameter of the election, and the block
-- store in Redis works on the keys themselves), NATS, metrics, logs, tracing but for the chain
-- that it reads, the decoding of YAML (its result is a parameter) and the dialling of connections, which are input and output; the
-- oracle over HTTP and CEL, the timeout, mutex and shared flight of an oracle, the templates, and
-- the patterns of lib/util/origin, a copy of another project's package, whose Match is a parameter
-- of the gateway. The text of an error of the JSON decoder, and the numbers in the text of a head
-- that jumped backwards, are left out.
pub mod Prelude
pub mod Rpc
pub mod Util
pub mod Callcenter
pub mod Ethtypes
pub mod Middlewares
pub mod Stores
pub mod Stalker
pub mod Tests
pub mod Subscriptions
pub mod Election
pub mod Gateway
pub mod Node
pub mod Oracles
pub mod Config
pub mod Dashboard
