-- ===== src/Lib.antt =====
-- Perfect-miner: the control program between a mining pool and the miners, which is JavaScript on
-- Node under src/apps/Control/app. The paths below are from there, unless they begin with src/.
--
-- A control server (ControlServer) keeps connections to pools and takes connections of miners. The
-- client of a pool speaks JSON-RPC over a line-based socket (Share/JsonRpc, Share/Net), makes block
-- headers of the pool's notices (ControlServer/Stratum/StratumClient.js) and submits shares. The proxy
-- (ControlServer/StratumProxy.js) decides which miner works for which pool. The statistics
-- (ControlServer/WebStat, HashRate.js, PackArray.js) feed a browser. A control client (ControlClient)
-- runs on each miner's machine and hands the jobs to a native worker program over UDP.
--
-- What models what:
--   Prelude        Boolean tests, lists, JavaScript objects with integer keys, strings, doubles
--   Bytes          Node's Buffer as a list of bytes; the extranonce counter
--   Stratum        ControlServer/Stratum/StratumClient.js: Target, Header and Job are the class Job
--                  (diffToTarget; makeCoinbase, getBlockHeader, sha256d_gen_merkle_root, getBlockHeight;
--                  updateJob and getBlockHeaderForWorker), Client is JobMng and submitShare,
--                  Pool is the handlers of the pool's messages
--   Common         ControlServer/Common.js: hexadecimal numbers, parseInteger, checkHex and its like
--   Json           the values of JSON messages, and (Wire) what arrives of a value that is sent as JSON
--   Proxy          ControlServer/StratumProxy.js: WrapperPool, WrapperWorker and the handlers
--                  workerConnect, workerDisconnect, poolOpen, poolClose, poolConnect, poolDisconnect;
--                  Traffic is the jobs and shares between a pool and its workers
--   Net            the class Recv of Share/Net/NetCommon.js and of ControlServer/StratumCommon.js
--                  and (Client, Emitter) Share/Net/NetClient.js and NetClientEventEmitter.js
--   JsonRpc        Share/JsonRpc/JsonRpcClient.js
--   Workers        the counters of WorkersServerClient in ControlServer/WorkersServer.js
--   Control        ControlClient/Control.js
--   App            ControlClient/Main.js: App, and (Settings) the file of its settings
--   Argv           parseArgv of both Main.js, and simpleMode of ControlServer/Main.js
--   Dev            ControlServer/Dev.js: versions, and the pools of the developers
--   WebServer      ControlServer/WebServer.js: the file that a request gets
--   WebAuth        ControlServer/WebAuth.js
--   Archive        ControlServer/PackArray.js and its reader web/public/app/UnPackArray.js
--   HashRate       ControlServer/HashRate.js: HashRateLast, and (Minutes) TimeEvents and HashRate
--   WebStat        ControlServer/WebStat/WebStatBase.js, Jobs.js, Pools.js and Workers.js, and
--                  (Workers.Told) what the last sends to the pages
--   Page           the pages in the browser, ControlServer/web/public/app: the table that Workers.js,
--                  Pools.js, Jobs.js, Shares.js and Logs.js each keep, and the page of Workers.js
--   WebControl     ControlServer/WebControl.js
--   WebWorkers     ControlServer/WebControlWorkers.js
--   Constants      Share/App/Constants.js
--
-- State is a record per object, an operation is a function from state to state, and what an object
-- sends or emits is a list in its state. Objects that refer to each other do so by their ids. An
-- exception is a value (none, or a constructor of its own). Random ids, global ids, times and the old
-- contents of a fresh buffer are arguments.
--
-- Parameters: SHA-256, of which it is used only that a digest has 32 bytes; the IEEE doubles, of which
-- the ranking of the self test alone uses a law, that none is both below and above another; how JavaScript turns a JSON value into a number or a text; JSON.stringify and
-- JSON.parse, of which the archive and the settings use that the one reads what the other prints, and
-- the archive that the text has no control characters (Json.Wire is what the language says of them); the package c-struct; the rows of DataTables, of
-- which it is used that a new row gets the next index and that a row keeps what it is filled with; and
-- the files that the web server reads. What Node's sockets and timers do is a condition on the steps of
-- a history.
--
-- Fuel: the reader of the archive and the loop that trims the jobs of a control run on the length of
-- what they work on, and each round makes that shorter.
--
-- How the parts interact: Proxy.Traffic works on the client of Stratum.Client, whose headers come from
-- Stratum.Job; Stratum.Pool checks a pool's messages with Common.Checks and hands them to
-- Stratum.Client. App and WebWorkers are the two ends of the connection of a miner, by the events of
-- Net.Emitter.
--
-- Page.Workers receives what WebStat.Workers sends, from the start or from the greeting of a browser
-- on, which hands out the archive of Archive; which sockets a message reaches is WebStat.Base. A page
-- whose socket was dropped there gets no more messages, and is not one that Page.Workers.History is about.
--
-- Not modelled: HTTP itself, processes, the console, listening sockets, what the pages look like (HTML,
-- Vue, jQuery) and the vendored libraries under web/public/lib, and the C and C++ programs under
-- src/apps and src/share; StratumServer.js, the older ControlServer/StratumClient.js with Yenten.js and
-- Share/OwnJsonRpc, which nothing reaches; StratumConfig.js and addressEx, which are regular
-- expressions; and the log. Of what is sent to browsers there is, but for the table of the workers,
-- only what a property speaks of.
pub mod App
pub mod Archive
pub mod Argv
pub mod Bytes
pub mod Common
pub mod Constants
pub mod Control
pub mod Dev
pub mod HashRate
pub mod Json
pub mod JsonRpc
pub mod Net
pub mod Page
pub mod Prelude
pub mod Proxy
pub mod Stratum
pub mod WebAuth
pub mod WebControl
pub mod WebServer
pub mod WebStat
pub mod WebWorkers
pub mod Workers
