-- ===== src/Lib.antt =====
-- Verification of Live-server: the paid video calls, the live streams with their seats, permissions and
-- gifts, the primitives by which several nodes share one Redis, access of users and sockets, lucky gifts,
-- restrictions, agency tiers, and the helpers below them.
--
-- Parts and how they interact. Video calls (src/modules/videoCall) are rows of one table that requests,
-- timers, sockets and a sweep act on at the same time; every change of a row is one conditional update,
-- and money moves only in ol-node-rest, which the ledger client calls. The sweep and the sweeper of the
-- durable timers run on one node, which the leader lock picks; the timers end calls whose participants
-- dropped out or cannot pay. Sockets pass the handshake and then, packet by packet, the event guard,
-- which uses the token buckets.
-- A live stream is a row of a table and a family of keys in Redis. Starting one ends the host's earlier
-- streams; the host, the disconnect timer and the monitor end a stream by a claim of its row, which the
-- first of them wins, and moderation writes its end over it; the seats, admins and permissions of a
-- stream live in the keys. Gifts in a stream go to the ledger, lucky ones after a draw here, and the
-- room is told. The monitor ends live streams without a host, and the marker repair keeps what Redis
-- says of live hosts in step with the database. Chat messages pass the gates of restrictions and of the
-- chat's mode, and then the censor. Agency commissions move an agency on its ladder of tiers once a day.
--
-- Files. Common/: tests, lists, integers (Int), stores, and Redis as an interface with the laws of its
-- manual and one implementation of them.
-- VideoCall/Session: rows, the table and effects. EndCall, Reject, Accept, Initiate, InitiateLock,
-- Billing and Sweep: endCall, rejectCall, acceptCall, initiateCallUnlocked, the locks of initiateCall,
-- billDueMinutes and scheduleNextBilling, and the sweep, of src/modules/videoCall/service.js. Heartbeats
-- and Deadlines: recordHeartbeat and getCallHeartbeat, and the low-coin and host-return handlers, there.
-- Disconnect: the disconnect grace of src/modules/videoCall/socket.js. EndRace: these requests in any
-- order on one row.
-- Cluster/Leader and Cluster/Timers: isLeader with its scripts, and the durable timers, of
-- src/services/cluster.service.js.
-- Services/Ledger: src/services/ledgerClient.js. Services/ConfigCache, CallRate and LuckyShares:
-- src/services/callRate.service.js and luckyShares.service.js, and hostEarning.engine.js of
-- src/modules/luckyGift.
-- Access/Session, SocketAuth, Rejoin, Payload and EventGuard: src/services/session.service.js,
-- src/socket/socketAuth.js with src/utils/jwtRotation.js, src/services/rejoinToken.service.js, and
-- src/socket/eventGuard.js.
-- Stream/Table, Keys, Camera, Duration and Windows: rows of live streams, the keys of one, the time with
-- the camera on, and the reward windows. End, GoLive, Moderation, Admins, Permissions and Seats:
-- endLiveStreamService, fastGoLiveStreamService, verifyStreamFrameService, and the services of admins,
-- kicks, permissions and seats, of src/routes/service/serviceLive.js, with the seat events of
-- socket-live-service.js beside it. HostGrace: the disconnect timer of a host, there. Gifts:
-- sendStreamGiftService and the send_gift event. Chat and History: sendMessageService and
-- getMessagesService of src/routes/service/serviceMessage.js, and the clear_chat event.
-- Admin/Restrictions: the timed restrictions of src/routes/service/serviceAdmin.js.
-- Live/Presence, Monitor and HostStatus: src/routes/service/livekitPresence.js and heartbeatPolicy.js,
-- checkStream of src/routes/service/serviceHeartbeat.js, and planMarkerRepair of
-- src/services/liveHostStatus.service.js.
-- LuckyGift/Combo, Single and EmitDedupe: luckyReward.engine.js and emitDedupe.js of
-- src/modules/luckyGift with src/config/luckyGift.config.js. LuckyGift/Send: sendLuckyGiftService of
-- src/routes/service/serviceLuckyGift.js.
-- Utils/Breaker, TokenBucket, TierLock, ForEachLimit, Censor and CoinRestriction:
-- src/utils/circuitBreaker.js, tokenBucket.js, agencyTierLock.js, forEachLimit.js, censor.js and
-- coinRestriction.js. Services/TierRecompute: src/services/agencyTierRecompute.service.js.
-- Examples/: the theorems at concrete inputs, and runs of the definitions.
--
-- Conventions. A function or field has the source's name. Ids, tokens and messages are numbers; times
-- are milliseconds on a clock that does not go back; coins and points are natural numbers, or integers
-- where the source has a BigInt that may be negative. What Redis, Postgres, the ledger, LiveKit and
-- jsonwebtoken answer is an argument, or an operation of an interface (Redis, DeadlineStore,
-- SessionTable, StreamTable, HostTable) whose laws state their documented behaviour. An `await` that
-- matters is a place where a function of the model takes what others do in between. Fractions are
-- counted in a unit that makes them whole: token buckets in millionths of a token, odds and ratios in
-- hundredths or tenths. JavaScript rounds such products in floating point; the model computes them
-- exactly.
--
-- Bounds and fuel. endCall takes two turns, callLedger three attempts and recomputeAgencyLevel five, and
-- a start of a stream tries its row twice, as the source does; the loop of billDueMinutes runs over the
-- minutes that are due, a number that is known when it starts. The workers of forEachLimit are a step
-- relation, whose runs are shown to be bounded. Every other definition is structural.
--
-- Not modelled: routes and controllers; the lists, rankings, galleries and profiles of live streams;
-- viewers; the rest of administration; failure records and traffic counters; gifts, translation
-- and frame moderation in a call; REST rate classes; wiring and logging, and the log lines and counters
-- within the parts above. Most of these read and present rows; the rest is left for later.
pub mod Access
pub mod Admin
pub mod Cluster
pub mod Common
pub mod Examples
pub mod Live
pub mod LuckyGift
pub mod Services
pub mod Stream
pub mod Utils
pub mod VideoCall
