-- ===== src/Lib.antt =====
-- Verification of the waiting room of TideGuard.
--
-- The program is a Cloudflare Worker that lets visitors through to an origin at a limited rate.
-- Each queue is one Durable Object, the class QueueRoom of src/durable-object/queue-room.ts: it
-- keeps the visitors in a SQL table, its settings and counters in a key-value table, and is woken
-- by an alarm every second while somebody waits. The Worker's routes call it for a visitor (join,
-- status, heartbeat, enter, leave) and for an operator (pause, schedule, mode, rates, health
-- probes, forced admission, metrics). This development models that object, its helpers and its
-- configuration; what is proved of them stands at the end of this comment.
--
-- Files and the code that they model:
--   Base      shared names, tests, lists and the stable sort by a key; no code of the program
--   Js        numbers that come from outside: src/queue/traffic.ts (parseAdmitPerSecond),
--             src/core/config.ts (clampMissedSlotGraceSeconds), src/health/origin-probe.ts (clampInt)
--   Engine    src/queue/engine.ts and src/queue/traffic.ts; Engine/Budget and Engine/CheckIn prove
--   Eta       src/core/eta.ts; Eta/Laws proves
--   Config    src/core/config.ts (parseQueueConfig); Config/Laws proves
--   Health    src/health/origin-probe.ts and src/durable-object/health-state.ts; Health/Levels and
--             Health/Settings prove
--   Room      src/durable-object/queue-room.ts with schema.ts, visitor-sql.ts and
--             traffic-buckets.ts beside it: the state is the record Room (tables, meta, caches,
--             alarm), and the children hold the methods: Table (queries), Depth (ensureDepth,
--             bumpDepth, reconcileDepth, waitingAhead), Settings (effectiveConfig, canAdmit and
--             what they read), Traffic, Waiters (assignCheckIn, repairCheckInBeforeOpen,
--             renewCheckIn), Sweep (sweep), Admission (selectWaiting, admitSelected,
--             admitAvailable, admitFromBudget, insertVisitor), View (toView), Alarm (ensureAlarm),
--             Outbox (enqueueWebhook, processWebhookOutbox), Handlers (join, status, enter,
--             heartbeat), Departure (leave), Service (forceAdmit, alarm, eviction), Controls (the
--             operator's setters and metrics), History (a call as data, and histories of calls);
--             the files below these prove what holds of them
--   Room/Coherence  the caches agree with the tables: the invariant, step by step, up to histories
--   Auth      src/auth: the types of tokens and the runtime's functions; its children model Texts
--             (string functions), Encoding (crypto.ts), Token (token.ts), Ticket
--             (visitor-ticket.ts), Ip and Ip/Allowlist (ip-allowlist.ts), RateLimit
--             (rate-limit.ts, a map of buckets); the files below these prove
--   Gate      src/auth/access-gate.ts with admission.ts, the token lookup of cookies.ts and
--             src/admin/ip-bypass.ts; Gate/Rules is src/admin/room-rules-store.ts, Gate/Clients
--             what decides on a client's address and country (src/auth/client-ip.ts,
--             geo-country.ts, src/admin/geo-block.ts); Gate/Priority proves. The gate reads the
--             token epoch and the schedule of the Room.
--   Origin    src/core/origin.ts: configuration, hosts (Origin/Hosts), paths (Origin/Paths);
--             Origin/Guard and Origin/Merged prove
--   Routes    the visitors' handlers of src/routes/queue.ts, on the Room of their queue; Routes/Body
--             is src/routes/validation.ts and src/core/errors.ts; Routes/Ownership, Routes/Issue and
--             Routes/Opens prove
--   Examples  a small room, tests, and the theorems applied at concrete inputs
--
-- A method of the object becomes a function from its arguments and the room to the room and its
-- answer. The object runs one call at a time up to its awaits, so a history is a list of calls. An
-- alarm that awaits its deliveries and its probe is one step if nothing comes in meanwhile, or else
-- its pieces between the awaits (rings, tries, sweeps, finishes), with other calls between them. A
-- call of the alarm's pieces may come in any order, so the theorems hold for more than the code. An
-- eviction from memory, which loses both caches, is a call as well. The time of a request, the
-- clock of ensureAlarm, the random choices and the answers of the network are arguments, so that a
-- theorem holds for all of them.
--
-- Numbers are natural numbers. A time is in milliseconds. A configured rate is in millionths of an
-- admission a second, an effective one in millionths of a millionth (effective_unit), and a budget
-- in budget_unit-ths of an admission, so the arithmetic of rates is exact. What a double makes of
-- the budget's sum is a parameter, as at a rate of 0.1, where ten ticks leave 0.9999999999999999
-- and admit nobody. JsNumber keeps what the program's checks tell apart (NaN, the infinities,
-- fractions, signs). hashString keeps the wrap-around at 32 bits.
--
-- Loops are structural recursion. The draw of the lottery has the code's own bound of eight rounds
-- per wanted visitor as its fuel; with the rounds used up it returns what it has, as the code does.
--
-- A text that is only compared is a native string; one that is cut, trimmed or decoded is the list
-- of its code units. A promise that rejects is a value of a result type.
--
-- Parameters stand for what is not in the repository: the runtime's Number, the constructor of URL
-- (and sanitizeHealthUrl, which rests on it), decodeURIComponent, JSON, TextEncoder, btoa and atob,
-- the HMAC, Math.random and ORDER BY RANDOM(), the rounding of a sum to a double, fetch. Laws that
-- a theorem takes of them are what their documentation says, and Examples/Runtime and
-- Examples/Numbers have a runtime and a rounding with these laws.
--
-- Not modelled: migrations of rooms from older schemas, the operator's routes and the router, the
-- writing of cookies, the stores and routes of the administration, the pages, the proxied request
-- itself, and the in-memory simulator.
mod Base
mod Examples
pub mod Js
pub mod Auth
pub mod Engine
pub mod Eta
pub mod Config
pub mod Health
pub mod Room
pub mod Gate
pub mod Origin
pub mod Routes
