-- ===== src/Lib.antt =====
-- A verification library for the payment mesh: its circuit breaker, its routers, its payments, and
-- the accounts and tokens of its API.
--
-- The parts, and the files that model them:
-- * Entropy (pkg/entropy/entropy.go) gives a node's Shannon entropy, which engine/router/yen.go adds
--   to the weight of the edges out of the node.
-- * Router (engine/router/yen.go, engine/router/country_router.go) holds the mesh graph and the graph
--   of countries, and finds up to k routes. Both files write Dijkstra's algorithm and Yen's algorithm
--   in the same way; Router/Search and Router/Yen hold the two algorithms over what differs (the
--   nodes, the edges out of a node, the tests that skip an edge, the weights, the way a path is put
--   together), and Router/Mesh and Router/Country instantiate them with each file's graph;
--   Router/Country/Builder (engine/router/country_graph_builder.go) builds the graph of countries.
-- * Payments (payments/transaction.go) stores transactions, quotes their fees, and runs a payment hop
--   by hop over a route that a router found; it reports each hop's success by a callback.
-- * Circuit (storage/redis/circuit_breaker.go) decides by a state kept in Redis whether a request may
--   pass, and RateLimiter (storage/redis/rate_limiter.go) by the requests that a window in Redis holds;
--   Redis is the interface that both use, and Redis/Model one instance of it.
-- * Auth (auth/token.go, the roles of auth/password.go, api/middleware/auth.go) issues and checks
--   tokens and guards the handlers; Users (storage/users/store.go) stores the accounts.
--   Auth/Hashing is the password hashing of auth/password.go, which Users/Hashed gives to the store.
-- * Handlers (api/handlers) are the HTTP endpoints over these parts, with the requests and responses of
--   Http: Handlers/Payment (payment_handler.go) quotes, runs, retries and refunds payments over the
--   transaction store and Stripe (payments/stripe.go); Handlers/Accounts and Handlers/Nodes
--   (protected.go) register users, log them in, and change the mesh graph for administrators;
--   Handlers/Chaos (chaos.go) kills and revives nodes through the circuit breaker and the graph;
--   Handlers/Routing (route_handler.go, and the settlement preview of protected.go) asks the two
--   routers; Handlers/Countries (country_admin.go) creates and deletes countries in Neo4j.
-- * Security (api/middleware/security.go) checks origins and URLs and cleans input. Websocket
--   (websocket/server.go) is the hub that events are broadcast over. GraphSync
--   (messaging/consumers/graph_sync.go) applies liquidity updates to Neo4j.
-- * Workers (engine/worker/pool.go) runs settlements on a bounded pool, whose requests and responses
--   Settlement (engine/models/settlement.go) takes from pools of objects; Workers/Steps is a step
--   relation for callers and workers, Workers/Batch a batch of requests.
--
-- A method on a shared object is a function from the state to the result and the next state.
-- Where the source holds a lock for a whole call the call is one step; a payment is run as one
-- sequence of writes with no other call in between. Names are the source's in snake case:
-- `ProcessTransaction` is `process_transaction`, `FindKShortestPaths` is `find_k_shortest_paths`;
-- a second method of the same name carries its subject (`country_dijkstra`, `add_trade` for
-- CountryGraph.AddEdge).
--
-- Numbers: int64 counters and times are unbounded; a float64 is a value of an arbitrary carrier
-- with its place in the order (Base/Float), without NaN, and the laws that a theorem needs of
-- rounding are its hypotheses `AddLaws`. `nat_float` is an instance, for the witnesses. Go maps
-- are association lists; a range over a map takes list order, and the theorems hold for every
-- such list. container/heap is a list from which Pop takes an entry that no other entry is less
-- than.
--
-- Loops: a loop over a list is recursion on the list. Dijkstra's loop runs on fuel, two more than
-- the number of edges out of the nodes, and path reconstruction on one more than the number of
-- visited nodes; `none` stands for a run that needs more, and Router/Search/Paths shows that none
-- does where no usable edge has a negative weight; Router/Search/Ends and
-- Router/Search/Endless look at any weights.
--
-- Parameters, with the documented behaviour that is used: Redis (a value set is read back, a
-- command on one key leaves the others, what the sorted set commands make of a set's entries),
-- JSON coding (decoding what was encoded), PASETO (decrypting what was encrypted), password
-- hashing (a password verifies against its hash, which Auth/Hashing proves from Argon2 and
-- base64), random ids, clocks.
--
-- Parameters, also: the Stripe API and Neo4j (what they answer, nothing assumed), JSON bodies (a
-- request holds the decoded body, or none), the worker pool of github.com/gammazero/workerpool (it
-- runs each function it was given at most once, at any later time), the formats of times.
--
-- Not modelled: the gRPC server, connections and timers of the websocket server, the Neo4j,
-- Postgres, NATS and Redis clients, the exchange rate worker, receipts and their handler, the
-- list of countries, the fetching of messages, and the constant security headers, which are input
-- and output or glue around the parts above; the front end; GetAllCircuits of the circuit
-- breaker, which only lists keys; DefaultTokenConfig and the default passwords, which come from
-- the environment and are arguments here.
pub mod Base
pub mod Redis
pub mod Entropy
pub mod Circuit
pub mod Router
pub mod Payments
pub mod Auth
pub mod Users
pub mod RateLimiter
pub mod Http
pub mod Stripe
pub mod Handlers
pub mod Settlement
pub mod Workers
pub mod Websocket
pub mod GraphSync
pub mod Security
