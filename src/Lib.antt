-- ===== src/Lib.antt =====
-- Verification of the deterministic core of the SOC analyst platform: the rules that the agents, the
-- graph and the HTTP API call on to decide, to guard and to notify, translated from the Python
-- sources (paths from the repository's root).
--
-- The parts and their files:
--
-- - Common: Boolean tests, lists, Python dictionaries as association lists with one entry per key
--   (Common/Dict), sets as lists without repetition (Common/Sets), ASCII text as lists of
--   character codes with the operations of `str` that the sources use (Common/Text).
-- - Enums: models/enums.py. The status `open`, a reserved word, is spelled `opened`.
-- - Resilience: integrations/resilience.py, used by every adapter to the outside. `CircuitBreaker`
--   is Resilience/Breaker with Breaker/Laws (its invariant) and Breaker/Trace (sequences of calls);
--   `RateLimiter` is Resilience/Limiter with Limiter/Laws; `TtlCache` is Resilience/Cache with
--   Cache/Entries and Cache/Laws (its invariant, lookups) and Cache/Recency (eviction order). The
--   clock is an argument, in ticks that never go back; the tokens of the limiter are counted in
--   parts of a token such that a tick refills a whole number of them.
-- - Sessions: backend/auth/sessions.py. Sessions/Records holds the records, Sessions/Store the
--   protocol `SessionStore` as an interface with laws, Sessions/InMemory the store that implements
--   them, Sessions/Service the `SessionService` over any store, Sessions/Outcomes its results;
--   Sessions/Rotation, Sessions/Invariant and Sessions/Family state what refresh-token rotation
--   promises. The SHA-256 of tokens and the random generator of tokens are not modelled: a token is
--   named by its hash, and what the generator returns next is an argument.
-- - Scoring: tools/severity.py is Scoring/Severity (Severity/Score, Severity/Verdicts), and
--   services/risk.py is Scoring/Risk (Risk/Bounds). Scores are counted in tenths, which is how far
--   the sources round them; rationales are left out.
-- - Versions: tools/versions.py, with the contracts of models/vulnerability.py. Versions/Version is
--   `parse_version`, Versions/Order the comparison of versions, Versions/Product the match of
--   product names, Versions/Applicability the decision whether a CVE applies to the estate;
--   Versions/Ranges, Versions/Evidence, Versions/Loops and Versions/Verdicts state what the answers
--   mean.
-- - Notify: services/notifications.py (Notify/Routing, Notify/Keys), the tables and the repository
--   (Notify/Contracts, Notify/Database), and backend/services/notifications.py: `verify_approval`
--   is Notify/Approval, the attempts are Notify/Attempts, `dispatch_alert` is Notify/Dispatch with
--   its theorems in Notify/Failover, `retry_delivery` is Notify/Retry. What a channel answers is a
--   parameter: an adapter is a function from a recipient and a state of the world outside.
-- - Graph: graph/nodes.py, graph/builder.py and graph/state.py. Graph/History is the transition log
--   and its reducer, Graph/Reducer the merge of the sub-states, Graph/Nodes the nodes and the
--   routes, Graph/Builder the edges and the runs, as a step relation and executed; Graph/Gate states
--   what every run keeps and Graph/Finish that runs end. An agent's conclusion and a person's
--   decision are inputs of a step.
-- - Memory: memory/working.py and the estimates of memory/summarization.py are Memory/Working; what
--   eviction leaves is stated in Memory/Eviction. The summarizer is a parameter, as in the source.
--   The session memory is Memory/Session over the in-process stores of memory/hot.py (Memory/Hot)
--   and memory/durable.py (Memory/Durable), both dictionaries of dictionaries (Memory/Nested).
--   Whether the write of the hot tier succeeds is an argument, and `expire` is what the tier's time
--   to live does by itself. Memory/Coherence, Memory/Refinement and Memory/Recovery state what the
--   two tiers promise together, and what they do not. Memory/Context assembles the context of a
--   turn, `materialize_context` of memory/service.py, from what each tier answers.
-- - Rag: rag/chunking.py from the sections of a document on (Rag/Windows the loop over an oversized
--   section, Rag/Packing `_pack`, Rag/Chunking the records, with Rag/Cover and Rag/Records on what
--   they are), and of rag/ranking.py `fuse` (Rag/Ranking) and `take_within_budget`
--   (Rag/Selection). Scores are carried along as numbers; the token estimate is a parameter.
-- - Cases: the life of a case. Cases/Tables holds the rows; Cases/Lifecycle, Cases/Reports and
--   Cases/Plans are the operations of backend/services/investigations.py, report.py and
--   remediation.py over their repositories; Cases/Worker is backend/workers/investigations.py, and
--   Cases/Decision the route `decide` of backend/api/routes/investigations.py with `resume` of
--   graph/runtime.py; Cases/Screen projects progress and open work. Cases/Statuses, Cases/Gate and
--   Cases/Resume are lemmas, as Cases/Advance is; Cases/Course puts the case beside the run of the graph, with the writes that roll
--   back and the decisions whose outcome is lost as steps of their own, and Cases/Tracking,
--   Cases/Authority, Cases/Versions and Cases/Approvals state what holds of them together.
-- - Correlation: tools/correlation.py on what it reads of models/logs.py (Correlation/Events).
--   Correlation/Episodes is `_split_by_gap` and `_unique_event_ids`, Correlation/Buckets is
--   `correlate_events`; Windows, Carried, Order and Filled are lemmas on episodes and buckets, and
--   Correlation/Sound and Correlation/Complete state what is reported and that it is enough.
-- - Access: backend/auth/rbac.py is Access/Roles; `RateLimitMiddleware` of
--   backend/middleware/rate_limit.py is Access/RateLimit, with Access/Limit on what it lets through.
--
-- The parts meet where the sources do: the verdicts and priorities of Scoring are the enumerations
-- that Notify reads for its alerting floor, an applicable CVE of Versions is an input of the risk
-- score, the case of Cases follows the run of Graph, the decisions that it records are those that
-- Notify verifies, and the resilience primitives guard the calls that the rest takes as parameters.
--
-- The loops of the sources are recursions over a list or over the number of attempts that the
-- settings allow. Two take fuel: the loop over an oversized section as much as the section has
-- characters, since each round starts at a later character; and a run of the graph that is
-- resumed ten nodes, since it then ends or pauses at the gate. Numbers are natural numbers
-- without an upper bound, as Python's are; where the source subtracts, the model is of a case where
-- the result is not negative or says what happens below zero.
--
-- Not modelled: prompts and calls of language models, database sessions and their transactions, the
-- other HTTP routes, the wire formats of feeds, logging, texts for people, and wall-clock timestamps.
pub mod Common
pub mod Enums
pub mod Resilience
pub mod Sessions
pub mod Scoring
pub mod Versions
pub mod Notify
pub mod Graph
pub mod Memory
pub mod Rag
pub mod Cases
pub mod Correlation
pub mod Access
