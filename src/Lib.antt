-- ===== src/Lib.antt =====
-- The verification library of cmo-agent, an autonomous outbound sales agent. A qualification pipeline
-- scores the accounts of a batch and recommends an action for each; a gate lets the strongest through to
-- automatic sending; an outbound pipeline researches an account, drafts an e-mail, has it approved in
-- Slack, sends it and follows the replies. Guardrails in Redis (a kill switch, send caps, blocklists and
-- token buckets) hold automation back.
--
-- - Redis is the interface of the server's commands, with the laws of its documentation;
--   Redis.Memory is a store of functions that meets them. Redis itself is not part of the repository.
-- - Guardrails.KillSwitch: src/guardrails/kill_switch.py. Guardrails.SendCaps: src/guardrails/send_caps.py.
--   Guardrails.Blocklist: src/guardrails/blocklist.py. A method takes the store and returns it; Keys has
--   the lemmas that tell Redis keys apart, Laws and Runs the theorems. Guardrails.Rollback:
--   src/agent/nodes/rollback_handler.py, its two switches.
-- - Ratelimit: src/ratelimit/bucket.py. The script's floats are exact fractions here: tokens are counted
--   in units of 1 / refill_seconds.
-- - State and Qualification.State: src/agent/state.py.
-- - Outbound.Nodes: the nodes of src/agent/nodes that src/agent/graph.py wires, one function each.
--   Outbound.World has the answers that they get from tools, webhooks, the model and the database, and the
--   effects that they have. Outbound.Graph: src/agent/graph.py, with its runs as the relation Reaches, and
--   as advance_by, which makes a number of steps; LangGraph's own limit on steps is not modelled, and
--   run_ends gives a number that is enough.
-- - Qualification.ActionRules: src/scoring/action_rules.py and src/agent/nodes/action_recommender.py.
--   Qualification.Gate: src/agent/nodes/auto_outbound_gate.py; Gate.Flow has the order of its checks.
-- - Outbound.Slack: src/tools/slack_approval.py, as far as the status that it returns.
-- - Qualification.Graph: src/agent/qualification_graph.py and src/agent/nodes/brief_reviewer.py.
-- - Worker: src/worker. Worker.Locks has the lock on a thread as a relation over the workers inside and
--   those whose time to live has run out; Worker.Queues the routing of events,
--   Worker.Runner the processing of one job, Worker.Handlers the approval of a brief.
-- - Db: src/db/queries.py. Db.Tables has the SQL statements on lists of rows, Db.Rows the tables, Db.Queries
--   one function per query. Sql stands for the orders that the server chooses, per request. Of the constraints of
--   infra/init.sql those are modelled that an insert of the queries can break, but for the workspace's own row and
--   the ids that the server makes. Db.Requests makes the queries of a workspace whose outcome no
--   constraint ties to rows of others one data type, with what a
--   workspace sees of the database; Db.Isolation and Db.Interleaving compare the two, Db.Lifecycle follows
--   an API key, Db.UploadTrip an upload.
-- - Api.Middleware: src/api/middleware.py, src/api/deps.py and the order in which src/api/main.py adds the
--   middlewares; Api.Access and Api.Entry have the theorems. Api.Auth: src/api/auth.py. Api.Pages:
--   list_campaigns_route of src/api/main.py.
-- - Scoring: src/scoring/icp_rules.py, src/scoring/timing_rules.py and src/agent/nodes/icp_scorer.py, on exact
--   fractions in place of floats.
-- - Normalization: src/normalization. Domains and Companies are src/normalization/domain_resolver.py, Contacts
--   src/normalization/contact_linker.py, Titles src/normalization/title_normalizer.py; Normalization.Tests runs them.
-- - Evaluation.Metrics: src/evaluation/metrics.py.
-- - Float is what the program uses of floats, with the laws of comparison; NaN is told apart.
-- - Common has what all modules share: numbers, lists, texts, and lemmas on them.
--
-- Scores and counts are natural numbers without a bound, as in Python. Text that goes to a prompt, a log
-- line or a chat message is left out, as are the tools and the demo, which call outside services, the other
-- routes of the HTTP API, and the nodes that prompt the model or write to a CRM.
pub mod Common
pub mod Redis
pub mod Guardrails
pub mod State
pub mod Outbound
pub mod Ratelimit
pub mod Float
pub mod Qualification
pub mod Worker
pub mod Db
pub mod Api
pub mod Scoring
pub mod Normalization
pub mod Evaluation
