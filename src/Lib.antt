-- ===== src/Lib.antt =====
-- GITA is a GitHub agent. Webhook deliveries enqueue jobs; a job lets an agent read the code and make
-- decisions; each decision passes a write gate before a client changes anything on GitHub; an index of
-- the code is what the findings of an agent are checked against.
--
-- Web (src/gita/web/). Web.Json is what `request.json()` returns. Web.Dispatch has the handlers and
-- the table of dispatch.py, Web.Cooldown the table and the clock of cooldown.py, Web.Event and
-- Web.Webhook the endpoint of webhooks.py, `receive_webhook`, gate by gate. One delivery is handled
-- without a break there; Web.Webhook.Races lets another one in at the await between the cooldown's
-- look and its stamp. The state is the cooldown table, the jobs that the queue took, and how often the
-- clock was read; the HMAC, the JSON parser, the print of lists and dicts, the clock and the answer of
-- the queue are fields of a `Server`.
--
-- Agents (src/gita/agents/). Agents.Decision, Agents.Downgrade and Agents.Gate are decisions.py:
-- `execute_decision` runs on a `World` that holds the rows of `agent_actions` that are committed,
-- those that this session has flushed, the rows that other writers will commit while the client is
-- busy, and what the client was asked. Agents.Signature and Agents.Ledger are dedupe.py on the table
-- of db/models.py with its unique constraint. Agents.Guardrails is guardrails.py with the line ranges
-- of pr_reviewer/diff_parser.py; `ast.parse` is a parameter, which may raise. Agents.TestGenerator is
-- test_generator/bridge.py, and Agents.Preflight is stage B of test_generator/preflight.py.
-- Agents.Milestones and Agents.Onboarding are onboarding/bridge.py, Agents.Review is
-- pr_reviewer/bridge.py, and Agents.Findings has what the two share.
--
-- Jobs (src/gita/jobs/runners.py). Jobs.Chain is `_execute_decision_chain` with its session, on top of
-- Agents.Gate. Jobs.Enqueue is `_maybe_enqueue_test_gen_jobs`; the two stages that judge a file, the
-- settings and the queue are fields of a `Setting`, where a negative cap stands as zero. The second
-- stage is what Agents.Preflight models.
--
-- Github (src/gita/github/). Github.Http has the state of a `GithubClient`, its two caches and what it
-- sent, and what it takes from outside, an `Api`: the transport, which may answer by what was sent
-- before, the clock, PyJWT, base64, urllib and datetime. Github.Tokens is the token cache and auth.py,
-- Github.Writes the calls that change GitHub, Github.Client `execute`, the `ActionClient` of the write
-- gate, and Github.Reads and Github.Contents the calls that only read. A text that GitHub sends is
-- kept as the JSON value that it is, as in the source.
--
-- Indexer (src/gita/indexer/). Indexer.Changes is `parse_name_status` of diff.py and Indexer.Git the
-- rest of that file, on what the git commands print. Indexer.Walker is walker.py on the list of the
-- paths below the root. Indexer.Rows has the tables `repos`, `code_index` and `import_edges` of
-- db/models.py, and Indexer.Edges, Indexer.Embeddings, Indexer.Ingest and Indexer.Repository are
-- ingest.py, up to `index_repository`. Reading a file, resolving an import and git are fields of a
-- `WorkTree`; the parser is a parameter that does not raise, the embedding client one that may.
-- Indexer.Imports is imports.py but for the search for package roots, on a file system that is a
-- parameter; it does not fill the field of the `WorkTree`. Indexer.Snapshot is the abstract view: a
-- map from paths to what the index should say, with no order, revision or embedding; its children
-- prove that the modes implement it.
--
-- Value has the values of the `dict` fields of a decision. Platform has the floats with their
-- comparisons and prints, SHA-256 and the row ids, which are parameters; no theorem assumes anything
-- of them. Base has the helpers that the parts share, Python's `str` methods and exceptions among
-- them. Tests runs the definitions on concrete inputs and applies each theorem to one.
--
-- Bounds and fuel. All loops recurse on their lists and texts, but for two. The print of a number has
-- as fuel one more than the number, which each round divides by ten. `get_pr_files` takes a bound on
-- its pages and has no result beyond it; one more than the full hundreds of files is enough. Numbers
-- are natural, since they count issues, bytes and rows; the line of a finding and the indices of a
-- milestone, which a model gives, are integers. `lower` and `upper` fold ASCII letters, and the digits
-- of a hunk header are ASCII. An exception is the class that the program distinguishes, and what a
-- call changed before it raised stays changed.
--
-- Not modelled: log lines, time stamps, the recipes and their prompts, the language model,
-- tree-sitter, the embedding service, the views (mostly SQL), the command line, and the set-up of web
-- process, worker and database session.
mod Base
pub mod Value
pub mod Platform
pub mod Agents
pub mod Web
pub mod Github
pub mod Jobs
pub mod Indexer
mod Tests
