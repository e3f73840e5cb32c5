-- ===== src/Lib.antt =====
-- Lumen AI support agent: the core of its API server (apps/api/src).
--
-- Tickets are opened for conversations, moved through a state machine and annotated by agents; side
-- effects on other systems go through an outbox that retries; LLM calls are routed to providers by a
-- gateway with a fallback chain, under a monthly token budget for each tenant; a conversation goes
-- between the AI, a queue and the agents that claim it, or, escalated, to the least busy agent;
-- documents are split into the chunks that the assistant retrieves.
--
-- Prelude       lists, tests and the queries on tables (a table is the list of its rows in the order
--               of insertion); `Exec` is a method that changes a state and may raise, and what was
--               written before a raise stays in the state.
-- Ticket        ticket/: Enums and StateMachine (ticket/enums.py, ticket/state_machine.py; the
--               diagram of a ticket's life is drawn again by hand as ◌⟶◌), Models (ticket/models.py),
--               Repository (ticket/repository.py, and clear_ticket_id of conversation/repository.py),
--               Service (ticket/service.py), Api (ticket/api.py). `with_session` is the session of
--               get_ticket_service: what is not committed is dropped. History has the requests that
--               the invariants are about. The UNIQUE key on tickets.conversation_id, the foreign key
--               from tickets to conversations and the RESTRICT key back are written out where they
--               refuse a write (`integrity_error`).
-- Outbox        channel/outbox/dispatcher.py, with OutboxEvent of channel/models.py. Handlers are
--               arbitrary functions of the time and the payload; every call is recorded.
-- Llm           llm_client/: Types (types.py, exceptions.py), Resolvers (resolvers.py), Gateway
--               (gateway.py), RuntimeChain (runtime_chain.py). A provider is a name and a function
--               from requests to a result and the milliseconds it takes.
--               Llm.Client is LLMClient (client.py) with the queue of usage.py: Chat and Stream, where
--               a stream is the list of its items and what it raises in the end. A resolver may answer
--               otherwise in each attempt; the jitter is an argument.
-- Budget        budget/: Models, Repository (repository.py, and sum_for_period of credits.py), Cache
--               (cache.py), Precheck (precheck_cache.py, and PerModelBreakdownCache of
--               per_model.py), World, Gate and Resolver (resolver.py). The resolver inside is any
--               function from requests to results.
-- Assignment    assignment/service.py, with get_assignment_policy of tenant/repository.py and
--               count_open_pending_per_agent of conversation/repository.py.
-- Conversation  conversation/: Repository (repository.py, with the partial unique index), Service and
--               Messages (service.py). Requests has the calls that the invariants are about, Effects
--               the moves of a conversation. What other sessions do between the lookup and the insert
--               of an inbound message is a function; the other calls run one after the other.
-- Knowledge     knowledge/chunker.py: Text (a str as its code points, with str.split and str.join),
--               Chunker (chunk_text), Chunker.Blocks (_chunk_block and the tables), Chunker.Document
--               (chunk_document).
-- Auth          auth/rate_limit.py: ClientIp (_client_ip, whose trusted_proxy_hops is an argument),
--               RateLimit (check_tenant_lookup_rate_limit; Redis and its clock are parameters, with
--               what INCR and EXPIRE NX document as hypotheses); Login (AuthService.login of
--               auth/service.py, create_access_token of auth/jwt.py, the gates of auth/dependencies.py;
--               bcrypt and the JWT library are parameters), Outcome, Grants and Again (their properties). A
--               database failure of the hash upgrade is an argument.
--
-- Conventions: ids that new_id makes, clock readings (seconds), `ZoneInfo` with the calendar, and
-- `str.lower` are arguments. Token counts and minutes are natural numbers, as the columns hold them;
-- the one subtraction below zero is an integer. Rows are loaded and written by primary key. Loops are
-- structural recursions on the list they run over, so no fuel is needed, but three: `retry`, which
-- dispatches an event again and again, counts its rounds, and `window_loop` of the chunker has one
-- round more than there are words, each moving on by at least one;
-- and `retry_loop` of the client has one round more than there are retries.
--
-- Not modelled: the cancellation of a task (a BaseException that is no Exception) in a handler or a
-- call, the time zone of period_starts_at, which the usage query strips, logs and traces, metrics other than the counters shown, JSON schemas, foreign keys to
-- users and tenants, database failures other than the refusals above, and transactions that
-- interleave, except the two concurrent budget records of Budget.Interleaving. Rows with equal
-- creation times keep their order of insertion where the SQL leaves the order open.
pub mod Prelude
pub mod Ticket
pub mod Outbox
pub mod Llm
pub mod Budget
pub mod Assignment
pub mod Auth
pub mod Conversation
pub mod Knowledge
