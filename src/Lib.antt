-- ===== src/Lib.antt =====
-- A communications hub: messages from chat, text and mail platforms are accepted, understood and
-- routed to contacts and consumer products. Two Go services make it up. webhook-go receives the
-- platforms' calls, queues a canonical message and hands it to channels-go. channels-go stores the
-- message once, decides what to do with it, and starts the reply to the sender or the forward to a
-- consumer product; a product answers through its outbound endpoint. This library models the message
-- path of channels-go in both directions, its replay, retention, administration and contacts, and the
-- queue between the two; paths below are those of implementations/channels-go.
--
-- Strdist is internal/strdist/strdist.go: Levenshtein with its two rows, and Soundex, over lists of
--   runes (Script, Rows, Metric and Code hold its laws).
-- Parser is internal/parser/parser.go: `Parse` with its two forms of a message (Token, Grammar, Shape).
-- Policy is internal/policy/policy.go: `Score`, `Decide` and `EchoText` (Bounds, Gate). Policy.Float
--   states what is used of float64, and gives fixed-point numbers that satisfy it.
-- Resolver is internal/resolver/resolver.go: `Resolve` behind its query (Best, Order, Outcome).
-- Canonical is internal/canonical/message.go: the message that the webhook hands over.
-- Store has the rows and tables, Store.Queries the statements of internal/queries/goqueries as
--   functions on lists of rows, Store.Lookup and Store.Keys what they find and keep.
--   Store.Select holds joins, orders and limits; Store.Unfired and Store.Outbound are the statements of
--   replay and of the outbound API.
-- Workflow is internal/workflow/workflow.go: the payload of a forward and its delivery with retries.
-- World is what a service acts on: the database, an oracle of failures, the supply of new ids, the
--   started goroutines as jobs, and what left the process. World.Triple and World.Cases
--   compose what holds of actions on it.
-- Ingest is internal/ingest/ingest.go: `Ingest`, `handleRecall`, `handlePassthrough` and `decide` in
--   Ingest.Steps, the rows and payloads in Ingest.Base, the background work in Ingest.Jobs. Its effect
--   is stated in Ingest.Effect and shown in Ingest.Persist, Ingest.Handlers, Ingest.Once and
--   Ingest.Repeat; Ingest.Total is about calls where nothing fails, Ingest.Work about the jobs.
-- Outbound is internal/outbound/outbound.go and internal/integrations/emailses/builder.go: the adapters
--   and the e-mails. Outbound.Api is internal/outboundapi/outboundapi.go, with what it sends in
--   Outbound.Sending and Outbound.Effect; Outbound.Handler is internal/outboundapi/handler.go, with
--   what its responses say in Outbound.Answer.
-- Replay is internal/replay/replay.go: the forwards that no consumer acknowledged, built again from
--   the stored messages (Rebuild), a run and its effect (Effect, Guard), and overlapping runs (Turns).
--   What PostGIS, JSONB and the driver make of a stored location, of attachments and of a time is the
--   parameter `Replay.Reading`.
-- Admin is internal/tenants, internal/accounts and internal/channels: Admin.Accounts has the services
--   of tenants and accounts, Admin.Channels that of channels, over the statements of Store.Accounts and
--   Store.Channels; Admin.Calls are sequences of their calls. What the tables keep is stated in
--   Admin.Sound and shown, statement by statement and call by call, in Rows, Kept, KeptLinks, Keeping,
--   AccountsKept, ChannelsKept and Routes.
-- Retention is internal/retention/retention.go: `Purge`, `EraseEndpoint` and `Erase`, over the
--   statements of Store.Erasing (retention.sql.go); Links is about reply links, Isolation, Effect,
--   Erasure and Refusal hold its laws.
-- Drain is internal/queue/memory.go and internal/drain/drain.go of implementations/webhook-go: the
--   queue, and a step relation for the worker, its goroutines and the listeners (Balance, Progress,
--   Ending).
-- Webhook is internal/listeners/registry.go and internal/accounts/http.go of implementations/webhook-go:
--   the handler of a platform's call (Accepted), and the cached look-up of accounts (Lookup, Fresh).
-- Contacts is internal/contacts (service.go, contact.go, bulkimport.go) of implementations/channels-go:
--   the service, the check of a short id (Check), and the bulk import (Import, Counts). Its statements
--   are Store.Contacts. The lines that the CSV reader gives are an argument and end.
--
-- Texts are lists of runes. What Go's standard library and PostgreSQL do is a parameter or written
-- out: the Unicode tables (Parser.Unicode), float64 (Policy.Float), and `Ingest.Base.Deps`,
-- `Outbound.Api.Service` and `Admin.Deps` for uuid, time, JSON and encryption functions. Every
-- statement and every remote call draws one entry of the list of failures of the world, and fails
-- without effect if it says so: a theorem for every world covers every pattern of failures. A statement is atomic, and ingest runs its statements without a
-- transaction, as the code does. `Workflow.forward` recurses on the attempts left, of which the code
-- has at least one; every other loop recurses on a list, so there is no fuel to run out.
--
-- Not modelled: the other HTTP handlers and middleware, encryption, logging, the JSON coding, the
-- platform adapters, the reports (message log, export, diagnostics), the parsers of the
-- listeners, the SQS queue and the publisher.
pub mod Prelude
pub mod Strdist
pub mod Parser
pub mod Policy
pub mod Resolver
pub mod Canonical
pub mod Contacts
pub mod Store
pub mod Workflow
pub mod World
pub mod Ingest
pub mod Retention
pub mod Drain
pub mod Outbound
pub mod Webhook
pub mod Admin
pub mod Replay
