-- ===== src/Lib.antt =====
-- Verification of the Go module github.com/aep-foundation/aep-go, the development kit of the Agent
-- Enrollment Protocol (AEP).
--
-- The program. The root package holds the wire model and the checks that every role shares. The
-- package service runs a Service: an agent presents a client assertion (a signed JWT) with a
-- command, the Service recognizes the assertion at most once, answers a repeated command from its
-- idempotency store, and keeps one enrollment for each agent. The package platform hosts agent
-- identities. The package agent is the client of both.
--
-- The files, with the code they model:
--   Aep.Types           types.go, constants.go: the records and enumerations of the protocol
--   Aep.Bytes           operations of the package strings on lists of bytes
--   Aep.Mailbox         claims.go: isEmailMailbox and the scanners it calls
--   Aep.Claims          claims.go: ValidateClaimValues, MissingRequiredClaimNames
--   Aep.Issues          protocol.go, validation.go, service_documents.go: validation of messages
--   Aep.Assertion       protocol.go, jwt.go: VerifyClientAssertion and the checks of its claims
--   Aep.Json, Aep.Codec claims.go, protocol.go: the Parse functions over given JSON decoders
--   Aep.Responses       service/types.go, platform/types.go: what both idempotency stores answer
--   Aep.Carriers        http.go: the header fields that carry an authorization
--   Aep.OpenApi         openapi.go: MatchOpenAPIPath
--   Service.Types       service/types.go: the records that commands and stores exchange
--   Service.Replay      service/stores.go: memoryReplayStore
--   Service.Idempotency service/stores.go: memoryIdempotencyStore
--   Service.Enrollments service/stores.go: memoryEnrollmentStore
--   Service.Config      service/types.go, service/documents.go: Service, its collaborators and state
--   Service.Recognition service/commands.go: validAssertion, authenticateAssertion
--   Service.Replies     service/commands.go, service/documents.go: results, problems, stored responses
--   Service.Limits      service/claims.go: claimValuesWithinLimits
--   Service.Merge       service/documents.go: mergeDocumentClaims
--   Service.Documents   service/documents.go: updateEnrollment
--   Service.Commands    service/commands.go: executeIdempotent, and Enroll, Status, Grant, Revoke
--   Service.Credentials service/credentials.go: the store of issued credentials, presentations
--   Service.Authentication
--                       service/authentication.go: selectAuthorizationPresentation
--   Platform.Types      platform/types.go: the records of hosted identities and of the operations
--   Platform.Identities platform/stores.go: memoryIdentityStore
--   Platform.Listing    platform/stores.go, platform/platform.go: ListIdentities, List
--   Platform.Idempotency, Platform.Replay
--                       platform/stores.go: memoryIdempotencyStore, memoryReplayStore
--   Platform.Identifiers, Platform.Results, Platform.Requests
--                       platform/platform.go: identifiers, stored results, checks of requests
--   Platform.Config     platform/types.go, platform/platform.go: Platform and its collaborators
--   Platform.AgentDids  platform/document.go: Agent DIDs and DID documents
--   Platform.Construction
--                       platform/platform.go, platform/document.go: New, the discovery document
--   Platform.Operations platform/platform.go, platform/verification.go: GetIdentity, UpdateIdentity,
--                       Provision, Sign, Verify
--
-- Prelude holds the names that all of them share: texts, tables, outcomes, 64-bit integers and
-- actions. Child modules prove what their names say; modules named Tests run the code on concrete
-- values, and Sample holds the values.
--
-- How the code is read. A string is the list of its bytes and a map with string keys is the
-- function that looks a key up. A pair of a value and an error is an Outcome. A method that changes
-- a store takes it and returns it; a command acts on a Session, the idempotency store with the
-- other stores and the state W of what the application supplies (verifier, policy, clock,
-- identifiers, handlers). Times are nanoseconds as natural numbers, Unix times are integers, and
-- sums of int64 are wrapped to 64 bits. An operation of the Platform acts on a HostingSession, its
-- idempotency store with the other stores and the state of its collaborators. Where the code ranges
-- over a map, the records are a list in the order of the visits. The stores lock a mutex around
-- short sections: each section is one function. A whole call is their composition when no other
-- caller comes between, and blocked is the answer where it would have to wait; for the idempotency
-- store, Interleaving lets the sections of any number of callers follow one another in any order.
-- All functions are structural, but the decimal digits of n, which take fuel n + 1:
-- Platform.Identifiers.Canonical proves that it is enough.
--
-- Parameters. encoding/json, crypto/sha256, net, net/url, time formats and the JOSE library are the
-- fields of Stdlib, PlatformCodec and HeaderText or arguments. What a result assumes of them stands
-- among its hypotheses: that the times of a
-- payload are int64, that strings.ToLower lowers the names of the three schemes.
--
-- Not modelled: the Agent; the HTTP handlers and clients, since net/http does their work; the rest
-- of AuthenticateProtectedResource and the built-in Grant Type handlers; the Inspect document and
-- the URLs of OpenAPI documents; the construction of a Service; the caching headers of the
-- documents that a Platform serves; and the command-line programs, which wire the packages to a
-- test harness.
pub mod Prelude
pub mod Aep
pub mod Service
pub mod Platform
