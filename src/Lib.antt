-- ===== src/Lib.antt =====
-- A model of the two Go programs of this repository: the key-manager (key-manager/), which serves a
-- web API for minting API keys of language models, and the operator (operator/), which renders each
-- model's resources in a Kubernetes cluster.
--
-- Parts, and how they interact. The API (key-manager/internal/api) authenticates a request with the
-- JWT validator, asks the model cache which models the user's groups open, and calls the store of
-- keys. The store (internal/secrets) keeps each model's keys in a Secret and their metadata in a
-- ConfigMap. The auditor (internal/audit) goes over the cached models and revokes, in that store,
-- the keys of users who lost access. The operator's webhooks (operator/internal/webhook) admit the
-- custom resources that the cache lists, and reject two that would share a Secret. The operator's
-- controllers (operator/internal/controller) render for each of them routes, policies and what
-- serves it, and a policy for the clients that the Secret of the key-manager names.
--
-- Files, each with the code it is about:
--   Base: lists, texts (Go strings as bytes), maps, results, calls over a world
--   Crd: operator/api/v1alpha1 (LLMModelSpec and the types below it, PassthroughModelSpec)
--   Keys: key-manager/internal/secrets/manager.go. Names (sanitizeUsernameForKey, shortHash), Probe
--     (the search for a sequence number), Store (objects, the client), Manager (CreateKey, RevokeKey,
--     ListKeys, ListKeysForUser); proofs in Unique, Valid, Accepted, Free, Fresh,
--     Revoked, Tracked
--   Models: key-manager/internal/models/watcher.go (Sync, FilterModelsForUser), and the Syncs of
--     key-manager/cmd/main.go
--   Api: key-manager/internal/api/middleware.go (Middleware), handler.go (Handler), and the choice of
--     the handler in key-manager/cmd/main.go; proofs in Authentication, Ownership
--   Audit: key-manager/internal/audit/auditor.go (RunOnce); proofs in Rules, Complete
--   Jwt: key-manager/internal/api/jwt_validator.go (ValidateToken, refreshForUnknownKID,
--     fetchPublicKeys); proofs in Fetched, Sound, Cooldown, Rate
--   Naming: operator/internal/controller/reconcilers/common.go (Slugify, EffectiveSubdomain)
--   Webhook: operator/internal/webhook/v1alpha1 (the validators of both kinds); proofs in Admission,
--     Passthrough and Unique
--   Config: operator/internal/config/config.go (LoadFromEnv)
--   Gateway: operator/internal/controller/reconcilers/clustertls.go (MergeHTTPSListener)
--   Network: operator/internal/controller/reconcilers/networkpolicy.go
--   Storage, Serving: operator/internal/controller/reconcilers/storage.go and modelservice.go, with
--     the types of a pod in Workload; proofs in Serving/Gpu and Serving/Mounts
--   Routing: operator/internal/controller/reconcilers/routing.go
--   Auth: operator/internal/controller/reconcilers/auth.go, and Auth/Secrets for
--     operator/internal/controller/apikeys.go; proofs there, in Admits and in Guarded. Keys/Lifecycle
--     puts them together with the key-manager
--   Pool: operator/internal/controller/reconcilers/inferencepool.go; proofs in Selection
--   Cluster: the calls of a Kubernetes client that the controllers make, create-or-update, and which
--     invariants of the world calls keep (Keeps)
--   Controller: operator/internal/controller/llmmodel_controller.go. Types (objects and calls), Apply
--     (the createOrUpdate helpers), Groups (reconcileModelServiceResources and
--     reconcileInferencePoolResources), Status (determinePhase, updateStatus); proofs in Keys, Kept,
--     Unmoved, Observed, Phases
--   Passthrough: operator/internal/controller/reconcilers/passthrough.go, and in Types, Apply and
--     Controller operator/internal/controller/passthroughmodel_controller.go; proofs in Ready
--   Tls: operator/internal/controller/clustertls_singleton.go, with BuildSharedCertificate and
--     BuildSecretReferenceGrant in Build and nestedSpecsEqual in Json; proofs in Json and Steady
--   Samples: objects for the tests
--
-- A call that may change something outside is a function from a world to a result and a world;
-- the world is any type. Code of other projects is a parameter: the Kubernetes client, HTTP and
-- JSON decoding, the JWT library, SHA-256, random bytes and the clock. What is relied on is
-- named: `IsVersioned` for updates with a resource version, `IsAlone` for a server without other
-- writers, `Verifies` and `CallsOnce` for the JWT library, `IsCurrent` for an uncached reader,
-- `IsSteady` for the identity provider; `IsUnmoved` and `IsObserved` say which calls an invariant
-- of the cluster stands, `IsSettled` what its reads give.
--
-- Bounds and fuel: CreateKey and RevokeKey make three attempts, as the code does; the search for a
-- sequence number has as many steps as the two objects have keys, and one more, since each number
-- that is passed over is a key of theirs. A Go int that the code computes is 64 bits where it can
-- overflow (the exponent of a key); lengths and counts are native numbers.
--
-- The controllers reconcile an object at a time: a reconciliation reads, builds what is wanted by
-- functions of the model and the configuration, and creates or updates each object; other writers
-- may act in any call.
--
-- Not modelled: locks and concurrent callers within one call (a method is one step), timers,
-- logs, the wiring of the controllers' watches, the entries of the two programs but for the
-- choice of the API's handler and the Syncs, the matching of routes by net/http, whose own
-- answers are taken as they come, and generated code. The change of case in Slugify is for ASCII
-- letters.
pub mod Api
pub mod Audit
pub mod Auth
pub mod Base
pub mod Cluster
pub mod Config
pub mod Controller
pub mod Crd
pub mod Gateway
pub mod Jwt
pub mod Keys
pub mod Models
pub mod Naming
pub mod Network
pub mod Passthrough
pub mod Pool
pub mod Routing
pub mod Samples
pub mod Serving
pub mod Storage
pub mod Tls
pub mod Webhook
pub mod Workload
