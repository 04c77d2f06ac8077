-- ===== src/Lib.antt =====
-- The gateway of Agent UI (services/gateway/src/local_ai_hub), which keeps a governed memory and chooses
-- a model for a request, and its control plane (ops/hubctl.py), which edits the files that the gateway
-- and its containers are started from.
--
-- The memory layer. A `MemoryService` (memory_service.py) answers the HTTP routes and the capture
-- worker. It keeps settings, spaces, proposals, references to records, bridge consents and an audit
-- trail in a repository (memory_repository.py), and the texts themselves with a provider
-- (memory_provider.py). The service looks for secrets in the texts, lets a user review proposals
-- before they become records, and keeps references to records that are purged.
--   Host           what the Python runtime and the machine give: digests, printed forms, `str.lower`
--   Repository     `InMemoryMemoryRepository`: State (its tables), Spaces, Proposals, References,
--                  Bridges (its operations), Invariant (each table's well-formedness), Steps (the
--                  writing calls as a step relation), Lifecycle, Consent, Tombstones, Personal (what
--                  holds)
--   Regex, Secrets the patterns of `contains_probable_secret` and their search
--   MemoryConfig   memory_config.py: the validated configuration
--   Provider       the `MemoryProvider` protocol as an interface over a state of its own
--   Service        World (the state of a run), Candidates (`_safe_candidates`), Access (settings,
--                  spaces, scopes), Records, Import, Review, Capture, Sharing (bridges and games);
--                  Closed (what all methods keep), Guarantees, Outcomes, Skips, Approval (what holds)
-- A method of the service is a function of the world with a result that may be an error; the state
-- that it leaves is kept when it raises. Each `await` of the repository or provider is one step, and
-- a method runs without another in between. The clock stands still within a method, `uuid4` draws
-- the next number and never repeats one, and times are in microseconds. A dict is an association
-- list in insertion order. Sets of memberships are lists without repetition.
--
-- Identity.
--   Jwt            identity.py: the signed tokens; Acceptance (what an accepted token shows)
--   Identity       identity.py: principal keys and `authenticate_request`; Sources (what backs an
--                  identity). The codecs of the Python library and the clock are parameters.
--
-- The choice of a model.
--   Catalog        config.py: backends, models and experiences; References (the check of what they name)
--   Routing        routing.py: the automatic choice of an experience from the last user message;
--                  Prefix (the directive that is taken off it)
--   Profiles       profiles.py: the registry that resolves a request to a model and a backend; Best
--                  (the order of candidates), Resolution, Validated (what a resolved request is)
--   Coordinator    coordinator.py: the change of models on a llama.cpp router; the router, the
--                  network and the clock are a parameter with a state. Waiting, Ending, Switching,
--                  Readiness (what holds)
--   Transform      transform.py: defaults and reasoning controls of a request; Chat (the messages and
--                  instructions of a chat), Precedence, Messages, Sent (what is sent)
--   MemoryContext  memory.py: the retrieved records as a text; Bounds (its length)
--   Backends       backends.py: the registry of backends; Registry, Answers (what is found in it)
-- A call of the coordinator holds the transition lock, so it runs alone; a missing lock is an error.
-- Priorities are integers, and texts are ordered by code points.
--
-- Tasks that run at once.
--   CaptureQueue   memory_capture.py: the bounded queue of capture requests and its worker; Runs (the
--                  orders of the tasks as a step relation), Order (what the queue keeps), Store (what
--                  the worker's writing keeps)
--   GpuGate        gpu.py: the semaphores of the backends, and the two gauges of the process; Runs (the
--                  orders of the tasks at all gates, and the gauges)
-- Between two awaits of one task every other may run, so an operation with an await within is a pair
-- of steps. The worker of the queue is cancelled only between its own awaits.
--
-- The control plane.
--   Hub.Merge         `merge_mapping`; Lookup, Replaced, Documents (what a merged document holds)
--   Hub.Documents     `read_yaml`, `write_yaml` and the overlays; Overlays (reading after writing)
--   Hub.Memory        the memory configuration and its commands; Loading, Toggle, Apply
--   Hub.Validation    `validate_catalog` and its helpers; Facts, Sections (what a checked catalog is)
--   Hub.Paths, Hub.Artifacts   paths of `pathlib` and the artifacts of a model
--   Hub.Render        models.ini and the override of compose; Total, Declared (what is written)
--   Hub.Catalogs      `catalog load` and `catalog apply`; Relation, Revalidated, Apply
--   Hub.Registration  `model register` and `parse_key_values`
--   Hub.Environment   environment files and `env init`; Allocation, Initial, Lines, OtherKeys, RoundTrip
-- A file system is a list of paths with their contents, and the reading and writing of YAML are
-- parameters over contents. A document of YAML has texts for its keys; an anchor's sharing of one
-- mapping by two places is left out, but the catalog's own sharing of a model is not: the check of a
-- catalog changes models in place, which `checked_overlay` follows. A HubError is its text without the
-- names and values in it, and any other exception is a crash.
--
-- Tests holds runs on concrete data and each theorem at a concrete input.
--
-- Every loop is structural recursion on the list that it runs over, but for two. A wait for the
-- router polls until its deadline, on fuel of one more than the timeout, and a sleep takes at least one
-- tick of the clock, as a hypothesis. `allocate_port` tries as many ports as the range of the source
-- has, so its fuel is the bound of the source's loop. The search for a pattern bounds a repetition by
-- the length of the text that is left, which is enough since each round takes a character.
--
-- Not modelled: the extractor's prompt and the parsing of its answer; the
-- PostgreSQL repository and store, whose operations are SQL, and the HTTP provider; the loading of
-- the gateway's own configuration from YAML (config.py); the HTTP requests, URLs and health of the
-- backends; FastAPI and its routes, metrics and pages. Of the control plane: Kubernetes values, the
-- resolved catalog and its rendering for the runtime, the hermes profile, the doctor, the import,
-- fetch, check, removal and discovery of models, and the argument parser. The JSON views that routes
-- return are left out where they only copy fields.
pub mod Prelude
pub mod Host
pub mod Hub
pub mod Repository
pub mod Regex
pub mod Secrets
pub mod MemoryConfig
pub mod Provider
pub mod Service
pub mod CaptureQueue
pub mod Catalog
pub mod Routing
pub mod Profiles
pub mod Coordinator
pub mod GpuGate
pub mod Backends
pub mod Jwt
pub mod Identity
pub mod MemoryContext
pub mod Transform
mod Tests
