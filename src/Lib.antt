-- ===== src/Lib.antt =====
-- teenDNS: a family DNS gateway. A query that arrives at a profile's endpoint is answered by the
-- profile's policy; parents edit the policy, and devices and browsers are bound to a profile or a
-- household by one-time tokens.
--
-- The parts and the files that model them:
-- Base: helpers without a counterpart in the program: Boolean tests on native numbers, results with
--   an error, Go maps as association lists, and strings as lists of code points (`byte_length` is
--   Go's `len`, the other operations are those of the package strings).
-- Platform: what the program takes from its machine: Unicode case beyond ASCII and time zones.
--   Platform.Plain has lemmas on texts that lowering and trimming leave alone. An instant is a number
--   of nanoseconds.
-- Policy (internal/policy/policy.go, schedule.go): the data, `normalizeName` (Names), windows of
--   time (Schedule), `DecideAt` (Decide), and `NewStore`, its lookups and `Manager.Replace` (Store).
--   A loop over a slice is a recursion on a list, its local maps are arguments, and the nested loops
--   of NewStore and DecideAt are one function each. The map `occupied` of occupyWindow is a function
--   from minutes. A version is a number without a bound, where the code has an int64.
-- Pairing (internal/pairing/manager.go): `Create`, `Observe`, `Status`, `Outcome`, `Profile` and
--   `cleanup` on an explicit state; Pairing.Histories runs any sequence of calls.
-- Magiclink (internal/magiclink/manager.go): `IssueLink`, `Redeem`, `HouseID` and `cleanup`.
-- Gateway (internal/gateway): Events is the EventBuffer of events.go; Resolve is `resolve` of server.go
--   with `blockedAlias`, `blockedResponse`, `capTTL` and the loop of `handleConnection`. What resolve
--   changes is a record: the pairings, the events written and the requests sent upstream. Doh is
--   `handleDoH` with `dohRequestMessage`.
-- Digest (internal/digest): the store of store.go with its file, Report is `Digest` with its sorting,
--   Scheduler is `checkAndSend` of scheduler.go, Letter is template.go.
-- Config (internal/config/config.go): the stored data, `ApplyHouseTimeZones` and `loadDomains`; Load
--   is `Load` over a decoded document, and Reload the reload of cmd/teendns/main.go on a signal.
-- Admin (internal/admin/server.go): `update`, through which every change of the configuration goes;
--   Houses models `registerHouse`, invitations and `deleteHouse`, Access `authorize` and the scopes,
--   Groups `mergeGroups` and the mutation of a package, Emails the addresses of a house, Links
--   `requestMagicLink`, Profiles the mutations of one profile, Resource `profileResource` and
--   `profilesCollection` with `updateProfilePackage` and `rotateEndpoint`, Youth what a paired device
--   is served, Console the requests of the operator and of logging in, Letters `publicLink` and the
--   letters, Devices `serveSetupFile` and the address for DNS over HTTPS, Packages `presetGroups` and `availablePackageGroups`, and Server `Handler` with the state
--   that the handlers share; a request is a constructor of Call there, and a history is a list of
--   whole requests with what each reads from outside. NewStore normalizes domains in the slices of its argument; `settle` is what they hold afterwards.
--
-- Classifier (classifier): Catalog is `LoadCatalog` and `Questions`, Engine the reading of an engine's
--   answer in `Evaluate`, Rating is `ClassifyURL`, Extract is `extractDocument` over the tree of nodes
--   that html.Parse returns, Fetch is `Extract` with `validateURL` and the checks of `safeHTTPClient`,
-- --   Http is `Handler` of http.go.
--   Scores are numbers of equal steps, since they are only compared.
-- Setup (internal/setup): `normalized`, `render` and the two scripts for Windows; Apple is apple.go and
--   `ResolverIP`. The texts of the templates are arguments.
-- Mail (internal/mail/mail.go): `Send`.
-- Fixture (internal/fixture/server.go): `ServeDNS` and `count`.
--
-- The mutexes make each operation of a manager one step, so an interleaving is a list of calls. A
-- random token and a reading of the clock are arguments: `none` is a failure of rand.Read, `now` is
-- the time that cleanup reads and `later` the time that the rest of the operation reads. No
-- definition needs fuel but `itoa`, which gets more steps than its number has digits: every loop runs
-- over a list, a tree or a number of minutes.
--
-- DNS messages are those of the package miekg/dns, outside the repository: a message has the fields
-- that the code reads or writes, and SetRcode and Exchange are parameters. Whether a letter can be
-- sent and a file written are parameters, too.
--
-- Not modelled: JSON, TLS, sockets and the file system beyond that, the matching of a path to its route,
-- the text of error messages and of the scripts for setting a device up, the commands beyond the
-- reload, and elsewhere that a profile that the store returns shares its slices with the store.
pub mod Base
pub mod Platform
pub mod Policy
pub mod Pairing
pub mod Magiclink
pub mod Gateway
pub mod Digest
pub mod Config
pub mod Admin
pub mod Classifier
pub mod Setup
pub mod Mail
pub mod Fixture
