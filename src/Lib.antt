-- ===== src/Lib.antt =====
-- waveControl: models of the parts of the daemon that decide something by themselves, and what
-- holds of them. waveControl polls radios over HTTP, keeps their live state in memory and their
-- inventory in PostgreSQL, and serves both to a browser. A poll of `internal/poller` asks the
-- circuit breakers whether a device is to be left alone, checks that the device that answered is
-- the one that was asked, and writes the result into the store of `internal/stats`, from which the
-- HTTP handlers, the alerts and the reports read. `internal/udebug` captures what is exchanged
-- with a device while somebody looks for a fault.
--
-- The modules:
--   Prelude   Names of the libraries, tests on the native numbers, lists, Go strings as lists of
--             bytes with what is used of `strings` and `net.SplitHostPort`, and int64.
--   GoMap     Go's maps as association lists behind the laws of lookup; GoMap.Unique has loops
--             that delete entries.
--   Udebug    internal/udebug/manager.go. Udebug.Buffer is `buffer`, with `append`, `snapshot`,
--             `clear` and `info`; Udebug.Host is `normalizeHost`; Udebug.Manager is `Manager`,
--             with a function for each method, and Udebug.Manager.Calls the sequences of calls.
--   Poller    internal/poller/poller_core.go: Poller.Circuit is `circuitBreaker` with
--             `shouldSkip`, `recordSuccess`, `recordFailure`, `getDeviceStatus` and
--             `cleanCircuitBreakers`, Poller.Peers is `acceptPeerSnapshot`.
--             internal/poller/canonical_mac.go: Poller.CanonicalMac is `canonicalizeDeviceMAC`
--             and `canonicalizeDeviceMACPreferred`.
--   Stats     internal/stats/store.go: Stats.Index is what the methods do to `byMAC` and `byIP`,
--             Stats.Device is `DeviceStats` and the comparison of interfaces, Stats.Store is
--             `Store` with `Update`, `SetIPForMAC`, `BindIdentityByMAC`, `SetStatusByMACChanged`,
--             `Get`, `GetByMAC`, `GetIPByMAC`, `Remove` and `RemoveByMAC`, Stats.Throughput is
--             `RecordThroughputSample` and `GetThroughputHistory` with their ring,
--             Stats.Stability is `TrackStabilityStatus` and `TrackStability`, Stats.Counts is
--             `Counts` and `CountsByStatus`, Stats.Listing is `OfflineDevices`, `UnknownDevices`
--             and the shorter forms of `SetStatusByMACChanged`, Stats.Signal is
--             `SignalQuality5GHz` and `SignalQuality60GHz`.
--   BulkOps   internal/bulkops/controller.go: BulkOps.Match is `isRetryable` with `contains`,
--             `containsLower` and `matchesLower`, BulkOps.Retry is `executeWithRetry`.
--   Alerting  internal/alerting/manager.go, validation.go and notifications.go. Alerting.Rule is `Rule`
--             with `normalizeRule` and `uniqueChannels`, Alerting.Validate is `ValidateRule` with
--             `validateWebhookURL`, Alerting.Webhook is `unsafeWebhookIP`, Alerting.Table is
--             `CreateRule` with its `Reload`, `GetRule` and `loadRules` with the table
--             `alert_rules`; what a reload puts in memory is left out. Alerting.Metrics
--             is `getMetricValue` with `maxRadioInterference`, `maxRadioChainImbalance` and
--             `gpsSyncMetric`; Alerting.Conditions is `ruleApplies`, `scopeMatches`, `roleMatches`,
--             `evaluateCondition` and `determineSeverity`. Alerting.Outbox is `claimNotification` and
--             `markNotificationSent`, Alerting.Lifecycle is `notificationFailurePolicy`,
--             `markNotificationFailed`, `recoverStaleNotificationClaims`, `AcknowledgeAlert`,
--             `resolveAlertTx` and the insertion of an alert; Alerting.States is `handleTriggered`
--             and `handleResolved` with `states`, `lastNotified` and the table `alert_states`;
--             Alerting.Clearing is `ResolveAlert`, `ResolveDeviceAlerts`, `resetRuleStateTx`,
--             `clearRuleStateMemory` and `ClearDeviceState`, and Alerting.Evaluate is `Evaluate`.
--   Firmware  internal/firmware/service.go: Firmware.Version is `compareVersions` with `splitVersion`
--             and `isPrerelease`, and `platformOrder`.
--   Netutil   internal/netutil/resolve_scheme.go and scheme.go: `ResolveScheme`, `ClearSchemeCache`,
--             `ProbeScheme` and `dialTCP`.
--
-- State is passed explicitly. The methods of the store, of the poller's maps and of a capture buffer
-- hold a mutex while they access their state, so a method is one step, and an interleaving of
-- goroutines is a list of steps. `shouldSkip` and `Record` release the lock of their map before they
-- use the entry that they have found, and are one step all the same. `ResolveScheme` has no lock: it
-- is one step up to its probe and one behind it, and calls may overlap in between. The alerts are
-- described below.
-- The current time is an argument. A Go pointer in a map is the value that it points to, since each
-- change goes through the map. `DeviceStats` keeps the fields that the modelled methods read or
-- write; the other ones are one opaque value. Texts are bytes and letters are those of ASCII:
-- `ToLower` and `TrimSpace` agree with Go's on such texts, which addresses and host names are.
--
-- A table of PostgreSQL is the list or the map of its rows with the columns that the modelled code
-- reads or writes, and an SQL statement is the function that its text describes. A transaction is
-- one step: whether one of its statements fails is an input, and the tables are then as before. The
-- ids of new rows come from outside, and `NOW()` is the time that the step is given. Numbers of type
-- float64 are an abstract type with their comparisons.
--
-- Integers: the backoff of a circuit breaker is computed in 64 bits with the wrap-around of Go's
-- shift and product. Counters and sizes that grow by one at a poll or are lengths stay unbounded.
-- No definition uses fuel: every loop of the modelled code runs over a list, but for the search in
-- a text, the attempts of an operation and the reading of the ring, which count down from a bound
-- of the source.
--
-- What is an argument: the operation that is repeated with the times at which its attempts end and
-- the moments at which its job is cancelled, the JSON encoding of a captured entry, whose redaction
-- is not modelled, the decimal form of a number, `sort.SliceStable`, the parsers `url.Parse`,
-- `net.ParseIP` and `mail.ParseAddress`, the operations on float64, and whether a TCP connection is
-- made. No theorem has a hypothesis on these.
--
-- Not modelled: HTTP, sockets and files, the SQL of the other components, the parsers of vendor
-- JSON, the calls of the crypto libraries and the browser's code; of the store, `UpdatePeers`,
-- `CleanStale` and the other listings; of the bulk operations the job runners with their semaphores;
-- of the alerts the rows of `UpdateRule` and `DeleteRule`, the settings, the listings and the
-- senders, and calls that overlap: the manager releases its mutex while a statement runs, and the
-- model runs `handleTriggered` and its like as a whole; of the firmware all but the order of
-- versions; the jobs and the scheduler.
pub mod Prelude
pub mod GoMap
pub mod Udebug
pub mod Poller
pub mod Stats
pub mod BulkOps
pub mod Alerting
pub mod Firmware
pub mod Netutil
