-- ===== src/Lib.antt =====
-- The development of qrl-tests: the harness that starts QRL development networks with Kurtosis, runs
-- the lanes of an end-to-end test suite on them, and reports what the lanes showed.
--
-- A run selects lanes (e2e/internal/lanes), plans them (e2e/runner/plan.go), gets a network for each
-- (devnet/manager.go and devnet/environment.go), runs Ginkgo on it (e2e/runner/lane.go), and turns
-- the reports into a verdict for each lane and for the run (internal/results), which it writes down
-- beside its provenance (internal/runmanifest) and returns as its error (e2e/runner/runner.go).
--
-- - Prelude: the shared names. Prelude/Tests has Boolean tests, Prelude/Lists lists, Prelude/Text
--   the calls of strings and strconv, Prelude/FilePaths those of path/filepath, Prelude/Int integers,
--   Prelude/Keys sets of texts, Prelude/Order the order of texts and a sort, and Prelude/Decimals
--   the round trip of decimal texts.
-- - Errors: the error values: errors.New, fmt.Errorf with %w, errors.Join and errors.Is.
-- - Ginkgo: the report types of github.com/onsi/ginkgo, as a parameter with their documented facts.
-- - Results: internal/results/results.go. Results/Types has its data, Results/Tally suiteSummary.tally,
--   Results/Classify classify and classifyReports, Results/Summarize the summaries; Results/Markdown
--   is internal/results/markdown.go; the other modules
--   are about counts (Counting, Totals), suites (Passing, Precedence), lanes (LaneVerdict) and runs
--   (RunVerdict).
-- - Devnet: devnet/images.go (Images), devnet/profiles.go (Profiles), devnet/parameters.go with
--   devnet/backend.go (Parameters), devnet/environment.go (Environment) with the Service of
--   devnet/internal/kurtosis/enclave.go (Services), the rest of that file (Starlark),
--   devnet/manager.go (Manager, and Network for NewManager), devnet/probe.go (Probe),
--   devnet/service_image.go with devnet/pause.go (ServiceImage),
--   devnet/internal/kurtosis/diagnostics.go (Inspection for the metadata, ServiceLogs for the
--   logs) and devnet/diagnostics.go (LogOutput for the file of one service, Diagnostics for the
--   rest). Assignment, Participants, Labels, Lifecycle, Started, Endings, Composed, Advance,
--   Completion, Identities, Missing, Outputs, Finalized and Captured are about them.
-- - JsonFile, ContainerFiles and DockerApi: internal/jsonfile, internal/containerfiles (with
--   RoundTrip about it) and internal/dockerapi.
-- - CommandLine: the actions of cmd/qrltest.
-- - Lanes: e2e/internal/lanes/lanes.go (Registry); Selection and Packages are about it.
-- - RunManifest: internal/runmanifest/manifest.go (Types); Outcomes is about Finish.
-- - Runner: e2e/runner/plan.go (Plan), e2e/runner/lane.go (Lane), e2e/runner/runner.go (Run, and
--   Parallel for the goroutines of runLanes); Planned, Release, Passed, Names, RunEnd, Schedules and
--   Progress are about them.
-- - Staking: e2e/internal/staking/staking.go; Visits is about its scanner.
-- - SyncCheck: e2e/internal/synccheck/synccheck.go; Sampling is about its sampled range.
-- - Beacon: e2e/internal/beacon/types.go with the epochs of e2e/internal/chaininfo/info.go (Types),
--   and e2e/internal/rewards (Rewards, Blocks for the balance changes of blocks, with their types,
--   Votes for what votes earn or cost, TimelyVotes for which were timely); Bitlist, Scanning, Roots,
--   Balances, SquareRoot, VoteReading, Duties and Inclusion are about them.
--
-- What the surroundings answer is a record of functions: Surroundings for a lane, RunWorld for a run,
-- Engine for the Kurtosis engine. Calls that leave a trace outside the process are logged in order.
-- A map that is walked is an association list in the order of the walk, and the theorems hold for
-- every order. An index is a natural number where the code refuses less than 1. The counts do not
-- wrap: a report would need 2 ^ 63 specs. decimal writes 20 digits, enough for 64 bits; spares_from
-- has as many rounds as there are preregistered validators, which is enough since it counts up to
-- that number. retry_until has one round for each tick that comes before its context ends.
-- scan has one round for each epoch up to the head's, which is where the rewards end; its sums of
-- epochs are of 64 bits. sampled_range has 51 rounds, which are enough: a step is at least a
-- 50th of the range. A chain has at least one slot in an epoch. read_votes has one round for each
-- delay of the window, and root_bits one for each of the 32 bits of a root. The constants may be 0:
-- where a division by one would panic, the model has none. The slots of BlockBalanceChanges and of
-- the staking scanner wrap, so that a loop up to the last slot of 64 bits never ends: sum_changes has
-- one round for each slot of an epoch and one for its end, scan_slots two more than the head, and
-- both tell where they have not ended by then, which the theorems about them exclude.
--
-- A pointer into a map, as the code has for the log files of services, is an entry of an association
-- list that an operation puts back. What two log outputs of one path leave in their file is not
-- modelled: a log output has the text that its own writer has taken.
--
-- Not modelled: the encoding of JSON and YAML, the SDKs of Kurtosis and Docker, the process's start,
-- output and signals, the declarations of flags, and the suites themselves, which talk to a live network.

pub mod Beacon
pub mod CommandLine
pub mod ContainerFiles
pub mod Devnet
pub mod DockerApi
pub mod Errors
pub mod Ginkgo
pub mod JsonFile
pub mod Lanes
pub mod Prelude
pub mod Results
pub mod RunManifest
pub mod Runner
pub mod Staking
pub mod SyncCheck
