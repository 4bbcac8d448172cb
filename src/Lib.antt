-- ===== src/Lib.antt =====
-- kube-greencosts: a Kubernetes operator that hibernates workloads outside their hours of use and
-- starts jobs when energy is cheap. This library models its controllers.
--
-- The parts, and how they interact. A HibernatePolicy acts on the workloads of its namespace, a
-- ClusterHibernatePolicy on those that an annotation of theirs, or of their namespace, assigns to it.
-- Both ask the availability windows whether to wake or to hibernate, record on each workload who
-- hibernated it and what it was before, and suspend or restore the autoscaler of a workload that is
-- scaled. Each reports the hibernated workloads in its status and asks to run again at the next
-- boundary of a window. An EnergyPriceSource asks a provider for prices and keeps them in its status. An
-- EnergyAwareCronJob reads them there: at each occurrence of its schedule it chooses the price point at
-- which to start its job, stores that time, and starts the job when the time has come. A webhook admits
-- windows and energy-aware jobs, and a collector of metrics reads the price sources.
--
-- The files, by the source that they model:
-- - Prelude: names passed on from the libraries; Boolean tests, lists, integers with Go's int32 wrap,
--   and string maps.
-- - Strconv: Itoa and Atoi of Go's strconv, by digits. Itoa of n divides by ten in at most n + 1
--   rounds, which is enough since a number that is not zero gets smaller.
-- - Api: workloads, autoscalers and namespaces, with the fields that the controllers use
--   (api/v1alpha1/hibernatepolicy_types.go, clusterhibernatepolicy_types.go).
-- - Cluster: the Kubernetes API, SHA-256 and JSON as a record of actions on a state of the world.
--   Cluster/Laws: what the code relies on of that API, as a store of objects under kind, namespace and
--   name, with no other writer during a call. Cluster/Reads: actions that only read.
-- - Marker: the annotations and the replica arithmetic (internal/controller/helpers.go,
--   hibernatepolicy_controller.go: computeTargetReplicas, markHibernated, clearHibernated, ownedBy,
--   parseOriginalReplicas).
-- - Hpa: autoscalers (helpers.go: suspendHPA, restoreHPA, findHPA, findSuspendedHPA, shortHash).
-- - Patch: what is written onto a workload. Hibernate and Wake: the functions of these names for the four
--   kinds (hibernatepolicy_controller.go). Hibernate/Spec says what they make of a workload;
--   Hibernate/Effect, Object, Run, Pass and Kinds lead from one step to a whole pass; Hibernate/Cycle,
--   Safety, Settle and Promise hold what follows.
-- - Window: availability windows (isInAvailabilityWindow, nextAvailabilityWindowStart, parseHHMM).
--   Window/First says what the first start of a window is.
-- - PolicyApi, Policy: the reconciliation of a HibernatePolicy (HibernatePolicyReconciler.Reconcile).
-- - ClusterPolicy: which workloads a ClusterHibernatePolicy governs, what it does to each, and its
--   reconciliation (internal/controller/clusterhibernatepolicy_controller.go).
-- - Price: the choice of a price point (internal/controller/energyawarecronjob_controller.go:
--   filterPricesInWindow, selectPricePoint, pricePointScore).
-- - Schedule: the next occurrence of a cron schedule (the same file: nextScheduleTime). Its loop takes
--   at most 100 turns in the source too.
-- - EnergyJob: the controller of EnergyAwareCronJobs (the same file). Naming: the names of jobs and the
--   owner label (helpers.go: shortLabelValue, shortObjectName; energyAwareCronJobName). Types: the
--   objects, the libraries and the API as records. Run: actions that may panic. Sync: syncActiveJobs,
--   jobFinished, jobStartTime. Dispatch: buildJob, dispatchJob, failWith. Optimal and Reconcile: the
--   eleven steps of EnergyAwareCronJobReconciler.Reconcile. Watch: energyPriceSourceToEACJs. Laws: what
--   the code relies on of the API, with no other writer during a reconciliation. Rules: the steps as
--   rules, of which a property that each part keeps is kept by the whole; Forbid, Timely, Due and
--   Unsatisfiable hold what follows.
-- - Provider: the price providers and their registry (internal/providers). Custom, Entsoe, Enever and
--   EnergyZero: the requests, the checks of the answers, and the price points made of them. Registry:
--   the factories and the registry as cmd/main.go fills it. Order: in which order the points come.
--   Http: the limit on a body, and the attributes of a request's span
--   (internal/providers/http_client.go).
-- - PriceSource: the controller of EnergyPriceSources (energypricesource_controller.go: Reconcile,
--   resolveToken, readSecretKey, setErrorCondition). Metrics: the collector
--   (energypricesource_metrics.go: Collect, currentPricePoint). Laws, Tokens, Sound and Stored: what a
--   reconciliation does to the stored prices.
-- - Webhook: the admission of availability windows (internal/webhook/hibernatepolicy_webhook.go).
-- - JobWebhook: the admission of energy-aware jobs (energyawarecronjob_webhook.go). The loop of
--   minimumCronInterval takes 999 turns, as in the source.
-- - Examples: the theorems at concrete inputs. Shop is a cluster of two Deployments, Bakery the store of
--   an EnergyAwareCronJob and its jobs, and Desk that of a price source and its provider.
--
-- Conventions. A Go call that returns an error is an action from a world to a result and a world, so
-- what was written before an error stays written. The text of errors is left out; what the code tells
-- apart is kept. A string map is a function from keys; a nil map reads as an empty one, but for the
-- node selector, whose JSON tells them apart. Instants are natural numbers of nanoseconds from Go's
-- zero time, durations integers of nanoseconds; the status of an object in the API keeps whole seconds.
-- The times of jobs and prices are taken to stay clear of the ends of Go's range, but for the deadline
-- of a schedule, whose wrap is kept, and differences of times, which saturate. Replica counts are
-- integers, and int32(v) keeps its wrap. The length of a text counts its bytes. A panic is a result of
-- its own; the actions before it stay done.
--
-- Parameters: the Kubernetes API, SHA-256, JSON and XML, HTTP, Go's time zones and calendar, the clock,
-- cron schedules, the parsing and formatting of times and numbers, sort.Slice, the capacity that append
-- gives a slice, and floating-point numbers with their order.
--
-- Not modelled: telemetry but for the attributes of a request, the client of runtime metrics, which
-- nothing uses (internal/metrics), the set-up of the manager, the watches of the controllers, logging,
-- and generated code. A job's specification is only copied, and stands as a text. The texts of provider
-- errors are left out, and the message of a price source's condition is a parameter.
pub mod Prelude
pub mod Strconv
pub mod Api
pub mod Cluster
pub mod Marker
pub mod Hpa
pub mod Patch
pub mod Window
pub mod Hibernate
pub mod Wake
pub mod ClusterPolicy
pub mod PolicyApi
pub mod Policy
pub mod Price
pub mod Schedule
pub mod EnergyJob
pub mod Provider
pub mod PriceSource
pub mod Webhook
pub mod JobWebhook
mod Examples
