-- ===== src/Lib.antt =====
-- The management server of arx-mdm: devices report telemetry and take commands over a WebSocket,
-- operators assign configuration profiles and work through a dashboard.
--
-- Prelude      Go strings as lists of bytes, lists and Boolean tests over native numbers, stable
--              sorting by a string key, results with an error.
-- Policy       internal/mdm/policy. MergeAssignedPayloads flattens the assigned profiles into
--              contributions per path (Flatten), decides each path (Scalars, Contributions, Decide),
--              and builds the effective payload and the conflicts (Unflatten, Merge). The record
--              Encoding of Json stands for encoding/json and float64, which are not of this
--              repository.
-- Assignments  internal/api/principal_groups.go, configuration_profiles.go and device_effective_policy.go,
--              internal/database/mdm_configuration.go and mdm_assignment_state.go. Tables holds the rows
--              with the keys and cascades of migration 000016, Groups and Profiles the handlers, Effective
--              the joins, the merge of Policy and the states that it leaves; Calls.run is a history of
--              calls. View is the abstract side: sets of members and a map of assignments.
-- Commands     internal/models/device_command.go, internal/database/device_commands.go and the
--              handlers of internal/ws that move a command on. Store holds the tables, Rows the
--              database operations, Wire the agent's report (ApplyDeviceCommandOutcome) and the
--              delivery on reconnect (FlushPendingDeviceCommands); Wire.step is one call and
--              Wire.run a history of calls in any order.
-- Access       internal/auth/users.go, dashboard_rbac.go and dashboard_http.go, and the guard
--              RequireMinRole of internal/api/dashboard_auth.go. Gate.serve is a route behind both.
-- Compliance   internal/mdm/compliance and internal/database/device_compliance.go. Engine evaluates
--              telemetry with the merged policy of Policy and puts its quarantine command in the
--              tables of Commands.
-- Alerting     internal/alerting/engine.go and the table of internal/database/alerting.go. Engine
--              evaluates the rules, Table opens, refreshes and closes alerts.
-- Accounts     internal/auth/users.go, internal/api/users_admin.go and the login of
--              internal/api/auth_handlers.go. Table holds the rows of `users` and their queries,
--              Handlers the calls; Handlers.step is one call and Handlers.run a history of calls one
--              after another. Race lets two deletions both check before either deletes.
-- Enrollment   internal/auth/enrollment_*.go, tokenhash.go, the issue of certificates in
--              internal/pki/ca.go and POST /v1/enroll of internal/api/enroll.go. Csr reads the request,
--              Certificate builds and signs the leaf, Tokens claims and releases a one-time token,
--              Service is ProcessEnroll; Interleaving splits it at its database statements, for
--              requests at the same time. Moment says whether the request's context is done, at which
--              signing and release both fail. The loop over PEM blocks has one round of fuel per byte
--              of its input and one more.
-- Incidents    internal/database/incidents.go, internal/itsm/alert_bridge.go and the change of an
--              incident in internal/api/incidents.go. Automation opens, refreshes and resolves the
--              incident of an alert, Patch is handlePatch; Invariant.run is a history of calls.
-- Transfer     internal/ws/agent_fs.go, internal/ws/fs_bridge.go and internal/api/files.go. Download has
--              the device's loop and the queue of a waiter, with arrivals and reads in any order;
--              Upload is the device's side of an upload and Push the server's. Reads of a file or
--              body are given as a list, as an io.Reader may return them.
-- Hub          internal/ws/hub.go. Sessions are the steps of the agents' sessions and of a dispatch, in
--              any order.
-- Scheduler    internal/scheduler/cron.go. Dispatch is one run of an automation, Settled what it
--              leaves behind.
-- Packages     internal/api/packages.go, internal/ws/package_outcome.go, pkg/packagemanager/runner.go and
--              the package command of internal/ws/agent_handlers.go. Catalog and Deployments are the
--              handlers over the tables of Scheduler, Runner the command line that the agent builds;
--              Calls.run is a history of calls and reports.
--
-- Modelled so: a table is a list of rows and an id a number, 0 for uuid.Nil; a statement of the
-- database succeeds unless the model says otherwise; the clock is a number that only grows; a
-- dispatch through the hub is a parameter that says whether the session took the message. Upper
-- and lower case and white space are those of ASCII. sort.Slice is a stable sort, which is one of
-- the orders that Go may give. Loops are recursions on lists, but for the one of Enrollment.Csr.
--
-- Not modelled: the other HTTP handlers and their JSON, the WebSocket pumps, the rest of the agent,
-- the making of the authority's own keys, backups, notifications, and the clients in other
-- languages, which are input and output or calls of libraries.
pub mod Prelude
pub mod Policy
pub mod Assignments
pub mod Commands
pub mod Access
pub mod Accounts
pub mod Enrollment
pub mod Compliance
pub mod Alerting
pub mod Incidents
pub mod Scheduler
pub mod Packages
pub mod Hub
pub mod Transfer
