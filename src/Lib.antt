-- ===== src/Lib.antt =====
-- ship-grip-fim is a file integrity monitor: it hashes every file under a path, saves the hashes as a
-- report, and compares two reports. The same program is the command line tool, an agent that does
-- this for remote clients and on a schedule, and a web server in front of agents.
--
-- Parts and files. A text is the list of its code points (Base/Texts), a Go map an association list
-- (Base/Maps), a file its contents or a failure (Base/Files); what the operating system decides, such
-- as a write that fails, is an argument.
--   Auth        auth.go. Roles: roleAllows, commandRole. Users: the methods of userDB. File: loadUsers
--               and save. Command: userCommand, userCommandAs, authenticate, ensureDefaultUser.
--               bcrypt is the parameter Bcrypt, with its documented property.
--   Compare     logic.go, buildCompareReport: classify is its two loops, pair_moves the pairing.
--   Scan        logic.go: walkFiles on a directory tree, sumFile with MD5 as a parameter, and
--               parallelFileCheck (Pool): the workers move in any order, which is a list of turns.
--   Report      data.go, data_file.go and the compares of logic.go. Store: ids, headers, saving and
--               listing. Load: loadReportFile, compareReportsDataFile. Render: the lines of a compare
--               report and their counts (agent_metrics.go). Compare: compareReports and its variants.
--   KnownAgents tlsutil.go and pinKnownAgent of deploy.go: the file of pinned fingerprints, and the
--               verification callback of dialAgent as verify_peer.
--   Scheduler   scheduler.go. Jobs: jobs, cron engine and schedule file; robfig/cron is the parameter
--               Cron, with laws that say what AddFunc and Remove do. History: runs of jobs.
--               Tables: the printed tables.
--   Sessions    web_session.go: the session store, requireRole, login and logout.
--   QuickCompare quickcompare.go and the report names of agent_metrics.go.
--   Metrics     agent_metrics.go: the state that a starting agent reads from its reports (Seed), and the
--               text of the "metrics" command.
--   Exporter    exporter.go: that text read back, and the samples of a scrape. float64 and the formats
--               of times are parameters with laws (Floats, Times), the order of a loop over the
--               map of jobs is an argument (Range).
--   Agent       agent_server.go. Command: handleConnection, one line at a time. Schedule:
--               handleScheduleCmd. Steps: the goroutines, callScan of integrity.go, and runs of the
--               agent as lists of events, one for each line, timer and end of a goroutine.
--               Start: startAgentServerWithStop up to its first connection.
--   AgentClient agent_client.go: the exchange of a client with an agent.
--   Hosts       hosts.go: the hosts file and a command on every host. Tables: the printed tables, and the
--               start of agents over ssh, which is a parameter.
--   WebRemote   web_gui.go: webRemote, the handler of /api/remote.
--   Web         web_gui.go. Handlers: the other handlers, on one state (WebState). Routes: the paths of
--               startWebGUI, the role of each, and a request behind the guard (serve). Process: requests
--               and ends of goroutines as events. What a handler does on other hosts is logged in
--               the state: the calls of ssh that start agents, and the hosts synchronised.
--   Deploy      deploy.go: deployToHost as the list of its remote commands, deployHosts, and the
--               background job (Jobs).
--   Sync        sync.go: copies of the reports of a host, and of every host.
--   Config      integrity.go: the settings of main, expandHome, loadConfigsOther.
--   Cli         integrity.go: the commands of main, and the arguments of "deploy" in deploy.go.
--   Certs       tlsutil.go: the files of the certificate and its key, after starts that succeed (Kept) and
--               that fail (Failed).
--   Gui         gui.go: a listing of reports read by the desktop GUI.
--   Tests       concrete inputs for the theorems, with a toy bcrypt and a toy cron engine.
--
-- How they interact. A line of a client (Agent.Command) is checked against the role table
-- (Auth.Roles) and run on the users (Auth.Command), the reports (Report, QuickCompare) or the schedule
-- (Scheduler.Jobs). Scans and compares run in goroutines; clients and scheduled jobs (Scheduler.History)
-- share the flags that keep them apart. Sync reads what AgentClient returns.
-- A scan stores what the pool of workers leaves (Scan.Pool); Exporter reads what Metrics writes.
--
-- The handlers of Web call the same operations as the agent, and its guard is that of Sessions.
--
-- Bounds. Loops run over a list or a text, except the digits of a number (Base/Decimal), which take
-- one more step than the number, enough by read-decimal. A scanner stops at a line
-- that does not fit its buffer (max_scan_token, long_line); the theorems about files say which lines
-- fit. Times are seconds. A worker count is cut at 2^63 - 1, as strconv.Atoi does.
--
-- Not modelled: TLS, keys and sockets; locks, since each step of the agent is what one holder of the
-- lock does; files that change during a scan; the registration of metrics with the Prometheus library;
-- the page of the web GUI and JSON; the widgets of the desktop GUI and its reading of tables; the
-- quoting of remote commands; and the commented-out MongoDB storage.
pub mod Agent
pub mod AgentClient
pub mod Auth
pub mod Base
pub mod Certs
pub mod Cli
pub mod Compare
pub mod Config
pub mod Deploy
pub mod Exporter
pub mod Gui
pub mod Hosts
pub mod KnownAgents
pub mod Metrics
pub mod QuickCompare
pub mod Report
pub mod Scan
pub mod Scheduler
pub mod Sessions
pub mod Sync
pub mod Tests
pub mod Web
pub mod WebRemote
