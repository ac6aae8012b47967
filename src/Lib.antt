-- ===== src/Lib.antt =====
-- A model of the web interface of otel-hive, a control plane for OpenTelemetry collectors (ui/src).
--
-- The interface is a single page. Its request layer (ui/src/api/base.ts) sends every call to the
-- server with the stored access token, asks the session (ui/src/hooks/useAuth.tsx) for new tokens
-- on a 401 and settles the call. The editor of collector configurations parses the YAML text and
-- validates it (ui/src/lib/validation), draws its graph and shows badges; the pages list agents,
-- configurations, sources and keys and send what their forms hold.
--
--   Validation: ui/src/lib/validation. Types is types.ts; Position is yaml-position.ts
--     with its regular expressions in Patterns
--     (findYamlPosition is find_yaml_position, its line loop find_from, the work on one line scan,
--     the answer at the target locate; createValidationError is create_validation_error);
--     Pipeline, Extensions and EmptyPipeline are the three files of validators/; Run is index.ts.
--     A call that may throw returns in Throws. A text is the list of its UTF-16 code units.
--   Api: the part of simpleRequest in ui/src/api/base.ts that settles an answer.
--   Auth: ui/src/hooks/useAuth.tsx and the 401 path of simpleRequest, as a machine: Client is the
--     storage, the state of the provider, the shared refresh promise and the requests under way;
--     step takes one event of the browser. Auth.Init is the effect that runs on mount.
--   Flow: ui/src/components/collector-pipeline/PipelineGenerator.tsx, the graph that is drawn of a
--     configuration (generatePipelineNodes is generate_pipeline_nodes, the body of its loop
--     section_node, component_nodes and pipeline_edges).
--     Flow.View is CollectorPipelineView.tsx, which holds it and draws it.
--   Editing: ui/src/hooks/useYamlParser.ts (Parser) and useYamlValidation.ts (Checker), which follow
--     the text of the editor after a pause.
--   Panel: ui/src/components/configs/ConfigEditorSideBySide.tsx, which runs both hooks on one text:
--     panel_step takes a change or the end of a pause; header_badges and status_badges are the badges
--     above the editor and above the graph, provide_hover the hovers.
--   Components: parseYamlComponents of ui/src/utils/yaml-parser.ts.
--   Decorations: ui/src/components/configs/ConfigYamlEditorWithMetrics.tsx, the sums of metrics that
--     are written behind the lines that Components finds.
--   Grouping: the loops that fill a Map from strings to arrays, in the order of its keys.
--   Metrics: ui/src/components/agent-details/AgentMetrics.tsx: groupedMetrics is grouped_metrics,
--     healthMetrics is health_metrics (Overview), ComponentMetricCard is Card.
--   Charts: ui/src/components/lawrence-ql/QueryResultsChart.tsx.
--   Agents: the list and the rows of ui/src/pages/Agents.tsx and the counts of
--     ui/src/components/topology/DisplaySidebar.tsx.
--   Pages: ui/src/pages/Configs.tsx, GitSources.tsx, ApiKeys.tsx, Groups.tsx and Topology.tsx, each as a machine whose events
--     are what the user does and what the server answers, in any order; sent holds the requests.
--     Pages.Configs.Title is the title in its header (ui/src/components/configs/EditableConfigTitle.tsx)
--     and Pages.Configs.Listed a row of its list (ConfigsList.tsx, and ui/src/components/shared/
--     TruncatedId.tsx). Pages.Topology.Sidebar is ui/src/components/topology/DisplaySidebar.tsx.
--     Pages.Signin is what the forms of Login.tsx and Setup.tsx send; Pages.Audit is
--     AuditLog.tsx and the text that ui/src/components/agent-details/AgentConfigPipeline.tsx sends.
--   Clients: the calls of ui/src/api (agents.ts, configs.ts, groups.ts, topology.ts, auth.ts, gitsync.ts
--     and auditlog.ts), each with the request that it hands to simpleRequest, and the helpers apiGet to
--     apiPatch of base.ts; Clients.Address is ui/src/config.ts.
--   Topology: ui/src/components/topology/useTopologyLayout.ts.
--   Navigation: the frame around the pages, ui/src/layout.tsx with getCookie of ui/src/lib/utils.ts;
--     Navigation.Menu is layout/sidebar.tsx, whose logout is an event of Auth, and Navigation.Theme is
--     layout/mode-toggle.tsx with ui/src/components/ThemeProvider.tsx.
--   Details: ui/src/components/AgentDetailsDrawer.tsx and GroupDetailsDrawer.tsx, as one machine with
--     the guard of the button, the message and its default as parameters; Details.Overview is what they
--     list (AgentOverview.tsx, GroupOverview.tsx and GroupAgents.tsx).
--   Format: ui/src/utils/index.ts.
--   Results: ui/src/components/lawrence-ql/QueryResults.tsx; row_view is what the table has for a result.
--   Telemetry: ui/src/components/shared/TelemetryLogsView.tsx and TelemetryMetricsView.tsx.
--   Routes: the guards of ui/src/App.tsx and shouldRetryOnError of ui/src/lib/swr-config.ts.
--   Query: ui/src/hooks/useLawrenceQL.ts; Query.Saved is useSavedQueries.
--
-- Loops are structural recursion on lists, so no fuel is needed but for the printing of numbers
-- (Text.decimal), where n + 1 is more than the digits of n (Text.Decimal). Array.prototype.sort is
-- stable insertion (Base.Sorting). Numbers are natural: where the code subtracts, the difference is
-- not negative, or the case is written out (the y of an empty column is negative, and is not used),
-- and indexOf and search give an option in place of -1. The values of metrics and results are natural
-- too, and texts that are computed with fractions, such as rates and percentages, are left out.
--
-- Parameters: the RegExp constructor on names that hold a syntax character; the readers of the
-- fields of a JSON body; the reading of a token pair from one; yaml.load and the case conversions
-- of strings; JSON.stringify and JSON.parse on saved queries, with the law that they round-trip;
-- the reading of time stamps and the browser's way to write a time of day; parseFloat; the encoding
-- of query strings; the rounding of toFixed(1), with the law that it gives the nearest tenth.
--
-- Not modelled: rendering, the pages that only show, the copies of shadcn/ui in
-- ui/src/components/ui, the server (Go), js-yaml, React and the browser, and where a login leads, for
-- which the effect of the guard and the navigation of the page race.
pub mod Base
pub mod Text
pub mod Validation
pub mod Api
pub mod Auth
pub mod Agents
pub mod Charts
pub mod Clients
pub mod Components
pub mod Decorations
pub mod Details
pub mod Editing
pub mod Flow
pub mod Format
pub mod Grouping
pub mod Metrics
pub mod Navigation
pub mod Pages
pub mod Panel
pub mod Query
pub mod Results
pub mod Routes
pub mod Telemetry
pub mod Topology
