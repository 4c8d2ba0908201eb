-- ===== src/Lib.antt =====
-- d9c: a terminal manager of remote container hosts, with an agent mode.
--
-- The model covers the part of the program through which an agent changes a host, two parts that it
-- shares with the terminal interface, and the parts of the interface that keep a state of their
-- own: the tables of resources, the log viewer, the key bindings and the port forwards. A frontend
-- (command line or MCP server) asks the policy for the ceiling of the addressed host, offers the
-- operations below it, and calls one through the registry's gate; the gate normalizes the arguments
-- by the operation's schema and runs its handler or its planner on the engine; what comes of a
-- write goes to the audit log.
--
--   Hosts             internal/hosts/hosts.go: AgentPolicy, Host; Hosts/Url the SSH URLs; Hosts/Store
--                     the store, a method returning the store that it leaves and its error
--   Filter            internal/ui/filter/query.go: Compile with its cache as state, and Match
--   Agent/Tier        internal/agent/tier.go
--   Agent/Error       internal/agent/errors.go, with FriendlyError and the tests of errors of
--                     internal/docker/friendly.go, notfound.go and client.go
--   Agent/Policy      internal/agent/policy.go
--   Agent/Value       the values of `any` that frontends pass as arguments
--   Agent/Schema      internal/agent/schema.go: coerce; Agent/Schema/Check the check of a declaration,
--                     Agent/Schema/Normalize the normalization of arguments
--   Agent/OpResult    the results of operations, of registry.go and ops_lifecycle.go
--   Agent/Registry    internal/agent/registry.go: Register and Allowed; Agent/Invoke its Invoke
--   Agent/Containers  internal/agent/ops_lifecycle.go: resolveContainer and the container filters
--   Agent/Lifecycle   internal/agent/ops_lifecycle.go: targets, handler, planner and report;
--                     Agent/Lifecycle/Commands the five commands
--   Agent/Fanout      internal/agent/fanout.go
--   Agent/Audit       internal/agent/audit.go: NewAuditEntry
--   Agent/Wait        internal/agent/ops_wait.go: the loop of wait over what its polls see
--   Agent/Output      internal/agent/output.go: Shape.Apply
--   Agent/Redact      internal/agent/redact.go: redactEnv
--   PortForward       internal/portfwd/portfwd.go: the manager and its methods; PortForward/Tunnels one
--                     tunnel; PortForward/Steps the sections under the lock as a step relation
--   Keymap            internal/keymap/keymap.go: Resolve, Load and the maps
--   Ui/Logs           internal/ui/logs/logs.go: the buffer, the search and the keys; Ui/Logs/Color the
--                     colours of a line
--   Ui/Layout         internal/ui/table/layout.go; Ui/Layout/Columns the columns of table.go
--   Ui/Table          internal/ui/table/table.go: sorting, cursor and columns; Ui/Table/Rows the rows
--   Ui/Cmdline        internal/ui/cmdline/cmdline.go: the commands, read-only mode and completion
--   Base              texts, lists, integers and sorting as the program uses them
--
-- State is passed explicitly: an operation takes the state of the engine, of any type W, and
-- returns it with its answer; a nil function or pointer is `none`; a panic of a handler is an
-- ending of its own. A Go map is a list of its entries in the order of one iteration, except that
-- Manager.List is given any order in which its loop may meet the tunnels. Three loops run on fuel:
-- uniqueName, given one round more than there are hosts, wait, given one more than the milliseconds
-- until its deadline, and strings.ReplaceAll by the empty text, given one more than the length of
-- the text, which each round shortens.
--
-- The table reads its rows through the filter, and shows them through a layout. Goroutines that
-- share the port forwards are sections under the lock, taken one at a time in any order.
--
-- The widgets of package bubbles, net.Listen and the YAML parser, package path (Match), net/url
-- (Parse) and regexp (Compile, and the pattern notFoundObjectRe) are parameters. Texts are
-- sequences of code points, with case mappings of ASCII letters, letters and digits of ASCII only
-- in the names of columns (fold_column), and %q without escapes beyond the usual ones. A float64 is
-- whole, fractional, infinite or not a number, and an integer is not cut to the machine's word. An
-- index out of range, where Go panics, is `none`. Messages in two languages are the English ones.
-- Not modelled: the cause that an Error wraps, the times of audit entries, the locks of the
-- registry and the store, and all input and output (files, terminals, the engines themselves, the
-- JSON that frontends print); nor the parts of the program that are not named above.
pub mod Base
pub mod Hosts
pub mod Filter
pub mod Ui
pub mod PortForward
pub mod Keymap
pub mod Agent
