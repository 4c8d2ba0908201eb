-- ===== src/Agent/Error.antt =====
-- errors.go: the error classes of the agent contract, with internal/docker/friendly.go and
-- notfound.go, whose tests decide the class of a backend's error.
use d9c.Base.{
  ◌<+>◌, ◌==◌, if◌then◌else◌, ◌||◌, Bool, ℕ, String, Option, none, List, [], ◌∷◌, any, contains,
  to_lower, delete_all, replace_first,
}
use d9c.Agent.Tier.{Tier}

-- `other` is a code outside the declared ones.
pub data Code : Type 0 where
  internal usage not_found connection forbidden auth_required : Code
  confirmation_required timeout : Code
  other : String → Code

-- Code.ExitCode
unfoldable pub exit_code : Code → ℕ
exit_code internal = 1
exit_code usage = 2
exit_code not_found = 3
exit_code connection = 4
exit_code forbidden = 5
exit_code auth_required = 6
exit_code confirmation_required = 7
exit_code timeout = 9
exit_code (other _) = 1

-- registry.go, ExitPartial: the status of a result that failed on some targets.
abbrev pub exit_partial : ℕ
exit_partial = 8

-- registry.go
pub record PlanData : Type 0 where
  pub operation : String
  pub tier : Tier
  pub steps : List String
  pub confirm : Bool

-- The wrapped cause is kept for errors.Is and is not part of the contract.
pub record Error : Type 0 where
  pub code : Code
  pub message : String
  pub hint : String
  pub plan : Option PlanData

-- Errorf, with the message formatted.
abbrev pub errorf : Code → String → Error
errorf code message = record { code = code; message = message; hint = ""; plan = none }

-- Error.WithHint
abbrev pub with_hint : Error → String → Error
with_hint e hint = record e { hint = hint }

-- Error.Error
unfoldable pub error_text : Error → String
error_text e = if e.hint == "" then e.message else e.message <+> " (hint: " <+> e.hint <+> ")"

-- What one error of a chain shows: its text, and what errors.Is and errors.As find in the chain.
pub record Link : Type 0 where
  pub text : String
  pub unknown_host_key : Bool
  pub socket_path : Bool
  pub connection_failed : Bool
  pub eof_or_closed : Bool
  pub net_error : Bool
  pub docker_not_found : Bool

-- An error of a backend, by the first FriendlyError of its chain, if any, and that one's cause.
pub data RawError : Type 0 where
  plain : Link → RawError
  friendly : Link → (msg hint : String) → RawError
  friendly_over : Link → (msg hint : String) → RawError → RawError

abbrev pub link : RawError → Link
link (plain l) = l
link (friendly l msg hint) = l
link (friendly_over l msg hint cause) = l

-- docker.FriendlyError.Error
unfoldable pub friendly_text : String → String → String
friendly_text msg hint = if hint == "" then msg else msg <+> " — " <+> hint

abbrev not_found_phrases : List String
not_found_phrases =
    "no such container" ∷ "no such image" ∷ "no such network" ∷ "no such volume"
    ∷ "no such compose project" ∷ "no such object" ∷ "no containers found for compose deployment"
    ∷ "code = notfound" ∷ "could not find container" ∷ "could not find pod" ∷ "id does not exist"
    ∷ []

-- The test of notFoundObjectRe, whose pattern is matched by package regexp, is an argument.
module _ (names_missing_object : String → Bool) where
  -- docker.IsNotFound
  unfoldable pub is_not_found : RawError → Bool
  is_not_found (plain l) =
      l.docker_not_found
      || any (contains (to_lower l.text)) not_found_phrases
      || names_missing_object (to_lower l.text)
  is_not_found (friendly l msg hint) =
      l.docker_not_found
      || any (contains (to_lower l.text)) not_found_phrases
      || names_missing_object (to_lower l.text)
  is_not_found (friendly_over l msg hint cause) =
      l.docker_not_found
      || any (contains (to_lower l.text)) not_found_phrases
      || names_missing_object (to_lower l.text)
      || is_not_found cause

-- docker.IsHostKeyError
unfoldable pub is_host_key_error : RawError → Bool
is_host_key_error e = contains (link e).text "knownhosts:" || contains (link e).text "ssh: host key"

-- docker.IsHostNotFoundError
unfoldable pub is_host_not_found_error : RawError → Bool
is_host_not_found_error e = contains (link e).text "no such host"

abbrev connection_phrases : List String
connection_phrases =
    "connection refused" ∷ "connection reset" ∷ "broken pipe" ∷ "no route to host" ∷ "i/o timeout"
    ∷ "EOF" ∷ "use of closed network connection" ∷ "ssh:" ∷ "tunnel" ∷ []

-- docker.IsConnectionError
unfoldable pub is_connection_error : RawError → Bool
is_connection_error e =
    let l = link e in
    l.connection_failed
    || l.eof_or_closed
    || l.net_error
    || any (contains l.text) connection_phrases

-- isAuthError
unfoldable pub is_auth_error : RawError → Bool
is_auth_error e =
    contains (link e).text "unable to authenticate"
    || contains (link e).text "no supported methods remain"

abbrev daemon_prefix : String
daemon_prefix = "Error response from daemon: "

-- A FriendlyError's recommendation is cut out of the text.
unfoldable pub message : RawError → String
unfolding friendly_text delete_all replace_first
message (plain l) = delete_all l.text daemon_prefix
message (friendly l msg hint) =
    delete_all (if hint == "" then l.text else replace_first l.text (friendly_text msg hint) msg)
      daemon_prefix
message (friendly_over l msg hint cause) =
    delete_all (if hint == "" then l.text else replace_first l.text (friendly_text msg hint) msg)
      daemon_prefix

-- The hint of the first FriendlyError, empty where there is none.
unfoldable pub friendly_hint : RawError → String
friendly_hint (plain l) = ""
friendly_hint (friendly l msg hint) = hint
friendly_hint (friendly_over l msg hint cause) = hint

-- `wrap` of Classify
unfoldable pub wrap : RawError → Code → String → Error
unfolding friendly_hint
wrap e code hint = record {
  code = code;
  message = message e;
  hint = if friendly_hint e == "" then hint else friendly_hint e;
  plan = none;
}

-- What a handler or a backend returns as its error: a chain that holds an *Error, or one that does
-- not.
pub data Failure : Type 0 where
  agent : Error → Failure
  raw : RawError → Failure

module _ (names_missing_object : String → Bool) where
  -- Classify of an error that is not nil.
  unfoldable pub classify : Failure → Error
  unfolding wrap
  classify (agent e) = e
  classify (raw e) =
      if (link e).unknown_host_key
      then wrap e connection
          "the host is not in ~/.ssh/known_hosts; ask the user to verify its key (connect once with ssh or the d9c TUI) — agent mode never accepts host keys automatically"
      else if is_host_key_error e
      then wrap e connection
          "the host key does not match ~/.ssh/known_hosts; verify the host and fix known_hosts manually (agent mode never accepts host keys automatically)"
      else if is_auth_error e
      then wrap e auth_required "set D9C_SSH_PASSWORD or configure an SSH key/agent for this host"
      else if (link e).socket_path
      then wrap e connection "check the unix:// socket path passed with -H"
      else if is_host_not_found_error e
      then wrap e connection "check the host address; the name does not resolve"
      else if is_not_found names_missing_object e
      then wrap e not_found
          "the object may have been removed by another client; list the resources again"
      else if is_connection_error e
      then wrap e connection "check that the daemon is running and reachable from this machine"
      else wrap e internal ""
