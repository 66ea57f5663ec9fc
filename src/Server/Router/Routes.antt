-- ===== src/Server/Router/Routes.antt =====
-- internal/server/server.go: the routes that New registers, and how the mux of net/http, whose rules are
-- written out here for the forms of pattern that the program uses, chooses among them. A path is its
-- segments, and begins with a slash; hosts and %-escapes are left out.
use docker_in_kubernetes.Prelude.{
  Bool, true, false, not, ◌&&◌, ◌||◌, Option, none, some, List, [], ◌∷◌, ◌++◌, Text, text, text_eq,
  ◌==◌, if◌then◌else◌,
}
use docker_in_kubernetes.Server.Router.{strip_version_prefix}

pub data Method : Type 0 where
  get head post delete : Method
  other : Text → Method

-- A handler of the daemon, by its function.
pub data Handler : Type 0 where
  handle_ping handle_version handle_info handle_events : Handler
  container_create container_start container_stop container_kill container_wait : Handler
  container_attach container_resize container_delete container_inspect container_logs : Handler
  container_list exec_create exec_start exec_inspect : Handler
  image_create image_list image_route_get image_route_delete : Handler
  network_create network_list network_inspect network_delete network_noop : Handler

-- A segment of a pattern: itself, `{name}`, or `{name...}`, which stands last.
pub data Segment : Type 0 where
  literal : Text → Segment
  wildcard : Segment
  remainder : Segment

pub record Route : Type 0 where
  pub method : Method
  pub segments : List Segment
  pub handler : Handler

abbrev pub route : Method → List Segment → Handler → Route
route m ss h = record { method = m; segments = ss; handler = h }

-- A pattern below the container of a request.
abbrev pub of_container : Text → List Segment
of_container verb = literal (text "containers") ∷ wildcard ∷ literal verb ∷ []

-- Method register of containerHandlers, and registerExec.
abbrev pub container_routes : List Route
container_routes =
    route post (literal (text "containers") ∷ literal (text "create") ∷ []) container_create
    ∷ route post (of_container (text "start")) container_start
    ∷ route post (of_container (text "stop")) container_stop
    ∷ route post (of_container (text "kill")) container_kill
    ∷ route post (of_container (text "wait")) container_wait
    ∷ route post (of_container (text "attach")) container_attach
    ∷ route post (of_container (text "resize")) container_resize
    ∷ route delete (literal (text "containers") ∷ wildcard ∷ []) container_delete
    ∷ route get (of_container (text "json")) container_inspect
    ∷ route get (of_container (text "logs")) container_logs
    ∷ route get (literal (text "containers") ∷ literal (text "json") ∷ []) container_list
    ∷ []

abbrev pub exec_routes : List Route
exec_routes =
    route post (of_container (text "exec")) exec_create
    ∷ route post (literal (text "exec") ∷ wildcard ∷ literal (text "start") ∷ []) exec_start
    ∷ route get (literal (text "exec") ∷ wildcard ∷ literal (text "json") ∷ []) exec_inspect
    ∷ []

abbrev pub image_routes : List Route
image_routes =
    route post (literal (text "images") ∷ literal (text "create") ∷ []) image_create
    ∷ route get (literal (text "images") ∷ literal (text "json") ∷ []) image_list
    ∷ route get (literal (text "images") ∷ remainder ∷ []) image_route_get
    ∷ route delete (literal (text "images") ∷ remainder ∷ []) image_route_delete
    ∷ []

abbrev pub network_routes : List Route
network_routes =
    route post (literal (text "networks") ∷ literal (text "create") ∷ []) network_create
    ∷ route get (literal (text "networks") ∷ []) network_list
    ∷ route get (literal (text "networks") ∷ wildcard ∷ []) network_inspect
    ∷ route delete (literal (text "networks") ∷ wildcard ∷ []) network_delete
    ∷ route post (literal (text "networks") ∷ wildcard ∷ literal (text "connect") ∷ []) network_noop
    ∷ route post (literal (text "networks") ∷ wildcard ∷ literal (text "disconnect") ∷ [])
        network_noop
    ∷ []

abbrev pub daemon_routes : List Route
daemon_routes =
    route get (literal (text "_ping") ∷ []) handle_ping
    ∷ route head (literal (text "_ping") ∷ []) handle_ping
    ∷ route get (literal (text "version") ∷ []) handle_version
    ∷ route get (literal (text "info") ∷ []) handle_info
    ∷ route get (literal (text "events") ∷ []) handle_events
    ∷ []

-- Which parts Config has.
pub record Config : Type 0 where
  pub pods : Bool
  pub forwarder : Bool
  pub forwards : Bool
  pub images : Bool
  pub networks : Bool

-- The patterns that New registers.
abbrev pub routes : Config → List Route
routes cfg =
    daemon_routes
    ++ ((if cfg.pods && cfg.forwarder && cfg.forwards then container_routes ++ exec_routes else [])
        ++ ((if cfg.images then image_routes else [])
            ++ (if cfg.networks then network_routes else [])))

-- GET stands for HEAD too.
abbrev pub method_covers : Method → Method → Bool
method_covers get get = true
method_covers get head = true
method_covers head head = true
method_covers post post = true
method_covers delete delete = true
method_covers p m = false

-- Whether the first pattern matches all that the second does.
unfoldable pub covers : List Segment → List Segment → Bool
covers [] [] = true
covers (remainder ∷ ps) (q ∷ qs) = true
covers (wildcard ∷ ps) (wildcard ∷ qs) = covers ps qs
covers (wildcard ∷ ps) (literal t ∷ qs) = covers ps qs
covers (literal s ∷ ps) (literal t ∷ qs) = let rest = covers ps qs in rest && text_eq s t
covers ps qs = false

unfoldable pub route_covers : Route → Route → Bool
unfolding covers
route_covers p q = method_covers p.method q.method && covers p.segments q.segments

abbrev pub more_specific : Route → Route → Bool
more_specific p q = route_covers q p && not (route_covers p q)

-- The segments joined again, for `{name...}`.
unfoldable pub join : List Text → Text
join [] = []
join (s ∷ []) = s
join (s ∷ t ∷ ss) = s ++ b'/' ∷ join (t ∷ ss)

-- The value of the pattern's name, empty where it has none; `none` is no match.
unfoldable pub match_segments : List Segment → List Text → Option Text
unfolding join
match_segments [] [] = some []
match_segments [] (s ∷ ss) = none
match_segments (p ∷ ps) [] = none
match_segments (remainder ∷ ps) (s ∷ ss) = some (join (s ∷ ss))
match_segments (wildcard ∷ ps) ([] ∷ ss) = none
match_segments (wildcard ∷ ps) ((c ∷ cs) ∷ ss) = elim (match_segments ps ss) [
  | none ↦ none
  | some v ↦ some (c ∷ cs)
]
match_segments (literal t ∷ ps) (s ∷ ss) = elim (match_segments ps ss) [
  | none ↦ none
  | some v ↦ if text_eq t s then some v else none
]

-- The most specific of the matching routes, with the value.
unfoldable pub best : Method → List Text → List Route → Option (Route × Text)
unfolding match_segments route_covers
best m ss [] = none
best m ss (r ∷ rs) =
    let rest = best m ss rs in
    if method_covers r.method m
    then elim (match_segments r.segments ss) [
      | none ↦ rest
      | some v ↦ elim rest [
        | none ↦ some (r, v)
        | some (q, w) ↦ if more_specific q r then some (q, w) else some (r, v)
      ]
    ]
    else rest

unfoldable pub any_method : List Text → List Route → Bool
unfolding match_segments
any_method ss [] = false
any_method ss (r ∷ rs) =
    let rest = any_method ss rs in
    elim (match_segments r.segments ss) [ none ↦ rest | some v ↦ true ]

-- What the mux does with a request.
pub data Routed : Type 0 where
  found : Handler → Text → Routed
  redirected not_found method_not_allowed : Routed

-- A path that is not clean is redirected: no segment but the last is empty, and none is a dot or two.
unfoldable pub is_clean : List Text → Bool
is_clean [] = true
is_clean (s ∷ ss) =
    let rest = is_clean ss in
    let inner : Bool = elim s [ c ∷ cs ↦ true | [] ↦ elim ss [ [] ↦ true | t ∷ ts ↦ false ] ] in
    not (text_eq s (text ".")) && not (text_eq s (text "..")) && (inner && rest)

unfoldable pub dispatch : List Route → Method → List Text → Routed
unfolding best any_method is_clean
dispatch rs m ss = elim (best m ss rs) [
  | some (r, v) ↦ if is_clean ss then found r.handler v else redirected
  | none ↦ elim (best m (ss ++ [] ∷ []) rs) [
    | some (r, v) ↦ redirected
    | none ↦
        if not (is_clean ss)
        then redirected
        else if any_method ss rs || any_method (ss ++ [] ∷ []) rs
        then method_not_allowed
        else not_found
  ]
]

-- The parts of a text between slashes.
unfoldable pub split_slashes : Text → List Text
split_slashes [] = [] ∷ []
split_slashes (c ∷ s) =
    let rest = split_slashes s in
    elim rest [ [] ↦ [] | t ∷ ts ↦ if c == b'/' then [] ∷ t ∷ ts else (c ∷ t) ∷ ts ]

unfoldable pub path_segments : Text → List Text
unfolding split_slashes
path_segments [] = []
path_segments (c ∷ s) = if c == b'/' then split_slashes s else []

-- The handler that New returns, up to the call of the handler of a route: stripVersionPrefix, then
-- logRequests, which hands the request on, then the mux.
unfoldable pub serve : Config → Method → Text → Routed
unfolding dispatch path_segments
serve cfg m path = dispatch (routes cfg) m (path_segments (strip_version_prefix path))
