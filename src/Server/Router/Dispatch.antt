-- ===== src/Server/Router/Dispatch.antt =====
-- internal/server/server.go: which handler a request reaches.
use docker_in_kubernetes.Prelude.{
  ℕ, Bool, true, false, ◌&&◌, some, List, [], ◌∷◌, ◌++◌, Text, text, text_eq, contains, ◌≡◌, ◌≢◌,
  refl, ap, sym, ◌∙◌, All, All-imp, arith,
}
use docker_in_kubernetes.Server.Router.{is_digit, strip_version_prefix, version_prefix, some_digits}
use docker_in_kubernetes.Server.Router.Version.{strip_version_prefix_lem}
use docker_in_kubernetes.Server.Router.Routes.{
  Method, Handler, route, Segment, literal, wildcard, remainder, Route, Config, routes, join,
  match_segments, route_covers, covers, best, found, is_clean, dispatch, path_segments, serve,
}
use docker_in_kubernetes.Server.Router.Paths.{
  Plain, is_plain, path_of, is_clean-Plain, split_slashes-path_of,
}

-- The request of a pattern: `v` stands for `{name}`, and `v` and what follows for `{name...}`.
unfoldable pub fill : List Segment → Text → List Text → List Text
fill [] v more = []
fill (literal t ∷ ps) v more = t ∷ fill ps v more
fill (wildcard ∷ ps) v more = v ∷ fill ps v more
fill (remainder ∷ ps) v more = v ∷ more

-- The value that the handler gets of it.
unfoldable pub value : List Segment → Text → List Text → Text
value [] v more = []
value (literal t ∷ ps) v more = value ps v more
value (wildcard ∷ ps) v more = v
value (remainder ∷ ps) v more = join (v ∷ more)

unfoldable plain_pattern : List Segment → Bool
plain_pattern [] = true
plain_pattern (literal t ∷ ps) = is_plain t && plain_pattern ps
plain_pattern (p ∷ ps) = plain_pattern ps

unfoldable is_served : List Segment → Bool
unfolding plain_pattern
is_served [] = false
is_served (p ∷ ps) = plain_pattern (p ∷ ps)

fill-Plain :
    (ps : List Segment) (v : Text) (more : List Text)
    → plain_pattern ps ≡ true
    → Plain (v ∷ more)
    → Plain (fill ps v more)
unfolding fill plain_pattern
fill-Plain [] v more h plain = tt
fill-Plain (literal t ∷ ps) v more h plain =
    (ground (arith, h), fill-Plain ps v more (ground (arith, h)) plain)
fill-Plain (wildcard ∷ ps) v more h plain = (plain.0, fill-Plain ps v more h plain)
fill-Plain (remainder ∷ ps) v more h plain = plain

abbrev pub everything : Config
everything = record {
  pods = true;
  forwarder = true;
  forwards = true;
  images = true;
  networks = true;
}

-- What the table says of one route.
abbrev Fact : Text → List Text → Route → Type 0
Fact v more r =
    (best r.method (fill r.segments v more) (routes everything) ≡ some (r, value r.segments v more))
    × (is_served r.segments ≡ true)
    × (strip_version_prefix (path_of (fill r.segments v more)) ≡ path_of (fill r.segments v more))

infixr 4 ◌▸◌
abbrev ◌▸◌ : {A B : Type 0} → A → B → A × B
a ▸ b = (a, b)

facts :
    (c : ℕ) (cs : Text) (more : List Text)
    → text_eq (text "json") (c ∷ cs) ≡ false
    → All (Fact (c ∷ cs) more) (routes everything)
unfolding is_served best match_segments route_covers covers fill value plain_pattern is_plain
    contains strip_version_prefix version_prefix some_digits path_of text text_eq
facts c cs more h =
    (refl, refl, refl)
    ▸ (refl, refl, refl)
    ▸ (refl, refl, refl)
    ▸ (refl, refl, refl)
    ▸ (refl, refl, refl)
    ▸ (refl, refl, refl)
    ▸ (refl, refl, refl)
    ▸ (refl, refl, refl)
    ▸ (refl, refl, refl)
    ▸ (refl, refl, refl)
    ▸ (refl, refl, refl)
    ▸ (refl, refl, refl)
    ▸ (refl, refl, refl)
    ▸ (refl, refl, refl)
    ▸ (refl, refl, refl)
    ▸ (refl, refl, refl)
    ▸ (refl, refl, refl)
    ▸ (refl, refl, refl)
    ▸ (refl, refl, refl)
    ▸ (refl, refl, refl)
    ▸ (refl, refl, refl)
    ▸ (ground (arith, h), refl, refl)
    ▸ (ground (arith, h), refl, refl)
    ▸ (refl, refl, refl)
    ▸ (refl, refl, refl)
    ▸ (ground (arith, h), refl, refl)
    ▸ (refl, refl, refl)
    ▸ (refl, refl, refl)
    ▸ (refl, refl, refl)
    ▸ tt

dispatch-best :
    (rs : List Route) (m : Method) (ss : List Text) (r : Route) (v : Text)
    → best m ss rs ≡ some (r, v)
    → is_clean ss ≡ true
    → dispatch rs m ss ≡ found r.handler v
unfolding dispatch
dispatch-best rs m ss r v b clean = ground (arith, b, clean)

path_segments-path_of :
    (ps : List Segment) (p : Segment) (v : Text) (more : List Text)
    → Plain (fill (p ∷ ps) v more)
    → path_segments (path_of (fill (p ∷ ps) v more)) ≡ fill (p ∷ ps) v more
unfolding path_segments path_of fill
path_segments-path_of ps (literal t) v more h = split_slashes-path_of t (fill ps v more) h
path_segments-path_of ps wildcard v more h = split_slashes-path_of v (fill ps v more) h
path_segments-path_of ps remainder v more h = split_slashes-path_of v more h

path_of-fill :
    (ps : List Segment) (p : Segment) (v : Text) (more : List Text)
    → (rest : Text) × (path_of (fill (p ∷ ps) v more) ≡ b'/' ∷ rest)
unfolding path_of fill
path_of-fill ps (literal t) v more = (t ++ path_of (fill ps v more), refl)
path_of-fill ps wildcard v more = (v ++ path_of (fill ps v more), refl)
path_of-fill ps remainder v more = (v ++ path_of more, refl)

-- A path behind the prefix of a version.
abbrev pub versioned : Text → Text → Text → Text
versioned major minor path = b'/' ∷ b'v' ∷ major ++ b'.' ∷ (minor ++ path)

-- The request of a route reaches it, with and without a version.
abbrev pub Reaches : Text → Text → Text → List Text → Route → Type 0
Reaches major minor v more r =
    let path = path_of (fill r.segments v more) in
    let reached = found r.handler (value r.segments v more) in
    (serve everything r.method path ≡ reached)
    × (serve everything r.method (versioned major minor path) ≡ reached)

Fact-Reaches :
    (major minor v : Text) (more : List Text) (m : Method) (ps : List Segment) (h : Handler)
    → major ≢ []
    → All (λ c. is_digit c ≡ true) major
    → minor ≢ []
    → All (λ c. is_digit c ≡ true) minor
    → Plain (v ∷ more)
    → Fact v more (route m ps h)
    → Reaches major minor v more (route m ps h)
unfolding serve is_served
Fact-Reaches major minor v more m [] h a ha b hb plain (e, s, p) = ground (arith, s)
Fact-Reaches major minor v more m (q ∷ ps) h a ha b hb plain (e, s, p) =
    let segments : Plain (fill (q ∷ ps) v more) = fill-Plain (q ∷ ps) v more s plain in
    let reached : serve everything m (path_of (fill (q ∷ ps) v more))
        ≡ found h (value (q ∷ ps) v more) =
      ap (λ t. dispatch (routes everything) m (path_segments t)) p
      ∙ ap (dispatch (routes everything) m) (path_segments-path_of ps q v more segments)
      ∙ dispatch-best (routes everything) m (fill (q ∷ ps) v more) (route m (q ∷ ps) h)
          (value (q ∷ ps) v more) e (is_clean-Plain (fill (q ∷ ps) v more) segments) in
    let (rest, slash) = path_of-fill ps q v more in
    let stripped =
      ap (λ t. strip_version_prefix (versioned major minor t)) slash
      ∙ (strip_version_prefix_lem major minor rest a ha b hb).1
      ∙ sym slash in
    (
      reached,
      ap (λ t. dispatch (routes everything) m (path_segments t)) (stripped ∙ sym p) ∙ reached,
    )

-- Every route that New registers is reached by its own requests and by no other route's: with any plain
-- text (no slash, no dots alone) for the ID or the name that is not `json`, the mux hands the request to
-- the route's handler with that value, and the same behind any version prefix.
pub serve-routes :
    (major minor : Text) (c : ℕ) (cs : Text) (more : List Text)
    → major ≢ []
    → All (λ d. is_digit d ≡ true) major
    → minor ≢ []
    → All (λ d. is_digit d ≡ true) minor
    → text_eq (text "json") (c ∷ cs) ≡ false
    → Plain ((c ∷ cs) ∷ more)
    → All (Reaches major minor (c ∷ cs) more) (routes everything)
serve-routes major minor c cs more a ha b hb apart plain =
    All-imp
      (λ (r : Route) (f : Fact (c ∷ cs) more r).
        Fact-Reaches major minor (c ∷ cs) more r.method r.segments r.handler a ha b hb plain f)
      (routes everything) (facts c cs more apart)
