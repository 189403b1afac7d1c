-- ===== src/Gateway/Headers.antt =====
-- internal/gateway/transport.go: the headers that pass between the client and an upstream. A header is
-- a Go map from names to values, and `Texts` the functions on text of the standard library.
pub mod Passed
pub mod Sent
pub mod Tests
use d_api.Base.{
  ℕ, String, Bool, true, false, not, ◌&&◌, ◌||◌, Option, none, some, List, [], ◌∷◌, ◌++◌, ◌==◌,
  string_key, if◌then◌else◌, map, join,
}
use d_api.Base.Maps.{Map, lookup, insert, delete}

pub record Texts : Type 0 where
  pub canonical : String → String
  pub is_access_control : String → Bool
  pub split_comma : String → List String
  pub trim_space : String → String

abbrev pub Header : Type 0
Header = Map String (List String)

abbrev pub or_empty : Option (List String) → List String
or_empty none = []
or_empty (some vs) = vs

abbrev pub first : List String → String
first [] = ""
first (v ∷ vs) = v

unfoldable pub among : String → List String → Bool
among name [] = false
among name (n ∷ ns) = n == name || among name ns

-- The values of a name that is canonical.
abbrev pub values : String → Header → List String
values name h = or_empty (lookup name h)

abbrev pub names : Header → List String
names [] = []
names ((name, vs) ∷ h) = name ∷ names h

abbrev pub hop_headers : List String
hop_headers =
    "Connection" ∷ "Proxy-Connection" ∷ "Keep-Alive" ∷ "Proxy-Authenticate" ∷ "Proxy-Authorization"
    ∷ "Te" ∷ "Trailer" ∷ "Transfer-Encoding" ∷ "Upgrade" ∷ []

abbrev pub preserved : List String
preserved =
    "X-Dapi-Request-Id" ∷ "X-Dapi-Upstream" ∷ "X-Dapi-Attempts" ∷ "Content-Security-Policy"
    ∷ "X-Content-Type-Options" ∷ "X-Frame-Options" ∷ "Referrer-Policy" ∷ "Permissions-Policy"
    ∷ "Cross-Origin-Opener-Policy" ∷ []

abbrev pub blocked : List String
blocked =
    "Set-Cookie" ∷ "Set-Cookie2" ∷ "Location" ∷ "Content-Security-Policy" ∷ "X-Content-Type-Options"
    ∷ "X-Frame-Options" ∷ "Referrer-Policy" ∷ "Permissions-Policy" ∷ "Cross-Origin-Opener-Policy"
    ∷ "Strict-Transport-Security" ∷ []

-- The names of `filteredRequestHeaders`.
abbrev pub forwarded : List String
forwarded =
    "Accept" ∷ "Accept-Encoding" ∷ "Cache-Control" ∷ "Content-Type" ∷ "Pragma" ∷ "User-Agent"
    ∷ "X-Request-ID" ∷ "OpenAI-Organization" ∷ "OpenAI-Project" ∷ "OpenAI-Beta"
    ∷ "Anthropic-Version" ∷ "Anthropic-Beta" ∷ []

module _ (x : Texts) where
  -- `Header.Add` for each of the values.
  unfoldable pub add_each : String → List String → Header → Header
  add_each name [] h = h
  add_each name (v ∷ vs) h =
      let key = x.canonical name in
      add_each name vs (insert key (or_empty (lookup key h) ++ v ∷ []) h)

  -- `Header.Set` and `Header.Del`.
  abbrev pub set : String → String → Header → Header
  set name v h = insert (x.canonical name) (v ∷ []) h

  unfoldable pub delete_each : List String → Header → Header
  delete_each [] h = h
  delete_each (name ∷ rest) h = delete_each rest (delete (x.canonical name) h)

  abbrev pub preserved_gateway_header : String → Bool
  preserved_gateway_header name = among (x.canonical name) preserved

  abbrev pub blocked_response_header : String → Bool
  blocked_response_header name =
      x.is_access_control (x.canonical name) || among (x.canonical name) blocked

  -- The names that `Connection` lists.
  abbrev pub connection_names : Header → List String
  connection_names h =
      map x.trim_space (x.split_comma (first (values (x.canonical "Connection") h)))

  unfoldable pub strip_hop_headers : Header → Header
  strip_hop_headers h = delete_each hop_headers (delete_each (connection_names h) h)

  -- The two loops of `copyResponseHeaders`.
  unfoldable pub drop_unpreserved : List String → Header → Header
  drop_unpreserved [] h = h
  drop_unpreserved (name ∷ rest) h =
      drop_unpreserved rest
        (if preserved_gateway_header name then h else delete (x.canonical name) h)

  unfoldable pub add_unblocked : Header → Header → Header
  add_unblocked [] h = h
  add_unblocked ((name, vs) ∷ source) h =
      add_unblocked source (if blocked_response_header name then h else add_each name vs h)

  abbrev pub copied : Header → Header → Header
  copied destination source =
      add_unblocked source (drop_unpreserved (names destination) destination)

  unfoldable pub copy_response_headers : Header → Header → Header
  copy_response_headers destination source = strip_hop_headers (copied destination source)

  unfoldable pub set_gateway_headers : String → String → String → Header → Header
  set_gateway_headers request_id upstream attempts h =
      set "X-DAPI-Attempts" attempts
        (set "X-DAPI-Upstream" upstream (set "X-DAPI-Request-ID" request_id h))

  unfoldable pub filter_headers : List String → Header → Header → Header
  filter_headers [] source h = h
  filter_headers (name ∷ rest) source h =
      filter_headers rest source (add_each name (values (x.canonical name) source) h)

  abbrev pub set_unless_empty : String → String → Header → Header
  set_unless_empty name v h = if v == "" then h else set name v h

  abbrev pub sign : Bool → String → String → Header → Header
  sign messages api_key user_agent h =
      let named =
        set_unless_empty "User-Agent" user_agent (set "Authorization" (join "Bearer " api_key) h) in
      if messages then set "X-Api-Key" api_key named else named

  -- The headers of `upstreamRequest`.
  unfoldable pub request_headers : Bool → String → String → Header → Header
  request_headers messages api_key user_agent source = sign messages api_key user_agent (
      delete_each ("Content-Length" ∷ "Accept-Encoding" ∷ "X-Api-Key" ∷ [])
        (strip_hop_headers (filter_headers forwarded source [])))
