-- ===== src/Proxy/Http.antt =====
-- src/proxy.rs: `forward`, which serves one request that hyper has parsed.
--
-- hyper's types are parameters: a header map, a `Uri`, what else is in a request, and what the client
-- answers. The client may change whatever state it shares with the connector.
pub mod Forward
mod Tests
use wiretally.Prelude.{
  ℕ, Bool, true, false, Option, none, some, List, [], ◌∷◌, ◌++◌, Result, ok, err, Exec,
}
use wiretally.Text.{Text, chars}
use wiretally.Proxy.Connector.{UriParts}

-- What the program asks of a `HeaderMap`, a `HeaderValue` and a `Uri`.
pub record Hyper (H V U : Type 0) : Type 0 where
  pub remove : Text → H → H
  pub get : Text → H → Option V
  pub to_str : V → Option Text
  pub parts : UriParts U
  pub path_and_query : U → Option Text
  -- With the error's text.
  pub parse : Text → Result Text U

pub record HttpRequest (H U B : Type 0) : Type 0 where
  pub headers : H
  pub uri : U
  -- The method, the version and the body.
  pub rest : B

pub record ErrorResponse : Type 0 where
  pub status : ℕ
  pub content_type : Text
  pub message : Text

-- The client's response as it is, or one of the proxy's own.
pub data HttpResponse (R : Type 0) : Type 0 where
  passed_on : R → HttpResponse R
  own : ErrorResponse → HttpResponse R

abbrev pub bad_request : ℕ
bad_request = 400

abbrev pub bad_gateway : ℕ
bad_gateway = 502

abbrev pub hop_by_hop : List Text
hop_by_hop = chars "proxy-connection" ∷ chars "proxy-authorization" ∷ chars "keep-alive" ∷ []

unfoldable pub error_response : ℕ → Text → ErrorResponse
error_response status message = record {
  status = status;
  content_type = chars "text/plain";
  message = message;
}

unfoldable pub path_or_root : Option Text → Text
path_or_root none = chars "/"
path_or_root (some path) = path

module _ {H V U : Type 0} where
  -- `for header in HOP_BY_HOP`.
  unfoldable pub remove_all : Hyper H V U → List Text → H → H
  remove_all y [] h = h
  remove_all y (n ∷ ns) h = remove_all y ns (y.remove n h)

  unfoldable pub host_header : Hyper H V U → H → Option Text
  host_header y h = elim (y.get (chars "host") h) [ none ↦ none | some v ↦ y.to_str v ]

module _ {H U B : Type 0} where
  unfoldable pub with_uri : Result Text U → HttpRequest H U B → Result Text (HttpRequest H U B)
  with_uri (ok uri) req = ok (record req { uri = uri })
  with_uri (err e) req = err (chars "cannot build absolute URI: " ++ e)

module _ {H V U B : Type 0} where
  unfoldable pub absolutize_host :
      Hyper H V U → Option Text → HttpRequest H U B → Result Text (HttpRequest H U B)
  unfolding path_or_root with_uri
  absolutize_host y none req = err (chars "request has neither an absolute URI nor a Host header")
  absolutize_host y (some host) req =
      with_uri (y.parse (chars "http://" ++ (host ++ path_or_root (y.path_and_query req.uri)))) req

  unfoldable pub absolutize : Hyper H V U → HttpRequest H U B → Result Text (HttpRequest H U B)
  unfolding host_header absolutize_host
  absolutize y req = absolutize_host y (host_header y req.headers) req

module _ {R W : Type 0} where
  -- The end of `forward`: what the client came to.
  unfoldable pub responded : Result Text R × W → HttpResponse R × W
  unfolding error_response
  responded (ok resp, w) = (passed_on resp, w)
  responded (err e, w) =
      (own (error_response bad_gateway (chars "upstream request failed: " ++ e)), w)

module _ {H U B R W : Type 0} where
  unfoldable pub send_absolute :
      (HttpRequest H U B → Exec W Text R) → Result Text (HttpRequest H U B) → W → HttpResponse R × W
  unfolding responded error_response
  send_absolute client (ok req) w = responded (client req w)
  send_absolute client (err e) w = (own (error_response bad_request e), w)

module _ {H V U B R W : Type 0} where
  unfoldable pub send_request :
      Hyper H V U
      → (HttpRequest H U B → Exec W Text R)
      → Option Text
      → HttpRequest H U B
      → W
      → HttpResponse R × W
  unfolding send_absolute absolutize
  send_request y client (some authority) req w = responded (client req w)
  send_request y client none req w = send_absolute client (absolutize y req) w

  unfoldable pub forward :
      Hyper H V U → (HttpRequest H U B → Exec W Text R) → HttpRequest H U B → W → HttpResponse R × W
  unfolding remove_all send_request
  forward y client req w =
      let req' = record req { headers = remove_all y hop_by_hop req.headers } in
      send_request y client (y.parts.authority req'.uri) req' w
