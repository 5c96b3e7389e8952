-- ===== src/Proxy/Http/Tests.antt =====
-- A request in origin form, forwarded to its host.
use wiretally.Prelude.{◌≡◌, refl, none, some, Option, List, [], ◌∷◌, ok, Exec}
use wiretally.Text.{Text, chars, text_eq}
use wiretally.Map
use wiretally.Map.{text_key}
use wiretally.Proxy.Http.{Hyper, HttpRequest, passed_on, forward}

-- Headers by name, and a `Uri` as its authority and its path.
abbrev Headers : Type 0
Headers = List (Text × Text)

abbrev SimpleUri : Type 0
SimpleUri = Option Text × Text

abbrev hyper : Hyper Headers Text SimpleUri
hyper = record {
  remove = Map.remove;
  get = Map.get;
  to_str = some;
  parts = record { authority = λ u. u.0; scheme_str = λ u. some (chars "http") };
  path_and_query = λ u. some u.1;
  parse = λ t. ok (some t, chars "/");
}

abbrev origin_form : HttpRequest Headers SimpleUri Text
origin_form = record {
  headers =
      (chars "proxy-connection", chars "keep-alive")
      ∷ (chars "host", chars "a.dev")
      ∷ (chars "accept", chars "*/*")
      ∷ [];
  uri = (none, chars "/index");
  rest = chars "GET";
}

-- A client that answers with the request's headers, and keeps the address that it was called with.
abbrev echo : HttpRequest Headers SimpleUri Text → Exec (List (Option Text)) Text Headers
echo req calls = (ok req.headers, req.uri.0 ∷ calls)

forward_run : forward hyper echo origin_form [] ≡ (
  passed_on ((chars "host", chars "a.dev") ∷ (chars "accept", chars "*/*") ∷ []),
  some (chars "http://a.dev/index") ∷ [],
)
unfolding forward Map.remove Map.get text_eq
forward_run = refl
