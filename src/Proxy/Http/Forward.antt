-- ===== src/Proxy/Http/Forward.antt =====
-- What reaches a server of a request, and what the client is answered.
use wiretally.Prelude.{
  ℕ, ◌≡◌, ◌≢◌, ◌⊎◌, Option, none, some, List, [], ◌∷◌, ◌++◌, Result, ok, err, Exec,
}
use wiretally.Text.{Text, chars}
use wiretally.Proxy.Http.{
  Hyper, HttpRequest, HttpResponse, own, passed_on, hop_by_hop, remove_all, host_header, forward,
}

-- The headers that end at the proxy.
abbrev pub ending_here : List Text
ending_here = chars "proxy-connection" ∷ chars "proxy-authorization" ∷ chars "keep-alive" ∷ []

-- A text response of the proxy's own.
abbrev pub plain_text : {R : Type 0} → ℕ → Text → HttpResponse R
plain_text status message =
    own (record { status = status; content_type = chars "text/plain"; message = message })

-- What the client gets for what the server's side came to: its response, or a 502 with the reason.
abbrev pub Answered : {R W : Type 0} → HttpResponse R × W → Result Text R × W → Type 0
Answered got (ok resp, w) = got ≡ (passed_on resp, w)
Answered got (err e, w) = got ≡ (plain_text 502 (chars "upstream request failed: " ++ e), w)

-- The path of a request without one is the root.
abbrev pub path_asked : Option Text → Text
path_asked none = chars "/"
path_asked (some path) = path

-- What hyper documents of a header map.
pub record HeaderLaws {H V U : Type 0} (y : Hyper H V U) : Type 0 where
  pub get-remove : (n : Text) (h : H) → y.get n (y.remove n h) ≡ none
  pub get-remove_other : (n k : Text) (h : H) → n ≢ k → y.get k (y.remove n h) ≡ y.get k h

abbrev pub Among : Text → List Text → Type 0
Among n [] = ⊥
Among n (k ∷ ns) = (n ≡ k) ⊎ Among n ns

module _ {H V U : Type 0} (y : Hyper H V U) where
  -- The headers of `h` but those that end at the proxy.
  pub record Stripped (h h' : H) : Type 0 where
    pub gone : (n : Text) → Among n ending_here → y.get n h' ≡ none
    pub others : (n : Text) → (Among n ending_here → ⊥) → y.get n h' ≡ y.get n h

module _ {H V U B : Type 0} (y : Hyper H V U) where
  -- The address that a request is sent to: its own if it has an authority, or else the one that its
  -- `Host` and its path make.
  abbrev pub Addressed : HttpRequest H U B → U → Type 0
  Addressed req uri =
      ((y.parts.authority req.uri ≢ none) × (uri ≡ req.uri))
      ⊎ ((y.parts.authority req.uri ≡ none)
          × ((host : Text) × (host_header y req.headers ≡ some host)
              × (y.parse (chars "http://" ++ (host ++ path_asked (y.path_and_query req.uri)))
                  ≡ ok uri)))

  abbrev pub Unaddressed : HttpRequest H U B → Type 0
  Unaddressed req =
      (y.parts.authority req.uri ≡ none)
      × ((host_header y req.headers ≡ none)
          ⊎ ((host : Text) × (e : Text) × (host_header y req.headers ≡ some host)
              × (y.parse (chars "http://" ++ (host ++ path_asked (y.path_and_query req.uri)))
                  ≡ err e)))

module _ {H V U B R W : Type 0} (y : Hyper H V U) (client : HttpRequest H U B → Exec W Text R) where
  -- A request that is sent on, and one that is answered at once.
  pub record Sent (req : HttpRequest H U B) (w : W) : Type 0 where
    pub sent : HttpRequest H U B
    pub stripped : Stripped y req.headers sent.headers
    pub addressed : Addressed y req sent.uri
    pub rest : sent.rest ≡ req.rest
    pub answer : Answered (forward y client req w) (client sent w)

  pub record Refused (req : HttpRequest H U B) (w : W) : Type 0 where
    pub unaddressed : Unaddressed y req
    pub message : Text
    pub answer : forward y client req w ≡ (plain_text 400 message, w)

  abbrev host_uri : HttpRequest H U B → Text → Text
  host_uri req host = chars "http://" ++ (host ++ path_asked (y.path_and_query req.uri))

  -- The request that is left to send.
  abbrev bare : HttpRequest H U B → HttpRequest H U B
  bare req = record req { headers = remove_all y hop_by_hop req.headers }
