-- ===== src/HttpTool.antt =====
-- new/httptool.go: the HTTP client for the service that is told of the gateways' connections. The
-- HTTP library is an argument, `send`: the response to a request, or `none` for an error. What is done
-- is a list of events.
use gitee_fork_gateway.Prelude.{ℕ, Option, none, some, List, [], ◌∷◌, ◌++◌, String}

-- The time limits of the client, in seconds: to connect, for the whole connection, and for the header
-- of the response.
pub record NoForeverBlockClient : Type 0 where
  pub dial_timeout : ℕ
  pub deadline : ℕ
  pub response_header_timeout : ℕ

abbrev pub create_client : NoForeverBlockClient
create_client = record { dial_timeout = 2; deadline = 2; response_header_timeout = 2 }

-- A request: its URL, and the content's type and the content of a POST.
pub data Request : Type 0 where
  get_request : String → Request
  post_request : String → String → String → Request

pub data Event (B : Type 0) : Type 0 where
  asks : Request → Event B
  closes : B → Event B

module _ {B : Type 0} (send : Request → Option B) where
  -- The body of a response is closed.
  unfoldable pub ask : Request → List (Event B) → List (Event B)
  ask r done = elim (send r) [
    | none ↦ done ++ (asks r ∷ [])
    | some body ↦ done ++ (asks r ∷ closes body ∷ [])
  ]

  unfoldable pub http_get : String → List (Event B) → List (Event B)
  unfolding ask
  http_get url done = ask (get_request url) done

  unfoldable pub http_post : String → String → List (Event B) → List (Event B)
  unfolding ask
  http_post url data' done = ask (post_request url "text/html" data') done

  unfoldable pub http_post_json : String → String → List (Event B) → List (Event B)
  unfolding ask
  http_post_json url json done = ask (post_request url "text/json" json) done
