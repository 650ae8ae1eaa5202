-- ===== src/Agent/Tools.antt =====
-- agent/tools.py: the tools' schemas, less their descriptions, the token cache, and the dispatch of a
-- call. The two services that it calls are arguments: the world before and after, with their answer.
use ai_agent_security_firewa.Prelude.{
  String, ◌||◌, Option, none, some, List, [], ◌∷◌, map, ◌==◌, if◌then◌else◌,
}
use ai_agent_security_firewa.Prelude.Dict.{Dict}
use ai_agent_security_firewa.Prelude.Json.{Json}

pub record ToolSchema : Type 0 where
  pub name : String
  -- each property with its type
  pub properties : Dict String
  pub required : List String

abbrev pub tool_schemas : List ToolSchema
tool_schemas =
    record { name = "http.get"; properties = ("url", "string") ∷ []; required = "url" ∷ [] }
    ∷ record {
      name = "http.post";
      properties = ("url", "string") ∷ ("body", "string") ∷ [];
      required = "url" ∷ "body" ∷ [];
    }
    ∷ record {
      name = "db.query";
      properties = ("table", "string") ∷ ("filter", "string") ∷ [];
      required = "table" ∷ [];
    }
    ∷ record { name = "file.read"; properties = ("path", "string") ∷ []; required = "path" ∷ [] }
    ∷ record {
      name = "email.send";
      properties = ("to", "string") ∷ ("body", "string") ∷ [];
      required = "to" ∷ "body" ∷ [];
    }
    ∷ record {
      name = "agent.invoke";
      properties = ("target_service", "string") ∷ ("tool", "string") ∷ ("arguments", "object") ∷ [];
      required = "target_service" ∷ "tool" ∷ "arguments" ∷ [];
    }
    ∷ []

abbrev pub tool_names : List String
tool_names = map (λ (s : ToolSchema). s.name) tool_schemas

-- A call that the provider asks for.
pub record RequestedCall : Type 0 where
  pub name : String
  pub arguments : Dict Json

-- The body of the proxy's reply.
pub record ReplyBody : Type 0 where
  pub decision : String
  pub reason : String
  pub result : Json

pub data Dispatched : Type 0 where
  returned : (decision : String) (result : Json) → Dispatched
  -- ToolCallDenied
  denied : (decision reason : String) → Dispatched
  -- a failure of the network or of the reply's form
  failed : Dispatched

-- What `dispatch` makes of the proxy's reply.
unfoldable pub of_reply : Option ReplyBody → Dispatched
of_reply none = failed
of_reply (some body) =
    if body.decision == "ALLOW" || body.decision == "ALLOW_REDACTED"
    then returned body.decision body.result
    else denied body.decision body.reason

-- The services, on a world that they may change: the issuer's answer to /attest, and the proxy's to a
-- tool call with a token.
pub record Services (W : Type 0) : Type 0 where
  pub attest : W → W × Option String
  pub tool_call : W → String → RequestedCall → W × Option ReplyBody

module _ {W : Type 0} (services : Services W) where
  fetched : W × Option String → (W × Option String) × Option String
  fetched (w, none) = ((w, none), none)
  fetched (w, some token) = ((w, some token), some token)

  -- _attest, on the world and the token cache
  unfoldable pub attest_once : W × Option String → (W × Option String) × Option String
  unfolding fetched
  attest_once (w, some token) = ((w, some token), some token)
  attest_once (w, none) = fetched (services.attest w)

  send : RequestedCall → (W × Option String) × Option String → (W × Option String) × Dispatched
  send call (state, none) = (state, failed)
  send call ((w, cache), some token) =
      let (w', reply) = services.tool_call w token call in ((w', cache), of_reply reply)

  -- dispatch
  unfoldable pub dispatch : W × Option String → RequestedCall → (W × Option String) × Dispatched
  unfolding send
  dispatch state call = send call (attest_once state)
