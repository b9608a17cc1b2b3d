-- ===== src/Github/Client/Execute.antt =====
-- What `execute` sends for a decision.
use gita.Base.{String}
use gita.Base.Exec.{Exec}
use gita.Value.{Dict}
use gita.Web.Json.{Json}
use gita.Platform.{Platform}
use gita.Agents.Decision.{Decision}
use gita.Github.Http.{Api, State}
use gita.Github.Writes.{Effect}
use gita.Github.Client.Sent.{Traffic}

module _ (api : Api) (owner repo action : String) where
  -- The calls of a chain keep the traffic of one call.
  abbrev Keeps : Exec State Effect → Type 0
  Keeps m = (s : State) → Traffic api owner repo action s (m s).1

  abbrev Run : Type 0
  Run = String → String → Dict → Dict → Exec State Effect

  -- What each branch keeps, on any target and payload
  abbrev Sends : Run → Type 0
  Sends run = (target payload : Dict) → Keeps (run owner repo target payload)
