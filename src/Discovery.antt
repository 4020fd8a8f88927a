-- ===== src/Discovery.antt =====
-- practical2 and student-cafe of practical4: services that register with Consul and are found there.
-- The Consul client is not part of the repository: its calls are a parameter.
pub mod Register
pub mod Gateway
pub mod Cafe
pub mod Routing
pub mod Answers
pub mod Reach
pub mod Ledger
pub mod Starting
use Prim.Native.String.{String}
use ss2025_web.Base.{ℕ, List, [], ◌∷◌, Result, ok, err, format_v}
use ss2025_web.Base.Decimal.{decimal}

-- `consulapi.AgentServiceCheck`, as the services fill it in.
pub record HealthCheck : Type 0 where
  pub http : String
  pub interval : String
  pub timeout : String

-- `consulapi.AgentServiceRegistration`, as the services fill it in.
pub record Registration : Type 0 where
  pub id : String
  pub name : String
  pub port : ℕ
  pub address : String
  pub check : HealthCheck

-- What the code reads of an entry of `Health().Service`.
pub record Instance : Type 0 where
  pub address : String
  pub port : ℕ

-- `new_client` is `NewClient` of a configuration with this address, `health` is
-- `Health().Service(name, "", true, nil)` and `register` is `Agent().ServiceRegister`. An error is its
-- text.
pub record Consul (S : Type 0) : Type 0 where
  pub default_address : String
  pub new_client : String → Result String String
  pub health : String → String → S → Result String (List Instance)
  pub register : String → Registration → S → Result String (Unit {0}) × S

-- `"http://%s:%d"`
abbrev pub url_of : String → ℕ → String
url_of address port = format_v (format_v "http://" (format_v address ":")) (decimal port)

-- `"http://%s:%d/health"`
abbrev pub health_url : String → ℕ → String
health_url address port = format_v (url_of address port) "/health"
