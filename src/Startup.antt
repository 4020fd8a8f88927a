-- ===== src/Startup.antt =====
-- How the programs start: the environment, the databases, the gRPC clients and the listeners. The
-- operating system, gorm and grpc are parameters. Starting either ends with a fatal message or serves.
pub mod Clients
pub mod Services
pub mod Rest
pub mod Wiring
pub mod Started
pub mod Proxies
use Prim.Native.String.{String}
use text.Mathlib.Text.{◌==◌}
use ss2025_web.Base.{List, Result, ok, err, if◌then◌else◌}

-- `os.Getenv`, which gives "" for a variable that is not set.
abbrev pub Env : Type 0
Env = String → String

-- `getEnv`, and the same test written out in the `main` functions.
unfoldable pub get_env : Env → String → String → String
get_env env key default_val = let val = env key in if val == "" then default_val else val

-- An error is its text. `open_db` is `gorm.Open` of a DSN, `auto_migrate` takes the models by name,
-- `listen` is `net.Listen` and `new_client` is `grpc.NewClient`.
pub record Outside (Db : Type 0) : Type 0 where
  pub open_db : String → Result String Db
  pub auto_migrate : List String → Db → Result String (Unit {0})
  pub listen : String → Result String (Unit {0})
  pub new_client : String → Result String (Unit {0})

-- A program's start, whose error is the message of `log.Fatalf`, or a function's `(T, error)`.
abbrev pub Start : Type 0 → Type 0
Start A = Result String A

module _ {A B : Type 0} where
  infixl 10 ◌>>=◌ ◌>>◌
  abbrev pub ◌>>=◌ : Start A → (A → Start B) → Start B
  (ok a) >>= f = f a
  (err e) >>= f = err e

  abbrev pub ◌>>◌ : Start A → Start B → Start B
  m >> k = m >>= λ _. k

-- A failure under another message.
abbrev pub or_else : {A : Type 0} → Result String A → (String → String) → Start A
or_else (ok a) f = ok a
or_else (err e) f = err (f e)

-- `Connect` of database/db.go, with the models of the service.
unfoldable pub connect : {Db : Type 0} → Outside Db → List String → String → Start Db
connect out models dsn = do db ← out.open_db dsn; out.auto_migrate models db; ok db
