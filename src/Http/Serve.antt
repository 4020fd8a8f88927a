-- ===== src/Http/Serve.antt =====
-- A handler's body that may also dereference nil: net/http recovers the panic and drops the
-- connection. `fails tt` is an early return.
use ss2025_web.Base.{ℕ, Option, some, none, Result, ok, err}
use Prim.Native.String.{String}
use ss2025_web.Rpc.{Exec, Outcome, returns, fails, panics}
use ss2025_web.Http
use ss2025_web.Http.{Writer, fresh, status_of}
use ss2025_web.Http.Handler.{Conn}

abbrev pub Serve : Type 0 → Type 0 → Type 0 → Type 0
Serve S J A = Exec (Conn S J) (Unit {0}) A

module _ {S J : Type 0} where
  abbrev pub respond : (Writer J → Writer J) → Serve S J (Unit {0})
  respond f c = (returns tt, record c { writer = f c.writer })

  abbrev pub call : {A : Type 0} → (S → A × S) → Serve S J A
  call f c = let (a, s) = f c.state in (returns a, record c { state = s })

  abbrev pub query : {A : Type 0} → (S → A) → Serve S J A
  query f c = (returns (f c.state), c)

  -- `http.Error(w, message, code); return`.
  abbrev pub fail : {A : Type 0} → String → ℕ → Serve S J A
  fail message code c = (fails tt, record c { writer = Http.error message code c.writer })

  -- `if err != nil { …; return }`.
  abbrev pub or_fail : {E A : Type 0} → Result E A → (E → Serve S J A) → Serve S J A
  or_fail (ok a) f = λ c. (returns a, c)
  or_fail (err e) f = f e

  abbrev pub set_json : Serve S J (Unit {0})
  set_json = respond (Http.set_header "Content-Type" "application/json")

  abbrev pub serve : {A : Type 0} → Serve S J A → S → Outcome (Unit {0}) A × Conn S J
  serve m s = m (record { state = s; writer = fresh })

  -- The status that the client sees, if it sees one.
  abbrev pub seen : {A : Type 0} → Outcome (Unit {0}) A × Conn S J → Option ℕ
  seen (returns a, c) = some (status_of c.writer)
  seen (fails e, c) = some (status_of c.writer)
  seen (panics, c) = none
