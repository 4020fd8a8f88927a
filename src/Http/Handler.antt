-- ===== src/Http/Handler.antt =====
-- A handler's body. It has the state behind the handler and the response writer, and may return
-- before its end (`none`).
use Prim.Native.String.{String}
use ss2025_web.Base.{ℕ, Option, none, some, Result, ok, err}
use ss2025_web.Http
use ss2025_web.Http.{Writer}

pub record Conn (S J : Type 0) : Type 0 where
  pub state : S
  pub writer : Writer J

abbrev pub Handler : Type 0 → Type 0 → Type 0 → Type 0
Handler S J A = Conn S J → Option A × Conn S J

module _ {S J : Type 0} where
  infixl 10 ◌>>=◌ ◌>>◌
  abbrev pub ◌>>=◌ : {A B : Type 0} → Handler S J A → (A → Handler S J B) → Handler S J B
  ◌>>=◌ m f c = let (r, c') = m c in elim r [ none ↦ (none, c') | some a ↦ f a c' ]

  abbrev pub ◌>>◌ : {A B : Type 0} → Handler S J A → Handler S J B → Handler S J B
  m >> k = m >>= λ _. k

  abbrev pub pure : {A : Type 0} → A → Handler S J A
  pure a c = (some a, c)

  -- A call on the response writer.
  abbrev pub respond : (Writer J → Writer J) → Handler S J (Unit {0})
  respond f c = (some tt, record c { writer = f c.writer })

  -- A call on the state behind the handler.
  abbrev pub call : {A : Type 0} → (S → A × S) → Handler S J A
  call f c = let (a, s) = f c.state in (some a, record c { state = s })

  abbrev pub query : {A : Type 0} → (S → A) → Handler S J A
  query f c = (some (f c.state), c)

  -- `http.Error(w, message, code); return`.
  abbrev pub fail : {A : Type 0} → String → ℕ → Handler S J A
  fail message code c = (none, record c { writer = Http.error message code c.writer })

  -- `if err != nil { …; return }`.
  abbrev pub or_fail : {E A : Type 0} → Result E A → (E → Handler S J A) → Handler S J A
  or_fail (ok a) f = pure a
  or_fail (err e) f = f e

  abbrev pub or_none : {A : Type 0} → Option A → Handler S J A → Handler S J A
  or_none (some a) f = pure a
  or_none none f = f

  abbrev pub set_json : Handler S J (Unit {0})
  set_json = respond (Http.set_header "Content-Type" "application/json")

  -- The connection after the handler.
  abbrev pub run : {A : Type 0} → Handler S J A → S → Conn S J
  run m s = (m (record { state = s; writer = Http.fresh })).1
