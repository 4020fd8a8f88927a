-- ===== src/Http.antt =====
-- net/http as the handlers use it: the response writer, `http.Error`, and a handler as a
-- computation that may return early.
pub mod Handler
pub mod Serve
pub mod Reply
use Prim.Native.String.{String}
use ss2025_web.Base.{ℕ, Bool, Option, none, some, List, [], ◌∷◌, ◌++◌, if◌then◌else◌}
use text.Mathlib.Text.{◌==◌}

abbrev pub status_ok : ℕ
status_ok = 200

abbrev pub status_created : ℕ
status_created = 201

abbrev pub status_bad_request : ℕ
status_bad_request = 400

abbrev pub status_unauthorized : ℕ
status_unauthorized = 401

abbrev pub status_forbidden : ℕ
status_forbidden = 403

abbrev pub status_not_found : ℕ
status_not_found = 404

abbrev pub status_conflict : ℕ
status_conflict = 409

abbrev pub status_precondition_failed : ℕ
status_precondition_failed = 412

abbrev pub status_internal_server_error : ℕ
status_internal_server_error = 500

abbrev pub status_not_implemented : ℕ
status_not_implemented = 501

abbrev pub status_service_unavailable : ℕ
status_service_unavailable = 503

-- One write to the body: a text, or the bytes that Marshal makes of a value.
pub data Chunk (J : Type 0) : Type 0 where
  plain : String → Chunk J
  json : J → Chunk J

-- `sent` is the status with the headers that went out with it; a header set later is not sent.
pub record Writer (J : Type 0) : Type 0 where
  pub header : List (String × String)
  pub sent : Option (ℕ × List (String × String))
  pub body : List (Chunk J)

abbrev pub fresh : {J : Type 0} → Writer J
fresh = record { header = []; sent = none; body = [] }

-- `Header().Set`.
abbrev pub set : String → String → List (String × String) → List (String × String)
set k v [] = (k, v) ∷ []
set k v ((j, w) ∷ h) = if j == k then (k, v) ∷ h else (j, w) ∷ set k v h

module _ {J : Type 0} where
  abbrev pub set_header : String → String → Writer J → Writer J
  set_header k v w = record w { header = set k v w.header }

  -- Only the first call counts.
  abbrev pub write_header : ℕ → Writer J → Writer J
  write_header code w = record w {
    sent = elim w.sent [ none ↦ some (code, w.header) | some s ↦ some s ];
  }

  -- A write with no status sends 200 first.
  abbrev pub write : Chunk J → Writer J → Writer J
  write c w = let w' = write_header status_ok w in record w' { body = w'.body ++ c ∷ [] }

  -- `http.Error(w, message, code)`.
  abbrev pub error : String → ℕ → Writer J → Writer J
  error message code w = write (plain message) (
      write_header code (
        set_header "X-Content-Type-Options" "nosniff"
          (set_header "Content-Type" "text/plain; charset=utf-8" w)))

  -- `json.NewEncoder(w).Encode(v)` with its error ignored: a value that cannot be marshalled writes
  -- nothing.
  abbrev pub encode : (J → Bool) → J → Writer J → Writer J
  encode marshals v w = if marshals v then write (json v) w else w

  -- The status that the client sees: a handler that ends without a status sends 200.
  abbrev pub status_of : Writer J → ℕ
  status_of w = elim w.sent [ none ↦ status_ok | some (code, _) ↦ code ]
