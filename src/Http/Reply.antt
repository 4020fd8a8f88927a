-- ===== src/Http/Reply.antt =====
-- The two replies that the handlers give, written out.
use Prim.Native.String.{String}
use ss2025_web.Base.{ℕ, ◌≤◌, ◌≡◌, some, [], ◌∷◌}
use ss2025_web.Http.{Writer, plain, json}

-- A JSON value under a status.
abbrev pub json_reply : {J : Type 0} → ℕ → J → Writer J
json_reply code v =
    let header = ("Content-Type", "application/json") ∷ [] in
    record { header = header; sent = some (code, header); body = json v ∷ [] }

-- What `http.Error` sends.
abbrev pub error_reply : {J : Type 0} → String → ℕ → Writer J
error_reply message code =
    let header =
      ("Content-Type", "text/plain; charset=utf-8") ∷ ("X-Content-Type-Options", "nosniff") ∷ [] in
    record { header = header; sent = some (code, header); body = plain message ∷ [] }

-- One reply was sent, whole: a JSON value under 200 or 201, or a message under an error status.
pub data Replied {J : Type 0} (w : Writer J) : Type 0 where
  fetched : (v : J) → w ≡ json_reply 200 v → Replied w
  created : (v : J) → w ≡ json_reply 201 v → Replied w
  refused : (message : String) (code : ℕ) → 400 ≤ code → w ≡ error_reply message code → Replied w
