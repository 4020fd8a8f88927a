-- ===== src/Gateway/Codes.antt =====
-- The translation of gRPC codes to HTTP statuses.
use ss2025_web.Base.{ℕ, ◌≤◌, ◌≡◌, ◌≢◌, refl, sym, ap, ◌∙◌, arith, ◌==◌, if◌then◌else◌}
use ss2025_web.Rpc.{Code}
use ss2025_web.Gateway.{http_status}

-- The gRPC code that a status below or above 500 stands for.
abbrev code_for : ℕ → Code
code_for n =
    if n == 404
    then Code.not_found
    else if n == 400
    then Code.invalid_argument
    else if n == 409
    then Code.already_exists
    else if n == 403
    then Code.permission_denied
    else if n == 401
    then Code.unauthenticated
    else if n == 412
    then Code.failed_precondition
    else if n == 501
    then Code.unimplemented
    else if n == 503
    then Code.unavailable
    else Code.internal

code_for-http_status : (c : Code) → http_status c ≢ 500 → code_for (http_status c) ≡ c
code_for-http_status Code.not_found h = refl
code_for-http_status Code.invalid_argument h = refl
code_for-http_status Code.already_exists h = refl
code_for-http_status Code.permission_denied h = refl
code_for-http_status Code.unauthenticated h = refl
code_for-http_status Code.failed_precondition h = refl
code_for-http_status Code.unimplemented h = refl
code_for-http_status Code.unavailable h = refl
code_for-http_status _ h = absurd (h refl)

-- A status other than 500 tells the gRPC code that it came from.
pub http_status_injective :
    (c d : Code) → http_status c ≢ 500 → http_status c ≡ http_status d → c ≡ d
http_status_injective c d h e =
    sym (code_for-http_status c h) ∙ ap code_for e ∙ code_for-http_status d (λ k. h (e ∙ k))

-- Every gRPC error is answered as a client or a server error.
pub http_status_bounds : (c : Code) → (400 ≤ http_status c) × (http_status c ≤ 503)
http_status_bounds Code.not_found = omega arith
http_status_bounds Code.invalid_argument = omega arith
http_status_bounds Code.already_exists = omega arith
http_status_bounds Code.permission_denied = omega arith
http_status_bounds Code.unauthenticated = omega arith
http_status_bounds Code.failed_precondition = omega arith
http_status_bounds Code.unimplemented = omega arith
http_status_bounds Code.unavailable = omega arith
http_status_bounds _ = omega arith
