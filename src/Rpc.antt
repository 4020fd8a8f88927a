-- ===== src/Rpc.antt =====
-- gRPC as the services use it. The `status` package is not part of the repository: its errors and
-- its two functions are a parameter.
pub mod Inversion
use Prim.Native.String.{String}
use ss2025_web.Base.{ℕ, ◌≡◌, arith, ap, ◌∙◌, Option, none, some, Result}

-- google.golang.org/grpc/codes; `other` is a number that has no name there.
pub data Code : Type 0 where
  ok canceled unknown invalid_argument deadline_exceeded not_found already_exists : Code
  permission_denied resource_exhausted failed_precondition aborted out_of_range : Code
  unimplemented internal unavailable data_loss unauthenticated : Code
  other : ℕ → Code

-- `errorf` is `status.Errorf` of a formatted message, `from_error` is `status.FromError` (`none` when
-- its second result is false) and `text_of` is the error's `Error()`.
pub record Status (Err : Type 0) : Type 0 where
  pub errorf : Code → String → Err
  pub from_error : Err → Option (Code × String)
  pub text_of : Err → String

-- What the package documents: a status error gives back its code and message.
pub record IsStatus {Err : Type 0} (st : Status Err) : Type 0 where
  pub from-errorf : (c : Code) (m : String) → st.from_error (st.errorf c m) ≡ some (c, m)

-- How a call ends; `panic` is a nil dereference inside the callee.
pub data Outcome (Err A : Type 0) : Type 0 where
  returns : A → Outcome Err A
  fails : Err → Outcome Err A
  panics : Outcome Err A

-- A remote procedure over the state behind it.
abbrev pub Rpc : Type 0 → Type 0 → Type 0 → Type 0 → Type 0
Rpc S Err Req Resp = Req → S → Outcome Err Resp × S

-- A remote procedure as its caller sees it: a response, or an error. A procedure that panics has
-- lost its connection.
abbrev pub Call : Type 0 → Type 0 → Type 0 → Type 0 → Type 0
Call S Err Req Resp = Req → S → Result Err Resp × S

abbrev pub dial : {S Err Req Resp : Type 0} → Err → Rpc S Err Req Resp → Call S Err Req Resp
dial lost rpc req s =
    let (r, s') = rpc req s in
    elim r [
      | returns a ↦ (Result.ok a, s')
      | fails e ↦ (Result.err e, s')
      | panics ↦ (Result.err lost, s')
    ]

-- The body of a procedure that has read its request.
abbrev pub Exec : Type 0 → Type 0 → Type 0 → Type 0
Exec S Err A = S → Outcome Err A × S

module _ {S Err : Type 0} where
  infixl 10 ◌>>=◌ ◌>>◌
  abbrev pub ◌>>=◌ : {A B : Type 0} → Exec S Err A → (A → Exec S Err B) → Exec S Err B
  ◌>>=◌ m f s =
      let (r, s') = m s in
      elim r [ returns a ↦ f a s' | fails e ↦ (fails e, s') | panics ↦ (panics, s') ]

  abbrev pub ◌>>◌ : {A B : Type 0} → Exec S Err A → Exec S Err B → Exec S Err B
  m >> k = m >>= λ _. k

  abbrev pub pure : {A : Type 0} → A → Exec S Err A
  pure a s = (returns a, s)

  abbrev pub raise : {A : Type 0} → Err → Exec S Err A
  raise e s = (fails e, s)

  -- A call on the state behind the server.
  abbrev pub call : {A : Type 0} → (S → A × S) → Exec S Err A
  call f s = let (a, s') = f s in (returns a, s')

  abbrev pub query : {A : Type 0} → (S → A) → Exec S Err A
  query f s = (returns (f s), s)

  -- `if err != nil { return nil, … }`.
  abbrev pub or_raise : {E A : Type 0} → Result E A → (E → Err) → Exec S Err A
  or_raise (Result.ok a) f = pure a
  or_raise (Result.err e) f = raise (f e)

  -- A call of another service, and `if err != nil { return nil, … }`.
  abbrev pub on_error : {A : Type 0} → (S → Result Err A × S) → (Err → Err) → Exec S Err A
  on_error m f s =
      let (r, s') = m s in
      elim r [ Result.ok a ↦ (returns a, s') | Result.err e ↦ (fails (f e), s') ]

  -- A field of a message behind a pointer.
  abbrev pub deref : {A : Type 0} → Option A → Exec S Err A
  deref none = λ s. (panics, s)
  deref (some a) = pure a

-- The code that a receiver reads from an error.
abbrev pub code_of : {Err : Type 0} → Status Err → Err → Option Code
code_of st e = elim (st.from_error e) [ none ↦ none | some (c, _) ↦ some c ]

pub code_of-errorf :
    {Err : Type 0} {st : Status Err}
    → IsStatus st
    → (c : Code) (m : String) → code_of st (st.errorf c m) ≡ some c
code_of-errorf is c m = ground (arith, is.from-errorf c m)

pub code_of_eq :
    {Err : Type 0} {st : Status Err}
    → IsStatus st
    → (c : Code) (m : String) {e : Err} → e ≡ st.errorf c m
    → code_of st e ≡ some c
code_of_eq {st} is c m h = ap (code_of st) h ∙ code_of-errorf is c m
