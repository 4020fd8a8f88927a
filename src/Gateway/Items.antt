-- ===== src/Gateway/Items.antt =====
-- api-gateway/handlers/menu_handlers.go
use Prim.Native.String.{String}
use ss2025_web.Base.Decimal.{parse_uint32}
use ss2025_web.Base.Word.{Float64, to_u32}
use ss2025_web.Base.{Bool, Result}
use ss2025_web.Rpc.{Status}
use ss2025_web.Http.{status_bad_request, status_created}
use ss2025_web.Http.Handler.{Handler, fail, or_fail, or_none, call, respond, set_json, ◌>>=◌, ◌>>◌}
use ss2025_web.Gateway.{ServiceClients, Json, handle_grpc_error}
use ss2025_web.Http.{write_header, encode}

-- The anonymous struct that the body is decoded into.
pub record MenuItemBody : Type 0 where
  pub name : String
  pub description : String
  pub price : Float64

module _ {S Err : Type 0} (st : Status Err) (clients : ServiceClients S Err)
    (marshals : Json → Bool) where
  unfoldable pub create_menu_item : Result String MenuItemBody → Handler S Json (Unit {0})
  create_menu_item body = do
    req ← or_fail body (λ _. fail "invalid request body" status_bad_request)
    answer ← call (
        clients.menu_client.create_menu_item
          (record { name = req.name; description = req.description; price = req.price }))
    resp ← or_fail answer (handle_grpc_error st)
    set_json
    respond (write_header status_created)
    respond (encode marshals (Json.menu_item resp.menu_item))

  -- The parameter is the part `{id}` of the path.
  unfoldable pub get_menu_item : String → Handler S Json (Unit {0})
  get_menu_item id_str = do
    id ← or_none (parse_uint32 id_str) (fail "invalid menu item ID" status_bad_request)
    answer ← call (clients.menu_client.get_menu_item (record { id = to_u32 id }))
    resp ← or_fail answer (handle_grpc_error st)
    set_json
    respond (encode marshals (Json.menu_item resp.menu_item))

  unfoldable pub get_menu : Handler S Json (Unit {0})
  get_menu = do
    answer ← call (clients.menu_client.get_menu (record {}))
    resp ← or_fail answer (handle_grpc_error st)
    set_json
    respond (encode marshals (Json.menu_items resp.menu_items))
