-- ===== src/Gateway/Relay.antt =====
-- The handlers of the gateway, compared with what their endpoints promise.
use mathlib.Core.List.{List, []}
use ss2025_web.Base.{
  String, Result-cases, ℕ, ◌≡◌, refl, ap, ◌∙◌, Bool, true, Option, none, some, Result, ok, err,
  arith, Option-cases, inl, inr,
}
use ss2025_web.Gateway.Users.{UserBody}
use ss2025_web.Gateway.{Status, ServiceClients, Json, handle_grpc_error}
use ss2025_web.Http.Handler.{run, call, or_fail, set_json, respond, ◌>>=◌, ◌>>◌}
use ss2025_web.Http.{write_header, encode}
use ss2025_web.Base.Word.{to_u32, to_u32_small}
use ss2025_web.Base.Decimal.{parse_uint32, parse_uint32-lt}
use ss2025_web.User.{CreateUserResponse, GetUserResponse, GetUsersResponse}
use ss2025_web.Menu.{CreateMenuItemResponse, GetMenuItemResponse, GetMenuResponse}
use ss2025_web.Order.{CreateOrderResponse, GetOrderResponse, GetOrdersResponse, OrderItemRequest}
use ss2025_web.Gateway.Routes.{Endpoint, Request, handle}
use ss2025_web.Gateway.Items.{MenuItemBody}
use ss2025_web.Gateway.Orders.{OrderBody, ItemBody, item_request, convert_items}
use ss2025_web.Gateway.Users
use ss2025_web.Gateway.Items
use ss2025_web.Gateway.Orders
use ss2025_web.Gateway.Promise.{relay, convert_items-map, promised}

module _ {S Err : Type 0} (st : Status Err) (marshals : Json → Bool)
    (all : (v : Json) → marshals v ≡ true) where
  module _ {A : Type 0} (v : A → Json) (m : S → Result Err A × S) (s : S) where
    relay_created :
        run
          (do
            answer ← call m
            resp ← or_fail answer (handle_grpc_error st)
            set_json
            respond (write_header 201)
            respond (encode marshals (v resp)))
          s
        ≡ relay st 201 v (m s)
    unfolding handle_grpc_error
    relay_created = elim (Result-cases (m s).0) [
      | inl (a, e) ↦ ground (arith, all (v a))
      | inr (d, e) ↦ elim (Option-cases (st.from_error d)) [
        | inl k ↦ ground arith
        | inr (c, k) ↦ ground arith
      ]
    ]

    relay_fetched :
        run
          (do
            answer ← call m
            resp ← or_fail answer (handle_grpc_error st)
            set_json
            respond (encode marshals (v resp)))
          s
        ≡ relay st 200 v (m s)
    unfolding handle_grpc_error
    relay_fetched = elim (Result-cases (m s).0) [
      | inl (a, e) ↦ ground (arith, all (v a))
      | inr (d, e) ↦ elim (Option-cases (st.from_error d)) [
        | inl k ↦ ground arith
        | inr (c, k) ↦ ground arith
      ]
    ]

  module _ (clients : ServiceClients S Err) where
    create_user-relays :
        (b : Result String UserBody) (r : Request) (s : S)
        → r.user_body ≡ b
        → run (Users.create_user st clients marshals b) s
          ≡ promised st clients Endpoint.create_user r s
    unfolding Users.create_user
    create_user-relays (ok b) r s e = rw e (
        relay_created (λ (a : CreateUserResponse). Json.user a.user)
          (clients.user_client.create_user
            (record { name = b.name; email = b.email; is_cafe_owner = b.is_cafe_owner }))
          s)
    create_user-relays (err m) r s e = rw e

    get_user-relays :
        (o : Option ℕ) (r : Request) (s : S)
        → parse_uint32 r.id ≡ o
        → run (Users.get_user st clients marshals r.id) s
          ≡ promised st clients Endpoint.get_user r s
    unfolding Users.get_user
    get_user-relays none r s e = rw e
    get_user-relays (some n) r s e = rw e (
        relay_fetched (λ (a : GetUserResponse). Json.user a.user)
          (clients.user_client.get_user (record { id = to_u32 n })) s
        ∙ ap
            (λ (k : ℕ).
              relay st 200 (λ (a : GetUserResponse). Json.user a.user)
                (clients.user_client.get_user (record { id = k }) s))
            (to_u32_small n (parse_uint32-lt r.id e)))

    get_users-relays :
        (r : Request) (s : S)
        → run (Users.get_users st clients marshals) s ≡ promised st clients Endpoint.get_users r s
    unfolding Users.get_users
    get_users-relays r s =
        relay_fetched (λ (a : GetUsersResponse). Json.users a.users)
          (clients.user_client.get_users (record {})) s

    create_menu_item-relays :
        (b : Result String MenuItemBody) (r : Request) (s : S)
        → r.item_body ≡ b
        → run (Items.create_menu_item st clients marshals b) s
          ≡ promised st clients Endpoint.create_menu_item r s
    unfolding Items.create_menu_item
    create_menu_item-relays (ok b) r s e = rw e (
        relay_created (λ (a : CreateMenuItemResponse). Json.menu_item a.menu_item)
          (clients.menu_client.create_menu_item
            (record { name = b.name; description = b.description; price = b.price }))
          s)
    create_menu_item-relays (err m) r s e = rw e

    get_menu_item-relays :
        (o : Option ℕ) (r : Request) (s : S)
        → parse_uint32 r.id ≡ o
        → run (Items.get_menu_item st clients marshals r.id) s
          ≡ promised st clients Endpoint.get_menu_item r s
    unfolding Items.get_menu_item
    get_menu_item-relays none r s e = rw e
    get_menu_item-relays (some n) r s e = rw e (
        relay_fetched (λ (a : GetMenuItemResponse). Json.menu_item a.menu_item)
          (clients.menu_client.get_menu_item (record { id = to_u32 n })) s
        ∙ ap
            (λ (k : ℕ).
              relay st 200 (λ (a : GetMenuItemResponse). Json.menu_item a.menu_item)
                (clients.menu_client.get_menu_item (record { id = k }) s))
            (to_u32_small n (parse_uint32-lt r.id e)))

    get_menu-relays :
        (r : Request) (s : S)
        → run (Items.get_menu st clients marshals) s ≡ promised st clients Endpoint.get_menu r s
    unfolding Items.get_menu
    get_menu-relays r s =
        relay_fetched (λ (a : GetMenuResponse). Json.menu_items a.menu_items)
          (clients.menu_client.get_menu (record {})) s

    create_order-relays :
        (b : Result String OrderBody) (r : Request) (s : S)
        → r.order_body ≡ b
        → run (Orders.create_order st clients marshals b) s
          ≡ promised st clients Endpoint.create_order r s
    unfolding Orders.create_order
    create_order-relays (ok b) r s e = rw e (
        relay_created (λ (a : CreateOrderResponse). Json.order a.order)
          (clients.order_client.create_order
            (record { user_id = b.user_id; items = convert_items [] b.items }))
          s
        ∙ ap
            (λ (l : List OrderItemRequest).
              relay st 201 (λ (a : CreateOrderResponse). Json.order a.order)
                (clients.order_client.create_order (record { user_id = b.user_id; items = l }) s))
            (convert_items-map [] b.items))
    create_order-relays (err m) r s e = rw e

    get_order-relays :
        (o : Option ℕ) (r : Request) (s : S)
        → parse_uint32 r.id ≡ o
        → run (Orders.get_order st clients marshals r.id) s
          ≡ promised st clients Endpoint.get_order r s
    unfolding Orders.get_order
    get_order-relays none r s e = rw e
    get_order-relays (some n) r s e = rw e (
        relay_fetched (λ (a : GetOrderResponse). Json.order a.order)
          (clients.order_client.get_order (record { id = to_u32 n })) s
        ∙ ap
            (λ (k : ℕ).
              relay st 200 (λ (a : GetOrderResponse). Json.order a.order)
                (clients.order_client.get_order (record { id = k }) s))
            (to_u32_small n (parse_uint32-lt r.id e)))

    get_orders-relays :
        (r : Request) (s : S)
        → run (Orders.get_orders st clients marshals) s
          ≡ promised st clients Endpoint.get_orders r s
    unfolding Orders.get_orders
    get_orders-relays r s =
        relay_fetched (λ (a : GetOrdersResponse). Json.orders a.orders)
          (clients.order_client.get_orders (record {})) s

    -- While every value can be marshalled, every handler does what its endpoint promises: it turns
    -- a body or an ID that does not decode away with nothing done, and otherwise makes one remote
    -- call, with the values of the request, and relays its result.
    pub handle_relays :
        (e : Endpoint) (r : Request) (s : S)
        → run (handle st clients marshals e r) s ≡ promised st clients e r s
    unfolding handle
    handle_relays Endpoint.create_user r s = create_user-relays r.user_body r s refl
    handle_relays Endpoint.get_user r s = get_user-relays (parse_uint32 r.id) r s refl
    handle_relays Endpoint.get_users r s = get_users-relays r s
    handle_relays Endpoint.create_menu_item r s = create_menu_item-relays r.item_body r s refl
    handle_relays Endpoint.get_menu_item r s = get_menu_item-relays (parse_uint32 r.id) r s refl
    handle_relays Endpoint.get_menu r s = get_menu-relays r s
    handle_relays Endpoint.create_order r s = create_order-relays r.order_body r s refl
    handle_relays Endpoint.get_order r s = get_order-relays (parse_uint32 r.id) r s refl
    handle_relays Endpoint.get_orders r s = get_orders-relays r s
