-- ===== src/Tests/Menus.antt =====
-- A menu item that is posted, and read after an order of it.
use mathlib.Core.Path.{subst}
use ss2025_web.Base.{◌≡◌, refl, Bool, true, [], ◌∷◌, ok, err, arith}
use ss2025_web.Base.Word.{to_u32}
use ss2025_web.Base.Decimal.{decimal, parse_uint32-decimal}
use ss2025_web.Menu.Server as MenuServer
use ss2025_web.Gateway.Items as GatewayItems
use ss2025_web.Gateway.{Json}
use ss2025_web.Gateway.Items.{MenuItemBody}
use ss2025_web.Gateway.Orders.{OrderBody}
use ss2025_web.Gateway.Requests.{IsUint32}
use ss2025_web.Gateway.Routes.{Endpoint, Request, handle}
use ss2025_web.Gateway.Seen.{seen, IsTyped}
use ss2025_web.Spec.{Dish, dish, shows}
use ss2025_web.Spec.Server.{serve_all}
use ss2025_web.Spec.Dishes.{IsOnMenu}
use ss2025_web.System.Sessions.{serve, gateway}
use ss2025_web.System.Menus.{get_menu-serve_all}
use ss2025_web.Tests.Fixtures.{deployment, deployment-IsLawful, Cafe, cafe}

abbrev marshals : Json → Bool
marshals v = true

abbrev tea_dish : Dish
tea_dish = ("Tea", "Butter tea", 4609434218613702656)

abbrev tea_body : MenuItemBody
tea_body = record { name = "Tea"; description = "Butter tea"; price = 4609434218613702656 }

abbrev three_teas : OrderBody
three_teas = record { user_id = 1; items = record { menu_item_id = 2; quantity = 3 } ∷ [] }

abbrev tea : Request
tea = record { id = "2"; user_body = err ""; item_body = ok tea_body; order_body = ok three_teas }

tea_posted :
    seen (serve deployment marshals Endpoint.create_menu_item tea cafe).writer
    ≡ shows 201 (dish 2 tea_dish)
unfolding handle GatewayItems.create_menu_item MenuServer.create_menu_item MenuServer.model_to_proto
    to_u32
tea_posted = refl

tea-IsTyped : IsTyped Endpoint.create_order tea
tea-IsTyped b e =
    let same : three_teas ≡ b = ground arith in
    subst IsUint32 same (omega arith, ((omega arith, omega arith), tt))

abbrev evening : Cafe
evening =
    (serve_all (gateway deployment marshals) ((Endpoint.create_order, tea) ∷ [])
      (serve deployment marshals Endpoint.create_menu_item tea cafe).state).1

get_menu-serve_all_example :
    (tea_dish ≡ ("Tea", "Butter tea", 4609434218613702656))
    × (seen (serve deployment marshals Endpoint.get_menu_item tea evening).writer
        ≡ shows 200 (dish 2 tea_dish))
    × IsOnMenu 2 tea_dish (seen (serve deployment marshals Endpoint.get_menu tea evening).writer)
unfolding decimal
get_menu-serve_all_example =
    get_menu-serve_all deployment marshals deployment-IsLawful (λ v. refl) tea tea_body
      ((Endpoint.create_order, tea) ∷ []) tea 2 tea_dish cafe refl tea_posted (tea-IsTyped, tt)
      (parse_uint32-decimal 2 (omega arith))
