-- ===== src/System/Menus.antt =====
-- The menu as the clients of the gateway see it: requests one after the other.
use ss2025_web.Base.{ℕ, ◌≡◌, refl, ap, Bool, true, some, List, All, ok}
use ss2025_web.Base.Decimal.{parse_uint32, parse_uint32-lt}
use ss2025_web.Gateway.{Json}
use ss2025_web.Gateway.Items.{MenuItemBody}
use ss2025_web.Gateway.Routes.{Endpoint, Request}
use ss2025_web.Gateway.Seen.{seen, dish_call, body_call, id_call}
use ss2025_web.Spec.{Dish, dish, shows, show_dish}
use ss2025_web.Spec.Server.{serve_all}
use ss2025_web.Spec.Dishes.{IsOnMenu, dish_added, dish_shown, dish-IsOnMenu}
use ss2025_web.System.Lens.{World}
use ss2025_web.System.{Deployment}
use ss2025_web.System.Lawful.{IsLawful}
use ss2025_web.System.Sessions.{serve, gateway, IsFit, gateway-Implements}

module _ {U M O Err : Type 0} (d : Deployment U M O Err) (marshals : Json → Bool) (law : IsLawful d)
    (all : (v : Json) → marshals v ≡ true) where
  -- In a deployment whose status package and tables meet Rpc.IsStatus and Gorm.IsTable and whose IDs
  -- have 32 bits, while every value can be marshalled: where a POST of a menu item is answered with 201
  -- and shows an item under an ID, the item has the name, the description and the price of the body; and
  -- after any further requests, whose order bodies have `uint32` numbers, a GET of that ID is answered
  -- with 200 and shows that item, and a GET of the menu is answered with 200 and lists that item under
  -- that ID, or is answered with 500 and no value.
  pub get_menu-serve_all :
      (r : Request) (b : MenuItemBody) (requests : List (Endpoint × Request)) (r' : Request) (i : ℕ)
      (u : Dish) (w : World U M O)
      → r.item_body ≡ ok b
      → seen (serve d marshals Endpoint.create_menu_item r w).writer ≡ shows 201 (dish i u)
      → All (IsFit d marshals) requests
      → parse_uint32 r'.id ≡ some i
      → let w' =
          (serve_all
            (gateway d marshals)
            requests
            (serve d marshals Endpoint.create_menu_item r w).state).1 in
        (u ≡ (b.name, b.description, b.price))
        × (seen (serve d marshals Endpoint.get_menu_item r' w').writer ≡ shows 200 (dish i u))
        × IsOnMenu i u (seen (serve d marshals Endpoint.get_menu r' w').writer)
  get_menu-serve_all r b requests r' i u w body shown h id =
      let w' = (serve d marshals Endpoint.create_menu_item r w).state in
      let sound = gateway-Implements d marshals law all in
      let (same, there) =
        dish_added (gateway d marshals) sound (Endpoint.create_menu_item, r)
          (b.name, b.description, b.price) i u w tt (ap (body_call dish_call) body) shown in
      (
        same,
        dish_shown (gateway d marshals) sound requests (Endpoint.get_menu_item, r') i u w' h tt
            (ap (id_call show_dish) id) there,
        dish-IsOnMenu (gateway d marshals) sound requests (Endpoint.get_menu, r') i u w' h tt refl
            (parse_uint32-lt r'.id id) there,
      )
