-- ===== src/Tests/Quantities.antt =====
-- An order of three thousand million coffees.
use ss2025_web.Base.{ℕ, ◌≡◌, refl, Bool, true, List, [], ◌∷◌, ok, err, Has, here, later, arith}
use ss2025_web.Base.Word.{Float64, as_i32, negsuc, pos}
use ss2025_web.Http.Handler.{run}
use ss2025_web.Gateway.{Json}
use ss2025_web.Gateway.Orders.{ItemBody, OrderBody}
use ss2025_web.Gateway.Routes.{Endpoint, Request, handle}
use ss2025_web.Gateway.Seen.{seen}
use ss2025_web.Spec.{Line, tab, shows, priced}
use ss2025_web.System.{gateway_clients}
use ss2025_web.System.Quantities.{create_order_negative}
use ss2025_web.Tests.Fixtures.{codes, deployment, deployment-IsLawful, cafe, pema}

abbrev marshals : Json → Bool
marshals v = true

abbrev heap : ItemBody
heap = record { menu_item_id = 1; quantity = 3000000000 }

abbrev huge : OrderBody
huge = record { user_id = 1; items = record { menu_item_id = 1; quantity = 2 } ∷ heap ∷ [] }

abbrev huge_request : Request
huge_request = record { id = ""; user_body = err ""; item_body = err ""; order_body = ok huge }

abbrev lines : List Line
lines = (1, pos 2, 4612811918334230528) ∷ (1, negsuc 1294967295, 4612811918334230528) ∷ []

create_order_negative_example :
    ((i : ℕ) × (seen
          (run
            (handle codes (gateway_clients deployment) marshals Endpoint.create_order huge_request)
            cafe).writer
        ≡ shows 201 (tab i (1, "pending", lines))))
    × ((price : Float64) × Has (1, negsuc 1294967295, price) lines)
unfolding priced as_i32
create_order_negative_example =
    create_order_negative deployment deployment-IsLawful marshals (λ v. refl) huge_request huge pema
      lines heap cafe (omega arith, ((omega arith, omega arith), ((omega arith, omega arith), tt)))
      refl refl (λ row. (_, _, refl)) (later (here refl)) (omega arith)
