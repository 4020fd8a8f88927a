-- ===== src/Tests/Monolith.antt =====
-- A run of the monolith beside the abstract cafe.
use ss2025_web.Base.{sym, map, ◌≡◌, some, arith, ℕ, refl, Bool, true, false, List, [], ◌∷◌, ok}
use ss2025_web.Base.Word.{pos}
use ss2025_web.Gorm.{zero_model}
use ss2025_web.Gorm.Memory.{memory, memory-IsTable, memory-by_key}
use ss2025_web.Menu.{MenuItem}
use ss2025_web.Order.{Order}
use ss2025_web.Http.Handler.{run}
use ss2025_web.Rest.{Value, Customer, OrderBody}
use ss2025_web.Rest.Monolith as Monolith
use ss2025_web.Rest.Cafe.{
  post_user, get_orders, read, body_wish, IsPlain, Database, new_order, visit, rows_of, IsLawful,
  customer_model, customer_account,
}
use ss2025_web.Rest.Refines.{visit_refines}
use ss2025_web.Spec.{Serves, add_user, account, place, shows, tab, Tab, Line, priced}
use ss2025_web.Spec.Server.{serve_all, IsListed}
use ss2025_web.Rest.Sessions as Sessions
use ss2025_web.Rest.Sessions.{get_orders-visits, visits-IsDistinct}
use ss2025_web.Spec.Fresh.{IsDistinct}
use ss2025_web.System.Lens.{World}
use ss2025_web.Tests.Fixtures.{item_rows, item_rows-IsTable, order_rows, order_rows-IsTable, coffee}

abbrev marshals : Value → Bool
marshals v = true

abbrev customer_id : Customer → ℕ
customer_id u = u.model.id

abbrev put_customer : ℕ → Customer → Customer
put_customer i u = record u {
  model = record { id = i; created_at = 7; updated_at = 7; deleted_at = u.model.deleted_at };
}

abbrev monolith : Database (List Customer) (List MenuItem) (List Order)
monolith = record { users = memory customer_id put_customer; menu = item_rows; orders = order_rows }

monolith-IsLawful : IsLawful monolith
monolith-IsLawful = record {
  users =
      memory-IsTable customer_model put_customer customer_account (λ i m. refl) (λ i m. refl) [];
  menu = item_rows-IsTable;
  orders = order_rows-IsTable;
  by_key = memory-by_key customer_id put_customer;
}

abbrev sonam : Customer
sonam = put_customer 1 (record { model = zero_model; name = "Sonam"; email = "sonam@cafe.bt" })

abbrev shop : World (List Customer) (List MenuItem) (List Order)
shop = record { users = sonam ∷ []; menu = coffee ∷ []; orders = [] }

abbrev two_coffees : OrderBody
two_coffees = record { user_id = 1; items = record { menu_item_id = 1; quantity = pos 2 } ∷ [] }

abbrev coffee_tab : Tab
coffee_tab = (1, "pending", (1, pos 2, 4612811918334230528) ∷ [])

visit_refines_example :
    Serves
      (place 1 ((1, pos 2) ∷ []))
      (rows_of monolith shop)
      (shows 201 (tab 1 coffee_tab))
      (rows_of monolith (run (visit monolith marshals (new_order (ok two_coffees))) shop).state)
unfolding visit Monolith.create_order Monolith.add_items
visit_refines_example =
    visit_refines monolith monolith-IsLawful marshals (λ v. refl) (new_order (ok two_coffees)) shop
      tt

placed :
    read (run (visit monolith marshals (new_order (ok two_coffees))) shop).writer
    ≡ shows 201 (tab 1 coffee_tab)
unfolding visit Monolith.create_order Monolith.add_items
placed = refl

abbrev next_day : World (List Customer) (List MenuItem) (List Order)
next_day =
    (serve_all (Sessions.monolith monolith marshals) (post_user (ok sonam) ∷ [])
      (run (visit monolith marshals (new_order (ok two_coffees))) shop).state).1

sonam_live : IsPlain (post_user (ok sonam))
sonam_live u e = let same : sonam ≡ u = ground arith in rw (sym same) refl

get_orders-visits_example :
    ((lines : List Line) × (priced (rows_of monolith shop).menu (map body_wish two_coffees.items)
        ≡ some lines)
      × (coffee_tab ≡ (1, "pending", lines)))
    × IsListed 1 coffee_tab (read (run (visit monolith marshals get_orders) next_day).writer)
get_orders-visits_example =
    get_orders-visits monolith marshals monolith-IsLawful (λ v. refl) two_coffees
      (post_user (ok sonam) ∷ []) 1 coffee_tab shop placed (omega arith) (sonam_live, tt)

-- Two orders and a user.
visits-IsDistinct_example : IsDistinct (
    (place 1 ((1, pos 2) ∷ []), shows 201 (tab 1 coffee_tab))
    ∷ (
      add_user ("Sonam", "sonam@cafe.bt", false),
      shows 201 (account 2 ("Sonam", "sonam@cafe.bt", false)),
    )
    ∷ (place 1 ((1, pos 2) ∷ []), shows 201 (tab 2 coffee_tab))
    ∷ [])
unfolding visit Monolith.create_order Monolith.add_items Monolith.create_user
visits-IsDistinct_example =
    visits-IsDistinct monolith marshals monolith-IsLawful (λ v. refl)
      (new_order (ok two_coffees) ∷ post_user (ok sonam) ∷ new_order (ok two_coffees) ∷ []) shop
      (tt, (sonam_live, (tt, tt)))
