-- ===== src/Tests/Services.antt =====
-- The user server and the menu server at the tables in memory.
use ss2025_web.Base.{
  ◌^◌, ℕ, ◌≡◌, ◌<◌, ◌↔◌, refl, true, false, Option, some, none, List, [], ◌∷◌, map, ok, err,
}
use mathlib.Core.List.{Perm}
use ss2025_web.Gorm.{record_not_found}
use ss2025_web.Rpc.{returns, fails, code_of, internal, not_found}
use ss2025_web.User.{User, UserMessage, CreateUserRequest, CreateUserResponse, GetUsersResponse}
use ss2025_web.User.Server.{create_user, get_user, get_users, get_user_error, model_to_proto}
use ss2025_web.User.RoundTrip.{Carries, get_user-create_user}
use ss2025_web.User.Errors.{listed, get_user_errors, get_users-create_user}
use ss2025_web.Menu.{
  MenuItem, MenuItemMessage, CreateMenuItemRequest, CreateMenuItemResponse, GetMenuResponse,
}
use ss2025_web.Menu.Server as MenuServer
use ss2025_web.Menu.RoundTrip as MenuTrip
use ss2025_web.Menu.Errors as MenuErrors
use ss2025_web.Tests.Fixtures.{
  codes, codes-IsStatus, clock, user_rows, user_rows-IsTable, user_rows_fit, item_rows,
  item_rows-IsTable, item_rows_fit, pema, coffee,
}

abbrev dorji_request : CreateUserRequest
dorji_request = record { name = "Dorji"; email = "dorji@cafe.bt"; is_cafe_owner = false }

abbrev dorji : User
dorji = record {
  model = record { id = 2; created_at = 7; updated_at = 7; deleted_at = none };
  name = "Dorji";
  email = "dorji@cafe.bt";
  is_cafe_owner = false;
}

abbrev dorji_answer : CreateUserResponse
dorji_answer = record { user = some (model_to_proto clock dorji) }

dorji_created :
    create_user codes user_rows clock dorji_request (pema ∷ [])
    ≡ (returns dorji_answer, dorji ∷ pema ∷ [])
unfolding create_user
dorji_created = refl

get_user-create_user_example :
    (msg msg' : UserMessage) × (dorji_answer.user ≡ some msg)
    × Carries dorji_request msg
    × (get_user codes user_rows clock (record { id = msg.id }) (dorji ∷ pema ∷ [])
        ≡ (returns (record { user = some msg' }), dorji ∷ pema ∷ []))
    × (msg'.id ≡ msg.id)
    × Carries dorji_request msg'
    × (msg.id < 2 ^ 32)
get_user-create_user_example =
    get_user-create_user codes user_rows clock user_rows-IsTable user_rows_fit dorji_request
      (pema ∷ []) (dorji ∷ pema ∷ []) dorji_answer dorji_created

abbrev before_users : GetUsersResponse
before_users = record { users = model_to_proto clock pema ∷ [] }

abbrev after_users : GetUsersResponse
after_users = record { users = model_to_proto clock dorji ∷ model_to_proto clock pema ∷ [] }

users_before :
    get_users codes user_rows clock (record {}) (pema ∷ []) ≡ (returns before_users, pema ∷ [])
unfolding get_users
users_before = refl

users_after :
    get_users codes user_rows clock (record {}) (dorji ∷ pema ∷ [])
    ≡ (returns after_users, dorji ∷ pema ∷ [])
unfolding get_users
users_after = refl

get_users-create_user_example :
    Perm
      (map listed after_users.users)
      (("Dorji", "dorji@cafe.bt", false) ∷ map listed before_users.users)
get_users-create_user_example =
    get_users-create_user codes user_rows clock user_rows-IsTable dorji_request (pema ∷ [])
      (dorji ∷ pema ∷ []) (pema ∷ []) (dorji ∷ pema ∷ []) dorji_answer before_users after_users
      dorji_created users_before users_after

nobody :
    get_user codes user_rows clock (record { id = 9 }) (pema ∷ [])
    ≡ (fails (not_found, "user not found"), pema ∷ [])
unfolding get_user get_user_error
nobody = refl

get_user_errors_example :
    ((pema ∷ []) ≡ (pema ∷ []))
    × ((code_of codes (not_found, "user not found") ≡ some not_found)
        ↔ (user_rows.first [] 9 (pema ∷ []) ≡ err record_not_found))
get_user_errors_example =
    get_user_errors codes-IsStatus user_rows clock (record { id = 9 }) (pema ∷ []) (pema ∷ [])
      (not_found, "user not found") nobody

-- A table whose IDs have run out.
abbrev full : List User
full =
    record pema {
      model = record { id = 4294967295; created_at = 7; updated_at = 7; deleted_at = none };
    }
    ∷ []

full_refuses :
    create_user codes user_rows clock dorji_request full
    ≡ (fails (internal, "failed to create user: record not found"), full)
unfolding create_user ss2025_web.Base.format_v
full_refuses = refl

abbrev tea_request : CreateMenuItemRequest
tea_request = record { name = "Tea"; description = "Sweet"; price = 4607182418800017408 }

abbrev tea : MenuItem
tea = record {
  model = record { id = 2; created_at = 7; updated_at = 7; deleted_at = none };
  name = "Tea";
  description = "Sweet";
  price = 4607182418800017408;
}

abbrev tea_answer : CreateMenuItemResponse
tea_answer = record { menu_item = some (MenuServer.model_to_proto clock tea) }

tea_created :
    MenuServer.create_menu_item codes item_rows clock tea_request (coffee ∷ [])
    ≡ (returns tea_answer, tea ∷ coffee ∷ [])
unfolding MenuServer.create_menu_item
tea_created = refl

get_menu_item-create_menu_item_example :
    (msg msg' : MenuItemMessage) × (tea_answer.menu_item ≡ some msg)
    × MenuTrip.Carries tea_request msg
    × (MenuServer.get_menu_item codes item_rows clock (record { id = msg.id }) (tea ∷ coffee ∷ [])
        ≡ (returns (record { menu_item = some msg' }), tea ∷ coffee ∷ []))
    × (msg'.id ≡ msg.id)
    × MenuTrip.Carries tea_request msg'
    × (msg.id < 2 ^ 32)
get_menu_item-create_menu_item_example =
    MenuTrip.get_menu_item-create_menu_item codes item_rows clock item_rows-IsTable item_rows_fit
      tea_request (coffee ∷ []) (tea ∷ coffee ∷ []) tea_answer tea_created

abbrev before_menu : GetMenuResponse
before_menu = record { menu_items = MenuServer.model_to_proto clock coffee ∷ [] }

abbrev after_menu : GetMenuResponse
after_menu = record {
  menu_items = MenuServer.model_to_proto clock tea ∷ MenuServer.model_to_proto clock coffee ∷ [];
}

menu_before :
    MenuServer.get_menu codes item_rows clock (record {}) (coffee ∷ [])
    ≡ (returns before_menu, coffee ∷ [])
unfolding MenuServer.get_menu
menu_before = refl

menu_after :
    MenuServer.get_menu codes item_rows clock (record {}) (tea ∷ coffee ∷ [])
    ≡ (returns after_menu, tea ∷ coffee ∷ [])
unfolding MenuServer.get_menu
menu_after = refl

get_menu-create_menu_item_example :
    Perm
      (map MenuErrors.listed after_menu.menu_items)
      (("Tea", "Sweet", 4607182418800017408) ∷ map MenuErrors.listed before_menu.menu_items)
get_menu-create_menu_item_example =
    MenuErrors.get_menu-create_menu_item codes item_rows clock item_rows-IsTable tea_request
      (coffee ∷ []) (tea ∷ coffee ∷ []) (coffee ∷ []) (tea ∷ coffee ∷ []) tea_answer before_menu
      after_menu tea_created menu_before menu_after

nothing :
    MenuServer.get_menu_item codes item_rows clock (record { id = 9 }) (coffee ∷ [])
    ≡ (fails (not_found, "menu item not found"), coffee ∷ [])
unfolding MenuServer.get_menu_item MenuServer.get_menu_item_error
nothing = refl

abbrev full_menu : List MenuItem
full_menu =
    record coffee {
      model = record { id = 4294967295; created_at = 7; updated_at = 7; deleted_at = none };
    }
    ∷ []

full_menu_refuses :
    MenuServer.create_menu_item codes item_rows clock tea_request full_menu
    ≡ (fails (internal, "failed to create menu item: record not found"), full_menu)
unfolding MenuServer.create_menu_item ss2025_web.Base.format_v
full_menu_refuses = refl
