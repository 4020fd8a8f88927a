-- ===== src/Tests/Fixtures.antt =====
-- Concrete data for the runs: tables in memory, a status package, and one deployment.
use Prim.Native.String.{String}
use ss2025_web.Base.{ℕ, refl, true, some, List, [], ◌∷◌}
use ss2025_web.Gorm.{Time, Model, Table, IsTable, zero_model}
use ss2025_web.Gorm.Memory.{memory, memory-IsTable, memory_fits}
use ss2025_web.Rpc.{Code, Status, IsStatus, unavailable}
use ss2025_web.User.{User}
use ss2025_web.User.RoundTrip as UserTrip
use ss2025_web.Menu.{MenuItem}
use ss2025_web.Menu.RoundTrip as MenuTrip
use ss2025_web.Order.{Order}
use ss2025_web.Order.RoundTrip as OrderTrip
use ss2025_web.System.{Deployment}
use ss2025_web.System.Lens.{World}
use ss2025_web.System.Lawful.{IsLawful}

abbrev pub Failure : Type 0
Failure = Code × String

abbrev pub codes : Status Failure
codes = record { errorf = λ c m. (c, m); from_error = λ e. some e; text_of = λ e. e.1 }

pub codes-IsStatus : IsStatus codes
codes-IsStatus = record { from-errorf = λ c m. refl }

abbrev pub clock : Time → String
clock t = "2025-01-01T00:00:00Z"

abbrev put_user : ℕ → User → User
put_user i u = record u {
  model = record { id = i; created_at = 7; updated_at = 7; deleted_at = u.model.deleted_at };
}

abbrev put_item : ℕ → MenuItem → MenuItem
put_item i u = record u {
  model = record { id = i; created_at = 7; updated_at = 7; deleted_at = u.model.deleted_at };
}

abbrev put_order : ℕ → Order → Order
put_order i u = record u {
  model = record { id = i; created_at = 7; updated_at = 7; deleted_at = u.model.deleted_at };
}

abbrev pub user_rows : Table (List User) User
user_rows = memory UserTrip.user_id put_user

abbrev pub item_rows : Table (List MenuItem) MenuItem
item_rows = memory MenuTrip.item_id put_item

abbrev pub order_rows : Table (List Order) Order
order_rows = memory OrderTrip.order_id put_order

pub user_rows-IsTable : IsTable user_rows [] UserTrip.user_model UserTrip.columns
user_rows-IsTable =
    memory-IsTable UserTrip.user_model put_user UserTrip.columns (λ i m. refl) (λ i m. refl) []

pub item_rows-IsTable : IsTable item_rows [] MenuTrip.item_model MenuTrip.columns
item_rows-IsTable =
    memory-IsTable MenuTrip.item_model put_item MenuTrip.columns (λ i m. refl) (λ i m. refl) []

pub order_rows-IsTable :
    IsTable order_rows ("OrderItems" ∷ []) OrderTrip.order_model OrderTrip.columns
order_rows-IsTable =
    memory-IsTable OrderTrip.order_model put_order OrderTrip.columns (λ i m. refl) (λ i m. refl)
      ("OrderItems" ∷ [])

pub user_rows_fit : UserTrip.IdsFit user_rows
user_rows_fit =
    memory_fits UserTrip.user_model put_user UserTrip.columns (λ i m. refl) (λ i m. refl)

pub item_rows_fit : MenuTrip.IdsFit item_rows
item_rows_fit =
    memory_fits MenuTrip.item_model put_item MenuTrip.columns (λ i m. refl) (λ i m. refl)

pub order_rows_fit : OrderTrip.IdsFit order_rows
order_rows_fit =
    memory_fits OrderTrip.order_model put_order OrderTrip.columns (λ i m. refl) (λ i m. refl)

abbrev pub deployment : Deployment (List User) (List MenuItem) (List Order) Failure
deployment = record {
  status = codes;
  users = user_rows;
  menu = item_rows;
  orders = order_rows;
  rfc3339 = clock;
  lost = (unavailable, "connection lost");
}

pub deployment-IsLawful : IsLawful deployment
deployment-IsLawful = record {
  status = codes-IsStatus;
  users = user_rows-IsTable;
  menu = item_rows-IsTable;
  orders = order_rows-IsTable;
  user_ids = user_rows_fit;
  menu_ids = item_rows_fit;
  order_ids = order_rows_fit;
}

abbrev row : ℕ → Model
row i = record { id = i; created_at = 7; updated_at = 7; deleted_at = zero_model.deleted_at }

abbrev pub pema : User
pema = record { model = row 1; name = "Pema"; email = "pema@cafe.bt"; is_cafe_owner = true }

abbrev pub coffee : MenuItem
coffee = record { model = row 1; name = "Coffee"; description = "Hot"; price = 4612811918334230528 }

-- The cafe with one user, one menu item and no orders.
abbrev pub Cafe : Type 0
Cafe = World (List User) (List MenuItem) (List Order)

abbrev pub cafe : Cafe
cafe = record { users = pema ∷ []; menu = coffee ∷ []; orders = [] }
