-- ===== src/Menu/RoundTrip.antt =====
-- CreateMenuItem followed by GetMenuItem, of menu-service/grpc/server.go.
use Prim.Native.String.{String}
use ss2025_web.Base.{ℕ, ◌^◌, ◌<◌, ◌≡◌, refl, some, [], ok, arith, Result-cases, inl, inr, ◌∙◌}
use ss2025_web.Base.Word.{to_u32-lt, to_u32_small, Float64}
use ss2025_web.Gorm.{Time, Model, Table, IsTable}
use ss2025_web.Rpc.{Status, returns}
use ss2025_web.Menu.{MenuItem, MenuItemMessage, CreateMenuItemRequest, CreateMenuItemResponse}
use ss2025_web.Menu.Server.{model_to_proto, new_menu_item, create_menu_item, get_menu_item}

-- The columns of a row that a request sets.
abbrev pub columns : MenuItem → String × String × Float64
columns u = (u.name, u.description, u.price)

abbrev pub item_id : MenuItem → ℕ
item_id u = u.model.id

abbrev pub item_model : MenuItem → Model
item_model u = u.model

-- A message carries the columns of a request.
pub record Carries (req : CreateMenuItemRequest) (msg : MenuItemMessage) : Type 0 where
  pub name : msg.name ≡ req.name
  pub description : msg.description ≡ req.description
  pub price : msg.price ≡ req.price

-- The IDs that the table hands out are numbers of 32 bits.
abbrev pub IdsFit : {S : Type 0} → Table S MenuItem → Type 0
IdsFit {S} db = (m m' : MenuItem) (s s' : S) → db.create m s ≡ (ok m', s') → m'.model.id < 2 ^ 32

module _ {S Err : Type 0} (st : Status Err) (db : Table S MenuItem) (rfc3339 : Time → String)
    (lawful : IsTable db [] item_model columns) (fits : IdsFit db) where
  pub create_menu_item-returns :
      (req : CreateMenuItemRequest) (s s' : S) (resp : CreateMenuItemResponse)
      → create_menu_item st db rfc3339 req s ≡ (returns resp, s')
      → (u : MenuItem) × (db.create (new_menu_item req) s ≡ (ok u, s'))
        × (resp.menu_item ≡ some (model_to_proto rfc3339 u))
  unfolding create_menu_item
  create_menu_item-returns req s s' resp e =
      elim (Result-cases (db.create (new_menu_item req) s).0) [
        | inl (u, created) ↦ (u, ground arith, ground arith)
        | inr (d, refused) ↦ absurd (ground arith)
      ]

  model_to_proto-Carries :
      (req : CreateMenuItemRequest) (u : MenuItem)
      → columns u ≡ columns (new_menu_item req)
      → Carries req (model_to_proto rfc3339 u)
  unfolding model_to_proto
  model_to_proto-Carries req u e = ground arith

  -- While the table meets Gorm.IsTable and hands out IDs of 32 bits: a menu item that
  -- CreateMenuItem returned carries the columns of the request and an ID of 32 bits, and
  -- GetMenuItem of that ID returns an item with the same ID and columns and changes nothing.
  pub get_menu_item-create_menu_item :
      (req : CreateMenuItemRequest) (s s' : S) (resp : CreateMenuItemResponse)
      → create_menu_item st db rfc3339 req s ≡ (returns resp, s')
      → (msg msg' : MenuItemMessage) × (resp.menu_item ≡ some msg)
        × Carries req msg
        × (get_menu_item st db rfc3339 (record { id = msg.id }) s'
            ≡ (returns (record { menu_item = some msg' }), s'))
        × (msg'.id ≡ msg.id)
        × Carries req msg'
        × (msg.id < 2 ^ 32)
  get_menu_item-create_menu_item req s s' resp e =
      let (u, created, answer) = create_menu_item-returns req s s' resp e in
      let (r, found, same_id, same) = lawful.create_first (new_menu_item req) u s s' refl created in
      let given = lawful.create_view (new_menu_item req) u s s' created in
      let small : (model_to_proto rfc3339 u).id ≡ u.model.id =
        unfold model_to_proto in to_u32_small u.model.id (fits _ u s s' created) in
      (
        model_to_proto rfc3339 u,
        model_to_proto rfc3339 r,
        answer,
        model_to_proto-Carries req u given,
        rw small (unfold get_menu_item in rw found refl),
        unfold model_to_proto in (rw same_id refl),
        model_to_proto-Carries req r (same ∙ given),
        unfold model_to_proto in to_u32-lt u.model.id,
      )
