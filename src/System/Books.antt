-- ===== src/System/Books.antt =====
-- The orders of the cafe beside its users and its menu.
use mathlib.Core.Path.{subst}
use ss2025_web.Base.{none, ℕ, ◌≡◌, refl, sym, ap, ◌∙◌, [], ◌∷◌, List, map, ok, err}
use Prim.Native.String.{String}
use ss2025_web.Gorm.{DbResult}
use ss2025_web.User.{User}
use ss2025_web.Menu.{MenuItem}
use ss2025_web.Order.{Order, OrderItem, OrderItemRequest}
use ss2025_web.Order.Server.{pending_order}
use ss2025_web.Order.RoundTrip.{Line, line, columns}
use ss2025_web.System.Lens.{World}
use ss2025_web.System.{Deployment}
use ss2025_web.System.Lawful.{IsLawful}
use ss2025_web.System.Orders.{Listed}
use ss2025_web.System.Effects.{Effect, nothing, user_added, item_added, order_added}
use ss2025_web.System.Rows.{first_kept, first_after, new, old}

module _ {U M O Err : Type 0} (d : Deployment U M O Err) where
  -- Each line names an item of the menu and carries its price.
  abbrev pub OnMenu : World U M O → List Line → Type 0
  OnMenu w [] = Unit
  OnMenu w ((i, q, p) ∷ ls) =
      ((m : MenuItem) × (d.menu.first [] i w.menu ≡ ok m) × (p ≡ m.price)) × OnMenu w ls

  -- An order of a user who is there, pending, with its lines on the menu.
  pub record Backed (w : World U M O) (c : ℕ × String × List Line) : Type 0 where
    pub user : User
    pub known : d.users.first [] c.0 w.users ≡ ok user
    pub pending : c.1 ≡ "pending"
    pub lines : OnMenu w c.2

  -- What may be found under an ID.
  abbrev pub Kept : World U M O → DbResult Order → Type 0
  Kept w (err e) = Unit
  Kept w (ok o) = Backed w (columns o)

  abbrev pub IsSound : World U M O → Type 0
  IsSound w = (j : ℕ) → Kept w (d.orders.first ("OrderItems" ∷ []) j w.orders)

  -- The rows of one world are in the other, unchanged.
  pub record Keeps (w w' : World U M O) : Type 0 where
    pub users :
        (i : ℕ) (u : User) → d.users.first [] i w.users ≡ ok u → d.users.first [] i w'.users ≡ ok u
    pub menu :
        (i : ℕ) (m : MenuItem) → d.menu.first [] i w.menu ≡ ok m → d.menu.first [] i w'.menu ≡ ok m
    pub orders :
        (i : ℕ) (o : Order)
        → d.orders.first ("OrderItems" ∷ []) i w.orders ≡ ok o
        → d.orders.first ("OrderItems" ∷ []) i w'.orders ≡ ok o

  pub OnMenu-Keeps :
      {w w' : World U M O} → Keeps w w' → (ls : List Line) → OnMenu w ls → OnMenu w' ls
  OnMenu-Keeps k [] h = tt
  OnMenu-Keeps k ((i, q, p) ∷ ls) ((m, e, price), h) =
      ((m, k.menu i m e, price), OnMenu-Keeps k ls h)

  Backed-Keeps :
      {w w' : World U M O} → Keeps w w' → (c : ℕ × String × List Line) → Backed w c → Backed w' c
  Backed-Keeps k c b = record {
    user = b.user;
    known = k.users c.0 b.user b.known;
    pending = b.pending;
    lines = OnMenu-Keeps k c.2 b.lines;
  }

  pub Keeps-refl : (w w' : World U M O) → w' ≡ w → Keeps w w'
  Keeps-refl w w' e = record {
    users = λ i u h. ap (λ v. d.users.first [] i v.users) e ∙ h;
    menu = λ i m h. ap (λ v. d.menu.first [] i v.menu) e ∙ h;
    orders = λ i o h. ap (λ v. d.orders.first ("OrderItems" ∷ []) i v.orders) e ∙ h;
  }

  module _ (law : IsLawful d) where
    pub Effect-Keeps : (w w' : World U M O) → Effect d w w' → Keeps w w'
    Effect-Keeps w w' (nothing e) = Keeps-refl w w' e
    Effect-Keeps w w' (user_added u u' made same_menu same_orders) = record {
      users = λ i r h. first_kept law.users u u' r w.users w'.users i made h;
      menu = λ i m h. ap (λ v. d.menu.first [] i v) same_menu ∙ h;
      orders = λ i o h. ap (λ v. d.orders.first ("OrderItems" ∷ []) i v) same_orders ∙ h;
    }
    Effect-Keeps w w' (item_added m m' made same_users same_orders) = record {
      users = λ i r h. ap (λ v. d.users.first [] i v) same_users ∙ h;
      menu = λ i r h. first_kept law.menu m m' r w.menu w'.menu i made h;
      orders = λ i o h. ap (λ v. d.orders.first ("OrderItems" ∷ []) i v) same_orders ∙ h;
    }
    Effect-Keeps w w' (order_added req u items o known listed made same_users same_menu) = record {
      users = λ i r h. ap (λ v. d.users.first [] i v) same_users ∙ h;
      menu = λ i m h. ap (λ v. d.menu.first [] i v) same_menu ∙ h;
      orders = λ i r h. first_kept law.orders _ o r w.orders w'.orders i made h;
    }

    Kept-Keeps : {w w' : World U M O} → Keeps w w' → (r : DbResult Order) → Kept w r → Kept w' r
    Kept-Keeps k (err e) h = tt
    Kept-Keeps k (ok o) h = Backed-Keeps k (columns o) h

    OnMenu-of_Listed :
        (w : World U M O) (rs : List OrderItemRequest) (is : List OrderItem)
        → Listed d w rs is
        → OnMenu w (map line is)
    OnMenu-of_Listed w [] [] h = tt
    OnMenu-of_Listed w (r ∷ rs) (i ∷ is) ((m, e, made), h) = (
      (
        m,
        ap (λ j. d.menu.first [] j w.menu) (ap (λ x. x.menu_item_id) made) ∙ e,
        ap (λ x. x.price) made,
      ),
      OnMenu-of_Listed w rs is h,
    )
    OnMenu-of_Listed w [] (i ∷ is) h = absurd h
    OnMenu-of_Listed w (r ∷ rs) [] h = absurd h

    pub Backed-of_Listed :
        (w : World U M O) (user_id : ℕ) (u : User) (rs : List OrderItemRequest)
        (is : List OrderItem)
        → d.users.first [] user_id w.users ≡ ok u
        → Listed d w rs is
        → Backed w (columns (pending_order user_id is))
    Backed-of_Listed w user_id u rs is known listed = record {
      user = u;
      known = known;
      pending = refl;
      lines = OnMenu-of_Listed w rs is listed;
    }

    -- What stands under an ID after an order was added.
    Kept-added :
        (w w' : World U M O) (o m : Order) (j : ℕ) (r : DbResult Order)
        → Keeps w w'
        → IsSound w
        → Backed w (columns m)
        → m.model.deleted_at ≡ none
        → d.orders.create m w.orders ≡ (ok o, w'.orders)
        → d.orders.first ("OrderItems" ∷ []) j w'.orders ≡ r
        → Kept w' r
    Kept-added w w' o m j (err e) k sound backed live made found = tt
    Kept-added w w' o m j (ok o') k sound backed live made found =
        elim (first_after law.orders m o o' w.orders w'.orders j live made found) [
          | new same ↦ subst (Backed w') (sym same) (Backed-Keeps k (columns m) backed)
          | old there ↦ Backed-Keeps k (columns o') (subst (Kept w) there (sound j))
        ]

    -- An order that is added keeps the books sound, if its user is there and its lines are on the menu.
    pub add-IsSound :
        (w w' : World U M O) (o m : Order)
        → Keeps w w'
        → IsSound w
        → Backed w (columns m)
        → m.model.deleted_at ≡ none
        → d.orders.create m w.orders ≡ (ok o, w'.orders)
        → IsSound w'
    add-IsSound w w' o m k sound backed live made j =
        Kept-added w w' o m j _ k sound backed live made refl

    pub same_orders-IsSound :
        (w w' : World U M O) → Keeps w w' → w'.orders ≡ w.orders → IsSound w → IsSound w'
    same_orders-IsSound w w' k same sound j =
        subst (λ v. Kept w' (d.orders.first ("OrderItems" ∷ []) j v)) (sym same)
          (Kept-Keeps k (d.orders.first ("OrderItems" ∷ []) j w.orders) (sound j))

    pub Effect-IsSound : (w w' : World U M O) → Effect d w w' → IsSound w → IsSound w'
    Effect-IsSound w w' (nothing e) sound =
        same_orders-IsSound w w' (Effect-Keeps w w' (nothing e)) (ap (λ v. v.orders) e) sound
    Effect-IsSound w w' (user_added u u' made same_menu same_orders) sound =
        same_orders-IsSound w w' (Effect-Keeps w w' (user_added u u' made same_menu same_orders))
          same_orders sound
    Effect-IsSound w w' (item_added m m' made same_users same_orders) sound =
        same_orders-IsSound w w' (Effect-Keeps w w' (item_added m m' made same_users same_orders))
          same_orders sound
    Effect-IsSound w w' (order_added req u items o known listed made same_users same_menu) sound =
        add-IsSound w w' o (pending_order req.user_id items)
          (Effect-Keeps w w' (order_added req u items o known listed made same_users same_menu))
          sound (Backed-of_Listed w req.user_id u req.items items known listed) refl made
