-- ===== src/Startup/Proxies.antt =====
-- The addresses of the services of practical5 beside those that its gateway and its order service ask.
use Prim.Native.String.{String, ◌++◌}
use ss2025_web.Base.{ℕ, ◌≡◌, refl, ap, ◌∙◌, List, [], ◌∷◌, map, Result, ok, err, format_v, arith}
use ss2025_web.Base.Decimal.{decimal}
use ss2025_web.Base.Paths.{trim_prefix, behind-append}
use ss2025_web.Startup.{Env, Outside, connect, or_else, ◌>>◌}
use ss2025_web.Startup.Rest.{Server, user_main, menu_main, order_main, Proxy, proxies, proxy_to}
use ss2025_web.Startup.Started.{get_env_unset}
use ss2025_web.Rest.Orders.{user_url, menu_url}

serves :
    {A : Type 0} (a : Result String A) (f : String → String) (address : String) (u : Server)
    → (or_else a f >> ok (record { address = address })) ≡ ok u
    → u.address ≡ address
serves (ok a) f address u h = ground arith
serves (err m) f address u h = absurd (ground arith)

trim_prefix-append : (prefix s : String) → trim_prefix (prefix ++ s) prefix ≡ s
trim_prefix-append prefix s = rw (trim_prefix, behind-append prefix s) refl

proxy_to-api : (p : Proxy) (path : String) → proxy_to p ("/api" ++ path) ≡ (p.target, path)
unfolding proxy_to
proxy_to-api p path = ap (λ t. (p.target, t)) (trim_prefix-append "/api" path)

proxied :
    (ps : List Proxy) (path : String)
    → map (λ p. proxy_to p ("/api" ++ path)) ps ≡ map (λ p. (p.target, path)) ps
proxied [] path = refl
proxied (p ∷ ps) path =
    ap (λ x. x ∷ map (λ q. proxy_to q ("/api" ++ path)) ps) (proxy_to-api p path)
    ∙ ap (λ xs. (p.target, path) ∷ xs) (proxied ps path)

module _ {Db : Type 0} (out : Outside Db) where
  user_main-ok :
      (env : Env) (s : Server)
      → env "PORT" ≡ ""
      → user_main out env ≡ ok s
      → s.address ≡ format_v ":" "8081"
  unfolding user_main
  user_main-ok env s unset h =
      serves (connect out ("User" ∷ []) _) _ _ s h ∙ ap (format_v ":") (get_env_unset env _ _ unset)

  menu_main-ok :
      (env : Env) (s : Server)
      → env "PORT" ≡ ""
      → menu_main out env ≡ ok s
      → s.address ≡ format_v ":" "8082"
  unfolding menu_main
  menu_main-ok env s unset h =
      serves (connect out ("MenuItem" ∷ []) _) _ _ s h
      ∙ ap (format_v ":") (get_env_unset env _ _ unset)

  order_main-ok :
      (env : Env) (s : Server)
      → env "PORT" ≡ ""
      → order_main out env ≡ ok s
      → s.address ≡ format_v ":" "8083"
  unfolding order_main
  order_main-ok env s unset h =
      serves (connect out ("Order" ∷ "OrderItem" ∷ []) _) _ _ s h
      ∙ ap (format_v ":") (get_env_unset env _ _ unset)

  -- Where no port is configured and the three services of practical5 start: the proxies of the gateway
  -- send a path below `/api`, without the `/api`, to the addresses that the user service, the menu
  -- service and the order service serve, in that order; and the order service asks for a user at the
  -- address that the user service serves, and for a menu item at that of the menu service.
  pub proxies_agree :
      (ue me oe : Env) (u m o : Server) (path : String) (i : ℕ)
      → ue "PORT" ≡ ""
      → me "PORT" ≡ ""
      → oe "PORT" ≡ ""
      → user_main out ue ≡ ok u
      → menu_main out me ≡ ok m
      → order_main out oe ≡ ok o
      → (map (λ p. proxy_to p ("/api" ++ path)) proxies
          ≡ (format_v "http://user-service" u.address, path)
            ∷ (format_v "http://menu-service" m.address, path)
            ∷ (format_v "http://order-service" o.address, path)
            ∷ [])
        × (user_url i
            ≡ format_v (format_v (format_v "http://user-service" u.address) "/users/") (decimal i))
        × (menu_url i
            ≡ format_v (format_v (format_v "http://menu-service" m.address) "/menu/") (decimal i))
  proxies_agree ue me oe u m o path i no_user no_menu no_order hu hm ho =
      let at_user = user_main-ok ue u no_user hu in
      let at_menu = menu_main-ok me m no_menu hm in
      let at_order = order_main-ok oe o no_order ho in
      (
        proxied proxies path ∙ rw (at_user, at_menu, at_order) (unfold format_v in refl),
        rw at_user (unfold format_v in refl),
        rw at_menu (unfold format_v in refl),
      )
