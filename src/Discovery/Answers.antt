-- ===== src/Discovery/Answers.antt =====
-- The handlers of the services of practical2.
use Prim.Native.String.{String}
use ss2025_web.Base.{format_v}
use ss2025_web.Http.{plain, write, write_header, status_ok}
use ss2025_web.Http.Handler.{Handler, respond, ◌>>◌}

-- The parameter is the part `{id}` of the path.
unfoldable pub get_user_handler : {S J : Type 0} → String → Handler S J (Unit {0})
get_user_handler user_id = respond (
    write
      (plain (format_v "Response from 'users-service': Details for user " (format_v user_id "\n"))))

unfoldable pub get_product_handler : {S J : Type 0} → String → Handler S J (Unit {0})
get_product_handler product_id = respond (
    write (
      plain (
        format_v "Response from 'products-service': Details for product "
          (format_v product_id "\n"))))

unfoldable pub health_check_handler : {S J : Type 0} → Handler S J (Unit {0})
health_check_handler = do
  respond (write_header status_ok)
  respond (write (plain "Service is healthy\n"))
