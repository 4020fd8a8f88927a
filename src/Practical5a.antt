-- ===== src/Practical5a.antt =====
-- practicals/practical5a: the three services have the Go text of practical6-example, but for the case
-- of two field names of `OrderServer`, so they are the same definitions. Its gateway is not a program,
-- since CreateOrder of handlers/order_handlers.go does not compile against the generated messages; the
-- rest of it has the text of practical6-example too.
pub mod Servers
pub mod Handlers
pub mod Starts
pub mod Gateway
