-- ===== src/Lib.antt =====
-- Verification of the Go services of the course: the student cafe, as a monolith, as REST services and
-- as gRPC services behind a gateway, and the services of practical2 and practical4 that find each
-- other through Consul.
--
-- The cafe of practicals/practical6-example has a user service, a menu service and an order service,
-- each with its own database and a gRPC server (grpc/server.go), and an API gateway in front that
-- translates HTTP to gRPC. The order service is a client of the other two: CreateOrder asks for the
-- user, then for every menu item, copies the price, and stores one row with its items.
--
-- Base: helpers. Base.Word has Go's integers of fixed width and their conversions, Base.Decimal has
--   strconv.ParseUint(s, 10, 32) and `%d`, Base.Paths has strings.Split, Join and TrimPrefix. `%d`
--   prints with twenty rounds, which is enough for 64 bits. A float64 is its bits, since the code only
--   copies floats.
-- Http, Rpc, Gorm: what the code uses of net/http, of grpc and its status package, and of gorm. The
--   packages are not part of the repository. The response writer and http.Error are written out; the
--   status package (Rpc.Status) and a table of gorm (Gorm.Table) are parameters, with what their
--   documents say in Rpc.IsStatus and Gorm.IsTable, and one assumption more: the items of an order are
--   read back by Preload in the order in which they were given. Gorm.Memory is a table that meets
--   IsTable.
-- User, Menu, Order: the three services of practical6-example. The parent holds models/*.go and the
--   messages of student-cafe-protos/gen/go; Server holds grpc/server.go, a procedure for each method,
--   from a request and a state to an outcome (a response, an error, or a nil dereference) and a state.
--   Order.Placing defines the ways in which CreateOrder ends, Order.Snapshot the items at their prices.
--   Order.Process cuts CreateOrder of grpc/server.go at its remote calls, with a program counter;
--   Order.Handlers is order-service/handlers/order_handlers.go, whose package variable GrpcClients is
--   a parameter (no main function serves these handlers).
-- Clients: the generated client interfaces, as calls over the state behind them.
-- Gateway: api-gateway of practical6-example. Users, Items and Orders are handlers/*_handlers.go,
--   Routes is the table of main.go, and http_status and handle_grpc_error are handlers.go. A handler's
--   parameter is what decoding the body gives, since JSON is a library; so is `marshals`, which tells
--   whether the encoder accepts a value. Promise says what each endpoint does in one remote call.
-- Spec: the cafe as its clients are to see it: what stands under each ID, the calls, and the replies that
--   each may have. Spec.Kept, Spec.Prices and Spec.Fresh are about its sessions, and Spec.Server is the
--   interface of a server that implements it, with what its clients may rely on (Spec.Dishes for the
--   menu). The gateway with the
--   services behind it fills it in System.Sessions, and the monolith in Rest.Sessions. Of a reply they
--   have the status and the value shown, without times and headers; of a row its columns.
-- System: the four programs together over three databases. Lens makes a table of one database a table
--   of the whole, Lawful names what the deployment rests on. Effects says what a request does to the
--   databases, Books what stored orders must keep beside the other rows, Reach is any sequence of
--   requests, and Concurrent any interleaving of calls of CreateOrder, cut as in Order.Process, with
--   each other and with whole requests; Calls is one step of such a call. Answers and Ordering are
--   about orders through the gateway. Gateway.Seen reads requests and replies as calls and replies of
--   the abstract cafe, Shelves reads the databases as its state, Refines goes through the endpoints,
--   InFlight through the steps of a call of CreateOrder, Linear is about any interleaving, and Progress
--   counts the steps that a call has left. Menus is about the menu in any
--   sequence of requests, Quantities about quantities that an int32 does not hold.
-- Rest: practicals/practical5. Monolith is student-cafe-monolith/handlers; Users, Menus and Orders
--   are the handlers of the three services, with http.Get as a parameter; Requests makes the request of
--   the gRPC order service of a body, each number cut to the type of its field. Rest.Cafe is the
--   monolith as a whole, with the routes of its main.go, and Rest.Refines is about it beside the
--   abstract cafe.
-- Discovery: Gateway, Register and Answers are practicals/practical2; Cafe and Register are
--   practicals/practical4/student-cafe. Consul, url.Parse and the UUID generator are parameters.
--   Starting is the main functions of both.
-- Startup: the main functions, database/db.go and grpc/clients.go, as a start that ends with a fatal
--   message or serves; practical5's programs are in Startup.Rest, and
--   Startup.Proxies is about their addresses.
-- Practical5a: practicals/practical5a, whose services have the text of practical6-example and are the
--   same definitions, and so is its gateway but for CreateOrder; so are User.Handlers and
--   Menu.Handlers, the REST handlers of practical6-example beside the gRPC servers, with those of
--   practical5.
-- Tests: the theorems applied at concrete inputs.
--
-- Loops are structural recursion over the items of a request. A run of Order.Process takes a number of
-- steps: two and one for each item are enough, for the user, the items and the insert. Lists have no
-- bound. A remote call is in process and happens at one moment, and fails only where the server does;
-- an insert is one moment too. Requests other than CreateOrder make one remote call or one call on the
-- database, so they are run as a whole. net/http's recovery of a panic is a lost connection, without a
-- status.
--
-- Not modelled: cancelled contexts, logging, the matching of routes and the network; the unsynchronised
-- map of practical4; CreateOrder of the gateway of practical5a, which does not compile; the generated
-- code but for messages and client interfaces; the front end, tests, scripts and documents.
pub mod Base
pub mod Http
pub mod Rpc
pub mod Gorm
pub mod User
pub mod Menu
pub mod Order
pub mod Clients
pub mod Gateway
pub mod Spec
pub mod System
pub mod Rest
pub mod Discovery
pub mod Startup
pub mod Practical5a
mod Tests
