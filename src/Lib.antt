-- ===== src/Lib.antt =====
-- WhaTicket: the core of the Go programs backend and worker.
--
-- The backend keeps tickets in a database and tells browsers about them over
-- websockets; the worker keeps one WhatsApp session per connection. The parts
-- modelled, and the files that model them:
--
-- Prelude.antt and Prelude/: the tests on numbers and texts (a Go string is
--   its list of bytes), lists, sets and maps as lists of distinct keys, and
--   strconv's decimal numbers; Prelude/Utf8.antt, the runes of a string and
--   what encoding/json writes of one that is not UTF-8.
-- Ws/Channels.antt: backend/internal/ws/channels.go, the syntax of a channel
--   name and its two parts. Ws/Authz.antt: backend/internal/ws/authz.go, who
--   may subscribe to what. Ws/Authz/Grants.antt says the same without the
--   code's tests.
-- Ws/Hub.antt: the two maps `clients` and `channels` of the Hub in
--   backend/internal/ws/hub.go, and register, unregister, subscribe,
--   unsubscribe and Stats. Ws/Hub/Relation.antt is the abstract view, a
--   relation between clients and channels.
-- Ws/Server.antt: the hub with its clients (backend/internal/ws/client.go,
--   handler.go): each client's buffer `send`, the flags of its two sync.Once,
--   and Publish, which runs alone there. Ws/Server/Steps.antt: what the
--   goroutines do between two locks, channel operations or questions to the
--   database, one step each, as a relation; the authorizer answers otherwise at
--   each time, and Publish and Shutdown offer a payload to one client at a
--   time. The JSON bytes of a frame and the choice that a `select` makes when
--   several cases are ready are parameters.
-- Worker/Manager.antt: the Manager of worker/internal/whatsmeow/manager.go,
--   one function per method, with the calls of the whatsmeow client
--   (Disconnect, cancel, kill) as effects and the WaitGroup as a count.
--   Delete releases its lock before it disconnects and calls Done; here it is
--   one step. Worker/Session.antt: StartSession and the life of a session
--   goroutine of worker/internal/whatsmeow/session.go, a step relation on the
--   manager and the running goroutines; StartSession's Get, TryStartConnect and
--   Add, which other goroutines may come between, are one step.
-- Ticket/Model.antt, Ticket/Visibility.antt, Ticket/Plan.antt,
--   Ticket/Emit.antt, Ticket/Listing.antt: backend/internal/ticket, who may see
--   and change a ticket, the columns that Update decides to write, the frames
--   sent to the browsers, and the list of tickets with its pages.
-- Ticket/Store.antt is the interface of the database's tables that tickets
--   need: each statement of the source is an operation, with what it does as a
--   law; Ticket/Memory.antt shows that the laws can be met.
--   Ticket/Service.antt: the requests of service.go and messages.go over it.
--   Ticket/Arrival.antt: FindOrCreate of findorcreate.go, under its lock. A
--   request runs alone here; what two of them do in between is not modelled.
-- Events.antt and Events/: backend/internal/waevents. Events/Types.antt, the
--   routing keys that worker/internal/whatsmeow/events.go prints and
--   consumer.go reads; Events/Jids.antt and Events/Messages.antt, messages.go
--   over the services of interfaces.go (Events/Services.antt), of which one that
--   fails may have written its rows, with JSON, the
--   mustache renderer and Atoi as parameters; Events/Queues.antt and
--   Events/Debouncer.antt, queue_logic.go; Events/Receipts.antt, receipts.go; Events/Connections.antt and
--   Events/Lifecycle.antt, lifecycle.go and dispatch of consumer.go, over the
--   table of connections (backend/internal/whatsapp/service.go).
-- Platform.antt: backend/internal/platform/errors, with the errors of the
--   database and a transaction; Platform/Tables.antt, tables kept in memory,
--   from which Contact/Memory.antt and User/Memory.antt are made.
-- Contact/Model.antt, Contact/Merge.antt, Contact/Validator.antt and
--   Contact/Service.antt: backend/internal/contact, over the interface of its
--   tables in Contact/Store.antt.
-- Rmq/Client.antt and Rmq/Lifecycle.antt: the attempts to connect and the
--   states of backend/internal/rmq/client.go (worker/internal/rmq holds the same
--   code); Rmq/Envelope.antt, envelope.go; Rmq/Publisher.antt, publisher.go;
--   Rmq/Consumer.antt, consumer.go, whose loop and the goroutines that it starts
--   interleave as steps; Rmq/Calls.antt, rpc_client.go;
--   Rmq/Server.antt, rpc_server.go. JSON is a parameter, whose texts
--   come back in UTF-8 and whose payloads come back compact; Rmq/Codec.antt shows
--   that one meets what is asked of it. A publish may end in an error although
--   the broker took the message. What the broker, the clock and other
--   goroutines do in a call is an argument of it.
-- User/Model.antt, User/Service.antt: backend/internal/user over
--   User/Store.antt. Auth/Tokens.antt, Auth/Sessions.antt and
--   Auth/Middleware.antt: jwt.go, auth.go and middleware.go of
--   backend/internal/auth, with the JWT library and bcrypt as parameters.
-- Queue/Model.antt, Queue/Service.antt and Queue/Assign.antt:
--   backend/internal/queue; Queue/Ids.antt, its dedupeIDs, which
--   backend/internal/whatsapp repeats.
-- Connection/Model.antt and Connection/Service.antt: the requests of
--   backend/internal/whatsapp/service.go over Connection/Store.antt, with the
--   commands of commands.go that they send to the worker; Connection/Lookup.antt:
--   the default connection, and StartAllSessions of bootstrap.go.
-- Message/Service.antt: Create and Delete of backend/internal/message/service.go.
--   Message/Names.antt, Message/Outgoing.antt and Message/Send.antt: send.go, which
--   sends texts and files, over the sender, the store of media and the parsed
--   request as arguments.
-- Media/Base64.antt, Media/DataUrl.antt: the data URLs in which send.go puts a
--   file and which worker/internal/media/outbound.go reads.
-- Rpc/Json.antt: encoding/json on structs, whose texts it makes UTF-8. Rpc/Requests.antt and
--   Rpc/Backend.antt: backend/internal/whatsapp/rpc.go, the 18 calls of the
--   worker. Rpc/Payloads/: worker/internal/command/payloads.go.
--   Rpc/Handlers.antt and Rpc/Handlers/: send.go, modify.go, query.go,
--   pairphone.go, jid.go and dispatch.go of worker/internal/command, with the
--   library whatsmeow as a record of functions; Table.antt there joins the two
--   programs: a call of the backend that the worker serves. Rpc/Sender.antt: the
--   adapter of backend/cmd/server/adapters.go through which send.go calls the worker.
-- Setting/Service.antt: backend/internal/setting, the setting that lets people
--   sign up and the token of the API that Auth/Middleware.antt asks for.
--
-- Numbers are natural numbers without a bound: the identifiers are uint and the
-- program only compares them. Every loop is structural recursion but three: the
-- digits of a number are computed on fuel, the number itself plus one, which is
-- enough since each digit divides it by ten; trim_space takes the length of the
-- text, of which each round takes a byte or more (Prelude/Spaces.antt); and the
-- attempts to connect count down the rounds that the configuration gives.
--
-- Not modelled: sockets, timers, logging and SQL text; the HTTP handlers; the
-- backend's quick answers and the pages of messages; the worker's commands on
-- sessions, its downloads, image conversions, link previews and device table;
-- start-up and configuration. They are calls of libraries for the most part, or
-- stand behind an interface of the parts above. JSON is modelled as values and
-- not as text, and only where the two programs call each other (Rpc/Json.antt);
-- a float there is the text of its number.

pub mod Prelude
pub mod Platform
pub mod Ws
pub mod Worker
pub mod Ticket
pub mod Events
pub mod Contact
pub mod Rmq
pub mod User
pub mod Auth
pub mod Queue
pub mod Connection
pub mod Media
pub mod Message
pub mod Setting
pub mod Rpc
