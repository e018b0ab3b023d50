-- ===== src/Lib.antt =====
-- ElectricEel: a phone app for a car that is reached over Bluetooth, in three processes. The Qt
-- client calls the core, a Rust library and service (helper/src); the core starts the session
-- child, a Go program (helper/session) that keeps the link to the vehicle, and talks to it by
-- frames on a socket. The texts of the client come from catalogues (app/translations), which a
-- script keeps in step with the template (tools/apply-translations.py).
--
-- Base has what all parts share: lists measured by native numbers, Boolean tests, and integers.
-- Text has the functions of Rust's `str` that the core uses, on code points.
--
-- Bluez.Framing is helper/session/bluez/connection.go. `Send` is `send`, whose loop is `send_loop`
-- on fuel: each round takes a byte at least, or changes the chunk size, which happens once, so the
-- length of the message and four rounds are enough. What the context and the bus answer in a round
-- is an `Attempt`. `rx` and `flush` are `rx` and `flush`; the inner loop of `rx` has as many
-- rounds of fuel as bytes in the buffer, and each takes two of them at least. `rxBuf`, what the
-- observer was given and the messages in the channel are fields of `Connection`.
--
-- Session is helper/session/main.go. Session.Presence is `presenceStep`, with runs of ticks.
-- Session.State is the struct `session` with the methods that change it under the lock; a pointer
-- to an outside object is the number of the object, an instant is a number of nanoseconds.
-- Session.Link has `ensureConnectedLocked` in the steps of its early returns, `dispatch` for a
-- command that needs the vehicle, the start and stop of presence mode and the parts of
-- `presenceLoop` that change the session; Session.Watch is `presenceLoop` with
-- `runPresenceWatcher`, turn by turn, and a run of it is a list of turns. What the radio and the
-- vehicle answer is a record `World`, an argument of each operation. Since every operation holds
-- the lock, an interleaving is a list of operations (Session.Link.Invariant). Session.AuthQueue is
-- the queue of datagrams of the authentication responder, Session.Keygen the request for a key.
-- Session.Enrollment is `confirmEnrollment` of helper/session/pairing.go: its loop is on fuel,
-- where one turn more than the intervals until the context is done is enough, since each turn
-- waits for one. Sums of durations are not wrapped to 64 bits.
--
-- Session.Auth is helper/session/auth.go, the requests of the vehicle to authenticate for passive
-- entry, with `authResponderLoop` for one datagram (Session.Auth.Responder). `protowire` is a
-- record `Wire`. Each walk over the fields of a message is on fuel, one more than the bytes that
-- are left, which is enough since each tag takes a byte.
--
-- Session.Serve is `serveConn` of helper/session/serve.go with `dispatch` of
-- helper/session/main.go and `dispatchPair` of helper/session/pairing.go, from the lines of the
-- connection to the shutdown; each request goes to the parts above. Between and within requests it
-- takes the operations that the lock lets in from other goroutines. A line over 1 MiB ends the loop.
--
-- Config is helper/src/config.rs, and of helper/src/core.rs the migration at the start (in
-- Config.Loading, with the reading of a file) and the configuration that `set_config` saves. JSON
-- parsing is a parameter of `load`.
--
-- Client is helper/src/session_client.rs: the reader thread, the queue of events, and `run` from
-- the spawn of the child to the answer. The frames that arrive in a request are a list.
--
-- Core is helper/src/core.rs over Config and Client: the phone key with its start, stop and
-- resume, `set_config`, key generation and pairing (Core.Requests), the poll of events
-- (Core.Polling) and `run` (Core.Commands), and the preview and the sharing of a destination
-- (Core.Navigation). What is outside of an operation (the answers of the child, the time, what is
-- on disk) is a record `World`; a save may have an error after the file is replaced.
--
-- Share is helper/src/share.rs: Share.Values the pairs of coordinates, Share.Url the destination
-- of a map URL, and Share the order in which a text is tried. The parsers of URLs, forms and
-- doubles are the record `Library`. A loop that searches a path recurs on the path, with a counter
-- for what a match has consumed, so it needs no fuel. Session.Navigate is
-- helper/session/navigate.go, the other end of a shared destination.
--
-- Translations is tools/apply-translations.py. A catalogue is what the XML parser reads from a
-- file of app/translations; parsing and writing are left out.
--
-- Dashboard is app/qml/js/VehicleState.js: Dashboard.Status the merges of the answers of the
-- vehicle into the status, over the values of Dashboard.Json, and Dashboard.Models the choice of
-- the model. `JSON.parse` and `toUpperCase` are parameters.
--
-- Catalog is the commands that the client offers and what the core makes of their arguments:
-- Catalog.Data and Catalog.Search are app/qml/js/CommandCatalog.js, Catalog.Page is the list and
-- the defaults of app/qml/pages/CategoryPage.qml, Catalog.Dialog the form of
-- app/qml/pages/ArgumentDialog.qml, and Catalog.Commands is helper/src/commands.rs with
-- `validate_arg_ranges` of helper/src/core.rs. `String` of JavaScript and the parsers of numbers
-- of Rust are parameters; a double is the decimal number of its shortest text.
--
-- Authorize is helper/src/authorize.rs: the list of callers and the check of one. What the bus and
-- /proc say of a caller is a record `World`, and the resolution of links a parameter.
--
-- Not modelled: the running of binaries in the core; of the child scanning and the watcher, the
-- heartbeat, the commands of the vehicle and the texts of the answers; of the client the layout,
-- the running of a command on its page, and D-Bus; and helper/session/thirdparty, the copy of
-- another project, whose calls are answers of the world outside.
pub mod Base
pub mod Text
pub mod Config
pub mod Client
pub mod Bluez
pub mod Session
pub mod Share
pub mod Translations
pub mod Dashboard
pub mod Core
pub mod Catalog
pub mod Authorize
