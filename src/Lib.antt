-- ===== src/Lib.antt =====
-- A model of the ticketing backend: the repositories over Postgres, the token bucket in Redis, and
-- the services for bookings, payments and the worker, with what they guarantee together.
--
-- How the parts work together. A client books seats of an event (internal/service/bookings): the
-- service takes one token for each seat from the event's bucket in Redis (internal/redis/tokens.go),
-- inserts a pending booking and publishes it, or puts the user on the waitlist. The worker
-- (internal/service/worker) mails a payment link and cancels the booking after 15 minutes if it is
-- still pending. A payment (internal/service/payment) finalizes the booking: the booking and its
-- seats become booked and the event's counter `reserved` goes up. A cancellation takes that back,
-- releases the tokens and promotes the next user of the waitlist.
--
-- The files. World: one call of Postgres, Redis, Kafka or SMTP, which may fail, and the state that
-- these services keep; World.with_tx is WithTx of internal/store/db.go. Schema: the rows of the
-- tables of cmd/migrate/migrations/000001_init.up.sql and the Go structs. Sql: what the SQL
-- statements do with a table; Tables: the UPDATE statements that several parts share. Bookings,
-- BookingTx: internal/store/bookings/bookings.go, with CancelBookingTx and FinalizeBooking in
-- BookingTx. Seats, Waitlist, Events, Users, AdminStore: the repositories internal/store/seats,
-- waitlist, events, users and admin. Tokens: internal/redis. Outside: internal/kafka/producer.go,
-- internal/service/mailer and the errors with a status code. BookingService, PaymentService,
-- FinalizeService: the services of internal/service/bookings, payment and worker. AuthService,
-- AdminService, EventsService: internal/service/auth, admin and events. Auth: tokens of access and
-- internal/middleware/authMiddleware.go. RateLimit: internal/middleware/ratelimit.go, and in
-- RateLimit.Redis redis_ratelimit.go. Api: the handlers of internal/api, a file for each group of
-- routes. Consumer: internal/worker/finalizer.go. Reconcile: cmd/reconcile/main.go. DefaultAdmin:
-- internal/config/createDefaultAdminUser.go. A Go function CamelCase is the definition snake_case,
-- and the handlers and repositories of one name are told apart by their modules; helpers name the
-- SQL clause or the part of the function that they are. Lifecycle: sequences of requests, payments,
-- cancellations and timeouts; Reads: what the reads that the services share leave alone. Samples and Tests: the data of the tests, the tests, and the theorems applied to it.
--
-- How it is modelled. A call is a function of an environment, which gives for the number of each
-- call whether it fails, the id that Postgres generates and the time, and of the world; it returns a
-- result (a value, an error, or a panic on a nil pointer) and the world. A failed call has done
-- nothing. Each SQL statement, each transaction and each Redis command or script is one step; the
-- code of a service between them is sequential, and clients interleave between calls where a
-- theorem says so. Texts and ids are only compared by the code, so they are numbers, 0 for the empty
-- text. Money: an amount is a number of cents, so that sums and products are exact, or NaN; that a
-- column holds is checked where an event or a payment is written, and FinalizeBooking is taken to be
-- given an amount that UpdatePaymentStatus has stored. The 32-bit and 64-bit bounds of the counters
-- are left out. Rows that an ORDER BY does not separate keep the order of the table. JSON
-- in the `seats` column that is no array of strings fills nothing. ILIKE and the label "seat1" are
-- parameters. Time is in nanoseconds. The tokens of the limiter in memory are in units of a
-- nanosecond's share of one request per second, so that what Go keeps in a `float64` is exact.
-- golang-jwt and bcrypt are the record Auth.Crypto, and what their documentation promises is
-- Auth.CryptoLaws; random bytes come from the environment. gin is modelled by what the handlers use of
-- it: the answer with its code, an error of the binding as an input, the middleware in front of a
-- route. All loops are structural; there is no fuel.
--
-- Not modelled: logging and metrics, the texts of mails and of errors, the rules by which gin and the
-- validator accept a body, the fetching of messages and the limit on goroutines, tickers, the wiring
-- of the programs (the mailer and the waitlist of a service are taken to be there), and the SQL that
-- UpdateEvent builds from names that are no columns.
pub mod AdminService
pub mod AdminStore
pub mod Api
pub mod Auth
pub mod AuthService
pub mod BookingService
pub mod BookingTx
pub mod Bookings
pub mod Consumer
pub mod DefaultAdmin
pub mod Events
pub mod EventsService
pub mod FinalizeService
pub mod Lifecycle
pub mod Money
pub mod Outside
pub mod PaymentService
pub mod Prelude
pub mod RateLimit
pub mod Reads
pub mod Reconcile
pub mod Samples
pub mod Schema
pub mod Seats
pub mod Sql
pub mod Tables
pub mod Tests
pub mod Tokens
pub mod Users
pub mod Waitlist
pub mod World
