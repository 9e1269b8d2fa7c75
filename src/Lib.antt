-- ===== src/Lib.antt =====
-- ParkirPintar, a reservation and payment system for parking lots in Go: gRPC services over
-- PostgreSQL, Redis and RabbitMQ. This library models the services that keep reservations,
-- invoices and payments, the gateway before them, accounts and notifications, and the packages that
-- they share.
--
-- The parts. services/reservation gives out spots under a lock of Redis, moves reservations through
-- their states, and publishes an event for most moves. services/billing prices a session with
-- pkg/pricing and keeps its invoice; the gateway asks it for one, and so does its subscriber for
-- each check-out event. services/payment asks a payment gateway to charge and takes the gateway's
-- webhooks. services/gateway takes the requests of drivers, who register and log in there: it calls
-- the other services, books in three calls of them with a cancellation if the fee cannot be charged,
-- and confirms a paid booking by itself, in the tables and the lock. services/notification tells
-- drivers of the events. Creations, check-outs, invoices and payments are idempotent by a key that
-- pkg/idempotency keeps in Redis.
--
-- World.antt is what they run in: the tables, the keys of Redis, the messages published, and an
-- environment that answers the n-th request made of it: whether the n-th call of the database, of
-- Redis or of the broker fails, what the clock shows then, which identifier uuid.New gives, and
-- after how many rows a query breaks off. A computation is a function
-- `World → Result E A × World`; what was written stays written after an error. A failed call has
-- changed nothing. A use case runs from its first call to its last without another one between, but
-- in Reservation/Races, Reservation/Interleaving and Gateway/Crossing.antt, where it is cut in two.
--
-- Common.antt: shared names; Boolean tests, signed integers, time in nanoseconds, gRPC codes.
-- Table.antt: the queries by key that the repositories make, with their laws.
-- Pricing.antt: pkg/pricing/pricing.go. BilledHours is `billed_hours`, IsOvernight `is_overnight`,
--   Calculate `calculate`, CalculateCancellationFee `calculate_cancellation_fee`. Its children prove
--   what they compute.
-- Shared/Lock.antt: pkg/lock/lock.go. Acquire is `acquire`, by SET NX `set_nx`; Release is
--   `release`, by the script `release_script`. Shared/Holding and Held.antt have
--   their laws.
-- Shared/Idempotency.antt: pkg/idempotency/idempotency.go, `check` and `save`.
-- Reservation/Domain, Repository, Publisher, Usecase and Handler.antt: the files of the same names
--   of services/reservation/internal, and the part of pkg/mq/mq.go that publishes. CreateReservation
--   is `create_reservation`, which is `create_fresh` past the idempotency check and `reserve_spot`
--   past the choice of the spot; CheckOut is `check_out`, with `check_out_fresh`; the loop of
--   ExpireReservations is `expire_all`, with `expire_one` for a round. Of the proofs, Outcomes has
--   how the use cases end, Creation the lock and the replay, Transitions, Writes, ExpiryMoves and
--   Requests the state machine and sequences of requests, Expiry what the expiry job does,
--   DoubleBooking how long a spot is held, Spots the choice of spots, Answers the handlers.
--   Lifecycle has the abstract machine of the statuses, which Requests refines; Races has CheckIn in
--   two halves, `check_in_read` and `check_in_write`, with another request between them;
--   Interleaving has CreateReservation as `reserve_lock` and `reserve_insert`, with events of any kind
--   between, and Halves what the two write; Requests takes them as requests of their own.
-- Billing/Domain, Repository, Usecase, Subscriber and Handler.antt: the files of the same names of
--   services/billing/internal. GenerateInvoice is `generate_invoice`, with `generate_fresh` past
--   the idempotency check. Invoicing and Checkouts.antt have the proofs.
-- Payment/Domain, Repository, Gateway, Usecase and Handler.antt: the files of services/payment/
--   internal, with gateway/mock.go. CreateTransaction is `create_transaction`, with `create_fresh`;
--   HandleWebhook is `handle_webhook`, which is `handle_payload` of a payload that is read and
--   `apply_webhook` of a new one. Charges and Webhooks.antt have the proofs. Midtrans.antt is
--   gateway/midtrans.go, with CreateQRIS `midtrans_qris` and CreateVA `midtrans_va`.
-- RateLimit.antt: services/gateway/internal/handler/ratelimit.go, with Allow `allow` and a round of
--   cleanup `sweep`; RateLimit/Window.antt has the proofs. Middleware is in Gateway/Serving.antt. The
--   program makes a limiter of 100 requests a minute.
-- Gateway/Client.antt: a call of another service, `rpc`, which may be lost on the way or back.
--   Gateway/Handler and Bills.antt: services/gateway/internal/handler/handler.go; CreateReservation is
--   `create_reservation`, whose invoice, payment and cancellation are `charge_booking`.
--   Gateway/Confirmation, Pending, History and Settlement.antt: the file extra.go beside it;
--   ConfirmBookingPayment is `confirm_booking_payment`, with `confirm_paid` past its tests.
--   SpotList.antt is its ListAvailableSpots, `http_available_spots`; Relay.antt is StreamMyLocation of
--   handler.go, which the program never calls with a user. Paid, Confirming, Holding, Writes,
--   Listing, Latest, Settling, Booking, Charging, Billed and
--   Crossing.antt have the proofs, the last with ExpireReservations cut after `list_overdue`.
-- Gateway/Serving.antt: services/gateway/cmd/main.go, from the HTTP server to the handlers:
--   `serve_http` is the chain of `limit_middleware`, `cors_middleware` and `http_middleware`, and
--   `route` the paths. Guarding and Throttling.antt have the proofs. Unreleased.antt has
--   the requests, here and of the services, that leave a lock held.
-- Accounts/Account.antt: services/gateway/internal/handler/auth.go, with `register` and `login`.
--   Accounts/Token.antt: pkg/auth/auth.go, with HTTPMiddleware `http_middleware` and UnaryInterceptor
--   `unary_interceptor`. Sessions and Searching.antt have the proofs.
-- Notification/Repository, Handler and Subscriber.antt: the files of the same names of
--   services/notification/internal. Delivery.antt has the proofs.
-- Presence/Domain, Repository and Handler.antt: the files of the same names of services/presence/
--   internal; a floating-point number is its bits. Tracking.antt has the proofs.
-- Logger.antt: pkg/logger, with HTTPRequestLogger `http_request_logger` and UnaryServerLogger
--   `unary_server_logger`. Logger/Lines.antt has what they write; Gateway/Logged.antt has the first
--   before the chain, `serve_logged`.
-- Mq.antt: pkg/mq/mq.go, with NewPublisher `connect`, Subscribe `subscribe` and its loop `consume`;
--   Publish is `publish` of Reservation/Publisher.antt. Mq/Consuming.antt has the proofs.
-- Config.antt and Config/Load.antt: pkg/config/config.go, with Load `load`. Config/Defaults and
--   Required.antt have the proofs. Config/Connections.antt: pkg/database/database.go and
--   pkg/redis/redis.go, with their New `new_pool` and `new_client`.
-- Tests.antt and its children: a concrete world, runs of the code in it, and each theorem at such
--   a run.
--
-- Bounds. Instants are nanoseconds from the Unix epoch on; durations saturate as Go's do. Amounts,
-- floors and counts are numbers without a bound: no amount of the program comes near the end of
-- its type. Loops are structural recursion over the list that they range over. The loop of
-- containsStr counts its rounds, one for each position from which the text still fits; the digits
-- of a number are as many as its type can have, 19 of an int64 and 10 of an int32. Tables are lists
-- of rows; ids and idempotency keys are unique as the schema says, and an insertion that repeats one
-- is refused, and so is a notification whose texts are longer than their columns. Other constraints
-- of the schema are not modelled.
--
-- Parameters: the payment gateway (a record), json.Unmarshal of a webhook's payload, SHA-512, the
-- JWT library, bcrypt, the client of Midtrans and viper (records, the last with its laws), the
-- providers of push messages and emails, PostgreSQL's reading of a smallint, and the handlers that
-- generated code registers.
--
-- Not modelled: distances between coordinates, which nothing computes; the circuit breaker, whose
-- states are a library's and whose refusals are failing calls here; the routing of messages from
-- the exchange to the queues, which is the broker's; the writing of log lines, tracing, connections
-- to the database and process start, which are I/O; generated code.
pub mod Common
pub mod Table
pub mod World
pub mod Pricing
pub mod Shared
pub mod Accounts
pub mod Notification
pub mod Presence
pub mod Reservation
pub mod Billing
pub mod Payment
pub mod Gateway
pub mod Config
pub mod RateLimit
pub mod Mq
pub mod Logger
pub mod Tests
