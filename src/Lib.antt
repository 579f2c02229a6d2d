-- ===== src/Lib.antt =====
-- A verification library for the food delivery system. The system is a set of FastAPI services, each
-- with a database of its own; they speak by events over an at-least-once transport, which each writes
-- to an outbox table in the transaction of the change that it reports. This library models the core of
-- its seven services.
--
-- Shared, shared/: Identity is identity.py (the caller), OutboxEvent and Relay are outbox.py (the row
--   and one round of `drain`), CircuitBreaker is http_client.py, RateLimit is ratelimit.py and Messaging
--   the consumer of messaging.py.
-- Orders, services/orders/app: Orders/Models is models.py; StateMachine is state_machine.py; Actions
--   and Lifecycle are service.py (one definition per function, under the function's name without its
--   leading underscore); Cart is cart.py, Reorder is reorder.py; Checkout is checkout.py and
--   `create_order_from_checkout`;
--   Consumer is consumer.py. Requests is every entry point that writes to orders_db as one type, and
--   histories of them.
-- Payments, services/payments/app: Models, Providers, Service and Consumer are the files of those
--   names; Signature is webhook.py's `verify_signature`, and Webhook its `handle_event`; Deliveries are
--   sequences of messages in any order.
-- Delivery, services/delivery/app: Models, Location and Consumer are the files of those names; Drivers
--   and Assignment are service.py's choice of a driver and the life of an assignment; Tracking is its
--   view and eta.py. Steps is that life as a relation, Requests and Histories are sequences of what
--   writes.
-- Restaurants, services/restaurants/app: Models, Hours, Inventory, Zones, Ratings, Reviews, Menu,
--   Service and Consumer are the files of those names; Validation is internal.py, Discovery the price
--   bands of discovery.py. Venues is what a request may do to the restaurants as a relation, Requests
--   every request that writes but the copied names of owners.
--
-- Users, services/users/app: Models is models.py, Accounts and Sessions are service.py with tokens.py,
--   jwt_tokens.py and dependencies.py, Profile, Favorites and Routes the files of those names (Routes is
--   router.py). Requests is everything that writes to users_db or to its keys in Redis; Steps is what a
--   request may do to the accounts, and Revocation what it may do to the blocklist of tokens.
-- Notifications, services/notifications/app: Models, Templates, Preferences, Service and Consumer are the
--   files of those names; Expected says what a status change should send. Admin, services/admin/app:
--   likewise.
--
-- How the services interact: a checkout asks the restaurants service, whose answer is an argument, and
-- adds an order; its events reach the payments service, which creates the payment; the news that money
-- has moved comes back as an event; a cancellation or a delivery records a payment command that the
-- payments service carries out. An order that is ready gets a delivery from its event, and the
-- delivery's events move the order on. The restaurants service answers the checkout and reserves the
-- stock. A restaurant's owner registers with the users service, whose account is let in by the event of
-- an approval. The notifications and the admin service keep copies from the events of all the others.
-- Each database is modelled alone, and what comes from another service is an argument.
--
-- State: a handler is a function on a session, Base/Transactions, with the database as it reads and
-- writes it, as it is committed, and the calls made to other systems, which a rollback does not undo.
-- A handler that fails leaves the committed database. A table is a list of rows found by a key,
-- Base/Table. One handler runs at a time; where two overlap, the handler takes what was read before as
-- an argument (`cancel_as_read`, and the rival rows of `create_payment_for_order` and
-- `assign_for_order`). The Kafka loop stops between any two of its steps, and the lock of a checkout is
-- taken and released by operations of its own, at any times.
--
-- Numbers: amounts are whole paise (the columns have two decimals), times whole seconds, times of day
-- minutes, lengths metres, ids naturals. An average of stars stays a sum and a count. There is no
-- fuel: loops are recursions on the list that the source iterates over.
--
-- Parameters: SHA-256 of the cart's prices, HMAC, the text functions of Python, the payment provider
-- of Stripe, the answer to a checkout, GEOSEARCH, the routing provider, the local time of an instant,
-- the distance on the globe, the folding of case, bcrypt, the digest of a reset token, the geocoder, the
-- senders of messages and the writing of a number: no law is assumed of any of them. Of PyJWT's decode
-- it is assumed that a token has one set of claims and is refused from its expiry on; of a Kafka client
-- what its documentation says of positions and committed offsets (Kafka and IsKafka in Messaging).
--
-- Not modelled: the HTTP routes but two and the wiring, the validators of request bodies, the threads
-- and the publishers of events, the loop of the relay, logging, most listings, the search, the names of
-- owners that the restaurants service copies, pictures, and the answers of other services to calls made
-- for the admin panel. What Redis drops by itself is modelled for the lock of a checkout, the events of
-- the webhook, the blocklist, the reset tokens and the windows of the rate limit, not for the carts.
pub mod Base
pub mod Shared
pub mod Orders
pub mod Payments
pub mod Delivery
pub mod Restaurants
pub mod Users
pub mod Notifications
pub mod Admin
