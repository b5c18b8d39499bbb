-- ===== src/Lib.antt =====
-- TicketVault: the backend, from the tables to the routes, and what the pages of the frontend decide.
--
-- The program sells seats of events. PostgreSQL holds the truth: events, seats, bookings and an audit
-- log, with a partial unique index that allows a seat one active booking. Redis holds a counter of
-- free seats for each event (the gate that a request passes before it touches the tables), the
-- waiting queue of the event, idempotency keys, reservations and the locks of the two workers. A
-- request claims its idempotency key, passes the gate and runs a transaction; a booking ends by
-- payment, by a failed payment, by the user or by the expiry worker, and a seat that becomes free is
-- offered to the waiting users in turn, or released to the public, which raises the counter. The
-- reconciler repairs a counter that stays wrong.
--
-- Which file models what:
--   Types, Table, Db   the types of backend/src/types/index.ts as they are used, the tables of
--                      backend/src/db/migrate.ts with their indices, and `withTransaction` of
--                      backend/src/db/index.ts; Db/Invariant says what consistent tables are
--   Booking            the transactions of createBooking, cancelBooking and confirmBooking in
--                      backend/src/services/booking/bookingService.ts
--   Payment            the transactions of backend/src/services/payment/paymentService.ts
--   Expiry             the scan and the transaction of backend/src/workers/expiryWorker.ts
--   Booking/*          what these transactions do, alone and in every sequence
--   Redis, Scripts     the commands and the scripts of backend/src/redis/scripts.ts, over the keys of
--                      backend/src/redis/client.ts; Redis/Names has the keys as texts
--   Pricing, Events    the surge price (Pricing/Doubles: its arithmetic), the reads through the cache,
--                      the counter and createEvent of backend/src/services/event/eventService.ts, with the tiers of
--                      backend/src/config/index.ts
--   World              the state that a handler works on: tables, Redis, messages and event cache
--   Offers             _offerSeatToNextWaiter and its parts
--   Service            createBooking, the wait for an idempotent response, cancelBooking and
--                      confirmBooking as wholes
--   Service/*          the proofs about them: Service/Transactions has the transactions that a call
--                      runs, Service/Histories the sequences of calls, Service/InStep the counters
--                      along them; Booking/Courses is about requests for seats of other events
--   PaymentService     simulatePayment
--   ExpiryWorker       withLock, _expireSingleBooking and processExpiredReservations
--   Reconciler         backend/src/workers/inventoryReconciler.ts; Reconciler/Checks is about its loop
--                      and Reconciler/Runs about whole runs under the lock
--   Accounts           backend/src/routes/auth.ts, middleware/auth.ts and
--                      middleware/security/refreshTokens.ts of backend/src; its children are about
--                      refresh tokens, the lock on an account, and who is let in
--   Listing            getEvents and getSeatsForEvent of eventService.ts and getUserBookings of
--                      bookingService.ts; Table/Sorting is their ORDER BY
--   Admin              the queries of backend/src/routes/admin.ts
--   Http               the routes of backend/src/routes as backend/src/server.ts mounts them, with the
--                      guards and the error handler of backend/src/middleware; Http/Site adds the
--                      routes of auth.ts and the check of the server's health
--   Wire               the requests of frontend/src/services/api.ts, and the methods and paths of the
--                      routes that serve them
--   Sockets            backend/src/services/websocket/wsService.ts: rooms and whom a message reaches
--   Seed               backend/src/db/seed.ts; Seed/Accounts adds its two accounts
--   Frontend           frontend/src/store/bookingStore.ts and the hooks useBooking.ts and
--                      useCountdown.ts of frontend/src/hooks
--   Frontend/Session   the session: store/authStore.ts, services/api.ts, App.tsx and the forms
--   Frontend/Messages  hooks/useWebSocket.ts; Frontend/Live follows a page from the server's messages
--   Frontend/SeatMap   components/booking/SeatMap.tsx
--   Frontend/Checkout  pages/CheckoutPage.tsx, as a step relation
--   Frontend/Dashboard the numbers of pages/HomePage.tsx and components/admin/AdminDashboard.tsx
--   Frontend/Pages     what the other pages and components of frontend/src decide
--   Frontend/Views     what the pages and components of frontend/src show, as lists of texts, links,
--                      buttons and fields: Navbar, Tickets (pages/BookingsPage.tsx), Seats
--                      (booking/SeatMap.tsx), Panel (booking/BookingPanel.tsx), Event, Checkout, Home,
--                      Forms (pages/LoginPage.tsx and RegisterPage.tsx), Console (AdminDashboard.tsx)
--   Tests              the theorems at small inputs
--
-- How the model corresponds to the code. A handler is a function on the world with a result or an
-- error: http_error for HttpError, unique_violation for a unique index, lock_not_available for NOWAIT,
-- other_error for the rest. A transaction is one step, since it locks the rows that it reads; what
-- another transaction locks is an argument of the call (Env.locked), and so are its clock (one reading
-- for each call, in milliseconds), its new UUID, and who is on the page of the event (`online`). Ids
-- and UUIDs are numbers, an amount is in cents, the surcharges and thresholds of the price are in
-- tenths. The price is computed with JavaScript's doubles, as Pricing/Doubles has them. Of
-- initiatePayment, whose two queries no transaction joins, the query that writes is a step of the
-- histories of Booking/History, whatever has happened since the other. Redis is a parameter: a record
-- of commands with their documented effects as laws, which the store in Redis/Sample meets. Its keys
-- have their times to live, but for the counts of offers, and `pass` lets time go by; within one call
-- no time goes by. Between the steps of one handler no other handler runs, but a call that waits for
-- the answer to its key is given what the keys hold after each pause; the histories of Booking/History
-- interleave the transactions of any number of calls, and those of Service/Histories run whole calls
-- one after another.
-- socket.io delivers a message to each socket in one of its rooms, in the order of sending. A page is a
-- state with its handlers as functions, and a number that JSON carries as a text is marked as one. ORDER
-- BY keeps the order of the table where it leaves one open; the order of two texts is a parameter, as
-- is JavaScript's localeCompare.
--
-- Bounds. The wait for an idempotent response has fuel for 51 rounds: a round takes 200 ms at least
-- and the wait ends at 10 s. The rows of a section have fuel for the seats of the section, since
-- each row has a seat. The loop of offers is bounded by 20 skips in the code itself. All other
-- loops run over lists.
--
-- Not modelled: the counts of the rate limiter, whose verdicts are an input of the routes, the start
-- and the shutdown of the process, logging, the texts of messages, created_at and updated_at, and of
-- the frontend the tags, styles, icons, animations, toasts, the chart of the dashboard's activity and
-- the boundary for errors. SHA-256, bcrypt, the signatures of access tokens and the checks of the
-- bodies of auth.ts and of a new event are parameters. The cron schedules of the workers are calls from
-- outside.
pub mod Prelude
pub mod Types
pub mod Table
pub mod Db
pub mod Redis
pub mod Scripts
pub mod Pricing
pub mod World
pub mod Events
pub mod Offers
pub mod Service
pub mod PaymentService
pub mod ExpiryWorker
pub mod Reconciler
pub mod Accounts
pub mod Listing
pub mod Admin
pub mod Http
pub mod Wire
pub mod Sockets
pub mod Seed
pub mod Frontend
mod Tests
pub mod Booking
pub mod Payment
pub mod Expiry
