-- ===== src/Lib.antt =====
-- Verification of the ride-sharing backend (the Express services under src/).
--
-- The program answers HTTP and socket requests by calling services; a service reads and writes rows of
-- PostgreSQL through repositories, short-lived keys of Redis, and calls Stripe, Google and a mail queue.
-- A ride is requested by a passenger, offered to nearby drivers, accepted by one of them, started with a
-- one-time password, completed, and paid in cash, from a wallet or by card.
--
-- How the code is modelled
-- - Store.State is the whole state: a table per model of prisma/schema.prisma, the keys of Redis, and
--   lists of what was sent (socket events, email jobs, calls of Stripe, metrics). A row's id is its key
--   in its table, newest row first; cuid strings, hashes and passwords are numbers, which the code only
--   compares. Times are milliseconds, a column of money is whole cents, a requested amount is mills
--   (thousandths of a dollar).
-- - Store.Monad is the state and exception monad of an async function: what was written before a throw
--   stays, except inside `transaction`, which is prisma.$transaction. A call runs alone; where several
--   requests interleave, the steps are explicit (Services.Ride.Race, the rows that `sweep` was given).
-- - Errors (utils/ApiError.js) are values; Errors.Normalize is middlewares/error.middleware.js.
-- - Unique constraints of the schema are checked by the inserting function, which throws P2002.
--
-- Which file models what
-- - Model.*: the rows and enums of prisma/schema.prisma. Repositories.*: src/repositories/*.js.
-- - Utils.Fare, Utils.Money: utils/fare.util.js with config/pricing.js, utils/money.util.js. The exact
--   rational amounts stand for the floating-point ones, rounded where the code calls toFixed.
-- - Services.Geo: services/geo.service.js (GEOSEARCH is a parameter). Services.Maps:
--   services/maps.service.js (the Directions API and the great-circle distance are arguments).
-- - Services.Ride: services/ride.service.js. Request: requestRide and dispatchRideOffer. Matching:
--   listNearby (Nearby states what it answers, Sorting its order), acceptRide, rejectRide. Trip: markArrived, startRide, completeRide. Cancel: cancelRide.
--   Expiry: expireStaleRides. Views: getRide, getMyActiveRide and the histories. Lifecycle states the
--   life of a ride as a step relation, and History runs any sequence of calls.
-- - Services.Wallet: services/wallet.service.js. Services.Coupon: services/coupon.service.js.
-- - Services.Payment: services/payment.service.js; Stripe is its webhook, Refund its refunds.
-- - Services.Notification: services/notification.service.js.
-- - Services.Token: services/token.service.js. Services.Auth: services/auth.service.js with
--   services/email.service.js; its Sessions has the operations.
-- - Services.Driver: services/driver.service.js. Services.Rating: services/rating.service.js.
-- - Services.Vehicle, Services.Verification, Services.User, Services.Admin, Services.FavoriteDriver,
--   Services.SavedLocation: the services of these names; Admin also has middlewares/auth.middleware.js.
-- - Services.Report, Services.Analytics: services/report.service.js and analytics.service.js over
--   Repositories.Reports. Jobs: jobs/processors/*.js, where a run of BullMQ is an element of a list
--   and the times that it redelivers a stalled job (maxStalledCount) are a parameter.
-- - Http: controllers/*.controller.js as functions from a user and an endpoint, Routes the guards that
--   routes/*.routes.js and app.js put before them. Http.Config collects the parameters of the services.
--   Sockets: sockets/index.js.
-- - Validators: validators/*.js, as predicates on parsed values; Http.Rated puts one before its controller.
-- - Client: frontend/js/state.js; Client.Api: frontend/js/api.js, with the server's answers as arguments;
--   Client.App: frontend/js/app.js; Client.Driver: the handlers of frontend/js/views/driver.js.
-- - Common.*: tests on numbers, lists, tables and decimal text. Tests.*: concrete stores and runs.
--
-- What is chosen
-- - Every loop of the code runs over a list and is structural recursion, so no fuel is needed.
--   Decimal text takes as many steps as its number plus one, which exceeds its digits.
-- - Outside code is a parameter or an argument: the answers of Stripe, Google and the Directions API,
--   the outcome of verifying an access token (with the ten seconds that the code tolerates), random tokens, OTPs and new ids, bcrypt, SHA-256, the lifetimes that the environment sets. A
--   comparison within a tolerance is exact where the code compares floating-point numbers.
--
-- What is not modelled: how the schema library parses; paths, parsers and headers of
-- requests; rate limits, logging and metrics apart from the counters of outcomes; the storing of uploaded
-- files; the text of mails; the schedule of the jobs; the templates of the demonstration client and
-- the handlers of its other views; the OpenAPI documents, which are data.
pub mod Common
pub mod Errors
pub mod Utils
pub mod Model
pub mod Store
pub mod Repositories
pub mod Services
pub mod Tests
pub mod Jobs
pub mod Http
pub mod Sockets
pub mod Client
pub mod Validators
