-- ===== src/Lib.antt =====
-- The back end of a local marketplace: the stock of a business, its bookable schedule, its
-- subscription, and the requests of its customers. Paths are from the repository's root.
--
-- How the parts interact. A handler of internal/inventory or internal/operations checks the caller
-- (internal/api, internal/auth), cleans and checks the request (internal/platform/validator), and
-- runs the statements of internal/platform/postgres/db in one transaction. Confirming a request takes
-- a unit of the quota of internal/entitlements, whose subscription internal/billing keeps in step with
-- Stripe. Requests that nobody confirms are expired by jobs of internal/jobs, which read a queue.
--
-- What models what:
--   Api, Auth: internal/api/api.go (the errors, ErrorHandler, CurrentUser, RequireBusinessRole) and
--     internal/auth/context.go. The local row of a user and its roles are part of a Session.
--   Tx: Begin, defer Rollback and Commit as a state function whose error forgets the state.
--   Text, Validator: Go strings as lists of runes, and internal/platform/validator/json.go. Paging has
--     QueryInt32 and Page, with strconv.ParseInt.
--   Decimal: github.com/shopspring/decimal as a record of operations and laws. Its laws say that sums
--     and differences are exact in an abelian group; Examples.Numbers is an instance.
--   Inventory: Rows and Queries are the tables and statements of inventory.sql.go; Service is
--     service.go; Handler has one function for each of createStockMovement, updateStockMovement and
--     deleteStockMovement, with the helpers replayStockMovement, applyMovementEditDelta and
--     applyNonnegativeStockDelta; Calls is a history of requests. Ledger, Replay,
--     Repeats, Stocked and Tenancy hold proofs.
--   Scheduling: internal/scheduling/schedule.go. Calendar has dates as day numbers and their texts,
--     Clock has Clock and Validate, Slots has Slots; Validity, Placing, Offering, Offers and
--     Range hold proofs. The loop over the instants of a day runs on fuel, two more than the whole minutes
--     between the instant of the date and the one a date later; the probe loop
--     makes exactly duration + buffer rounds.
--   Entitlements: internal/entitlements/service.go. Access has Paid, Limits, Get and Consume.
--   Operations: States has Next of internal/appointments and internal/preorders and what
--     internal/operations builds on it, Rows and Tables the rows and statements, Expire the function
--     Expire of mutate.go with begin, Intake has requireIntake and publicUnavailable of core.go, Customer
--     has customer. Booking has appointmentSlots, pickupSlots, checkAppointment and checkPickup; Changes
--     has the guards of mutate with replay, saveReplay and record; Checks what mutate reads and finds out
--     before it writes, Mutate its writes in their order. Arrivals has what create tests with pendingLimit,
--     Basket the catalog and the pricing of items, Create its writes; Rules has validateSettings,
--     Configuration the writes of configuration and resources. Machine has the abstract state machine of
--     a request. Lifecycle, Expiry, History, Redelivery, Admission, Contacts, Overlaps, Mutated, Changed,
--     Readings, DoubleBooking, Refinement, Histories, Expirations, Lives, Settled, Guards, Landed,
--     Journal, Again, Created, Creations, Newcomers, Openings, Refusals, Prices, Steps and Seats hold
--     proofs.
--   Jobs: Process of internal/jobs/worker.go; the calls of the queue are its verdicts.
--   Billing: interpret of internal/billing/change.go.
--   Examples: concrete inputs at which the theorems apply.
--
-- Conventions. Times are nanoseconds from an epoch, as natural numbers; identifiers are natural
-- numbers, and uuid.Parse is the parameter `parse`. Statements fail only where their SQL says so: no
-- row, a unique key, a foreign key; a lost connection is not modelled. Concurrent transactions are
-- taken one after the other, since each locks the rows that it reads to write. A message that Go makes
-- by fmt.Sprintf from numbers keeps the name of the field only. The text of a date is right from
-- 0000-03-01 up to the year 9999. json.Unmarshal into the settings is the parameter `unmarshal`;
-- time.LoadLocation is the parameter `zone_of`, and a zone is what it says of an instant and what
-- time.Date makes of a date. A record Env of Operations.Booking holds what internal/operations takes
-- from outside: these two, the time, decimal.NewFromString, the text of a uuid and Time.AddDate. A
-- jsonb column is the value that it holds, a numeric column its thousandths or hundredths. mutate is
-- given what its first lines make of the caller's access and of the body (Target and Change), and
-- answers the fields of Record that the request's own row gives; the ciphertext of a saved answer is
-- the answer. create is given the identifiers and the hash of the token that Go draws, and the answer
-- of the challenge (Booking). What merge makes of a body and the stored value is an argument of the
-- handlers that save settings and resources.
--
-- Not modelled: the services handler, the reads, lists and exports of internal/operations, the calls of
-- Stripe, Clerk and Turnstile, signatures and encryption, business, catalog, marketplace, analytics and
-- support, logging and configuration, and what only reads.
pub mod Prelude
pub mod Api
pub mod Decimal
pub mod Text
pub mod Validator
pub mod Tx
pub mod Auth
pub mod Inventory
pub mod Scheduling
pub mod Entitlements
pub mod Operations
pub mod Jobs
pub mod Billing
pub mod Examples
