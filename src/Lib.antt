-- ===== src/Lib.antt =====
-- Nestora is a server for housing associations: FastAPI routes call the services of app/modules/*,
-- which read and write a database through repositories, each write inside one `UnitOfWork`.
-- This library models the parts of it that move money, settle invoices, admit to events and at
-- the gate, count votes, and keep balance sheets.
--
-- Shared.
--   Prelude            numbers, integers, tables as lists of rows, texts as lists of code points
--   Http               a handler: a function of the database that returns or raises
--                      `HTTPException`, and `UnitOfWork` (app/db/unit_of_work.py) around it
--   Account            RoleCode (app/core/constants.py), Account (app/modules/auth/models.py)
--   Directory          the tables of accounts, members, units and associations, with the
--                      queries that the services repeat
-- Notifications        app/modules/notifications
--   Notifications/Service, Notifications/Repository
--                      service.py and repository.py
--   the other files    paging through an inbox, and what is unread
-- Wallet               app/modules/wallet
--   Wallet/Data        models.py, the payloads of schemas.py, and `resolve_assessment_amount` of
--                      app/modules/associations/assessment.py
--   Wallet/Repository  repository.py: each query on the tables
--   Wallet/Service     service.py: each method that writes, with the checks that it calls
--   Wallet/Orders      service.py: `list_transactions`, `create_order` and `verify_payment`
--   Wallet/Handler     router.py: the routes that write, and a sequence of requests
--   the other files    what the methods read and write, and the theorems on them
-- Invoices             app/modules/invoices
--   Invoices/Data      models.py, the payloads and validators of schemas.py
--   Invoices/Money     `money` and `calculate` of service.py, in integers
--   Invoices/Number    the text of a generated number
--   Invoices/Repository, Invoices/Service, Invoices/Handler
--                      repository.py, service.py and router.py, as for the wallet
--   the other files    what the methods read and write, and the theorems on them
-- Passes               app/modules/events/pass_service.py
--   Passes/Data        models.py and the payloads of schemas.py
--   Passes/Repository  pass_repository.py, the queries of repository.py that the passes use, and
--                      `create_notification` of app/modules/notifications/service.py
--   Passes/Access      service.py: `_authorized_event` and `_manager_event`
--   Passes/Service     pass_service.py: `book`, `share` and `check_in`
--   Passes/Rsvp, Passes/Going
--                      service.py: `rsvp` and `clear_rsvp`; who is going after an RSVP
--   Passes/Engagement  service.py: `like`, `add_comment`, `delete` and `_check_window`
--   Passes/Handler     the routes of router.py that write passes
--   the other files    what the methods write to the table of passes, and the theorems on them
-- Visitors             app/modules/visitor_management
--   Visitors/Data      models.py, the statuses of constants.py and the payloads of schemas.py
--   Visitors/Repository, Visitors/Gate
--                      repository.py: visits and visitors; passes, the log and deliveries
--   Visitors/Access, Visitors/WalkIn, Visitors/Service
--                      service.py: who may do what; walk-in visits; passes and deliveries
--   Visitors/Handler   the routes of router.py that write
--   the other files    what the methods write, and the theorems on them
-- Polls                app/modules/polls
--   Polls/Data         models.py and the payloads of schemas.py
--   Polls/Access       service.py: who may see, change and vote in a poll
--   Polls/Service      service.py: each method that writes
--   Polls/Handler      the routes of router.py that write
--   the other files    what the methods write, and the theorems on them
-- BalanceSheets        app/modules/balance_sheets
--   BalanceSheets/Data, BalanceSheets/Totals, BalanceSheets/Service
--                      models.py and schemas.py; the totals of service.py; what it writes
--   BalanceSheets/Handler
--                      the routes of router.py that create and update a sheet
--   the other files    the theorems on them
--
-- A table is the list of its rows in the order of their insertion, an id is a number, for ids
-- are only compared, and `uuid.uuid4()` counts up. `SELECT … LIMIT 1` is the first row.
-- Requests run one after the other: `FOR UPDATE` adds nothing to that. The time does not pass
-- within a sequence of requests, but for those of the gate and of polls, before each of which
-- some time passes. Amounts are whole numbers of hundredths, or of the smaller unit that a file
-- names. `lower` is that of ASCII letters, `strip` that of ASCII white space. An UPDATE that
-- takes a wallet's balance out of the range of its column raises, as does an INSERT that
-- repeats a unique value.
--
-- The loop that looks for a free invoice number runs on fuel, the number of rows of the table; that
-- this is enough is one of the results. `digits` runs on fuel above the number that it prints.
--
-- The characters that `secrets.choice` draws for the codes of a visitor's pass are arguments,
-- and the chart of accounts of an association is read as a table that the sheets do not write.
--
-- Not modelled: the sockets that push notifications; the lists of invoices and of events,
-- exports and serialization, the lists and searches of the gate and of polls, which change
-- nothing; creation and update of events; the columns `created_at` and `updated_at` of
-- invoices; the rounding that Python's decimal context applies to numbers of more than 28
-- digits; sessions and request authentication; the code text and the QR data of a pass, which
-- are made of its ids; and the other modules of app/modules.
pub mod Prelude
pub mod Http
pub mod Account
pub mod Directory
pub mod Notifications
pub mod Wallet
pub mod Invoices
pub mod Passes
pub mod Visitors
pub mod Polls
pub mod BalanceSheets
