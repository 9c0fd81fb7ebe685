-- ===== src/Lib.antt =====
-- Papertrail: the money and sharing core of a receipt manager, as a model with proofs.
--
-- Users keep records of their expenses, share records with one another, and bundle them into
-- reimbursement packages that another user pays through Stripe. Stripe reports payments, failures,
-- refunds and disputes as events; each event settles, reverts or restores a payment and its package.
-- Bank transactions are synced from Plaid into records and matched with receipts, and a plan limits
-- storage and scans.
--
-- Which file models what (paths from the repository's root):
--   Base            shared names: Boolean tests, lists, tables and their query sets, texts,
--                   integers, results, actions (methods that change a state and may raise), and
--                   rules by which an action keeps an invariant.
--   Money           Decimal: Python's decimal numbers with 28 digits; Currencies:
--                   core/currencies.py; ExchangeRates: core/exchange_rates.py; PlatformFee:
--                   reimbursements/money.py.
--   Database        the tables that the apps share, one request's view of the outside (time, locks,
--                   rates, Stripe's replies), and transactions.
--   Records         Model: records/models.py; Shares: records/shares.py with the query sets
--                   `visible_to`, `shared_with_me` and `active_for` of records/models.py;
--                   Shares/Recipients: sharing with mail addresses.
--                   Matching and Merging: records/matching.py; Services: archiving in
--                   records/services.py.
--   Plaid           Model: plaid_integration/models.py; Services: plaid_integration/services.py;
--                   Folders and Syncing: plaid_integration/tasks.py.
--   Billing         Storage: billing/storage.py with documents/signals.py; Plans:
--                   billing/metadata.py; Entitlements: billing/entitlements.py.
--   Documents       Uploads: documents/services/validation.py.
--   Reimbursements  Model, Package, Payment: reimbursements/models.py; Access: the package's grants
--                   in reimbursements/services.py; Settlement, Lookup, Webhooks:
--                   reimbursements/webhooks.py; Tasks: reimbursements/tasks.py; Verification:
--                   reimbursements/verification.py. Writes, Invariants, Delivery and Settling hold
--                   what is proved about them.
--                   Reconciliation: reimbursements/reconciliation.py; LineItems:
--                   reimbursements/checkout.py; Checkout and Creation: create_package_checkout and
--                   create_reimbursement_package in reimbursements/services.py.
--
-- A method of the source becomes an action: a function from the world to a result or an exception
-- and the world afterwards. The world is the database, the refunds that Stripe granted and the
-- tasks that were sent; a transaction that raises restores the database and not the others. Storage
-- accounting and plans have a state of their own, since they share no rows with the rest. A row
-- that is read is a value, as a model instance is, and a method that saves it updates the rows of the
-- table by primary key.
-- `select_for_update(skip_locked=True)` is `claim`: the environment says which rows other
-- transactions have locked. A primary key of a new row is taken from a counter.
--
-- Parameters of the model: Stripe's replies (a field of the environment, any function), Plaid's pages,
-- the exchange rates that the service returned, the similarity ratio of two texts, the digest of a
-- verification code, the head of an object in the bucket, and the display of a date and of a
-- number. A request for a refund that Stripe grants is noted, even if Stripe answers it with a refund
-- that it has made before.
--
-- Loops are structural recursion on the rows of a query set. Only the loop over Plaid's pages has
-- fuel, one unit for each page: as many as Plaid answers before the last one are enough.
--
-- Not modelled: views, templates, forms and mail, since they only display or send; the queue that
-- delivers events and tasks, which appears as any sequence of calls; OCR and the
-- request for an upload; subscriptions and their payment; accounting exports; the choice of rows by
-- text search. Case of letters is that of ASCII.
pub mod Base
pub mod Money
pub mod Database
pub mod Plaid
pub mod Billing
pub mod Documents
pub mod Records
pub mod Reimbursements
