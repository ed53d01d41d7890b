-- ===== src/Lib.antt =====
-- Ayak'bine wallet backend: a model of its Python code and of the PL/pgSQL functions that it calls.
--
-- The live API (app/main.py) keeps accounts, wallets and a virtual ledger in PostgreSQL. Its routes call
-- app/wallet_service.py, which calls the atomic functions of sql/; a second generation of services (app/services,
-- app/api/v1) moves money between mobile operators through the partner API of JEKO.
--
--   Base        names that all files share: Boolean tests, lists and texts, what a request ends with.
--   Money       non-negative decimal numbers, their roundings, and amounts in NUMERIC(15, 2) columns.
--   Fees        app/services/fee_rules.py.
--   Ledger      Models: the tables of app/models.py. Store: the statements and the constraints of
--               sql/migration_004_repair_core_schema.sql. Payin, Payout, Transfer: process_payin_credit,
--               process_payout_deduction, admin_process_payout and process_internal_transfer. Service:
--               app/wallet_service.py.
--   Auth        app/auth.py and app/api_auth.py. Security: app/core/security.py.
--   Wallet      app/api_wallet.py.
--   Admin       app/api_admin.py: its routes that change the tables; Listing, Accounts: its lists with their
--               filters and pages; Stats: the dashboard and the daily figures; Settings: the fee and the payment links.
--   Kyc         app/api_kyc.py and the decisions of app/api_admin.py. History: sequences of both. Service: app/api/v1/kyc.py.
--   Devices     app/api_devices.py and app/api/v1/devices.py.
--   Push        app/push_service.py and app/services/push_service.py. Setup: from the settings to the tokens.
--   Jeko        Client: app/services/jeko_client.py. Webhook, Delivery: app/services/webhook_service.py and the
--               route of app/api/v1/webhooks.py. Kkiapay: the other route there, with the calls that it accepts (Matching, Accepted). Transfers:
--               app/api/v1/transfers.py. Reconcile: app/services/reconciliation.py and
--               app/services/auto_reconcile.py. Notices: sequences of notifications.
--   Agent       app/api/v1/agent.py: the agents who take cash in and pay it out. Cash: cash_in and cash_out.
--   Otp         app/services/otp_service.py.
--   Sms         app/services/sms.
--   Migrations  app/db_migrate.py.
--   Settings    app/database.py, app/utils/hmac_verify.py and app/services/kkiapay_client.py.
--   Audit       the specifications of the ledger, and the proofs that the routes keep them. Reach: sequences of
--               requests and of the notifications that they leave for later, and the accounts that they keep. Book: a specification without rows, a balance for each
--               user and the few effects that each request may have on it. Global: the sum over all users.
--               Progress, Sent, Paid: what is accepted when nothing stands against it.
--   Tests       concrete runs.
--
-- A function of the model has the name of the code's function, takes the tables and returns them with its
-- answer. A statement that fails raises, and the tables are then those of the last commit; an HTTPException is its
-- status code, and an exception that no handler catches is server_error. A table is the list of its rows,
-- the newest first. What uuid4 and random draw comes as an argument, and so does the time.
--
-- A number stands for a text that the code only compares: identifiers, references, hashes, tokens. Other texts are
-- lists of code points, whose case is changed on ASCII letters alone. Decimals are not negative, as the schemas ask
-- (gt=0, ge=0), and a balance below 10 ^ 13 is a number of hundredths below 10 ^ 15; the 28 digits of Python's decimal
-- context are not modelled. A call to JEKO or to an SMS provider makes at most three attempts
-- (stop_after_attempt(3)), counted down structurally, and the background task has one pass for each of its delays; no other loop needs a bound.
--
-- Code outside the repository is a parameter: JSON web tokens and PIN hashes (Crypto), FCM's, Orange's and Twilio's answers, JEKO's server,
-- the digest of hmac, the execution of a migration, the reading of a Firebase account (from_json, refresh),
-- what created_at says of a row (created_at, day_of), the collation of the database (le_text),
-- and, for the services, the crediting of a wallet, the end of a Kkiapay deposit, the lock of a user or an agent, the
-- client of an agent and the creation of the row of a transfer or of an agent's transaction
-- (app/services/wallet_service.py, which the repository lacks). The hypotheses IsPending and MakesPending say that such a row
-- holds the arguments of its creation and is not settled, in either of its legs, and FindsClient that the client is one of the agent's and
-- that no other is lost.
-- The hypothesis Decodes says that a token can be read until it expires.
--
-- Not modelled: the HTML of the pages, time zones, timestamps where no figure depends on them, statuses of identity
-- checks that KycStatus lacks, lengths of columns but for the numbers and proofs of ledger rows and for device tokens, the
-- calls of the Kkiapay SDK, configuration and database sessions, the start of the application
-- (app/main.py) and the command-line scripts, and what runs at the same time: a function of the ledger runs on
-- locked rows, so it is one step, and so are, by assumption, the handlers of the services and the operations on
-- Redis.
pub mod Base
pub mod Money
pub mod Fees
pub mod Ledger
pub mod Auth
pub mod Push
pub mod Kyc
pub mod Devices
pub mod Wallet
pub mod Admin
pub mod Audit
pub mod Jeko
pub mod Agent
pub mod Otp
pub mod Sms
pub mod Migrations
pub mod Settings
pub mod Tests
