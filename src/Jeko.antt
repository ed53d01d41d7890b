-- ===== src/Jeko.antt =====
-- The JEKO services: app/services/jeko_client.py, app/services/webhook_service.py,
-- app/services/reconciliation.py, app/services/auto_reconcile.py, the webhook of
-- app/api/v1/webhooks.py and app/api/v1/transfers.py.
pub mod Kkiapay
pub mod Client
pub mod Webhook
pub mod Reconcile
pub mod Retry
pub mod References
pub mod Legs
pub mod Advances
pub mod Notices
pub mod Delivery
pub mod Refund
pub mod Transfers
pub mod Unpaid
pub mod Created
pub mod Once
pub mod Safety
pub mod Settling
