-- ===== src/Alerting.antt =====
-- internal/alerting: rules on the metrics of devices, their states, and the notifications.
mod Examples
pub mod Webhook
pub mod Rule
pub mod Validate
pub mod Table
pub mod Metrics
pub mod Conditions
pub mod Outbox
pub mod Lifecycle
pub mod States
pub mod Clearing
pub mod Evaluate
