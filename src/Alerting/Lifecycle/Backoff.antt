-- ===== src/Alerting/Lifecycle/Backoff.antt =====
-- How long a failed delivery waits, and how often it is tried.
