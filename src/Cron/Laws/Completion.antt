-- ===== src/Cron/Laws/Completion.antt =====
-- `complete_run` and `fail_run` of tomo_core/src/tomo_core/cron_store.py: what they store, and that a
-- run ends once.
