-- ===== src/Cron/Errors.antt =====
-- What the cron modules raise. `integrity` is SQLite's error for a broken UNIQUE constraint.
pub data CronError : Type 0 where
  bad_step bad_range bad_field out_of_range five_fields no_occurrence needs_starts_at
        now_before_since :
      CronError
  bad_kind bad_timezone once_only_at interval_only_every bad_interval cron_needs_expression :
      CronError
  other_owner idempotency_conflict invalid_mutation missing_row bad_intent bad_frames bad_delay
        bad_pace integrity :
      CronError
