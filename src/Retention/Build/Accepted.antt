-- ===== src/Retention/Build/Accepted.antt =====
-- The segments that better_hermes_hindsight/retention.py builds are the outbox's candidates.
use better_hermes_hindsight.Common.{◌≡◌, true, List, ◌∷◌, some, Text, All}
use better_hermes_hindsight.Retention.Segment.{RetainedSegment}
use better_hermes_hindsight.Retention.Build.{segments_of}
use better_hermes_hindsight.Retention.Build.Admissible.{IsContent, segments_of-valid}
use better_hermes_hindsight.Outbox.Types.{Settings}
use better_hermes_hindsight.Outbox.Validate.{is_hash, validate_candidates}
use better_hermes_hindsight.Outbox.Validate.Laws.{Distinct}
use better_hermes_hindsight.Outbox.Validate.Exact.{validate_candidates-Distinct}

module _ (settings : Settings) (digests : (s : Text) → is_hash (settings.sha256 s) ≡ true) where
  -- Where SHA-256 gives digests of 64 hexadecimal digits, each content is a text that is not empty, can be
  -- encoded and is within the outbox's bound, and the digests of the segments that are built of the
  -- contents differ, so that no two have one document, the outbox takes just these segments for the
  -- candidates of the turn, in their order and with no repetition.
  pub segments_of-accepted :
      (content : Text) (rest : List Text) (segments : List RetainedSegment)
      → All (IsContent settings) (content ∷ rest)
      → segments_of settings.sha256 (content ∷ rest) ≡ some segments
      → Distinct segments
      → validate_candidates settings segments ≡ some (segments, 0)
  segments_of-accepted content rest segments contents built distinct =
      let (valid, complete) =
        segments_of-valid settings digests content rest segments contents built in
      validate_candidates-Distinct settings segments valid distinct complete
