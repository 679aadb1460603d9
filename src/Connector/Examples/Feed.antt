-- ===== src/Connector/Examples/Feed.antt =====
-- A source that starts, saves a cursor, is blocked, and is cleared by an operator.
use genesis.Prelude.{◌≡◌, refl, true, none, [], ◌∷◌}
use genesis.Prelude.Text.{trim}
use genesis.Prelude.Dict.{get}
use genesis.Prelude.Results.{ok}
use genesis.Connector.Types.{zero_time}
use genesis.Connector.Ids.{Host}
use genesis.Connector.Store.{io_ok}
use genesis.Connector.Sources.Types.{
  SourceRun, SourceCursor, SourceStore, empty_sources, zero_run, zero_cursor,
}
use genesis.Connector.Sources.Normalize.{normalize_source_cursor}
use genesis.Connector.Sources.Store.{
  save_source_cursor, save_normalized, change_sources, get_source_cursor,
}
use genesis.Connector.Sources.Cursors.{cursor_reread}
use genesis.Connector.Sources.Started.{Started}
use genesis.Connector.Sources.Started.Changes.{SourceChange, apply_changes, changes-Started}

abbrev host : Host
host = record { digest = λ s. s; rfc3339_nano = λ t. "2026-01-01T00:00:00Z" }

abbrev position : SourceCursor
position = record zero_cursor {
  source_id = " feed";
  cursor_kind = "external_event_id";
  cursor_value = "e7 ";
}

abbrev blocked_run : SourceRun
blocked_run = record zero_run {
  source_id = "feed";
  connector = "mail";
  adapter_ref = "imap";
  status = "blocked";
  started_at = 3;
  blocked_reason_code = "profile_expired";
  updated_at = 3;
}

abbrev feeds : SourceStore
feeds = record empty_sources { runs = ("feed", blocked_run) ∷ [] }

cursor_reread_example :
    let t = (save_source_cursor io_ok 9 position feeds).2 in
    (saved : SourceCursor) × (normalize_source_cursor 9 position ≡ ok saved)
    × (get_source_cursor io_ok " feed" "external_event_id" t ≡ ((saved, true), none, t))
unfolding save_source_cursor save_normalized change_sources normalize_source_cursor trim
cursor_reread_example = cursor_reread io_ok 9 position feeds refl

changes-Started_example : Started "feed" 3 refl (
    apply_changes host
      (SourceChange.clear io_ok 10 "feed" "" zero_time
        ∷ SourceChange.upsert io_ok 12 (record blocked_run { status = "ready"; started_at = 11 })
        ∷ SourceChange.save io_ok 13 position
        ∷ [])
      feeds)
unfolding get
changes-Started_example =
    changes-Started host "feed" 3 refl
      (SourceChange.clear io_ok 10 "feed" "" zero_time
        ∷ SourceChange.upsert io_ok 12 (record blocked_run { status = "ready"; started_at = 11 })
        ∷ SourceChange.save io_ok 13 position
        ∷ [])
      feeds (blocked_run, refl, refl)
