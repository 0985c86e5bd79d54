-- ===== src/App/Switch/Leave.antt =====
-- What `leave_geohash_channel` of src/tui/app.rs removes, and what it leaves alone.
use bitchat_tui.Text.{Text}
use bitchat_tui.Maps.{bytes_eq}
use bitchat_tui.App.{App}
