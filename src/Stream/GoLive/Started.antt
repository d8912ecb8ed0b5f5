-- ===== src/Stream/GoLive/Started.antt =====
-- On src/routes/service/serviceLive.js. A start is done whole or leaves no stream behind.
use live_server.Common.{◌≡◌, ◌≢◌, ◌⊎◌, true, none, some, is_some}
use live_server.Stream.End.{Answers}
use live_server.Stream.GoLive.{HostTable, Start, Result, started, World, new_row}

module _ (h : HostTable) (a : Answers) where
  open h use {table, create, find_live_of}
  open table use {State, find_unique}

  -- The row, and the two markers in Redis.
  pub record IsUp (q : Start) (w : World h a) : Type 0 where
    pub row : is_some (find_unique w.state q.stream_id) ≡ true
    pub info : is_some (w.keys.info_of q.stream_id) ≡ true
    pub active : w.keys.active_stream_of q.user_id ≡ some q.stream_id

  abbrev pub Whole : Start → World h a → Result → Type 0
  Whole q w result =
      ((result ≡ started (new_row q)) × IsUp q w)
      ⊎ ((result ≢ started (new_row q)) × (w.keys.info_of q.stream_id ≡ none))
