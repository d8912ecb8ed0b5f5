-- ===== src/Stream/End/Outcomes.antt =====
-- On src/routes/service/serviceLive.js. What an end of a stream does.
use live_server.Common.{
  ℕ, ◌≡◌, ◌≢◌, ◌⊎◌, false, none, some, List, [], ◌∷◌, ◌++◌, arith, if◌then◌else◌,
}
use live_server.Stream.Keys.{LiveKeys, clear_live_stream_redis_keys}
use live_server.Stream.Table.{StreamTable, Row}
use live_server.Stream.End.{
  Request, Answers, Summary, Effect, save_messages, throws_not_found, throws_unauthorized,
  already_ended, ended, end_live_stream,
}

abbrev NotOwned : Request → Row → Type 0
NotOwned q r = r.user_id ≢ q.user_id

-- The messages that the end of a stream saves in the database.
abbrev pub saved_messages : List Effect → List ℕ
saved_messages [] = []
saved_messages (save_messages ms ∷ es) = ms ++ saved_messages es
saved_messages (_ ∷ es) = saved_messages es

module _ (t : StreamTable) (a : Answers) where
  open t use {State, find_first, find_unique}

  -- An end that throws changes neither the table nor the keys and does nothing else, and it throws
  -- because there is no such stream or because the stream is another user's.
  pub refused_unchanged :
      (q : Request) (st : State) (k : LiveKeys) (between : State → State)
      → ((end_live_stream t a q st k between).2 ≡ throws_not_found)
        ⊎ ((end_live_stream t a q st k between).2 ≡ throws_unauthorized)
      → let (st', k', result, effects) = end_live_stream t a q st k between in
        (st' ≡ st)
        × (k' ≡ k)
        × (effects ≡ [])
        × ((find_first st q.id ≡ none)
            ⊎ ((r : Row) × (find_first st q.id ≡ some r) × (r.user_id ≢ q.user_id)))
  unfolding end_live_stream
  refused_unchanged q st k between h = ground arith

  -- An owner whose stream has ended before the claim is told so; the table stays as it was and nothing
  -- else is done, but for the keys.
  pub late_end_changes_nothing :
      (q : Request) (st : State) (k : LiveKeys) (between : State → State) (r r' : Row)
      → find_first st q.id ≡ some r
      → r.user_id ≡ q.user_id
      → find_unique (between st) r.id ≡ some r'
      → r'.is_live ≡ false
      → let (st', k', result, effects) = end_live_stream t a q st k between in
        ((j : ℕ) → find_unique st' j ≡ find_unique (between st) j)
        × (k' ≡ clear_live_stream_redis_keys q.redis_open k r.stream_id q.user_id r.id)
        × (result ≡ already_ended (if r.is_live then r' else r))
        × (effects ≡ [])
  unfolding end_live_stream
  late_end_changes_nothing q st k between r r' e own e' over = (
    λ j.
        ground
          (arith, t.claim_count (between st) r.id q.now, t.find-claim (between st) r.id q.now j),
    ground (arith, t.claim_count (between st) r.id q.now),
    ground
        (arith, t.claim_count (between st) r.id q.now, t.find-claim (between st) r.id q.now r.id),
    ground (arith, t.claim_count (between st) r.id q.now),
  )

  -- Whoever ends a stream, the summary counts no audience and no message of the chat is saved, however
  -- many viewers and messages Redis had.
  pub audience_lost :
      (q : Request) (st : State) (k : LiveKeys) (between : State → State) (r : Row) (s : Summary)
      → (end_live_stream t a q st k between).2 ≡ ended r s
      → (s.total_audiences_count ≡ 0) × (saved_messages (end_live_stream t a q st k between).3 ≡ [])
  unfolding end_live_stream clear_live_stream_redis_keys
  audience_lost q st k between r s h = ground arith

  -- An end brings no markers back.
  pub end-no_info :
      (q : Request) (st : State) (k : LiveKeys) (between : State → State) (i : ℕ)
      → k.info_of i ≡ none
      → (end_live_stream t a q st k between).1.info_of i ≡ none
  unfolding end_live_stream clear_live_stream_redis_keys
  end-no_info q st k between i e = ground (arith, e)
