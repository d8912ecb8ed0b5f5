-- ===== src/Stream/End/Race.antt =====
-- On src/routes/service/serviceLive.js. Everything that can end one stream at the same moment (LIVE-29):
-- the host, the monitor, the ghost sweep and the return timer, each through the claim and the update that
-- follows it for its winner, and moderation, whose update asks nothing.
use live_server.Common.{
  ℕ, ◌+◌, ◌≤◌, ◌≡◌, Bool, true, false, ◌||◌, Option, none, some, ◌==◌, if◌then◌else◌,
}
use live_server.Stream.Table.{Row, EndPatch, StreamTable}

module _ (t : StreamTable) (i : ℕ) where
  open t use {State, find_unique, claim, update}

  -- The table, how often a claim of the stream `i` has won, and whether moderation has ended it.
  pub record World : Type 0 where
    pub table : State
    pub wins : ℕ
    pub moderated : Bool

  abbrev pub hits : ℕ → ℕ → ℕ
  hits id count = if id == i then count else 0

  pub data Step (w : World) (w' : World) : Type 0 where
    end_claim :
        (id at : ℕ)
        → w' ≡ record w {
          table = (claim w.table id at).0;
          wins = w.wins + hits id (claim w.table id at).1;
        }
        → Step w w'
    -- the update of a winner
    end_update :
        (id : ℕ) (p : EndPatch)
        → hits id 1 ≤ w.wins
        → w' ≡ record w { table = update w.table id p }
        → Step w w'
    moderation_update :
        (id : ℕ) (p : EndPatch)
        → w' ≡ record w { table = update w.table id p; moderated = w.moderated || (id == i) }
        → Step w w'

  pub data Reach (start : State) : World → Type 0 where
    begin : Reach start (record { table = start; wins = 0; moderated = false })
    next : {w w' : World} → Reach start w → Step w w' → Reach start w'

  -- What the row says of the race.
  abbrev pub Agrees : Bool → Bool → ℕ → Type 0
  Agrees true moderated wins = (wins ≡ 0) × (moderated ≡ false)
  Agrees false true wins = wins ≤ 1
  Agrees false false wins = wins ≡ 1

  abbrev pub RowAgrees : Option Row → World → Type 0
  RowAgrees none w = ⊥
  RowAgrees (some r) w = Agrees r.is_live w.moderated w.wins
