-- ===== src/VideoCall/EndRace.antt =====
-- Everything that can end, reject or accept one call at the same moment (LIVE-26), as a step relation:
-- users, the sweep, the timers and the webhook, each through the conditional update of `endCall` with
-- whatever status it read, however stale.
use live_server.Common.{
  ℕ, ◌+◌, ◌≡◌, Bool, true, false, ◌&&◌, ◌||◌, Option, none, some, ◌==◌, if◌then◌else◌,
}
use live_server.VideoCall.Session.{
  Status, ringing, active, missed, ended, rejected, is_running, has_status, Session, SessionTable,
}
use live_server.VideoCall.EndCall.{Request, end_patch}
use live_server.VideoCall.Reject.{reject_patch}

module _ (t : SessionTable) (i : ℕ) where
  open t use {State, find, update_many, activate}

  -- The table, how often an end or a reject of the session `i` has won, and whether the ledger has
  -- accepted it.
  pub record World : Type 0 where
    pub table : State
    pub wins : ℕ
    pub accepted : Bool

  abbrev pub hits : ℕ → ℕ → ℕ
  hits id count = if id == i then count else 0

  pub data Step (w : World) (w' : World) : Type 0 where
    end_update :
        (q : Request) (seen : Status)
        → is_running seen ≡ true
        → w' ≡ record w {
          table = (update_many w.table q.session_id seen (end_patch q seen)).0;
          wins =
              w.wins
              + hits q.session_id (update_many w.table q.session_id seen (end_patch q seen)).1;
        }
        → Step w w'
    reject_update :
        (id now : ℕ)
        → w' ≡ record w {
          table = (update_many w.table id ringing (reject_patch now)).0;
          wins = w.wins + hits id (update_many w.table id ringing (reject_patch now)).1;
        }
        → Step w w'
    accept :
        (id : ℕ)
        → w' ≡ record w {
          table = activate w.table id;
          accepted = w.accepted || ((id == i) && has_status ringing (find w.table id));
        }
        → Step w w'

  pub data Reach (start : State) : World → Type 0 where
    begin : Reach start (record { table = start; wins = 0; accepted = false })
    next : {w w' : World} → Reach start w → Step w w' → Reach start w'

  -- What the row says of the race.
  abbrev pub Agrees : Status → World → Type 0
  Agrees ringing w = (w.wins ≡ 0) × (w.accepted ≡ false)
  Agrees active w = (w.wins ≡ 0) × (w.accepted ≡ true)
  Agrees missed w = (w.wins ≡ 1) × (w.accepted ≡ false)
  Agrees rejected w = (w.wins ≡ 1) × (w.accepted ≡ false)
  Agrees ended w = (w.wins ≡ 1) × (w.accepted ≡ true)

  abbrev pub RowAgrees : Option Session → World → Type 0
  RowAgrees none w = ⊥
  RowAgrees (some s) w = Agrees s.status w

  pub Consistent : World → Type 0
  Consistent w = RowAgrees (find w.table i) w
