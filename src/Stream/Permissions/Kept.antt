-- ===== src/Stream/Permissions/Kept.antt =====
-- On src/routes/service/serviceLive.js. A permission that is set is the one that is read.
use live_server.Common.{ℕ, Bool, List, [], ◌∷◌}
use live_server.Stream.Permissions.{Permission, get_either}

-- Reads of any stream, in order, each with whether the database answers then.
abbrev pub reads {ℓ} : {V : Type ℓ} → Permission V → V → List (Bool × ℕ) → Permission V
reads p default [] = p
reads p default ((answers, stream) ∷ rs) = reads (get_either answers p stream default).0 default rs
