-- ===== src/Common/Store.antt =====
-- Key/value stores as functions: a JavaScript `Map`, a Redis key family, a table by id.
use Prim.Native.Nat.{ℕ}
use mathlib.Core.Path.{◌≡◌, fun_ext}
use mathlib.Core.Option.{Option, none, some}
use native.Mathlib.Omega.{arith}
use live_server.Common.Tests.{◌==◌, if◌then◌else◌}

abbrev pub Store {ℓ} : Type ℓ → Type ℓ
Store V = ℕ → Option V

module _ {ℓ} {V : Type ℓ} where
  abbrev pub empty_store : Store V
  empty_store k = none

  abbrev pub put : Store V → ℕ → V → Store V
  put m k v j = if j == k then some v else m j

  abbrev pub del : Store V → ℕ → Store V
  del m k j = if j == k then none else m j

-- Stores whose keys are pairs of ids, such as `call:disconnect:<sessionId>:<userId>`.
abbrev pub Store₂ {ℓ} : Type ℓ → Type ℓ
Store₂ V = ℕ → Store V

module _ {ℓ} {V : Type ℓ} where
  abbrev pub put₂ : Store₂ V → ℕ → ℕ → V → Store₂ V
  put₂ m k l v i = if i == k then put (m k) l v else m i

  abbrev pub del₂ : Store₂ V → ℕ → ℕ → Store₂ V
  del₂ m k l i = if i == k then del (m k) l else m i

  pub put-put : (m : Store V) (k : ℕ) (v w : V) → put (put m k v) k w ≡ put m k w
  put-put m k v w = fun_ext λ j. ground arith
