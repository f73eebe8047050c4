-- ===== src/Network/Handler/Quota.antt =====
-- The request quotas of celily-lib/src/network/handler.rs: `QuotaWindow` and its counting.
pub mod Limit
use Prim.Native.Nat.{max}
use celily.Prelude.{ℕ, ◌+◌, ◌/◌, Bool, true, false, List, [], ◌∷◌, leb, ◌==◌, nat_eq, if◌then◌else◌}
use celily.Network.Rule.{QuotaConfig}

pub record QuotaWindow : Type 0 where
  -- the index of the current window: seconds divided by the window's length
  pub index : ℕ
  -- requests counted in the current window
  pub count : ℕ

-- `Default`
abbrev pub fresh : QuotaWindow
fresh = record { index = 0; count = 0 }

-- The window of a time: `now / quota.window.as_secs().max(1)`.
abbrev pub window_at : QuotaConfig → ℕ → ℕ
window_at quota now = now / max quota.window 1

-- A new window starts at no requests.
abbrev roll : QuotaWindow → ℕ → QuotaWindow
roll w index = if index == w.index then w else record { index = index; count = 0 }

abbrev take_in : QuotaWindow → ℕ → QuotaWindow × Bool
take_in w max_requests =
    if leb max_requests w.count then (w, false) else (record w { count = w.count + 1 }, true)

-- Count one request at `now`. Gives false, without counting, when the window is full.
unfoldable pub try_take : QuotaWindow → QuotaConfig → ℕ → QuotaWindow × Bool
try_take w quota now = take_in (roll w (window_at quota now)) quota.max_requests
