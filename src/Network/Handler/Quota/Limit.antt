-- ===== src/Network/Handler/Quota/Limit.antt =====
-- What a quota window of celily-lib/src/network/handler.rs grants over a sequence of requests.
use celily.Prelude.{
  ℕ, ◌+◌, ◌≤◌, ◌<◌, ◌≡◌, ◌↔◌, refl, Bool, true, false, ◌&&◌, List, [], ◌∷◌, arith, ◌==◌, nat_eq,
  if◌then◌else◌,
}
use celily.Network.Rule.{QuotaConfig}
use celily.Network.Handler.Quota.{QuotaWindow, fresh, window_at, try_take}

abbrev pub one_if : Bool → ℕ
one_if true = 1
one_if false = 0

-- The requests at some times, one after another: the state that they leave.
unfoldable pub after : QuotaConfig → QuotaWindow → List ℕ → QuotaWindow
after quota w [] = w
after quota w (now ∷ times) = after quota (try_take w quota now).0 times

-- How many of them the quota grants to one window.
unfoldable pub granted : QuotaConfig → ℕ → QuotaWindow → List ℕ → ℕ
granted quota k w [] = 0
granted quota k w (now ∷ times) =
    one_if ((try_take w quota now).1 && window_at quota now == k)
    + granted quota k (try_take w quota now).0 times

-- The clock does not run backwards: no time lies in a window before the one it follows.
abbrev pub Ascending : QuotaConfig → ℕ → List ℕ → Type 0
Ascending quota index [] = Unit
Ascending quota index (now ∷ times) =
    (index ≤ window_at quota now) × Ascending quota (window_at quota now) times

module _ (quota : QuotaConfig) where
  index-try_take :
      (w : QuotaWindow) (now : ℕ) → (try_take w quota now).0.index ≡ window_at quota now
  unfolding try_take
  index-try_take w now = ground arith

  granted_past :
      (k : ℕ) (w : QuotaWindow) (times : List ℕ)
      → k < w.index
      → Ascending quota w.index times
      → granted quota k w times ≡ 0
  unfolding granted
  granted_past k w [] h up = refl
  granted_past k w (now ∷ times) h up =
      let e = index-try_take w now in
      ground (arith, granted_past k (try_take w quota now).0 times (rw e (omega arith)) (rw e up.1))

  -- The requests counted in window k when the state is w.
  abbrev counted : ℕ → QuotaWindow → ℕ
  counted k w = if w.index == k then w.count else 0

  granted-le_from :
      (k : ℕ) (w : QuotaWindow) (times : List ℕ)
      → w.count ≤ quota.max_requests
      → Ascending quota w.index times
      → granted quota k w times + counted k w ≤ quota.max_requests
  unfolding granted try_take
  granted-le_from k w [] h up = ground arith
  granted-le_from k w (now ∷ times) h up =
      let w' = (try_take w quota now).0 in
      ground (
        arith,
        granted-le_from k w' times (ground arith) (rw (index-try_take w now) up.1),
        granted_past k w' times,
        index-try_take w now,
      )

  index-le-after :
      (w : QuotaWindow) (times : List ℕ)
      → Ascending quota w.index times
      → w.index ≤ (after quota w times).index
  unfolding after
  index-le-after w [] up = omega arith
  index-le-after w (now ∷ times) up =
      let e = index-try_take w now in
      let ih = index-le-after (try_take w quota now).0 times (rw e up.1) in omega (arith, e, ih)

  -- The state counts what was granted to its window.
  count-after :
      (w : QuotaWindow) (times : List ℕ) (k : ℕ)
      → Ascending quota w.index times
      → (after quota w times).index ≤ k
      → counted k (after quota w times) ≡ granted quota k w times + counted k w
  unfolding after granted try_take
  count-after w [] k up h = omega arith
  count-after w (now ∷ times) k up h =
      let w' = (try_take w quota now).0 in
      let up' : Ascending quota w'.index times = rw (index-try_take w now) up.1 in
      ground
        (arith, count-after w' times k up' h, index-le-after w' times up', index-try_take w now)

-- Whatever the times of the requests, as long as the clock does not run backwards, a quota grants
-- at most its maximum to each window.
pub granted-le :
    (quota : QuotaConfig) (k : ℕ) (times : List ℕ)
    → Ascending quota 0 times
    → granted quota k fresh times ≤ quota.max_requests
granted-le quota k times up = omega (arith, granted-le_from quota k fresh times (omega arith) up)

take_refused :
    (w : QuotaWindow) (quota : QuotaConfig) (now : ℕ)
    → ((try_take w quota now).1 ≡ false)
      ↔ (quota.max_requests ≤ (if w.index == window_at quota now then w.count else 0))
unfolding try_take
take_refused w quota now = ground arith

-- After requests at times that do not run backwards, a quota refuses the next request exactly when
-- its window was already granted the maximum.
pub refused_iff_full :
    (quota : QuotaConfig) (times : List ℕ) (now : ℕ)
    → Ascending quota 0 times
    → (after quota fresh times).index ≤ window_at quota now
    → ((try_take (after quota fresh times) quota now).1 ≡ false)
      ↔ (granted quota (window_at quota now) fresh times ≡ quota.max_requests)
refused_iff_full quota times now up next =
    let w = after quota fresh times in
    let k = window_at quota now in
    let (to, from) = take_refused w quota now in
    let same : (if w.index == k then w.count else 0) ≡ granted quota k fresh times =
      ground (arith, count-after quota fresh times k up next) in
    let most = granted-le quota k times up in (λ h. omega (arith, to h), λ h. from (omega arith))
