-- ===== src/Room/Sweep/Expiry.antt =====
-- The updates of a sweep, as one pass over the table.
use tide_guard.Base.{
  ℕ, ◌+◌, ◌*◌, min, ◌≡◌, refl, Bool, true, false, Option, none, some, List, [], ◌∷◌, if◌then◌else◌,
  count, both, leb, ltb, arith,
}
use tide_guard.Config.{QueueConfig}
use tide_guard.Room.{VisitorRow, Status, waiting, admitted, expired, left}
use tide_guard.Room.Sweep.{
  waiting_lapsed, hold_lapsed, token_lapsed, expire_where, expire_row, purge, sweep_visitors,
}

-- When the time of a row is over. A waiting row goes at the end of its stay in the line or, if that
-- comes first, when its check-in is overdue by the grace (rows without one: when its heartbeat
-- is). An admitted row goes when its hold ends, or its token once the visitor has entered.
abbrev pub check_in_end : QueueConfig → ℕ → VisitorRow → ℕ
check_in_end config grace v = elim (v.next_check_at) [
  | none ↦ v.last_heartbeat_at + 1000 * config.heartbeat_timeout_seconds
  | some t ↦ t + grace
]

abbrev pub admission_end : QueueConfig → Bool → Option ℕ → Option ℕ
admission_end config entered none = none
admission_end config true (some t) = some (t + 1000 * config.token_ttl_seconds)
admission_end config false (some t) = some (t + 1000 * config.admit_hold_seconds)

abbrev pub end_of : QueueConfig → ℕ → Status → VisitorRow → Option ℕ
end_of config grace waiting v =
    some (min (v.joined_at + 1000 * config.queue_timeout_seconds) (check_in_end config grace v))
end_of config grace admitted v = admission_end config v.entered v.admitted_at
end_of config grace expired v = none
end_of config grace left v = none

abbrev pub is_past : ℕ → Option ℕ → Bool
is_past now none = false
is_past now (some t) = leb t now

-- The specification: the time of the row is over.
unfoldable pub has_lapsed : QueueConfig → ℕ → ℕ → VisitorRow → Bool
has_lapsed config grace now v = is_past now (end_of config grace v.status v)

module _ (config : QueueConfig) (grace now : ℕ) where
  lapses_once :
      (v : VisitorRow)
      → let v1 = expire_row (waiting_lapsed config grace now) v in
        let v2 = expire_row (hold_lapsed config now) v1 in
        (expire_row (token_lapsed config now) v2 ≡ expire_row (has_lapsed config grace now) v)
        × ((if waiting_lapsed config grace now v then 1 else 0)
              + (if hold_lapsed config now v1 then 1 else 0)
              + (if token_lapsed config now v2 then 1 else 0)
            ≡ (if has_lapsed config grace now v then 1 else 0))
  unfolding waiting_lapsed hold_lapsed token_lapsed has_lapsed
  lapses_once v = (ground arith, ground arith)

  lapses-list :
      (vs : List VisitorRow)
      → let vs1 = expire_where (waiting_lapsed config grace now) vs in
        let vs2 = expire_where (hold_lapsed config now) vs1 in
        (expire_where (token_lapsed config now) vs2 ≡ expire_where (has_lapsed config grace now) vs)
        × (count (waiting_lapsed config grace now) vs
              + count (hold_lapsed config now) vs1
              + count (token_lapsed config now) vs2
            ≡ count (has_lapsed config grace now) vs)
  unfolding expire_where
  lapses-list [] = (refl, refl)
  lapses-list (v ∷ vs) =
      let (same, once) = lapses_once v in
      let (tail, counts) = lapses-list vs in
      (
        both (λ (w : VisitorRow) (ws : List VisitorRow). w ∷ ws) same tail,
        ground (arith, once, counts),
      )

  -- The three updates of a sweep with its purge are one pass: each row whose time is over becomes
  -- expired, no other row changes, and then the old left and expired rows go. The counts are taken
  -- again exactly when there was a row whose time was over.
  pub sweep_visitors-pass :
      (vs : List VisitorRow)
      → sweep_visitors config grace now vs ≡ (
        purge now (expire_where (has_lapsed config grace now) vs),
        ltb 0 (count (has_lapsed config grace now) vs),
      )
  unfolding sweep_visitors
  sweep_visitors-pass vs =
      let (same, counts) = lapses-list vs in
      both (λ (ws : List VisitorRow) (n : ℕ). (purge now ws, ltb 0 n)) same counts
