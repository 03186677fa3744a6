-- ===== src/Config/Laws.antt =====
-- What a parsed configuration satisfies.
use tide_guard.Base.{
  ◌≤◌, ◌<◌, ◌≡◌, refl, subst, Bool, true, false, List, [], ◌∷◌, All, String, arith,
}
use tide_guard.Js.{JsNumber}
use tide_guard.Config.{
  QueueConfig, QueueConfigEnv, EnvNumbers, Issue, parsed, checks, raised, config_of, check_numbers,
  parse_queue_config, env_numbers,
}

pub record IsValid (c : QueueConfig) : Type 0 where
  pub some_capacity : 1 ≤ c.max_concurrent_users
  pub some_rate : 0 < c.admit_per_second
  pub long_token : 30 ≤ c.token_ttl_seconds
  pub long_heartbeat : 10 ≤ c.heartbeat_timeout_seconds
  pub long_stay : 60 ≤ c.queue_timeout_seconds
  pub heartbeat_below_stay : c.heartbeat_timeout_seconds < c.queue_timeout_seconds
  pub grace_low : 30 ≤ c.missed_slot_grace_seconds
  pub grace_high : c.missed_slot_grace_seconds ≤ 900

raised-nil : (cs : List (Bool × Issue)) → raised cs ≡ [] → All (λ c. c.0 ≡ false) cs
unfolding raised
raised-nil [] h = tt
raised-nil ((true, i) ∷ cs) h = cc
raised-nil ((false, i) ∷ cs) h = (refl, raised-nil cs h)

nil-raised : (cs : List (Bool × Issue)) → All (λ c. c.0 ≡ false) cs → raised cs ≡ []
unfolding raised
nil-raised [] h = refl
nil-raised ((failed, i) ∷ cs) h = rw h.0 (nil-raised cs h.1)

config_of-IsValid : (e : EnvNumbers) → All (λ c. c.0 ≡ false) (checks e) → IsValid (config_of e)
unfolding config_of
config_of-IsValid e h = record {
  some_capacity = ground arith;
  some_rate = ground arith;
  long_token = ground arith;
  long_heartbeat = ground arith;
  long_stay = ground arith;
  heartbeat_below_stay = ground arith;
  grace_low = ground arith;
  grace_high = ground arith;
}

no_issue :
    (e : EnvNumbers) (c : QueueConfig)
    → check_numbers e ≡ parsed c
    → (raised (checks e) ≡ []) × (config_of e ≡ c)
unfolding check_numbers
no_issue e c h = go (raised (checks e)) refl
  where
    go : (is : List Issue) → raised (checks e) ≡ is → (raised (checks e) ≡ []) × (config_of e ≡ c)
    go [] p = (p, cc)
    go (i ∷ is) p = cc

-- Every configuration that `parseQueueConfig` accepts, whatever the texts in the environment and
-- however the runtime reads numbers, has a capacity, a rate, timeouts and a grace period within
-- their bounds, and its heartbeat timeout is shorter than its queue timeout.
pub parse_queue_config-IsValid :
    (number : String → JsNumber) (env : QueueConfigEnv) (c : QueueConfig)
    → parse_queue_config number env ≡ parsed c
    → IsValid c
unfolding parse_queue_config
parse_queue_config-IsValid number env c h =
    let (clean, e) = no_issue (env_numbers number env) c h in
    subst IsValid e (config_of-IsValid _ (raised-nil _ clean))
