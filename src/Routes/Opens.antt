-- ===== src/Routes/Opens.antt =====
-- The token that a route of src/routes/queue.ts gives, shown to the gate of
-- src/auth/access-gate.ts.
use tide_guard.Base.{
  ℕ, ◌+◌, ◌/◌, ◌<◌, ◌≡◌, refl, ◌∙◌, ap, Bool, true, false, not, ◌&&◌, some, String, str_eq, length,
  ltb, if◌then◌else◌, arith,
}
use text.Mathlib.TextPositions.{eq_refl}
use tide_guard.Js.{int}
use tide_guard.Auth.{Text}
use tide_guard.Auth.Token.{
  AccessTokenClaims, claims_object, build_admission_claims, exp_reached, differs, epoch_differs,
}
use tide_guard.Auth.Token.Laws.{RuntimeLaws, Carried, verify-sign}
use tide_guard.Room.{Room}
use tide_guard.Room.View.{View}
use tide_guard.Room.Handlers.{Request}
use tide_guard.Gate.{
  GateEnv, token, extract_access_token, admit_extracted, options_of, require_admission, admission,
  admission_of,
}
use tide_guard.Gate.Rules.{WebRequest, RoomRules}
use tide_guard.Routes.{RouteEnv, issue}

-- The gate of the same Worker.
abbrev pub gate_env : RouteEnv → RoomRules → (Text → String) → GateEnv
gate_env env rules to_string = record {
  runtime = env.runtime;
  decode_uri_component = env.decode_uri_component;
  to_string = to_string;
  token_secret = env.token_secret;
  config = env.config;
  rules = rules;
  bypass = env.bypass;
  geo = env.geo;
}

abbrev pub claims_of : Request → Room → View → ℕ → AccessTokenClaims
claims_of q r v issued =
    build_admission_claims v.id q.queue q.config.token_ttl_seconds (some r.meta.token_epoch) issued

and_false : (b : Bool) → (b && not true) ≡ false
and_false true = refl
and_false false = refl

differs_self : (s : String) → differs (some s) s ≡ false
differs_self s = rw (eq_refl s) (and_false _)

exp_later : (n now : ℕ) → now < n → exp_reached (int n) now ≡ false
exp_later n now h = ground arith

same_epoch : (e : ℕ) → epoch_differs (some e) (some e) ≡ false
same_epoch e = ground arith

passed {ℓ} :
    {A : Type ℓ} (a b c : Bool) (x y z w : A)
    → a ≡ false
    → b ≡ false
    → c ≡ false
    → (if a then x else (if b then y else (if c then z else w))) ≡ w
passed a b c x y z w ha hb hc = rw (ha, hb, hc) refl

-- The token that a route issues for a visitor opens the gate of the same queue until the time to
-- live is over, for as long as the room keeps its token epoch: the request that carries it is
-- admitted with the visitor's claims. The runtime does what its documentation says, JSON carries
-- the claims, the visitor and the queue are not empty, the secret is long enough, and the token is
-- what is read from the request.
pub issue-Admits :
    (env : RouteEnv) (rules : RoomRules) (to_string : Text → String)
    → RuntimeLaws (env.runtime)
    → (q : Request) (r : Room) (v : View) (visit : WebRequest) (issued later : ℕ)
    → Carried (env.runtime) (claims_object (claims_of q r v issued))
    → str_eq v.id "" ≡ false
    → str_eq q.queue "" ≡ false
    → ltb (length (env.token_secret)) 16 ≡ false
    → extract_access_token (gate_env env rules to_string) visit ≡ token (issue env q r v issued)
    → later / 1000 < issued / 1000 + q.config.token_ttl_seconds
    → require_admission (gate_env env rules to_string) visit q.queue r.meta.token_epoch later
      ≡ admission (claims_of q r v issued) (issue env q r v issued)
unfolding require_admission admit_extracted build_admission_claims
issue-Admits env rules to_string laws q r v visit issued later carried hv hq secret read fresh =
    let verified =
      verify-sign (env.runtime) laws (env.token_secret)
        (options_of q.queue r.meta.token_epoch later) (claims_of q r v issued) carried hv hq in
    let passes =
      passed (exp_reached (int (issued / 1000 + q.config.token_ttl_seconds)) (later / 1000))
        (differs (some q.queue) q.queue)
        (epoch_differs (some r.meta.token_epoch) (some r.meta.token_epoch)) _ _ _ _
        (exp_later _ _ fresh) (differs_self q.queue) (same_epoch r.meta.token_epoch) in
    rw (read, secret) (ap (admission_of (issue env q r v issued)) (verified ∙ passes))
