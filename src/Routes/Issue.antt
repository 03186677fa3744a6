-- ===== src/Routes/Issue.antt =====
-- Who is given an admission token by src/routes/queue.ts, and what it opens.
use tide_guard.Base.{
  ℕ, ◌≡◌, refl, sym, ◌∙◌, ap, Bool, true, false, not, ◌&&◌, ◌||◌, Option, none, some, List, [], ◌∷◌,
  String, str_eq, if◌then◌else◌, Bool-cases, inl, inr,
}
use tide_guard.Config.{QueueConfig}
use tide_guard.Auth.{Text}
use tide_guard.Room.{Room}
use tide_guard.Room.{VisitorRow, Status, waiting, admitted, expired, left, is_admitted}
use tide_guard.Room.Coherence.{Core}
use tide_guard.Room.Coherence.CheckIns.{alarm-core}
use tide_guard.Room.Table.{select_visitor}
use tide_guard.Room.View.{View, to_view}
use tide_guard.Room.Alarm.{ensure_alarm}
use tide_guard.Room.Handlers.{
  Request, JoinResult, joined, duplicate_id, StatusResult, found, not_admitted, set_entered,
  enter_as, row_or, prologue, join, status, enter,
}
use tide_guard.Routes.Body.{Result, ok, fail}
use tide_guard.Routes.{
  RouteEnv, HttpRequest, Turnstile, Reply, is_admitted_status, can_issue_access_token, issue,
  issue_if, issued_at, status_reply, join_reply, enter_reply, call_room, handle_join, handle_status,
  handle_enter, join_request, status_request, owned_request,
}

abbrev pub has_token : Option Text → Bool
has_token none = false
has_token (some t) = true

-- A token only for a visitor who is admitted and has entered.
abbrev pub may_hold : View → Bool
may_hold v = is_admitted (v.status) && v.entered

abbrev pub token_earned : Result Reply → Bool
token_earned (fail e) = true
token_earned (ok reply) = not (has_token (reply.access_token)) || may_hold (reply.view)

same_status : (s : Status) → is_admitted_status s ≡ is_admitted s
same_status waiting = refl
same_status admitted = refl
same_status expired = refl
same_status left = refl

if_earned : (b : Bool) (t : Text) → (not (has_token (if b then some t else none)) || b) ≡ true
if_earned true t = refl
if_earned false t = refl

issue_earned :
    (env : RouteEnv) (q : Request) (r : Room) (v : View) (t : ℕ)
    → (not (has_token (issue_if env q r v t)) || may_hold v) ≡ true
issue_earned env q r v t =
    ap (λ b. not (has_token (issue_if env q r v t)) || (b && v.entered))
      (sym (same_status v.status))
    ∙ if_earned (can_issue_access_token v) (issue env q r v t)

join_earned :
    (env : RouteEnv) (q : Request) (x : Room × JoinResult)
    → token_earned (join_reply env q x).1 ≡ true
join_earned env q (r, joined v) = issue_earned env q r v (q.now)
join_earned env q (r, JoinResult.queue_full) = refl
join_earned env q (r, duplicate_id) = refl

status_earned :
    (env : RouteEnv) (q : Request) (x : Room × StatusResult)
    → token_earned (status_reply env q x).1 ≡ true
status_earned env q (r, found v) = issue_earned env q r v (issued_at v (q.now))
status_earned env q (r, StatusResult.not_found) = refl
status_earned env q (r, not_admitted) = refl

call_earned :
    (m : Result Request) (r : Room) (f : Request → Room × Result Reply)
    → ((q : Request) → token_earned (f q).1 ≡ true)
    → token_earned (call_room m r f).1 ≡ true
call_earned (fail e) r f h = refl
call_earned (ok q) r f h = h q

some-eq {ℓ} : {A : Type ℓ} (a b : A) → some a ≡ some b → a ≡ b
some-eq a b h = cc

-- Whoever has entered is found, admitted and entered.
select-set_entered :
    (id : String) (vs : List VisitorRow) (v : VisitorRow)
    → select_visitor id vs ≡ some v
    → is_admitted v.status ≡ true
    → select_visitor id (set_entered id vs) ≡ some (record v { entered = true })
unfolding select_visitor set_entered
select-set_entered id [] v h k = cc
select-set_entered id (w ∷ vs) v h k = elim (Bool-cases (str_eq w.id id)) [
  | inl e ↦
      let this : w ≡ v =
        some-eq w v (sym (ap (λ b. if b then some w else select_visitor id vs) e) ∙ h) in
      let inside : is_admitted w.status ≡ true =
        ap (λ (u : VisitorRow). is_admitted u.status) this ∙ k in
      rw (e, inside, e) (ap (λ (u : VisitorRow). some (record u { entered = true })) this)
  | inr e ↦
      rw (e, e)
        (select-set_entered id vs v
          (sym (ap (λ b. if b then some w else select_visitor id vs) e) ∙ h) k)
]

alarm_visitors : (clock : ℕ) (r : Room) → (ensure_alarm clock r).visitors ≡ r.visitors
alarm_visitors clock r = ap (λ (c : Core). c.visitors) (alarm-core clock r)

view_issue :
    (r : Room) (w : VisitorRow) (config : QueueConfig) (now : ℕ)
    → may_hold (to_view r w config now).1 ≡ (is_admitted w.status && w.entered)
unfolding to_view
view_issue r w config now = refl

-- What the room answers to an entry shows an admitted visitor who has entered.
enter_as_earned :
    (env : RouteEnv) (q : Request) (v : VisitorRow) (r : Room)
    → select_visitor q.visitor_id r.visitors ≡ some v
    → (s : Status) → v.status ≡ s
    → token_earned (enter_reply env q (enter_as s q v r)).1 ≡ true
enter_as_earned env q v r h left e = refl
enter_as_earned env q v r h expired e = refl
enter_as_earned env q v r h waiting e = refl
enter_as_earned env q v r h admitted e =
    let changed : Room = record r { visitors = set_entered q.visitor_id r.visitors } in
    let row : row_or (select_visitor q.visitor_id (ensure_alarm q.clock changed).visitors) v
        ≡ record v { entered = true } =
      ap (λ vs. row_or (select_visitor q.visitor_id vs) v) (alarm_visitors q.clock changed)
      ∙ ap (λ o. row_or o v) (select-set_entered q.visitor_id r.visitors v h (ap is_admitted e)) in
    view_issue (ensure_alarm q.clock changed) _ q.config q.now
    ∙ ap (λ (w : VisitorRow). is_admitted w.status && w.entered) row
    ∙ ap (λ s. is_admitted s && true) e

-- `enter` by what the swept room holds of the visitor.
entry_of : Request → Room → Option VisitorRow → Room × StatusResult
entry_of q swept none = (swept, StatusResult.not_found)
entry_of q swept (some v) = enter_as v.status q v swept

enter-entry :
    (q : Request) (r : Room) (o : Option VisitorRow)
    → select_visitor q.visitor_id (prologue q true r).visitors ≡ o
    → enter q r ≡ entry_of q (prologue q true r) o
unfolding enter entry_of
enter-entry q r none e = rw (e, enter) refl
enter-entry q r (some v) e = rw (e, enter) refl

entry_earned :
    (env : RouteEnv) (q : Request) (swept : Room) (o : Option VisitorRow)
    → select_visitor q.visitor_id swept.visitors ≡ o
    → token_earned (enter_reply env q (entry_of q swept o)).1 ≡ true
unfolding entry_of
entry_earned env q swept none e = refl
entry_earned env q swept (some v) e = enter_as_earned env q v swept e v.status refl

enter_earned :
    (env : RouteEnv) (q : Request) (r : Room)
    → token_earned (enter_reply env q (enter q r)).1 ≡ true
enter_earned env q r =
    let swept = prologue q true r in
    let o = select_visitor q.visitor_id swept.visitors in
    ap (λ (x : Room × StatusResult). token_earned (enter_reply env q x).1) (enter-entry q r o refl)
    ∙ entry_earned env q swept o refl

-- No join, status or entry hands out an admission token but to a visitor whom the answer shows
-- admitted and entered, whatever the request, the room and the state of the Worker are.
pub tokens_earned :
    (env : RouteEnv) (req : HttpRequest) (turnstile : Turnstile) (fresh : String) (now : ℕ)
    (r : Room)
    → (token_earned (handle_join env req turnstile fresh now r).1 ≡ true)
      × (token_earned (handle_status env req now r).1 ≡ true)
      × (token_earned (handle_enter env req now r).1 ≡ true)
unfolding handle_join handle_status handle_enter
tokens_earned env req turnstile fresh now r = (
  call_earned (join_request env req turnstile fresh now) r _ (λ q. join_earned env q (join q r)),
  call_earned (status_request env req now) r _ (λ q. status_earned env q (status q r)),
  call_earned (owned_request env req now) r _ (λ q. enter_earned env q r),
)
