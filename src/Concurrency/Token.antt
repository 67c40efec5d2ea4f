-- ===== src/Concurrency/Token.antt =====
-- src/core/agents/concurrency-token.ts: a token that gives its slot back once.
use open_supervisor.Concurrency.Control.{release}
use open_supervisor.Concurrency.State.{Controller}
use open_supervisor.Prelude.{
  ◌∙◌, arith, ap, refl, [], true, if◌then◌else◌, ◌∷◌, false, ◌≡◌, String, Bool, List,
}

pub record Token : Type 0 where
  pub key : String
  pub released : Bool
  -- The auto-release timer is running.
  pub timer : Bool

-- The constructor starts the timer.
unfoldable pub new_token : String → Token
new_token key = record { key = key; released = false; timer = true }

unfoldable pub release_token : Token → Controller → Token × Controller
release_token token c =
    if token.released
    then (token, c)
    else (record token { released = true; timer = false }, (release c token.key).0)

-- What the timer runs, unless it was cleared.
unfoldable pub fire_timer : Token → Controller → Token × Controller
unfolding release_token
fire_timer token c =
    if token.timer then if token.released then (token, c) else release_token token c else (token, c)

unfoldable pub is_released : Token → Bool
is_released token = token.released

pub data TokenEvent : Type 0 where
  release_called timer_fired : TokenEvent

unfoldable pub on_event : TokenEvent → Token → Controller → Token × Controller
unfolding release_token fire_timer
on_event release_called token c = release_token token c
on_event timer_fired token c = fire_timer token c

unfoldable pub on_events : List TokenEvent → Token → Controller → Token × Controller
on_events [] token c = (token, c)
on_events (e ∷ es) token c = let (token', c') = on_event e token c in on_events es token' c'

spent_event :
    (e : TokenEvent) (token : Token) (c : Controller)
    → token.released ≡ true
    → on_event e token c ≡ (token, c)
unfolding on_event
spent_event release_called token c h = ground arith
spent_event timer_fired token c h = ground arith

spent_token :
    (es : List TokenEvent) (token : Token) (c : Controller)
    → token.released ≡ true
    → on_events es token c ≡ (token, c)
unfolding on_events
spent_token [] token c h = refl
spent_token (e ∷ es) token c h =
    ap (λ (r : Token × Controller). on_events es r.0 r.1) (spent_event e token c h)
    ∙ spent_token es token c h

abbrev spent : String → Token
spent key = record { key = key; released = true; timer = false }

first_event :
    (e : TokenEvent) (key : String) (c : Controller)
    → on_event e (new_token key) c ≡ (spent key, (release c key).0)
unfolding on_event new_token
first_event release_called key c = refl
first_event timer_fired key c = refl

-- Whatever the order of calls of `release` and of the timer, once one of them has come a new token
-- has given its slot back to the controller exactly once, and says so.
pub token_releases_once :
    (e : TokenEvent) (es : List TokenEvent) (key : String) (c : Controller)
    → let after = on_events (e ∷ es) (new_token key) c in
      (after.1 ≡ (release c key).0) × (is_released after.0 ≡ true) × (after.0.timer ≡ false)
unfolding on_events is_released
token_releases_once e es key c =
    let ends : on_events (e ∷ es) (new_token key) c ≡ (spent key, (release c key).0) =
      ap (λ (r : Token × Controller). on_events es r.0 r.1) (first_event e key c)
      ∙ spent_token es (spent key) _ refl in
    (
      ap (λ (r : Token × Controller). r.1) ends,
      ap (λ (r : Token × Controller). r.0.released) ends,
      ap (λ (r : Token × Controller). r.0.timer) ends,
    )
