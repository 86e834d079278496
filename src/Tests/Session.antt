-- ===== src/Tests/Session.antt =====
-- A session that starts with a login, and meets good and bad answers.
use mathlib.Core.Path.{subst}
use api_manager.Tests.World.{cluster, healthy_cluster}
use api_manager.Session.{
  authenticate, read, read_creds_from_mounted_secret, reset_client, reset_requested, cancelled,
  stopped, tick, Session, Url, Event, resp_auth_token, refresh,
}
use api_manager.Session.Refresh.{Moves, SessionCall, refresh-Ensures}
use api_manager.Session.Outcomes.{AnswersTokens, refresh-Ends}
use api_manager.Session.Header.{resp_auth_token-panic_iff}
use api_manager.Base.{
  String-discrete, ==_apart, false, ◌≢◌, none, ◌↔◌, refl, some, [], ◌∷◌, true, ◌≡◌, String, inr,
  List, ◌<>◌,
}
use api_manager.World.Ending.{NoError, NoFault, Ends}
use api_manager.World.Env.{done, failed, Reply, Env}
use api_manager.Go.Text.Laws.{has_blank}
use api_manager.World.Trace.{Ensures}
use api_manager.World.Errors.{ApiFailure, api, index_out_of_range, panic, ok}
use api_manager.World.Monad.{ask_api, ◌>>=◌}

abbrev pub in_directory : (path file : String) → String
in_directory path file = path <> "/" <> file

abbrev pub parse_plain : String → Reply String Url
parse_plain s = done (record { scheme = "http"; host = "storageos" })

abbrev pub sample_session : Session
sample_session = record {
  initialized = true;
  traced = true;
  token = "old";
  open_bodies = 0;
  results = [];
}

abbrev sample_events : List Event
sample_events = tick ∷ reset_requested ∷ tick ∷ cancelled ∷ []

-- A cluster that refuses every renewal.
abbrev expired_cluster : Env
expired_cluster = record healthy_cluster {
  token_refreshed = λ h. failed (record { status = some 401; message = "expired" });
}

run_test :
    (refresh expired_cluster in_directory "/api" sample_session (tick ∷ cancelled ∷ []) []).0
    ≡ ok (
      record {
        initialized = true;
        traced = true;
        token = "new";
        open_bodies = 0;
        results =
            ("reset_api", none)
            ∷ ("refresh_token", some (api (record { status = some 401; message = "expired" })))
            ∷ [];
      },
      stopped,
    )
unfolding refresh cluster ◌>>=◌ ask_api reset_client read_creds_from_mounted_secret read
    authenticate
run_test = refl

refresh-Ensures_example :
    Ensures
      (SessionCall healthy_cluster in_directory "/api" "old")
      (λ (s', o). Moves healthy_cluster in_directory "/api" "old" s'.token)
      (refresh healthy_cluster in_directory "/api" sample_session sample_events)
refresh-Ensures_example =
    refresh-Ensures healthy_cluster in_directory "/api" sample_session sample_events

pub done_injective : {s t : String} → ◌≡◌ {A = Reply ApiFailure String} (done s) (done t) → s ≡ t
done_injective e = cc

pub old_nonempty : ◌≢◌ {A = String} "old" ""
unfolding String-discrete
old_nonempty = ==_apart "old" "" refl

new_nonempty : ◌≢◌ {A = String} "new" ""
unfolding String-discrete
new_nonempty = ==_apart "new" "" refl

sample_answers : AnswersTokens healthy_cluster
unfolding cluster
sample_answers = record {
  on_refresh = λ h header e. inr (subst (λ s. has_blank s ≡ true) (done_injective e) refl);
  on_login = λ h u p header e. inr (subst (λ s. has_blank s ≡ true) (done_injective e) refl);
}

refresh-Ends_example :
    Ends NoFault NoError
      (λ (s', o). o ≡ stopped)
      (refresh healthy_cluster in_directory "/api" sample_session sample_events)
refresh-Ends_example =
    refresh-Ends healthy_cluster sample_answers in_directory "/api" sample_session refl
      sample_events

resp_auth_token-panic_iff_example :
    (resp_auth_token "Basic" ≡ panic index_out_of_range)
    ↔ ((◌≢◌ {A = String} "Basic" "") × (has_blank "Basic" ≡ false))
resp_auth_token-panic_iff_example = resp_auth_token-panic_iff "Basic"
